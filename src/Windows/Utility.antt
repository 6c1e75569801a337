-- ===== src/Windows/Utility.antt =====
-- `os::windows::utility` (source/windows/utility.cpp): the meaning of the system's error codes.
use lib_streamlabs_ipc.Base.{ℕ, if◌then◌else◌, ◌==◌}
use lib_streamlabs_ipc.Os.{
  Error, success, pending, disconnected, more_data, connected, timed_out, too_much_data, error,
}

-- The codes of <winerror.h>, in the order of the `case`s.
pub record ErrorCodes : Type 0 where
  pub error_success : ℕ
  pub error_io_pending : ℕ
  pub error_broken_pipe : ℕ
  pub error_more_data : ℕ
  pub error_pipe_connected : ℕ
  pub error_timeout : ℕ
  pub error_too_many_posts : ℕ
  pub error_no_data : ℕ

unfoldable pub translate_error : ErrorCodes → ℕ → Error
translate_error codes c =
    if c == codes.error_success
    then success
    else if c == codes.error_io_pending
    then pending
    else if c == codes.error_broken_pipe
    then disconnected
    else if c == codes.error_more_data
    then more_data
    else if c == codes.error_pipe_connected
    then connected
    else if c == codes.error_timeout
    then timed_out
    else if c == codes.error_too_many_posts
    then too_much_data
    else if c == codes.error_no_data
    then disconnected
    else error
