-- ===== src/Os.antt =====
-- include/error.hpp, and what the platform code asks of a socket.
pub mod AsyncOp
use lib_streamlabs_ipc.Base.{ℕ, Bool, true, false, ◌||◌, ◌&&◌, not}
use lib_streamlabs_ipc.Bytes.{Bytes}

-- `os::error`. `Ok` and `Success` are one number.
pub data Error : Type 0 where
  unknown success error invalid_buffer buffer_too_small buffer_too_large more_data timed_out : Error
  disconnected too_much_data connected pending buffer_overflow : Error

unfoldable pub is_success : Error → Bool
is_success success = true
is_success _ = false

-- `ec == Success || ec == MoreData`
unfoldable pub has_data : Error → Bool
has_data success = true
has_data more_data = true
has_data _ = false

unfoldable pub is_error : Error → Bool
is_error error = true
is_error _ = false
