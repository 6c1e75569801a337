-- ===== src/Windows/Client.antt =====
-- `ipc::client_win` (source/windows/ipc-client-win.cpp). A worker thread reads the replies; `call` is
-- split where it waits, since the worker runs meanwhile. The functions that the code binds as
-- callbacks of a read are named by `Handler`.
pub mod Worker
pub mod Calls
pub mod Once
pub mod Quiet
pub mod Reading
pub mod Rounds
pub mod Drain
pub mod Schedule
pub mod Sound
pub mod NeverTwice
pub mod Replies
pub mod Delivery
use lib_streamlabs_ipc.Base.{
  ℕ, zero, suc, ◌+◌, ◌%◌, ◌^◌, Bool, true, false, ◌||◌, not, Option, none, some, List, [], ◌∷◌,
  length, codes, if◌then◌else◌, ◌==◌, Outcome, ok, throws, undefined, ◌>>=◌,
}
use lib_streamlabs_ipc.Bytes.{Bytes}
use lib_streamlabs_ipc.Map.{Map, find, insert, erase, contains, int64_key}
use lib_streamlabs_ipc.Value.{Value, null, ui64}
use lib_streamlabs_ipc.Message.Reply
use lib_streamlabs_ipc.Message.Reply.{FunctionReply, new_reply}
use lib_streamlabs_ipc.Message.Frame.{read_size}
use lib_streamlabs_ipc.Os.{
  Error, success, pending, timed_out, disconnected, error, has_data, is_success, is_error,
}
use lib_streamlabs_ipc.Os.AsyncOp.{AsyncOp}
use lib_streamlabs_ipc.Osx.Channel.{resize_bytes}
use lib_streamlabs_ipc.Osx.Client.{CallReturn, reply_values, call_message, call_frame}
use lib_streamlabs_ipc.Windows.Utility.{ErrorCodes}
use lib_streamlabs_ipc.Windows.AsyncRequest.{is_valid, invalidate, due, cancel, result}
use lib_streamlabs_ipc.Windows.Socket
use lib_streamlabs_ipc.Windows.Socket.{PipeSystem, Started, is_connected}

-- `read_callback_init` or `read_callback_msg`
pub data Handler : Type 0 where
  init msg : Handler

-- What `os::waitable::wait` returns for a time in milliseconds, before it has run the callback; and
-- what a read that has completed has put into its buffer.
pub record Waiting {ℓ} (W : Type ℓ) : Type ℓ where
  pub wait : ℕ → W → Error × W
  pub filled : Bytes → W → Bytes

pub record Client {ℓ} (W : Type ℓ) : Type ℓ where
  pub socket : Option Socket.Socket
  pub rop : Option (AsyncOp Handler)
  pub buf : Bytes
  pub callbacks : Map ℕ (CallReturn W)
  pub stop : Bool

-- `ec != Pending && ec != Success`
unfoldable pub is_failure : Error → Bool
is_failure pending = false
is_failure success = false
is_failure _ = true

abbrev pub is_disconnected : Error → Bool
is_disconnected disconnected = true
is_disconnected _ = false

abbrev pub is_timed_out : Error → Bool
is_timed_out timed_out = true
is_timed_out _ = false

unfoldable pub lost_values : List Value
lost_values =
    record {
      type = null;
      value_union = [];
      value_str = codes "Lost IPC Connection";
      value_bin = [];
    }
    ∷ []

module _ {ℓ} {W : Type ℓ} where
  unfoldable pub cancel_callback : Client W → ℕ → Client W × Bool
  cancel_callback s id = (record s { callbacks = erase id s.callbacks }, contains id s.callbacks)

  unfoldable pub deliver : Client W → FunctionReply → W → Client W × W
  unfolding reply_values
  deliver s r w = elim (find (ui64 r.uid) s.callbacks) [
    | none ↦ (s, w)
    | some cb ↦ (record s { callbacks = erase (ui64 r.uid) s.callbacks }, cb (reply_values r) w)
  ]

  -- `m_rop->invalidate()`
  unfoldable pub invalidate_rop : Client W → Outcome (Client W)
  unfolding invalidate
  invalidate_rop s = elim s.rop [
    | none ↦ undefined
    | some op ↦ ok (record s { rop = some (invalidate op) })
  ]

  -- The status is not looked at.
  unfoldable pub read_callback_msg : Client W → W → Outcome (Client W × W)
  unfolding deliver invalidate_rop
  read_callback_msg s w = do
    s' ← invalidate_rop s
    (r, n) ← Reply.deserialize new_reply s'.buf 0
    ok (deliver s' r w)

module _ {ℓ} {W : Type ℓ} (system : PipeSystem W) (error_codes : ErrorCodes) where
  abbrev pub cancel_rop : Option (AsyncOp Handler) → W → W
  cancel_rop none w = w
  cancel_rop (some op) w = (cancel system.overlapped op w).1

  -- `m_socket->read` into the whole buffer. `run` is the callback that it is given, for a read that
  -- fails to start.
  unfoldable pub socket_read :
      (Error → Client W → W → Outcome (Client W × W))
      → Handler
      → Client W
      → W
      → Outcome (Error × Client W × W)
  socket_read run handler s w = elim s.socket [
    | none ↦ undefined
    | some socket ↦ (do
      r ← Socket.read system error_codes (length s.buf) s.rop (some handler) socket w
      let s1 = record s { socket = some r.socket; rop = r.op }
      elim r.callback [
        | none ↦ ok (r.status, s1, r.world)
        | some cb ↦ (do (s2, w2) ← run r.status s1 r.world; ok (r.status, s2, cancel_rop s2.rop w2))
      ])
  ]

  -- What `read_callback_init` does once its read for the body has returned.
  unfoldable pub check_body : Error × Client W × W → Outcome (Client W × W)
  unfolding is_failure
  check_body (ec, s, w) =
      if is_failure ec then (if is_disconnected ec then ok (s, w) else throws) else ok (s, w)

  unfoldable pub read_body : Client W → ℕ → W → Outcome (Client W × W)
  unfolding socket_read check_body read_callback_msg
  read_body s n_size w = do
    r ←
        socket_read (λ ec s1 w1. read_callback_msg s1 w1) msg
          (record s { buf = resize_bytes n_size s.buf }) w
    check_body r

  unfoldable pub read_sized : Client W → W → Outcome (Client W × W)
  unfolding read_body
  read_sized s w = do
    n_size ← read_size s.buf
    if n_size == 0 then ok (s, w) else read_body s n_size w

  unfoldable pub read_callback_init : Error → Client W → W → Outcome (Client W × W)
  unfolding read_sized invalidate_rop
  read_callback_init ec s w = do
    s' ← invalidate_rop s
    if has_data ec then read_sized s' w else ok (s', w)

  unfoldable pub run_handler : Option Handler → Error → Client W → W → Outcome (Client W × W)
  unfolding read_callback_init read_callback_msg
  run_handler none ec s w = ok (s, w)
  run_handler (some init) ec s w = read_callback_init ec s w
  run_handler (some msg) ec s w = read_callback_msg s w
