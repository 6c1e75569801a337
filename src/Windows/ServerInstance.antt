-- ===== src/Windows/ServerInstance.antt =====
-- `ipc::server_instance_win` (source/windows/ipc-server-instance-win.cpp). One worker thread reads the
-- requests and writes the replies; a second thread watches the time that a reply takes. The functions
-- that the code binds as callbacks are named by `Handler`, the two operations by `Slot`.
pub mod Worker
pub mod Stream
pub mod Order
pub mod Handled
pub mod InOrder
pub mod Answers
use lib_streamlabs_ipc.Base.{
  ℕ, ◌+◌, ◌-◌, ◌*◌, Bool, true, false, ◌&&◌, not, Option, none, some, List, [], ◌∷◌, ◌++◌, length,
  replicate, if◌then◌else◌, ltb, ◌==◌, Outcome, ok, throws, aborts, undefined, ◌>>=◌,
}
use lib_streamlabs_ipc.Bytes.{Bytes}
use lib_streamlabs_ipc.Message.Call
use lib_streamlabs_ipc.Message.Call.{FunctionCall, new_call}
use lib_streamlabs_ipc.Message.Reply
use lib_streamlabs_ipc.Message.Frame.{make_sendable, read_size}
use lib_streamlabs_ipc.Server.{Registry, client_call_function}
use lib_streamlabs_ipc.Os.{Error, has_data, is_success}
use lib_streamlabs_ipc.Os.AsyncOp.{AsyncOp}
use lib_streamlabs_ipc.Osx.Channel.{resize_bytes}
use lib_streamlabs_ipc.Osx.ServerInstance.{is_empty, reply_of}
use lib_streamlabs_ipc.Windows.Utility.{ErrorCodes}
use lib_streamlabs_ipc.Windows.AsyncRequest.{invalidate, cancel}
use lib_streamlabs_ipc.Windows.Socket
use lib_streamlabs_ipc.Windows.Socket.{PipeSystem, Started}
use lib_streamlabs_ipc.Windows.Client.{is_failure, is_disconnected}

-- `read_callback_init`, `read_callback_msg` and `write_callback`
pub data Handler : Type 0 where
  read_init read_msg written : Handler

-- `m_rop` and `m_wop`
pub data Slot : Type 0 where
  reading writing : Slot

pub record Instance : Type 0 where
  pub stop_workers : Bool
  pub client_id : ℕ
  pub socket : Socket.Socket
  pub rop : Option (AsyncOp Handler)
  pub wop : Option (AsyncOp Handler)
  pub rbuf : Bytes
  pub write_queue : List Bytes
  pub write_waiting : Bool
  pub last_write_time : ℕ

unfoldable pub new_instance : Socket.Socket → Instance
new_instance socket = record {
  stop_workers = false;
  client_id = 0;
  socket = socket;
  rop = none;
  wop = none;
  rbuf = [];
  write_queue = [];
  write_waiting = false;
  last_write_time = 0;
}

unfoldable pub stop_instance : Instance → Instance
stop_instance s = record s { stop_workers = true }

-- A round of `watchdog_callbacks`, at a time in nanoseconds.
unfoldable pub watchdog_round : ℕ → ℕ → Instance → Outcome (Unit {0})
watchdog_round call_timeout now s =
    if s.write_waiting && ltb (call_timeout * 1000000000) (now - s.last_write_time)
    then throws
    else ok tt

unfoldable pub invalidate_rop : Instance → Outcome Instance
unfolding invalidate
invalidate_rop s = elim s.rop [
  | none ↦ undefined
  | some op ↦ ok (record s { rop = some (invalidate op) })
]

unfoldable pub write_callback : Instance → Outcome Instance
unfolding invalidate invalidate_rop
write_callback s = elim s.wop [
  | none ↦ undefined
  | some op ↦ invalidate_rop (record s { wop = some (invalidate op) })
]

unfoldable pub read_callback_msg_write : Instance → Bytes → Outcome Instance
unfolding invalidate_rop
read_callback_msg_write s write_buffer =
    let emptied = invalidate_rop s in
    if not (length write_buffer == 0)
    then ok (record s { write_queue = s.write_queue ++ (write_buffer ∷ []) })
    else emptied

module _ {ℓ} {W : Type ℓ} (parent : Registry W) (now : W → ℕ) where
  -- The call of a message and the reply that it queues.
  unfoldable pub answer : Instance → FunctionCall → W → Outcome (Instance × W)
  unfolding reply_of read_callback_msg_write
  answer s msg w = do
    let r =
        client_call_function parent s.client_id msg.class_name.value_str msg.function_name.value_str
          msg.arguments [] [] w
    let fnc_reply = reply_of msg r
    (write_buffer, n) ← Reply.serialize fnc_reply (replicate (Reply.size fnc_reply + 8) 0) 8
    s' ← read_callback_msg_write s write_buffer
    ok (s', r.world)

  unfoldable pub read_callback_msg : Error → Instance → W → Outcome (Instance × W)
  unfolding answer
  read_callback_msg ec s w =
      let s0 = record s { write_waiting = true; last_write_time = now w } in
      if not (is_success ec)
      then throws
      else do (msg, n) ← Call.deserialize new_call s0.rbuf 0; answer s0 msg w

module _ {ℓ} {W : Type ℓ} (system : PipeSystem W) (error_codes : ErrorCodes) where
  abbrev pub cancel_op : Option (AsyncOp Handler) → W → W
  cancel_op none w = w
  cancel_op (some op) w = (cancel system.overlapped op w).1

  -- What a read or a write of the socket leaves behind in its operation; `run` is the callback of one
  -- that fails to start.
  unfoldable pub settle :
      Slot
      → (Error → Instance → W → Outcome (Instance × W))
      → Instance
      → Started Handler W
      → Outcome (Error × Instance × W)
  settle reading run s r =
      let s1 = record s { socket = r.socket; rop = r.op } in
      elim r.callback [
        | none ↦ ok (r.status, s1, r.world)
        | some cb ↦ (do (s2, w2) ← run r.status s1 r.world; ok (r.status, s2, cancel_op s2.rop w2))
      ]
  settle writing run s r =
      let s1 = record s { socket = r.socket; wop = r.op } in
      elim r.callback [
        | none ↦ ok (r.status, s1, r.world)
        | some cb ↦ (do (s2, w2) ← run r.status s1 r.world; ok (r.status, s2, cancel_op s2.wop w2))
      ]

  unfoldable pub socket_read :
      (Error → Instance → W → Outcome (Instance × W))
      → Handler
      → Instance
      → W
      → Outcome (Error × Instance × W)
  unfolding settle
  socket_read run handler s w = do
    r ← Socket.read system error_codes (length s.rbuf) s.rop (some handler) s.socket w
    settle reading run s r

  -- `run` is `write_callback`.
  unfoldable pub socket_write : Bytes → Instance → W → Outcome (Error × Instance × W)
  unfolding settle write_callback
  socket_write buffer s w = do
    r ← Socket.write system error_codes buffer s.wop (some written) s.socket w
    settle writing (λ ec s1 w1. write_callback s1 >>= (λ s2. ok (s2, w1))) s r

module _ {ℓ} {W : Type ℓ} (parent : Registry W) (now : W → ℕ) (system : PipeSystem W)
    (error_codes : ErrorCodes) where
  -- What `read_callback_init` does once its read for the body has returned.
  unfoldable pub check_body : Error × Instance × W → Outcome (Instance × W)
  unfolding is_failure
  check_body (ec, s, w) =
      if is_failure ec then (if is_disconnected ec then ok (s, w) else throws) else ok (s, w)

  unfoldable pub read_body : ℕ → Instance → W → Outcome (Instance × W)
  unfolding socket_read check_body read_callback_msg
  read_body n_size s w = do
    r ←
        socket_read system error_codes (read_callback_msg parent now) read_msg
          (record s { rbuf = resize_bytes n_size s.rbuf }) w
    check_body r

  unfoldable pub read_sized : Instance → W → Outcome (Instance × W)
  unfolding read_body
  read_sized s w = do
    n_size ← read_size s.rbuf
    if n_size == 0 then ok (s, w) else read_body n_size s w

  unfoldable pub read_callback_init : Error → Instance → W → Outcome (Instance × W)
  unfolding read_sized invalidate_rop
  read_callback_init ec s w = do
    s' ← invalidate_rop s
    if has_data ec then read_sized s' w else ok (s', w)

  unfoldable pub run_handler : Option Handler → Error → Instance → W → Outcome (Instance × W)
  unfolding read_callback_init read_callback_msg write_callback
  run_handler none ec s w = ok (s, w)
  run_handler (some read_init) ec s w = read_callback_init ec s w
  run_handler (some read_msg) ec s w = read_callback_msg parent now ec s w
  run_handler (some written) ec s w = do s' ← write_callback s; ok (s', w)
