-- ===== src/Windows/ServerInstance/Worker.antt =====
-- The loop of `server_instance_win::worker`.
use lib_streamlabs_ipc.Base.{
  ℕ, zero, suc, Bool, true, false, not, Option, none, some, List, [], ◌∷◌, if◌then◌else◌, Outcome,
  ok, throws, ◌>>=◌,
}
use lib_streamlabs_ipc.Bytes.{Bytes}
use lib_streamlabs_ipc.Message.Frame.{make_sendable}
use lib_streamlabs_ipc.Server.{Registry}
use lib_streamlabs_ipc.Os.{Error, is_error, is_success}
use lib_streamlabs_ipc.Os.AsyncOp.{AsyncOp}
use lib_streamlabs_ipc.Osx.Channel.{resize_bytes}
use lib_streamlabs_ipc.Windows.Utility.{ErrorCodes}
use lib_streamlabs_ipc.Windows.AsyncRequest.{due, result}
use lib_streamlabs_ipc.Windows.Socket.{PipeSystem, is_connected}
use lib_streamlabs_ipc.Windows.Client.{is_failure, is_disconnected, is_timed_out}
use lib_streamlabs_ipc.Windows.ServerInstance.{
  Handler, read_init, Slot, reading, writing, Instance, socket_read, socket_write,
  read_callback_init, run_handler,
}

-- What `os::waitable::wait` on an operation and `wait_any` on both return for a time in milliseconds,
-- before the callback runs, with the item that `wait_any` has found; and what a read that has completed
-- has put into its buffer.
pub record Waiting {ℓ} (W : Type ℓ) : Type ℓ where
  pub wait : Slot → ℕ → W → Error × W
  pub wait_any : Bool → ℕ → W → Error × Slot × W
  pub filled : Bytes → W → Bytes

abbrev pub is_some : Option (AsyncOp Handler) → Bool
is_some none = false
is_some (some op) = true

abbrev pub is_busy : Option (AsyncOp Handler) → Bool
is_busy none = false
is_busy (some op) = op.valid

-- The status of a call that starts to read or to write: whether the loop goes on.
unfoldable pub check_started {ℓ} :
    {W : Type ℓ} → Error → Instance → W → Outcome (Bool × Instance × W)
unfolding is_failure
check_started ec s w =
    if is_failure ec
    then (if is_disconnected ec then ok (false, s, w) else throws)
    else ok (true, s, w)

unfoldable pub written_front : Instance → List Bytes → Instance
written_front s rest = record s { write_waiting = false; write_queue = rest }

module _ {ℓ} {W : Type ℓ} (system : PipeSystem W) (error_codes : ErrorCodes) where
  -- Behind the write of the front of the queue. It has changed no other part of the queue.
  unfoldable pub pop_written : List Bytes → Error × Instance × W → Outcome (Bool × Instance × W)
  unfolding check_started written_front
  pop_written rest (ec, s, w) = do
    (more, s1, w1) ← check_started ec s w
    ok (more, if more then written_front s1 rest else s1, w1)

  -- The front of the queue is given its size in place.
  unfoldable pub write_front : Instance → List Bytes → W → Outcome (Bool × Instance × W)
  unfolding socket_write pop_written
  write_front s [] w = ok (true, s, w)
  write_front s (front ∷ rest) w = do
    fbuf ← make_sendable front
    r ← socket_write system error_codes fbuf (record s { write_queue = fbuf ∷ rest }) w
    pop_written rest r

  unfoldable pub ensure_write : Instance → W → Outcome (Bool × Instance × W)
  unfolding write_front
  ensure_write s w = if is_busy s.wop then ok (true, s, w) else write_front s s.write_queue w

module _ {ℓ} {W : Type ℓ} (parent : Registry W) (now : W → ℕ) (system : PipeSystem W)
    (error_codes : ErrorCodes) (waiting : Waiting W) where
  unfoldable pub ensure_read : Instance → W → Outcome (Bool × Instance × W)
  unfolding socket_read check_started read_callback_init
  ensure_read s w = if is_busy s.rop then ok (true, s, w) else do
    (ec, s', w') ←
        socket_read system error_codes (read_callback_init parent now system error_codes) read_init
          (record s { rbuf = resize_bytes 8 s.rbuf }) w
    check_started ec s' w'

  -- `call_callback` of an operation that has completed. Its callback finds the operation marked.
  unfoldable pub complete : Slot → Instance → W → Outcome (Instance × W)
  unfolding due run_handler result
  complete reading s w = elim s.rop [
    | none ↦ ok (s, w)
    | some op ↦
        let (status, n) = result system.overlapped error_codes w in
        run_handler parent now system error_codes (due op).0 status
          (record s { rop = some (due op).1; rbuf = waiting.filled s.rbuf w }) w
  ]
  complete writing s w = elim s.wop [
    | none ↦ ok (s, w)
    | some op ↦
        let (status, n) = result system.overlapped error_codes w in
        run_handler parent now system error_codes (due op).0 status
          (record s { wop = some (due op).1 }) w
  ]

  -- A null pointer is not waited for.
  unfoldable pub poll :
      Slot → Option (AsyncOp Handler) → Instance → W → Outcome (Bool × Instance × W)
  unfolding complete
  poll slot none s w = ok (false, s, w)
  poll slot (some op) s w =
      let (ec, w1) = waiting.wait slot 0 w in
      if is_success ec
      then (do (s2, w2) ← complete slot s w1; ok (true, s2, w2))
      else ok (false, s, w1)

  -- The status of `wait_any`: whether the loop goes on.
  unfoldable pub check_any : Error → Instance → W → Outcome (Bool × Instance × W)
  check_any ec s w =
      if is_timed_out ec
      then ok (true, s, w)
      else if is_disconnected ec
      then ok (false, s, w)
      else if is_error ec
      then throws
      else ok (true, s, w)

  unfoldable pub wait_both : Instance → W → Outcome (Bool × Instance × W)
  unfolding complete check_any
  wait_both s w =
      let (ec, slot, w1) = waiting.wait_any (is_some s.wop) 20 w in
      if is_success ec
      then (do (s2, w2) ← complete slot s w1; ok (true, s2, w2))
      else check_any ec s w1

  unfoldable pub poll_write :
      Option (AsyncOp Handler) → Instance → W → Outcome (Bool × Instance × W)
  unfolding poll wait_both
  poll_write wop s w = do
    (seen, s1, w1) ← poll writing wop s w
    if seen then ok (true, s1, w1) else wait_both s1 w1

  -- The operations as the array `waits` holds them.
  unfoldable pub wait_round : Instance → W → Outcome (Bool × Instance × W)
  unfolding poll poll_write
  wait_round s w = do
    (seen, s1, w1) ← poll reading s.rop s w
    if seen then ok (true, s1, w1) else poll_write s.wop s1 w1

  unfoldable pub write_and_wait : Instance → W → Outcome (Bool × Instance × W)
  unfolding ensure_write wait_round
  write_and_wait s w = do
    (more, s1, w1) ← ensure_write system error_codes s w
    if more then wait_round s1 w1 else ok (false, s1, w1)

  -- One round of the loop behind its head.
  unfoldable pub worker_round : Instance → W → Outcome (Bool × Instance × W)
  unfolding ensure_read write_and_wait
  worker_round s w = do
    (more, s1, w1) ← ensure_read s w
    if not more then ok (false, s1, w1) else write_and_wait s1 w1

  -- The head of the loop and the round.
  unfoldable pub worker_pass : Instance → W → Outcome (Bool × Instance × W)
  unfolding worker_round is_connected
  worker_pass s w =
      let (alive, socket) = is_connected system s.socket w in
      let s' = record s { socket = socket } in
      if s.stop_workers
      then ok (false, s, w)
      else if alive
      then worker_round s' w
      else ok (false, s', w)

  -- `worker`, up to so many passes: whether it would go on.
  unfoldable pub run_worker : ℕ → Instance → W → Outcome (Bool × Instance × W)
  unfolding worker_pass
  run_worker zero s w = ok (true, s, w)
  run_worker (suc n) s w = do
    (more, s1, w1) ← worker_pass s w
    let rest = run_worker n s1 w1
    if more then rest else ok (false, s1, w1)
