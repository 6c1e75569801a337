-- ===== src/Windows/Client/Worker.antt =====
-- The worker thread of the Windows client: `client_win::worker`.
use lib_streamlabs_ipc.Base.{
  ℕ, Bool, true, false, ◌&&◌, not, Option, none, some, [], ◌∷◌, if◌then◌else◌, Outcome, ok, throws,
  undefined, ◌>>=◌,
}
use lib_streamlabs_ipc.Map.{Map, int64_key}
use lib_streamlabs_ipc.Os.{Error, is_success, is_error}
use lib_streamlabs_ipc.Os.AsyncOp.{AsyncOp}
use lib_streamlabs_ipc.Osx.Channel.{resize_bytes}
use lib_streamlabs_ipc.Osx.Client.{CallReturn}
use lib_streamlabs_ipc.Windows.Utility.{ErrorCodes}
use lib_streamlabs_ipc.Windows.AsyncRequest.{due, result}
use lib_streamlabs_ipc.Windows.Socket.{PipeSystem, is_connected}
use lib_streamlabs_ipc.Windows.Client.{
  Client, Handler, init, Waiting, is_failure, is_disconnected, is_timed_out, lost_values,
  read_callback_init, run_handler, socket_read,
}

module _ {ℓ} {W : Type ℓ} where
  -- The callbacks that are left when the worker ends, in the order of their numbers.
  unfoldable pub call_lost : Map ℕ (CallReturn W) → W → W
  call_lost [] w = w
  call_lost ((id, cb) ∷ rest) w = call_lost rest (cb lost_values w)

module _ {ℓ} {W : Type ℓ} (system : PipeSystem W) (error_codes : ErrorCodes)
    (waiting : Waiting W) where
  -- `m_rop->wait(…)`, with the callback that it runs.
  unfoldable pub wait_rop : ℕ → Client W → W → Outcome (Error × Client W × W)
  unfolding due run_handler result
  wait_rop ms s w = elim s.rop [
    | none ↦ undefined
    | some op ↦
        let (ec, w1) = waiting.wait ms w in
        if is_success ec
        then (do
          let (status, n) = result system.overlapped error_codes w1
          let s1 = record s { buf = waiting.filled s.buf w1; rop = some (due op).1 }
          (s2, w2) ← run_handler system error_codes (due op).0 status s1 w1
          ok (ec, s2, w2))
        else ok (ec, s, w1)
  ]

  abbrev pub needs_read : Option (AsyncOp Handler) → Bool
  needs_read none = true
  needs_read (some op) = not op.valid

  -- What the loop does with the status of its read: whether it goes on.
  unfoldable pub check_header : Error → Client W → W → Outcome (Bool × Client W × W)
  unfolding is_failure
  check_header ec s w =
      if is_failure ec
      then (if is_disconnected ec then ok (false, s, w) else throws)
      else ok (true, s, w)

  -- Whether the loop goes on behind the read for a header.
  unfoldable pub ensure_read : Client W → W → Outcome (Bool × Client W × W)
  unfolding socket_read check_header read_callback_init
  ensure_read s w =
      if needs_read s.rop
      then (do
        (ec, s', w') ←
            socket_read system error_codes (read_callback_init system error_codes) init
              (record s { buf = resize_bytes 8 s.buf }) w
        check_header ec s' w')
      else ok (true, s, w)

  unfoldable pub check_wait : Error → Client W → W → Outcome (Bool × Client W × W)
  check_wait ec s w =
      if is_timed_out ec
      then ok (true, s, w)
      else if is_disconnected ec
      then ok (false, s, w)
      else if is_error ec
      then throws
      else ok (true, s, w)

  unfoldable pub wait_again : Client W → W → Outcome (Bool × Client W × W)
  unfolding wait_rop check_wait
  wait_again s w = do (ec, s', w') ← wait_rop 20 s w; check_wait ec s' w'

  unfoldable pub wait_first : Client W → W → Outcome (Bool × Client W × W)
  unfolding wait_rop wait_again
  wait_first s w = do
    (ec, s', w') ← wait_rop 0 s w
    if is_success ec then ok (true, s', w') else wait_again s' w'

  -- One round of the loop of `worker`.
  unfoldable pub worker_round : Client W → W → Outcome (Bool × Client W × W)
  unfolding ensure_read wait_first
  worker_round s w = do
    (more, s1, w1) ← ensure_read s w
    if not more then ok (false, s1, w1) else wait_first s1 w1

  unfoldable pub check_socket : Client W → W → Outcome (Bool × Client W)
  unfolding is_connected
  check_socket s w = elim s.socket [
    | none ↦ undefined
    | some socket ↦
        let (b, socket') = is_connected system socket w in
        ok (b, record s { socket = some socket' })
  ]

  -- The head of the loop and the round behind it.
  unfoldable pub worker_pass : Client W → W → Outcome (Bool × Client W × W)
  unfolding check_socket worker_round
  worker_pass s w = do
    (alive, s') ← check_socket s w
    if alive && not s'.stop then worker_round s' w else ok (false, s', w)

  -- What `worker` does behind its loop.
  unfoldable pub worker_end : Option (W → W) → Client W → W → Outcome (Client W × W)
  unfolding call_lost check_socket
  worker_end on_disconnect s w = do
    let w1 = call_lost s.callbacks w
    (alive, s') ← check_socket (record s { callbacks = [] }) w1
    ok (s', if alive then w1 else elim on_disconnect [ none ↦ w1 | some f ↦ f w1 ])
