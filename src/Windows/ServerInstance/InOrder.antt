-- ===== src/Windows/ServerInstance/InOrder.antt =====
-- The worker of a Windows instance (source/windows/ipc-server-instance-win.cpp) sends the replies in the
-- order in which they have been queued.
use lib_streamlabs_ipc.Base.{
  zero, suc, refl, inl, inr, Bool-cases, Ensures, ℕ, Bool, true, false, not, Option, none, some,
  List, if◌then◌else◌, Outcome, ok, throws, ◌>>=◌,
}
use lib_streamlabs_ipc.Bytes.{Bytes}
use lib_streamlabs_ipc.Server.{Registry}
use lib_streamlabs_ipc.Os.{Error, is_error, is_success}
use lib_streamlabs_ipc.Os.AsyncOp.{AsyncOp}
use lib_streamlabs_ipc.Osx.Channel.{resize_bytes}
use lib_streamlabs_ipc.Windows.Utility.{ErrorCodes}
use lib_streamlabs_ipc.Windows.Socket.{PipeSystem, is_connected}
use lib_streamlabs_ipc.Windows.Client.{is_disconnected, is_timed_out}
use lib_streamlabs_ipc.Windows.ServerInstance.{
  Handler, read_init, Slot, reading, writing, Instance, socket_read, read_callback_init,
}
use lib_streamlabs_ipc.Windows.ServerInstance.Worker.{
  Waiting, is_busy, is_some, check_started, write_front, ensure_write, ensure_read, poll,
  poll_write, check_any, wait_both, wait_round, write_and_wait, worker_round, worker_pass,
  run_worker,
}
use lib_streamlabs_ipc.Windows.ServerInstance.Stream.{
  Grows, stream, TakesFrames, Forward, still, kept_by_if, kept_by_bind, quiet_before,
}
use lib_streamlabs_ipc.Windows.ServerInstance.Order.{
  Flagged, flag, socket_read-Forward, check_started-Forward, write_front-Forward,
}
use lib_streamlabs_ipc.Windows.ServerInstance.Handled.{read_callback_init-Forward, served}

module _ {ℓ} {W : Type ℓ} (sent : W → List Bytes) (parent : Registry W) (now : W → ℕ)
    (system : PipeSystem W) (error_codes : ErrorCodes) (waiting : Waiting W)
    (takes : TakesFrames sent parent system error_codes waiting) where
  poll-Forward :
      (slot : Slot) (op : Option (AsyncOp Handler))
      → Flagged sent parent now system error_codes waiting takes
          (poll parent now system error_codes waiting slot op)
  unfolding poll
  poll-Forward slot none s w = flag sent parent now system error_codes waiting takes false s w
  poll-Forward slot (some op) s w = elim (Bool-cases (is_success (waiting.wait slot 0 w).0)) [
    | inl e ↦
        rw (poll, e)
          (served sent parent now system error_codes waiting takes slot s w
            (waiting.wait slot 0 w).1 (takes.wait slot 0 w))
    | inr e ↦ rw (poll, e) (still sent s s w (waiting.wait slot 0 w).1 refl (takes.wait slot 0 w))
  ]

  check_any-Forward :
      (ec : Error)
      → Flagged sent parent now system error_codes waiting takes
          (check_any parent now system error_codes waiting ec)
  unfolding check_any
  check_any-Forward ec =
      kept_by_if sent (is_timed_out ec) (λ p. (p.1, p.2)) (λ s w. ok (true, s, w))
        (λ s w.
          if is_disconnected ec
          then ok (false, s, w)
          else if is_error ec
          then throws
          else ok (true, s, w))
        (flag sent parent now system error_codes waiting takes true)
        (kept_by_if sent (is_disconnected ec) (λ p. (p.1, p.2)) (λ s w. ok (false, s, w))
          (λ s w. if is_error ec then throws else ok (true, s, w))
          (flag sent parent now system error_codes waiting takes false)
          (kept_by_if sent (is_error ec) (λ p. (p.1, p.2)) (λ s w. throws) (λ s w. ok (true, s, w))
            (λ s w. tt) (flag sent parent now system error_codes waiting takes true)))

  wait_both-Forward :
      Flagged sent parent now system error_codes waiting takes
        (wait_both parent now system error_codes waiting)
  unfolding wait_both
  wait_both-Forward s w =
      let both = is_some s.wop in
      let ec = (waiting.wait_any both 20 w).0 in
      let slot = (waiting.wait_any both 20 w).1 in
      let v = (waiting.wait_any both 20 w).2 in
      elim (Bool-cases (is_success ec)) [
        | inl e ↦
            rw (wait_both, e)
              (served sent parent now system error_codes waiting takes slot s w v
                (takes.wait_any both 20 w))
        | inr e ↦
            rw (wait_both, e)
              (quiet_before sent (λ p. (p.1, p.2)) s s w v
                (check_any parent now system error_codes waiting ec s v) refl
                (takes.wait_any both 20 w) (check_any-Forward ec s v))
      ]

  poll_write-Forward :
      (wop : Option (AsyncOp Handler))
      → Flagged sent parent now system error_codes waiting takes
          (poll_write parent now system error_codes waiting wop)
  unfolding poll_write
  poll_write-Forward wop =
      kept_by_bind sent (λ p. (p.1, p.2)) (λ p. (p.1, p.2))
        (poll parent now system error_codes waiting writing wop)
        (λ r.
          if r.0
          then ok (true, r.1, r.2)
          else wait_both parent now system error_codes waiting r.1 r.2)
        (poll-Forward writing wop)
        (λ r.
          kept_by_if sent r.0 (λ p. (p.1, p.2)) (λ s w. ok (true, s, w))
            (wait_both parent now system error_codes waiting)
            (flag sent parent now system error_codes waiting takes true) wait_both-Forward r.1 r.2)

  wait_round-Forward :
      Flagged sent parent now system error_codes waiting takes
        (wait_round parent now system error_codes waiting)
  unfolding wait_round
  wait_round-Forward s w =
      kept_by_bind sent (λ p. (p.1, p.2)) (λ p. (p.1, p.2))
        (poll parent now system error_codes waiting reading s.rop)
        (λ r.
          if r.0
          then ok (true, r.1, r.2)
          else poll_write parent now system error_codes waiting s.wop r.1 r.2)
        (poll-Forward reading s.rop)
        (λ r.
          kept_by_if sent r.0 (λ p. (p.1, p.2)) (λ t v. ok (true, t, v))
            (poll_write parent now system error_codes waiting s.wop)
            (flag sent parent now system error_codes waiting takes true) (poll_write-Forward s.wop)
            r.1 r.2)
        s w

  ensure_write-Forward :
      Flagged sent parent now system error_codes waiting takes (ensure_write system error_codes)
  unfolding ensure_write
  ensure_write-Forward s w =
      kept_by_if sent (is_busy s.wop) (λ p. (p.1, p.2)) (λ t v. ok (true, t, v))
        (λ t v. write_front system error_codes t t.write_queue v)
        (flag sent parent now system error_codes waiting takes true)
        (λ t v.
          write_front-Forward sent parent now system error_codes waiting takes t.write_queue t v
            refl)
        s w

  write_and_wait-Forward :
      Flagged sent parent now system error_codes waiting takes
        (write_and_wait parent now system error_codes waiting)
  unfolding write_and_wait
  write_and_wait-Forward =
      kept_by_bind sent (λ p. (p.1, p.2)) (λ p. (p.1, p.2)) (ensure_write system error_codes)
        (λ r.
          if r.0
          then wait_round parent now system error_codes waiting r.1 r.2
          else ok (false, r.1, r.2))
        ensure_write-Forward
        (λ r.
          kept_by_if sent r.0 (λ p. (p.1, p.2)) (wait_round parent now system error_codes waiting)
            (λ s w. ok (false, s, w)) wait_round-Forward
            (flag sent parent now system error_codes waiting takes false) r.1 r.2)

  ensure_read-Forward :
      Flagged sent parent now system error_codes waiting takes
        (ensure_read parent now system error_codes waiting)
  unfolding ensure_read
  ensure_read-Forward s w =
      let run = read_callback_init parent now system error_codes in
      kept_by_if sent (is_busy s.rop) (λ p. (p.1, p.2)) (λ t v. ok (true, t, v))
        (λ t v.
          socket_read system error_codes run read_init (record t { rbuf = resize_bytes 8 t.rbuf }) v
          >>= (λ r. check_started r.0 r.1 r.2))
        (flag sent parent now system error_codes waiting takes true)
        (λ t.
          kept_by_bind sent (λ p. (p.1, p.2)) (λ p. (p.1, p.2))
            (socket_read system error_codes run read_init) (λ r. check_started r.0 r.1 r.2)
            (socket_read-Forward sent parent now system error_codes waiting takes run read_init
              (read_callback_init-Forward sent parent now system error_codes waiting takes))
            (λ r.
              check_started-Forward sent parent now system error_codes waiting takes r.0 r.1 r.2)
            (record t { rbuf = resize_bytes 8 t.rbuf }))
        s w

  worker_round-Forward :
      Flagged sent parent now system error_codes waiting takes
        (worker_round parent now system error_codes waiting)
  unfolding worker_round
  worker_round-Forward =
      kept_by_bind sent (λ p. (p.1, p.2)) (λ p. (p.1, p.2))
        (ensure_read parent now system error_codes waiting)
        (λ r.
          if not r.0
          then ok (false, r.1, r.2)
          else write_and_wait parent now system error_codes waiting r.1 r.2)
        ensure_read-Forward
        (λ r.
          kept_by_if sent (not r.0) (λ p. (p.1, p.2)) (λ s w. ok (false, s, w))
            (write_and_wait parent now system error_codes waiting)
            (flag sent parent now system error_codes waiting takes false) write_and_wait-Forward r.1
            r.2)

  either :
      (b : Bool) (s : Instance) (w : W) (x y : Outcome (Bool × Instance × W))
      → Ensures (Forward sent (λ p. (p.1, p.2)) s w) x
      → Ensures (Forward sent (λ p. (p.1, p.2)) s w) y
      → Ensures (Forward sent (λ p. (p.1, p.2)) s w) (if b then x else y)
  either true s w x y h k = h
  either false s w x y h k = k

  worker_pass-Forward :
      Flagged sent parent now system error_codes waiting takes
        (worker_pass parent now system error_codes waiting)
  unfolding worker_pass
  worker_pass-Forward s w =
      let alive = (is_connected system s.socket w).0 in
      let t = record s { socket = (is_connected system s.socket w).1 } in
      either s.stop_workers s w (ok (false, s, w))
        (if alive then worker_round parent now system error_codes waiting t w else ok (false, t, w))
        (flag sent parent now system error_codes waiting takes false s w)
        (either alive s w (worker_round parent now system error_codes waiting t w)
          (ok (false, t, w)) (worker_round-Forward t w)
          (flag sent parent now system error_codes waiting takes false t w))

  -- After any number of passes of the worker that return, no reply is lost and no order has changed: the
  -- messages that it has sent, with the queue behind them, all without their headers, are those of before,
  -- perhaps with further ones at the end. The pipe takes a frame just when a write starts, and nothing else
  -- writes to it.
  pub run_worker-Grows :
      (n : ℕ) (s : Instance) (w : W)
      → Ensures
          (λ r. Grows (stream sent s w) (stream sent r.1 r.2))
          (run_worker parent now system error_codes waiting n s w)
  unfolding run_worker
  run_worker-Grows zero s w = flag sent parent now system error_codes waiting takes true s w
  run_worker-Grows (suc n) s w =
      kept_by_bind sent (λ p. (p.1, p.2)) (λ p. (p.1, p.2))
        (worker_pass parent now system error_codes waiting)
        (λ r.
          if r.0
          then run_worker parent now system error_codes waiting n r.1 r.2
          else ok (false, r.1, r.2))
        worker_pass-Forward
        (λ r.
          either r.0 r.1 r.2 (run_worker parent now system error_codes waiting n r.1 r.2)
            (ok (false, r.1, r.2)) (run_worker-Grows n r.1 r.2)
            (flag sent parent now system error_codes waiting takes false r.1 r.2))
        s w
