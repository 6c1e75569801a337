-- ===== src/Windows/Client/Rounds.antt =====
-- The rounds of the worker of the Windows client (source/windows/ipc-client-win.cpp) keep the map and
-- the log `IsFine`.
use lib_streamlabs_ipc.Base.{
  ℕ, ◌≡◌, refl, inl, inr, Bool, true, false, not, some, List, arith, if◌then◌else◌, Bool-cases,
  Option-cases, Outcome, ok, throws, ◌>>=◌, Ensures, Ensures-mono, ◌&&◌,
}
use lib_streamlabs_ipc.Map.{int64_key}
use lib_streamlabs_ipc.Os.{Error, is_success, is_error}
use lib_streamlabs_ipc.Os.AsyncOp.{AsyncOp}
use lib_streamlabs_ipc.Osx.Channel.{resize_bytes}
use lib_streamlabs_ipc.Windows.Utility.{ErrorCodes}
use lib_streamlabs_ipc.Windows.AsyncRequest.{due, result}
use lib_streamlabs_ipc.Windows.Socket.{PipeSystem}
use lib_streamlabs_ipc.Windows.Client.{
  Client, Handler, Waiting, init, socket_read, read_callback_init, run_handler, is_failure,
  is_disconnected, is_timed_out,
}
use lib_streamlabs_ipc.Windows.Client.Worker.{
  wait_rop, needs_read, check_header, ensure_read, check_wait, wait_again, wait_first, worker_round,
  check_socket, worker_pass,
}
use lib_streamlabs_ipc.Windows.Client.Quiet.{IsQuiet, quiet_before, same-IsFine, IsFine-bind}
use lib_streamlabs_ipc.Windows.Client.Reading.{
  Keeps, kept_by_if, kept_by_bind, run_handler-IsFine, socket_read-IsFine,
  read_callback_init-IsFine,
}
use lib_streamlabs_ipc.Windows.Client.Once.{IsFine}

module _ {ℓ} {W : Type ℓ} (system : PipeSystem W) (error_codes : ErrorCodes)
    (waiting : Waiting W) where
  pub check_socket-kept :
      (s : Client W) (w : W)
      → Ensures (λ r. r.1.callbacks ≡ s.callbacks) (check_socket system error_codes waiting s w)
  unfolding check_socket
  check_socket-kept s w = elim (Option-cases s.socket) [
    | inl e ↦ rw (check_socket, e) tt
    | inr (socket, e) ↦ rw (check_socket, e) refl
  ]

module _ {ℓ} {W : Type ℓ} (log : W → List ℕ) (system : PipeSystem W) (waiting : Waiting W)
    (quiet : IsQuiet log system waiting) (error_codes : ErrorCodes) where
  -- A round and its like: whether the loop goes on comes first.
  abbrev KeepsOn : (Client W → W → Outcome (Bool × Client W × W)) → Type ℓ
  KeepsOn f = Keeps log system waiting quiet error_codes (λ p. (p.1, p.2)) f

  check_header-IsFine : (ec : Error) → KeepsOn (check_header system error_codes waiting ec)
  unfolding check_header
  check_header-IsFine ec s w h = elim (Bool-cases (is_failure ec)) [
    | inl e ↦ elim (Bool-cases (is_disconnected ec)) [
      | inl f ↦ rw (check_header, e, f) (same-IsFine log s w w h refl)
      | inr f ↦ rw (check_header, e, f) tt
    ]
    | inr e ↦ rw (check_header, e) (same-IsFine log s w w h refl)
  ]

  ensure_read-IsFine : KeepsOn (ensure_read system error_codes waiting)
  unfolding ensure_read
  ensure_read-IsFine s w h =
      kept_by_if log system waiting quiet error_codes (needs_read system error_codes waiting s.rop)
        (λ p. (p.1, p.2))
        (λ t v.
          socket_read system error_codes (read_callback_init system error_codes) init
            (record t { buf = resize_bytes 8 t.buf }) v
          >>= (λ r. check_header system error_codes waiting r.0 r.1 r.2))
        (λ t v. ok (true, t, v))
        (λ t.
          kept_by_bind log system waiting quiet error_codes (λ p. (p.1, p.2)) (λ p. (p.1, p.2))
            (socket_read system error_codes (read_callback_init system error_codes) init)
            (λ r. check_header system error_codes waiting r.0 r.1 r.2)
            (socket_read-IsFine log system waiting quiet error_codes
              (read_callback_init system error_codes) init
              (read_callback_init-IsFine log system waiting quiet error_codes))
            (λ r. check_header-IsFine r.0 r.1 r.2) (record t { buf = resize_bytes 8 t.buf }))
        (λ t v g. same-IsFine log t v v g refl) s w h

  -- What `wait_rop` does with an operation that has completed.
  abbrev serve : AsyncOp Handler → Client W → W → Outcome (Client W × W)
  serve op s v =
      let (status, n) = result system.overlapped error_codes v in
      run_handler system error_codes (due op).0 status
        (record s { buf = waiting.filled s.buf v; rop = some (due op).1 }) v

  serve-IsFine :
      (op : AsyncOp Handler) → Keeps log system waiting quiet error_codes (λ p. p) (serve op)
  serve-IsFine op s v h =
      run_handler-IsFine log system waiting quiet error_codes (due op).0
        (result system.overlapped error_codes v).0
        (record s { buf = waiting.filled s.buf v; rop = some (due op).1 }) v h

  wait_rop-IsFine :
      (ms : ℕ)
      → Keeps log system waiting quiet error_codes
          (λ p. (p.1, p.2))
          (wait_rop system error_codes waiting ms)
  unfolding wait_rop
  wait_rop-IsFine ms s w h = elim (Option-cases s.rop) [
    | inl e ↦ rw (wait_rop, e) tt
    | inr (op, e) ↦ elim (Bool-cases (is_success (waiting.wait ms w).0)) [
      | inl f ↦
          let v = (waiting.wait ms w).1 in
          rw (wait_rop, e, f)
            (IsFine-bind log (λ p. p) (λ p. (p.1, p.2)) s.callbacks w (serve op s v)
              (λ p. ok ((waiting.wait ms w).0, p.0, p.1))
              (quiet_before log s.callbacks w v (serve op s v) (quiet.wait ms w)
                (serve-IsFine op s v h))
              (λ p g. same-IsFine log p.0 p.1 p.1 g refl))
      | inr f ↦ rw (wait_rop, e, f) (same-IsFine log s w (waiting.wait ms w).1 h (quiet.wait ms w))
    ]
  ]

  still : (b : Bool) → KeepsOn (λ s w. ok (b, s, w))
  still b s w h = same-IsFine log s w w h refl

  check_wait-IsFine : (ec : Error) → KeepsOn (check_wait system error_codes waiting ec)
  unfolding check_wait
  check_wait-IsFine ec =
      kept_by_if log system waiting quiet error_codes (is_timed_out ec) (λ p. (p.1, p.2))
        (λ s w. ok (true, s, w))
        (λ s w.
          if is_disconnected ec
          then ok (false, s, w)
          else if is_error ec
          then throws
          else ok (true, s, w))
        (still true)
        (kept_by_if log system waiting quiet error_codes (is_disconnected ec) (λ p. (p.1, p.2))
          (λ s w. ok (false, s, w)) (λ s w. if is_error ec then throws else ok (true, s, w))
          (still false)
          (kept_by_if log system waiting quiet error_codes (is_error ec) (λ p. (p.1, p.2))
            (λ s w. throws) (λ s w. ok (true, s, w)) (λ s w h. tt) (still true)))

  wait_again-IsFine : KeepsOn (wait_again system error_codes waiting)
  unfolding wait_again
  wait_again-IsFine =
      kept_by_bind log system waiting quiet error_codes (λ p. (p.1, p.2)) (λ p. (p.1, p.2))
        (wait_rop system error_codes waiting 20)
        (λ r. check_wait system error_codes waiting r.0 r.1 r.2) (wait_rop-IsFine 20)
        (λ r. check_wait-IsFine r.0 r.1 r.2)

  wait_first-IsFine : KeepsOn (wait_first system error_codes waiting)
  unfolding wait_first
  wait_first-IsFine =
      kept_by_bind log system waiting quiet error_codes (λ p. (p.1, p.2)) (λ p. (p.1, p.2))
        (wait_rop system error_codes waiting 0)
        (λ r.
          if is_success r.0
          then ok (true, r.1, r.2)
          else wait_again system error_codes waiting r.1 r.2)
        (wait_rop-IsFine 0)
        (λ r.
          kept_by_if log system waiting quiet error_codes (is_success r.0) (λ p. (p.1, p.2))
            (λ s w. ok (true, s, w)) (wait_again system error_codes waiting) (still true)
            wait_again-IsFine r.1 r.2)

  worker_round-IsFine : KeepsOn (worker_round system error_codes waiting)
  unfolding worker_round
  worker_round-IsFine =
      kept_by_bind log system waiting quiet error_codes (λ p. (p.1, p.2)) (λ p. (p.1, p.2))
        (ensure_read system error_codes waiting)
        (λ r.
          if not r.0 then ok (false, r.1, r.2) else wait_first system error_codes waiting r.1 r.2)
        ensure_read-IsFine
        (λ r.
          kept_by_if log system waiting quiet error_codes (not r.0) (λ p. (p.1, p.2))
            (λ s w. ok (false, s, w)) (wait_first system error_codes waiting) (still false)
            wait_first-IsFine r.1 r.2)

  pub worker_pass-IsFine : KeepsOn (worker_pass system error_codes waiting)
  unfolding worker_pass
  worker_pass-IsFine s w h =
      IsFine-bind log (λ r. (r.1, w)) (λ p. (p.1, p.2)) s.callbacks w
        (check_socket system error_codes waiting s w)
        (λ r.
          if r.0 && not r.1.stop
          then worker_round system error_codes waiting r.1 w
          else ok (false, r.1, w))
        (Ensures-mono (λ r. r.1.callbacks ≡ s.callbacks) (λ r. IsFine log s.callbacks w (r.1, w))
          (check_socket system error_codes waiting s w)
          (check_socket-kept system error_codes waiting s w)
          (λ r e. record { bound = λ k. rw e (omega arith); logs = rw e h }))
        (λ r g.
          kept_by_if log system waiting quiet error_codes (r.0 && not r.1.stop) (λ p. (p.1, p.2))
            (worker_round system error_codes waiting) (λ t v. ok (false, t, v)) worker_round-IsFine
            (still false) r.1 w g)
