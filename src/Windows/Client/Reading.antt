-- ===== src/Windows/Client/Reading.antt =====
-- What the Windows client (source/windows/ipc-client-win.cpp) does to read a reply, its callbacks included,
-- keeps the map and the log `IsFine`.
use lib_streamlabs_ipc.Base.{
  ℕ, ◌≡◌, refl, ◌∙◌, inl, inr, Bool, true, false, Option, none, some, List, arith, if◌then◌else◌,
  ◌==◌, Bool-cases, Option-cases, Outcome, ok, ◌>>=◌, Ensures, Ensures-bind, Ensures-after, length,
}
use lib_streamlabs_ipc.Bytes.{Bytes}
use lib_streamlabs_ipc.Map.{int64_key}
use lib_streamlabs_ipc.Message.Frame.{read_size}
use lib_streamlabs_ipc.Os.{Error, has_data}
use lib_streamlabs_ipc.Os.AsyncOp.{AsyncOp}
use lib_streamlabs_ipc.Osx.Channel.{resize_bytes}
use lib_streamlabs_ipc.Windows.Utility.{ErrorCodes}
use lib_streamlabs_ipc.Windows.AsyncRequest.{prepare, cancel}
use lib_streamlabs_ipc.Windows.Socket
use lib_streamlabs_ipc.Windows.Socket.{PipeSystem, Started, settle_io, is_connected}
use lib_streamlabs_ipc.Windows.Client.{
  Client, Handler, Waiting, init, msg, read_callback_msg, cancel_rop, socket_read, check_body,
  read_body, read_sized, read_callback_init, run_handler, is_failure, is_disconnected,
}
use lib_streamlabs_ipc.Windows.Client.Once.{AllLogs, IsFine}
use lib_streamlabs_ipc.Windows.Client.Quiet.{
  same-IsFine, IsFine-bind, quiet_before, after_invalidate, read_callback_msg-IsFine, IsQuiet,
}

module _ {ℓ} {W : Type ℓ} (log : W → List ℕ) (system : PipeSystem W) (waiting : Waiting W)
    (quiet : IsQuiet log system waiting) (error_codes : ErrorCodes) where
  pub cancel-log :
      {F : Type 0} (op : AsyncOp F) (w : W) → log (cancel system.overlapped op w).1 ≡ log w
  unfolding cancel
  cancel-log op w = ground (arith, quiet.cancel w)

  cancel_rop-log :
      (rop : Option (AsyncOp Handler)) (w : W) → log (cancel_rop system error_codes rop w) ≡ log w
  cancel_rop-log none w = refl
  cancel_rop-log (some op) w = cancel-log op w

  settle_io-log :
      {F : Type 0} (s : Socket.Socket) (op : AsyncOp F) (r : Bool × ℕ × W)
      → log (settle_io system error_codes s op r).world ≡ log r.2
  unfolding settle_io
  settle_io-log s op (true, code, w) = refl
  settle_io-log s op (false, code, w) = refl

  read-log :
      {F : Type 0} (n : ℕ) (op : Option (AsyncOp F)) (cb : Option F) (s : Socket.Socket) (w : W)
      → Ensures (λ r. log r.world ≡ log w) (Socket.read system error_codes n op cb s w)
  unfolding Socket.read
  read-log n op cb s w = elim (Bool-cases (is_connected system s w).0) [
    | inl e ↦
        rw (Socket.read, e)
          (Ensures-after (λ r. log r.world ≡ log w) (prepare system.overlapped cb op w)
            (λ ar.
              ok (
                settle_io system error_codes (is_connected system s w).1 ar (system.read_file n w)))
            (λ ar.
              settle_io-log (is_connected system s w).1 ar (system.read_file n w) ∙ quiet.read n w))
    | inr e ↦ rw (Socket.read, e) refl
  ]

  pub write-log :
      {F : Type 0} (b : Bytes) (op : Option (AsyncOp F)) (cb : Option F) (s : Socket.Socket) (w : W)
      → Ensures (λ r. log r.world ≡ log w) (Socket.write system error_codes b op cb s w)
  unfolding Socket.write
  write-log b op cb s w = elim (Bool-cases (is_connected system s w).0) [
    | inl e ↦
        rw (Socket.write, e)
          (Ensures-after (λ r. log r.world ≡ log w) (prepare system.overlapped cb op w)
            (λ ar.
              ok (
                settle_io system error_codes (is_connected system s w).1 ar
                  (system.write_file b w)))
            (λ ar.
              settle_io-log (is_connected system s w).1 ar (system.write_file b w)
              ∙ quiet.write b w))
    | inr e ↦ rw (Socket.write, e) refl
  ]

  -- A function of a status that keeps every client fine.
  abbrev pub Keeps {κ} : {A : Type κ} → (A → Client W × W) → (Client W → W → Outcome A) → Type ℓ
  Keeps snd f =
      (s : Client W) (w : W)
      → AllLogs log s.callbacks
      → Ensures (λ b. IsFine log s.callbacks w (snd b)) (f s w)

  abbrev behind : Client W → Started Handler W → Client W
  behind s r = record s { socket = some r.socket; rop = r.op }

  -- What `socket_read` does behind the read of the socket.
  abbrev settle_read :
      (Error → Client W → W → Outcome (Client W × W))
      → Client W
      → Started Handler W
      → Outcome (Error × Client W × W)
  settle_read run s r = elim r.callback [
    | none ↦ ok (r.status, behind s r, r.world)
    | some cb ↦ (do
      (s2, w2) ← run r.status (behind s r) r.world
      ok (r.status, s2, cancel_rop system error_codes s2.rop w2))
  ]

  settle_read-IsFine :
      (run : Error → Client W → W → Outcome (Client W × W)) (s : Client W) (w : W)
      (r : Started Handler W)
      → ((ec : Error) → Keeps (λ p. p) (run ec))
      → AllLogs log s.callbacks
      → log r.world ≡ log w
      → Ensures (λ p. IsFine log s.callbacks w (p.1, p.2)) (settle_read run s r)
  settle_read-IsFine run s w r k h e = elim (Option-cases r.callback) [
    | inl f ↦ rw f (same-IsFine log (behind s r) w r.world h e)
    | inr (cb, f) ↦ rw f (
        IsFine-bind log (λ p. p) (λ p. (p.1, p.2)) s.callbacks w (run r.status (behind s r) r.world)
          (λ p. ok (r.status, p.0, cancel_rop system error_codes p.0.rop p.1))
          (quiet_before log s.callbacks w r.world (run r.status (behind s r) r.world) e
            (k r.status (behind s r) r.world h))
          (λ p g.
            same-IsFine log p.0 p.1 (cancel_rop system error_codes p.0.rop p.1) g
              (cancel_rop-log p.0.rop p.1)))
  ]

  pub socket_read-IsFine :
      (run : Error → Client W → W → Outcome (Client W × W)) (handler : Handler)
      → ((ec : Error) → Keeps (λ p. p) (run ec))
      → Keeps (λ p. (p.1, p.2)) (socket_read system error_codes run handler)
  unfolding socket_read
  socket_read-IsFine run handler k s w h = elim (Option-cases s.socket) [
    | inl e ↦ rw (socket_read, e) tt
    | inr (socket, e) ↦
        rw (socket_read, e)
          (Ensures-bind (λ r. log r.world ≡ log w) (λ p. IsFine log s.callbacks w (p.1, p.2))
            (Socket.read system error_codes (length s.buf) s.rop (some handler) socket w)
            (settle_read run s) (read-log (length s.buf) s.rop (some handler) socket w)
            (λ r f. settle_read-IsFine run s w r k h f))
  ]

  pub kept_by_if {κ} :
      {A : Type κ} (b : Bool) (snd : A → Client W × W) (f g : Client W → W → Outcome A)
      → Keeps snd f
      → Keeps snd g
      → Keeps snd (λ s w. if b then f s w else g s w)
  kept_by_if true snd f g h k = h
  kept_by_if false snd f g h k = k

  -- One function behind the other.
  pub kept_by_bind {κ μ} :
      {A : Type κ} {B : Type μ} (fst : A → Client W × W) (snd : B → Client W × W)
      (f : Client W → W → Outcome A) (g : A → Outcome B)
      → Keeps fst f
      → ((a : A)
          → AllLogs log (fst a).0.callbacks
          → Ensures (λ b. IsFine log (fst a).0.callbacks (fst a).1 (snd b)) (g a))
      → Keeps snd (λ s w. f s w >>= g)
  kept_by_bind fst snd f g h k s w l = IsFine-bind log fst snd s.callbacks w (f s w) g (h s w l) k

  check_body-IsFine :
      (r : Error × Client W × W)
      → AllLogs log r.1.callbacks
      → Ensures (IsFine log r.1.callbacks r.2) (check_body system error_codes r)
  unfolding check_body
  check_body-IsFine (ec, s, w) h = elim (Bool-cases (is_failure ec)) [
    | inl e ↦ elim (Bool-cases (is_disconnected ec)) [
      | inl f ↦ rw (check_body, e, f) (same-IsFine log s w w h refl)
      | inr f ↦ rw (check_body, e, f) tt
    ]
    | inr e ↦ rw (check_body, e) (same-IsFine log s w w h refl)
  ]

  read_body-IsFine : (n : ℕ) → Keeps (λ p. p) (λ s. read_body system error_codes s n)
  unfolding read_body
  read_body-IsFine n s w h =
      kept_by_bind (λ p. (p.1, p.2)) (λ p. p)
        (socket_read system error_codes (λ ec s1 w1. read_callback_msg s1 w1) msg)
        (check_body system error_codes)
        (socket_read-IsFine (λ ec s1 w1. read_callback_msg s1 w1) msg
          (λ ec. read_callback_msg-IsFine log))
        check_body-IsFine (record s { buf = resize_bytes n s.buf }) w h

  read_sized-IsFine : Keeps (λ p. p) (read_sized system error_codes)
  unfolding read_sized
  read_sized-IsFine s w h =
      Ensures-after (IsFine log s.callbacks w) (read_size s.buf)
        (λ n. if n == 0 then ok (s, w) else read_body system error_codes s n w)
        (λ n.
          kept_by_if (n == 0) (λ p. p) (λ t v. ok (t, v)) (λ t. read_body system error_codes t n)
            (λ t v g. same-IsFine log t v v g refl) (read_body-IsFine n) s w h)

  pub read_callback_init-IsFine :
      (ec : Error) → Keeps (λ p. p) (read_callback_init system error_codes ec)
  unfolding read_callback_init
  read_callback_init-IsFine ec s w h =
      after_invalidate log (λ p. p) s w
        (λ t. if has_data ec then read_sized system error_codes t w else ok (t, w)) h
        (λ t g.
          kept_by_if (has_data ec) (λ p. p) (read_sized system error_codes) (λ t v. ok (t, v))
            read_sized-IsFine (λ t v g. same-IsFine log t v v g refl) t w g)

  pub run_handler-IsFine :
      (cb : Option Handler) (ec : Error) → Keeps (λ p. p) (run_handler system error_codes cb ec)
  unfolding run_handler
  run_handler-IsFine none ec s w h = same-IsFine log s w w h refl
  run_handler-IsFine (some init) ec s w h = read_callback_init-IsFine ec s w h
  run_handler-IsFine (some msg) ec s w h = read_callback_msg-IsFine log s w h
