-- ===== src/Windows/ServerInstance/Order.antt =====
-- The reads and writes that a Windows instance (source/windows/ipc-server-instance-win.cpp) starts leave
-- the stream of its replies as it is, or take it forward.
use lib_streamlabs_ipc.Base.{
  ◌≡◌, arith, refl, ap, ◌∙◌, inl, inr, map, drop, append_assoc, Bool-cases, Option-cases, Ensures,
  Ensures-bind, Ensures-after, ℕ, Bool, true, false, Option, none, some, List, [], ◌∷◌, ◌++◌,
  length, if◌then◌else◌, Outcome, ok, ◌>>=◌,
}
use lib_streamlabs_ipc.Bytes.{Bytes}
use lib_streamlabs_ipc.Message.Frame.{make_sendable, make_sendable-body}
use lib_streamlabs_ipc.Server.{Registry}
use lib_streamlabs_ipc.Os.{Error}
use lib_streamlabs_ipc.Os.AsyncOp.{AsyncOp}
use lib_streamlabs_ipc.Windows.Utility.{ErrorCodes, translate_error}
use lib_streamlabs_ipc.Windows.AsyncRequest.{prepare, cancel}
use lib_streamlabs_ipc.Windows.Socket
use lib_streamlabs_ipc.Windows.Socket.{PipeSystem, Started, is_connected, settle_io}
use lib_streamlabs_ipc.Windows.Client.{is_failure, is_disconnected}
use lib_streamlabs_ipc.Windows.ServerInstance.{
  Handler, written, reading, writing, Instance, cancel_op, settle, socket_read, socket_write,
  write_callback,
}
use lib_streamlabs_ipc.Windows.ServerInstance.Worker.{
  Waiting, check_started, written_front, pop_written, write_front,
}
use lib_streamlabs_ipc.Windows.ServerInstance.Stream.{
  same-Grows, stream, TakesFrames, Forward, Keeps, still, Forward-bind, quiet_before,
  write_callback-kept,
}

replace_front :
    (xs : List Bytes) (a b : Bytes) (rest : List Bytes)
    → drop 8 a ≡ drop 8 b
    → map (drop 8) (xs ++ (a ∷ rest)) ≡ map (drop 8) (xs ++ (b ∷ rest))
replace_front [] a b rest e = rw e refl
replace_front (x ∷ xs) a b rest e = ap (◌∷◌ (drop 8 x)) (replace_front xs a b rest e)

module _ {ℓ} {W : Type ℓ} (sent : W → List Bytes) (parent : Registry W) (now : W → ℕ)
    (system : PipeSystem W) (error_codes : ErrorCodes) (waiting : Waiting W)
    (takes : TakesFrames sent parent system error_codes waiting) where
  -- A callback and its like; with a status or a flag in front.
  abbrev pub Plain : (Instance → W → Outcome (Instance × W)) → Type ℓ
  Plain f = Keeps sent (λ p. p) f

  abbrev pub Flagged {κ} : {A : Type κ} → (Instance → W → Outcome (A × Instance × W)) → Type ℓ
  Flagged f = Keeps sent (λ p. (p.1, p.2)) f

  pub stay : Plain (λ s w. ok (s, w))
  stay s w = still sent s s w w refl refl

  pub flag {κ} : {A : Type κ} (a : A) → Flagged (λ s w. ok (a, s, w))
  flag a s w = still sent s s w w refl refl

  cancel-sent :
      (op : Option (AsyncOp Handler)) (w : W) → sent (cancel_op system error_codes op w) ≡ sent w
  unfolding cancel
  cancel-sent none w = refl
  cancel-sent (some op) w = ground (arith, takes.cancel w)

  settle_io-world :
      (s : Socket.Socket) (op : AsyncOp Handler) (r : Bool × ℕ × W)
      → (settle_io system error_codes s op r).world ≡ r.2
  unfolding settle_io
  settle_io-world s op (true, code, w) = refl
  settle_io-world s op (false, code, w) = refl

  settle_io-status :
      (s : Socket.Socket) (op : AsyncOp Handler) (r : Bool × ℕ × W)
      → (settle_io system error_codes s op r).status ≡ translate_error error_codes r.1
  unfolding settle_io
  settle_io-status s op (true, code, w) = refl
  settle_io-status s op (false, code, w) = refl

  read-sent :
      (n : ℕ) (op : Option (AsyncOp Handler)) (cb : Option Handler) (s : Socket.Socket) (w : W)
      → Ensures (λ r. sent r.world ≡ sent w) (Socket.read system error_codes n op cb s w)
  unfolding Socket.read
  read-sent n op cb s w = elim (Bool-cases (is_connected system s w).0) [
    | inl e ↦
        rw (Socket.read, e)
          (Ensures-after (λ r. sent r.world ≡ sent w) (prepare system.overlapped cb op w)
            (λ ar.
              ok (
                settle_io system error_codes (is_connected system s w).1 ar (system.read_file n w)))
            (λ ar.
              ap sent (settle_io-world (is_connected system s w).1 ar (system.read_file n w))
              ∙ takes.read n w))
    | inr e ↦ rw (Socket.read, e) refl
  ]

  -- What a write leaves, by its status: a failure has sent nothing.
  abbrev SentBy : Bytes → W → Error → W → Type 0
  SentBy b w ec v = sent v ≡ (if is_failure ec then sent w else sent w ++ (b ∷ []))

  write_file-SentBy :
      (b : Bytes) (w : W)
      → SentBy b w (translate_error error_codes (system.write_file b w).1) (system.write_file b w).2
  write_file-SentBy b w = elim (Bool-cases (system.write_file b w).0) [
    | inl e ↦ rw (takes.started b w, e) (takes.write b w ∙ rw e refl)
    | inr e ↦ rw (takes.started b w, e) (takes.write b w ∙ rw e refl)
  ]

  write-SentBy :
      (b : Bytes) (op : Option (AsyncOp Handler)) (cb : Option Handler) (s : Socket.Socket) (w : W)
      → Ensures (λ r. SentBy b w r.status r.world) (Socket.write system error_codes b op cb s w)
  unfolding Socket.write is_failure
  write-SentBy b op cb s w = elim (Bool-cases (is_connected system s w).0) [
    | inl e ↦
        rw (Socket.write, e)
          (Ensures-after (λ r. SentBy b w r.status r.world) (prepare system.overlapped cb op w)
            (λ ar.
              ok (
                settle_io system error_codes (is_connected system s w).1 ar
                  (system.write_file b w)))
            (λ ar.
              let socket = (is_connected system s w).1 in
              rw
                (
                  settle_io-world socket ar (system.write_file b w),
                  settle_io-status socket ar (system.write_file b w),
                )
                (write_file-SentBy b w)))
    | inr e ↦ rw (Socket.write, e) refl
  ]

  settle_reading-Forward :
      (run : Error → Instance → W → Outcome (Instance × W)) (s : Instance) (w : W)
      (r : Started Handler W)
      → ((ec : Error) → Plain (run ec))
      → sent r.world ≡ sent w
      → Ensures (Forward sent (λ p. (p.1, p.2)) s w) (settle system error_codes reading run s r)
  unfolding settle
  settle_reading-Forward run s w r k e =
      let s1 = record s { socket = r.socket; rop = r.op } in
      elim (Option-cases r.callback) [
        | inl f ↦ rw (settle, f) (still sent s s1 w r.world refl e)
        | inr (cb, f) ↦
            rw (settle, f)
              (Forward-bind sent (λ p. p) (λ p. (p.1, p.2)) s w (run r.status s1 r.world)
                (λ p. ok (r.status, p.0, cancel_op system error_codes p.0.rop p.1))
                (quiet_before sent (λ p. p) s s1 w r.world (run r.status s1 r.world) refl e
                  (k r.status s1 r.world))
                (λ p.
                  still sent p.0 p.0 p.1 (cancel_op system error_codes p.0.rop p.1) refl
                    (cancel-sent p.0.rop p.1)))
      ]

  pub socket_read-Forward :
      (run : Error → Instance → W → Outcome (Instance × W)) (handler : Handler)
      → ((ec : Error) → Plain (run ec))
      → Flagged (socket_read system error_codes run handler)
  unfolding socket_read
  socket_read-Forward run handler k s w =
      Ensures-bind (λ r. sent r.world ≡ sent w) (Forward sent (λ p. (p.1, p.2)) s w)
        (Socket.read system error_codes (length s.rbuf) s.rop (some handler) s.socket w)
        (settle system error_codes reading run s)
        (read-sent (length s.rbuf) s.rop (some handler) s.socket w)
        (λ r e. settle_reading-Forward run s w r k e)

  -- A write leaves the queue, and the frame is sent just when the status is no failure.
  abbrev Wrote : Bytes → Instance → W → Error × Instance × W → Type 0
  Wrote b s w p = (p.1.write_queue ≡ s.write_queue) × SentBy b w p.0 p.2

  abbrev on_written : Error → Instance → W → Outcome (Instance × W)
  on_written ec s w = write_callback s >>= (λ t. ok (t, w))

  settle_writing-Wrote :
      (b : Bytes) (s : Instance) (w : W) (r : Started Handler W)
      → SentBy b w r.status r.world
      → Ensures (Wrote b s w) (settle system error_codes writing on_written s r)
  unfolding settle
  settle_writing-Wrote b s w r e =
      let s1 = record s { socket = r.socket; wop = r.op } in
      elim (Option-cases r.callback) [
        | inl f ↦ rw (settle, f) (refl, e)
        | inr (cb, f) ↦
            rw (settle, f)
              (Ensures-bind (λ p. (p.0.write_queue ≡ s.write_queue) × (sent p.1 ≡ sent r.world))
                (Wrote b s w) (on_written r.status s1 r.world)
                (λ p. ok (r.status, p.0, cancel_op system error_codes p.0.wop p.1))
                (Ensures-bind (λ t. t.write_queue ≡ s.write_queue)
                  (λ p. (p.0.write_queue ≡ s.write_queue) × (sent p.1 ≡ sent r.world))
                  (write_callback s1) (λ t. ok (t, r.world)) (write_callback-kept s1)
                  (λ t g. (g, refl)))
                (λ p (g, h). (g, cancel-sent p.0.wop p.1 ∙ h ∙ e)))
      ]

  socket_write-Wrote :
      (b : Bytes) (s : Instance) (w : W)
      → Ensures (Wrote b s w) (socket_write system error_codes b s w)
  unfolding socket_write
  socket_write-Wrote b s w =
      Ensures-bind (λ r. SentBy b w r.status r.world) (Wrote b s w)
        (Socket.write system error_codes b s.wop (some written) s.socket w)
        (settle system error_codes writing on_written s)
        (write-SentBy b s.wop (some written) s.socket w) (λ r e. settle_writing-Wrote b s w r e)

  pub check_started-Forward : (ec : Error) → Flagged (check_started ec)
  unfolding check_started
  check_started-Forward ec s w = elim (Bool-cases (is_failure ec)) [
    | inl e ↦ elim (Bool-cases (is_disconnected ec)) [
      | inl f ↦ rw (check_started, e, f) (flag false s w)
      | inr f ↦ rw (check_started, e, f) tt
    ]
    | inr e ↦ rw (check_started, e) (flag true s w)
  ]

  pop_written-Forward :
      (s t : Instance) (w v : W) (fbuf front : Bytes) (rest : List Bytes) (ec : Error)
      → s.write_queue ≡ front ∷ rest
      → t.write_queue ≡ fbuf ∷ rest
      → drop 8 fbuf ≡ drop 8 front
      → SentBy fbuf w ec v
      → Ensures
          (Forward sent (λ p. (p.1, p.2)) s w)
          (pop_written system error_codes rest (ec, t, v))
  unfolding pop_written check_started written_front
  pop_written-Forward s t w v fbuf front rest ec e f g h =
      let xs = stream sent s w in
      elim (Bool-cases (is_failure ec)) [
        | inl k ↦ elim (Bool-cases (is_disconnected ec)) [
          | inl l ↦
              let same : sent v ≡ sent w = rw k at h in
              rw (pop_written, check_started, k, l)
                (same-Grows xs (stream sent t v)
                  (rw (same, e, f) (replace_front (sent w) fbuf front rest g)))
          | inr l ↦ rw (pop_written, check_started, k, l) tt
        ]
        | inr k ↦
            let more : sent v ≡ sent w ++ (fbuf ∷ []) = rw k at h in
            rw (pop_written, check_started, k)
              (same-Grows xs (map (drop 8) (sent v ++ rest)) (
                rw (more, e)
                  (ap (map (drop 8)) (append_assoc (sent w) (fbuf ∷ []) rest)
                    ∙ replace_front (sent w) fbuf front rest g)))
      ]

  pub write_front-Forward :
      (q : List Bytes) (s : Instance) (w : W)
      → s.write_queue ≡ q
      → Ensures (Forward sent (λ p. (p.1, p.2)) s w) (write_front system error_codes s q w)
  unfolding write_front
  write_front-Forward [] s w e = flag true s w
  write_front-Forward (front ∷ rest) s w e =
      Ensures-bind (λ f. drop 8 f ≡ drop 8 front) (Forward sent (λ p. (p.1, p.2)) s w)
        (make_sendable front)
        (λ fbuf.
          socket_write system error_codes fbuf (record s { write_queue = fbuf ∷ rest }) w
          >>= pop_written system error_codes rest)
        (make_sendable-body front)
        (λ fbuf g.
          Ensures-bind (Wrote fbuf (record s { write_queue = fbuf ∷ rest }) w)
            (Forward sent (λ p. (p.1, p.2)) s w)
            (socket_write system error_codes fbuf (record s { write_queue = fbuf ∷ rest }) w)
            (pop_written system error_codes rest)
            (socket_write-Wrote fbuf (record s { write_queue = fbuf ∷ rest }) w)
            (λ r (h, k). pop_written-Forward s r.1 w r.2 fbuf front rest r.0 e h g k))
