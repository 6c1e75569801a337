-- ===== src/Windows/ServerInstance/Stream.antt =====
-- The replies of a Windows instance as one stream: those that it has sent, and behind them the queue.
-- `sent` is what the pipe has taken, frame by frame. The four bytes that `make_sendable` fills in are
-- left out.
use lib_streamlabs_ipc.Base.{
  ◌≡◌, refl, sym, ap, ◌∙◌, inl, inr, map, drop, append_assoc, append-nil, Bool-cases, Option-cases,
  Ensures, Ensures-bind, Ensures-mono, ℕ, Bool, true, false, not, some, List, [], ◌∷◌, ◌++◌, length,
  if◌then◌else◌, ◌==◌, Outcome, ◌>>=◌,
}
use lib_streamlabs_ipc.Bytes.{Bytes}
use lib_streamlabs_ipc.Value.{Value}
use lib_streamlabs_ipc.Server.{Registry, client_call_function}
use lib_streamlabs_ipc.Windows.Utility.{ErrorCodes, translate_error}
use lib_streamlabs_ipc.Windows.AsyncRequest.{invalidate}
use lib_streamlabs_ipc.Windows.Socket.{PipeSystem}
use lib_streamlabs_ipc.Windows.Client.{is_failure}
use lib_streamlabs_ipc.Windows.ServerInstance.{
  Slot, Instance, invalidate_rop, write_callback, read_callback_msg_write,
}
use lib_streamlabs_ipc.Windows.ServerInstance.Worker.{Waiting}

-- A list that begins with another.
abbrev pub Grows {ℓ} : {A : Type ℓ} → List A → List A → Type ℓ
Grows {A = A} xs ys = (new : List A) × (ys ≡ xs ++ new)

pub same-Grows {ℓ} : {A : Type ℓ} (xs ys : List A) → ys ≡ xs → Grows xs ys
same-Grows xs ys e = ([], e ∙ sym (append-nil xs))

pub trans-Grows {ℓ} : {A : Type ℓ} (xs ys zs : List A) → Grows xs ys → Grows ys zs → Grows xs zs
trans-Grows xs ys zs (a, e) (b, f) = (a ++ b, f ∙ ap (λ l. l ++ b) e ∙ append_assoc xs a b)

-- The messages in their order, without their headers.
abbrev pub stream {ℓ} : {W : Type ℓ} → (W → List Bytes) → Instance → W → List Bytes
stream sent s w = map (drop 8) (sent w ++ s.write_queue)

-- `WriteFileEx` has started a write just when its last error is none or says that the write is pending,
-- and the pipe has taken the frame then. No other call puts anything into the pipe, nor does a function
-- of the server.
pub record TakesFrames {ℓ} {W : Type ℓ} (sent : W → List Bytes) (parent : Registry W)
    (system : PipeSystem W) (error_codes : ErrorCodes) (waiting : Waiting W) : Type ℓ where
  pub started :
      (b : Bytes) (w : W)
      → is_failure (translate_error error_codes (system.write_file b w).1)
        ≡ not (system.write_file b w).0
  pub write :
      (b : Bytes) (w : W)
      → sent (system.write_file b w).2
        ≡ (if (system.write_file b w).0 then sent w ++ (b ∷ []) else sent w)
  pub read : (n : ℕ) (w : W) → sent (system.read_file n w).2 ≡ sent w
  pub cancel : (w : W) → sent (system.overlapped.cancel_io w).1 ≡ sent w
  pub wait : (slot : Slot) (n : ℕ) (w : W) → sent (waiting.wait slot n w).1 ≡ sent w
  pub wait_any : (both : Bool) (n : ℕ) (w : W) → sent (waiting.wait_any both n w).2 ≡ sent w
  pub call :
      (cid : ℕ) (cname fname : Bytes) (args : List Value) (w : W)
      → sent (client_call_function parent cid cname fname args [] [] w).world ≡ sent w

module _ {ℓ} {W : Type ℓ} (sent : W → List Bytes) where
  abbrev pub Forward {κ} : {A : Type κ} → (A → Instance × W) → Instance → W → A → Type 0
  Forward snd s w a = Grows (stream sent s w) (stream sent (snd a).0 (snd a).1)

  -- A function that makes the stream no shorter.
  abbrev pub Keeps {κ} : {A : Type κ} → (A → Instance × W) → (Instance → W → Outcome A) → Type ℓ
  Keeps snd f = (s : Instance) (w : W) → Ensures (Forward snd s w) (f s w)

  pub still :
      (s t : Instance) (w v : W)
      → t.write_queue ≡ s.write_queue
      → sent v ≡ sent w
      → Grows (stream sent s w) (stream sent t v)
  still s t w v e f = same-Grows (stream sent s w) (stream sent t v) (rw (e, f) refl)

  pub Forward-bind {κ μ} :
      {A : Type κ} {B : Type μ} (fst : A → Instance × W) (snd : B → Instance × W) (s : Instance)
      (w : W) (x : Outcome A) (f : A → Outcome B)
      → Ensures (Forward fst s w) x
      → ((a : A) → Ensures (Forward snd (fst a).0 (fst a).1) (f a))
      → Ensures (Forward snd s w) (x >>= f)
  Forward-bind fst snd s w x f h k = Ensures-bind (Forward fst s w) (Forward snd s w) x f h (λ a g.
      Ensures-mono (Forward snd (fst a).0 (fst a).1) (Forward snd s w) (f a) (k a) (λ b c.
        trans-Grows (stream sent s w) (stream sent (fst a).0 (fst a).1)
          (stream sent (snd b).0 (snd b).1) g c))

  pub kept_by_if {κ} :
      {A : Type κ} (b : Bool) (snd : A → Instance × W) (f g : Instance → W → Outcome A)
      → Keeps snd f
      → Keeps snd g
      → Keeps snd (λ s w. if b then f s w else g s w)
  kept_by_if true snd f g h k = h
  kept_by_if false snd f g h k = k

  pub kept_by_bind {κ μ} :
      {A : Type κ} {B : Type μ} (fst : A → Instance × W) (snd : B → Instance × W)
      (f : Instance → W → Outcome A) (g : A → Outcome B)
      → Keeps fst f
      → ((a : A) → Ensures (Forward snd (fst a).0 (fst a).1) (g a))
      → Keeps snd (λ s w. f s w >>= g)
  kept_by_bind fst snd f g h k s w = Forward-bind fst snd s w (f s w) g (h s w) k

  -- What leads forward from a world does so from one before it that has sent as much.
  pub quiet_before {κ} :
      {A : Type κ} (snd : A → Instance × W) (s t : Instance) (w v : W) (x : Outcome A)
      → t.write_queue ≡ s.write_queue
      → sent v ≡ sent w
      → Ensures (Forward snd t v) x
      → Ensures (Forward snd s w) x
  quiet_before snd s t w v x e f h = Ensures-mono (Forward snd t v) (Forward snd s w) x h (λ a g.
      trans-Grows (stream sent s w) (stream sent t v) (stream sent (snd a).0 (snd a).1)
        (still s t w v e f) g)

pub invalidate_rop-kept :
    (s : Instance) → Ensures (λ t. t.write_queue ≡ s.write_queue) (invalidate_rop s)
unfolding invalidate_rop
invalidate_rop-kept s = elim (Option-cases s.rop) [
  | inl e ↦ rw (invalidate_rop, e) tt
  | inr (op, e) ↦ rw (invalidate_rop, e) refl
]

pub write_callback-kept :
    (s : Instance) → Ensures (λ t. t.write_queue ≡ s.write_queue) (write_callback s)
unfolding write_callback
write_callback-kept s = elim (Option-cases s.wop) [
  | inl e ↦ rw (write_callback, e) tt
  | inr (op, e) ↦
      rw (write_callback, e) (invalidate_rop-kept (record s { wop = some (invalidate op) }))
]

-- A reply goes to the end of the queue.
pub read_callback_msg_write-Grows :
    (s : Instance) (b : Bytes)
    → Ensures (λ t. Grows s.write_queue t.write_queue) (read_callback_msg_write s b)
unfolding read_callback_msg_write
read_callback_msg_write-Grows s b = elim (Bool-cases (length b == 0)) [
  | inl e ↦
      rw (read_callback_msg_write, e)
        (Ensures-mono (λ t. t.write_queue ≡ s.write_queue) (λ t. Grows s.write_queue t.write_queue)
          (invalidate_rop s) (invalidate_rop-kept s)
          (λ t f. same-Grows s.write_queue t.write_queue f))
  | inr e ↦ rw (read_callback_msg_write, e) (b ∷ [], refl)
]
