-- ===== src/Windows/Client/Quiet.antt =====
-- No function of the Windows client runs a stored callback twice, nor two of one number, as long as the
-- system calls run none: each leaves the map and the log `IsFine`.
use lib_streamlabs_ipc.Base.{
  ℕ, ◌≡◌, refl, sym, inl, inr, List, arith, Option-cases, Outcome, ok, ◌>>=◌, Ensures, Ensures-bind,
  Ensures-after, Ensures-mono,
}
use lib_streamlabs_ipc.Bytes.{Bytes}
use lib_streamlabs_ipc.Map.{Map, int64_key}
use lib_streamlabs_ipc.Message.Reply
use lib_streamlabs_ipc.Message.Reply.{FunctionReply, new_reply}
use lib_streamlabs_ipc.Osx.Client.{CallReturn}
use lib_streamlabs_ipc.Windows.Socket.{PipeSystem}
use lib_streamlabs_ipc.Windows.Client.{Client, Waiting, deliver, invalidate_rop, read_callback_msg}
use lib_streamlabs_ipc.Windows.Client.Once.{AllLogs, IsFine, deliver-IsFine}

-- The calls of the system that return a world leave the log as it is.
pub record IsQuiet {ℓ} {W : Type ℓ} (log : W → List ℕ) (system : PipeSystem W) (waiting : Waiting W)
    : Type ℓ where
  pub cancel : (w : W) → log (system.overlapped.cancel_io w).1 ≡ log w
  pub read : (n : ℕ) (w : W) → log (system.read_file n w).2 ≡ log w
  pub write : (b : Bytes) (w : W) → log (system.write_file b w).2 ≡ log w
  pub wait : (n : ℕ) (w : W) → log (waiting.wait n w).1 ≡ log w

module _ {ℓ} {W : Type ℓ} (log : W → List ℕ) where
  pub same-IsFine :
      (s : Client W) (w v : W)
      → AllLogs log s.callbacks
      → log v ≡ log w
      → IsFine log s.callbacks w (s, v)
  same-IsFine s w v h e = record { bound = λ k. rw e (omega arith); logs = h }

  pub trans-IsFine :
      (m : Map ℕ (CallReturn W)) (w : W) (p q : Client W × W)
      → IsFine log m w p
      → IsFine log p.0.callbacks p.1 q
      → IsFine log m w q
  trans-IsFine m w p q f g = record {
    bound = λ k. let a = f.bound k in let b = g.bound k in omega arith;
    logs = g.logs;
  }

  -- A call that keeps them fine, and another behind it.
  pub IsFine-bind {κ μ} :
      {A : Type κ} {B : Type μ} (fst : A → Client W × W) (snd : B → Client W × W)
      (m : Map ℕ (CallReturn W)) (w : W) (x : Outcome A) (f : A → Outcome B)
      → Ensures (λ a. IsFine log m w (fst a)) x
      → ((a : A)
          → AllLogs log (fst a).0.callbacks
          → Ensures (λ b. IsFine log (fst a).0.callbacks (fst a).1 (snd b)) (f a))
      → Ensures (λ b. IsFine log m w (snd b)) (x >>= f)
  IsFine-bind fst snd m w x f h k =
      Ensures-bind (λ a. IsFine log m w (fst a)) (λ b. IsFine log m w (snd b)) x f h
        (λ a g.
          Ensures-mono (λ b. IsFine log (fst a).0.callbacks (fst a).1 (snd b))
            (λ b. IsFine log m w (snd b)) (f a) (k a g.logs)
            (λ b c. trans-IsFine m w (fst a) (snd b) g c))

  -- What is fine from a world is so from one before it with the same log.
  pub quiet_before :
      (m : Map ℕ (CallReturn W)) (w v : W) (x : Outcome (Client W × W))
      → log v ≡ log w
      → Ensures (IsFine log m v) x
      → Ensures (IsFine log m w) x
  quiet_before m w v x e h =
      Ensures-mono (IsFine log m v) (IsFine log m w) x h
        (λ p f. record { bound = λ k. rw (sym e) (f.bound k); logs = f.logs })

  invalidate_rop-kept : (s : Client W) → Ensures (λ t. t.callbacks ≡ s.callbacks) (invalidate_rop s)
  unfolding invalidate_rop
  invalidate_rop-kept s = elim (Option-cases s.rop) [
    | inl e ↦ rw (invalidate_rop, e) tt
    | inr (op, e) ↦ rw (invalidate_rop, e) refl
  ]

  -- `m_rop->invalidate()` and what follows it.
  pub after_invalidate {κ} :
      {B : Type κ} (snd : B → Client W × W) (s : Client W) (w : W) (f : Client W → Outcome B)
      → AllLogs log s.callbacks
      → ((t : Client W)
          → AllLogs log t.callbacks
          → Ensures (λ b. IsFine log t.callbacks w (snd b)) (f t))
      → Ensures (λ b. IsFine log s.callbacks w (snd b)) (invalidate_rop s >>= f)
  after_invalidate snd s w f h k =
      IsFine-bind (λ t. (t, w)) snd s.callbacks w (invalidate_rop s) f
        (Ensures-mono (λ t. t.callbacks ≡ s.callbacks) (λ t. IsFine log s.callbacks w (t, w))
          (invalidate_rop s) (invalidate_rop-kept s)
          (λ t e. record { bound = λ n. rw e (omega arith); logs = rw e h }))
        k

  pub read_callback_msg-IsFine :
      (s : Client W) (w : W)
      → AllLogs log s.callbacks
      → Ensures (IsFine log s.callbacks w) (read_callback_msg s w)
  unfolding read_callback_msg
  read_callback_msg-IsFine s w h =
      after_invalidate (λ b. b) s w
        (λ t. Reply.deserialize new_reply t.buf 0 >>= (λ p. ok (deliver t p.0 w))) h
        (λ t g.
          Ensures-after (IsFine log t.callbacks w) (Reply.deserialize new_reply t.buf 0)
            (λ p. ok (deliver t p.0 w)) (λ p. deliver-IsFine log t p.0 w g))
