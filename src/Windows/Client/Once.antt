-- ===== src/Windows/Client/Once.antt =====
-- How often the callback of a call runs, whatever order the threads run in. `log` is what the callbacks
-- leave behind: each puts its own number in front.
use lib_streamlabs_ipc.Base.{
  ℕ, ◌+◌, ◌≤◌, ◌≡◌, sym, inl, inr, some, List, [], ◌∷◌, All, arith, ◌==◌, ==_iff, Bool-cases,
  Option-cases,
}
use lib_streamlabs_ipc.Map.{Map, find, place, erase, int64_key}
use lib_streamlabs_ipc.Map.Held.{count, held, held-erase, held-find}
use lib_streamlabs_ipc.Value.{Value, ui64}
use lib_streamlabs_ipc.Message.Reply.{FunctionReply}
use lib_streamlabs_ipc.Osx.Client.{CallReturn, reply_values}
use lib_streamlabs_ipc.Windows.Client.{Client, deliver}

module _ {ℓ} {W : Type ℓ} (log : W → List ℕ) where
  -- A callback that logs its number and nothing else.
  abbrev pub Logs : ℕ → CallReturn W → Type ℓ
  Logs k cb = (vs : List Value) (w : W) → log (cb vs w) ≡ k ∷ log w

  some-inj : (c d : CallReturn W) → some c ≡ some d → c ≡ d
  some-inj c d e = cc

  abbrev pub AllLogs : Map ℕ (CallReturn W) → Type ℓ
  AllLogs = All (λ e. Logs e.0 e.1)

  pub erase-AllLogs : (k : ℕ) (m : Map ℕ (CallReturn W)) → AllLogs m → AllLogs (erase k m)
  unfolding erase
  erase-AllLogs k [] h = tt
  erase-AllLogs k ((j, cb) ∷ m) (h, hs) = elim (Bool-cases (j == k)) [
    | inl e ↦ rw e (erase-AllLogs k m hs)
    | inr e ↦ rw e (h, erase-AllLogs k m hs)
  ]

  pub place-AllLogs :
      (k : ℕ) (cb : CallReturn W) (m : Map ℕ (CallReturn W))
      → Logs k cb
      → AllLogs m
      → AllLogs (place k cb m)
  unfolding place
  place-AllLogs k cb [] h hs = (h, tt)
  place-AllLogs k cb ((j, c) ∷ m) h (g, gs) = elim (Bool-cases (int64_key.lt k j)) [
    | inl e ↦ rw e (h, (g, gs))
    | inr e ↦ rw e (g, place-AllLogs k cb m h gs)
  ]

  find-Logs :
      (k : ℕ) (cb : CallReturn W) (m : Map ℕ (CallReturn W))
      → AllLogs m
      → find k m ≡ some cb
      → Logs k cb
  unfolding find
  find-Logs k cb [] h e = absurd cc
  find-Logs k cb ((j, c) ∷ m) (h, hs) e = elim (Bool-cases (j == k)) [
    | inl f ↦
        let same : c ≡ cb = some-inj c cb (rw f at e) in rw (sym ((==_iff j k).0 f), sym same) h
    | inr f ↦ find-Logs k cb m hs (rw f at e)
  ]

  abbrev pub total : ℕ → Map ℕ (CallReturn W) → W → ℕ
  total k m w = held k m + count k (log w)

  -- No number has become more frequent in the map and the log together.
  pub record IsFine (m : Map ℕ (CallReturn W)) (w : W) (p : Client W × W) : Type ℓ where
    pub bound : (k : ℕ) → total k p.0.callbacks p.1 ≤ total k m w
    pub logs : AllLogs p.0.callbacks

  pub deliver-IsFine :
      (s : Client W) (r : FunctionReply) (w : W)
      → AllLogs s.callbacks
      → IsFine s.callbacks w (deliver s r w)
  unfolding deliver
  deliver-IsFine s r w h = elim (Option-cases (find (ui64 r.uid) s.callbacks)) [
    | inl e ↦ rw (deliver, e) (record { bound = λ k. omega arith; logs = h })
    | inr (cb, e) ↦
        let uid = ui64 r.uid in
        let one = held-find uid cb s.callbacks e in
        let mark = find-Logs uid cb s.callbacks h e (reply_values r) w in
        rw (deliver, e)
          (record {
            bound = λ k. rw mark (ground (arith, held-erase uid k s.callbacks, one));
            logs = erase-AllLogs uid s.callbacks h;
          })
  ]
