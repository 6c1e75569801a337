-- ===== src/Server/Clients/Lifecycle.antt =====
-- What `finalize` leaves, and what a pass of the watcher does with sockets that connect at once.
use lib_streamlabs_ipc.Base.{
  ℕ, zero, suc, ◌≤◌, ◌≡◌, ◌⊎◌, refl, sym, subst, ap, true, false, not, Option, some, List, [], ◌∷◌,
  length, All, arith, if◌then◌else◌, Bool-cases, inl, inr, ok, ◌>>=◌, Ensures, Ensures-bind,
  Ensures-after, Ensures-mono,
}
use lib_streamlabs_ipc.Map.{
  Map, find, contains, insert_or_assign, erase, int64_key, eq_self, contains-insert_or_assign,
}
use lib_streamlabs_ipc.Map.Held.{length-erase}
use lib_streamlabs_ipc.Os.{connected, is_success}
use lib_streamlabs_ipc.Server.Clients.{
  Instances, Sockets, Server, destroy_entry, notify, spawn_client, kill_client, kill_all,
  clear_sockets, finalize, accept_client_cb, accept_socket, watch_socket, watch_pass,
}

length-erase_first {ℓ} :
    {V : Type ℓ} (k : ℕ) (v : V) (m : Map ℕ V) → length (erase k ((k, v) ∷ m)) ≤ length m
unfolding erase
length-erase_first k v m = let e = length-erase k m in rw (eq_self k) (omega (arith, e))

pub entries-cases {ℓ} :
    {V : Type ℓ} (m : Map ℕ V)
    → (m ≡ []) ⊎ ((k : ℕ) × (v : V) × (rest : Map ℕ V) × (m ≡ (k, v) ∷ rest))
entries-cases [] = inl refl
entries-cases ((k, v) ∷ rest) = inr (k, v, rest, refl)

-- A run that came to its end and has left no client.
abbrev pub IsEmptied {ℓ} : {W I : Type ℓ} → Option (Server W I × W) → Type ℓ
IsEmptied r = (p : _) × (r ≡ some p) × (p.0.clients ≡ [])

module _ {ℓ} {W I : Type ℓ} (instances : Instances W I) where
  kill_client-clients :
      (k : ℕ) (s : Server W I) (w : W)
      → Ensures (λ p. p.0.clients ≡ erase k s.clients) (kill_client instances k s w)
  unfolding kill_client
  kill_client-clients k s w =
      Ensures-after (λ p. p.0.clients ≡ erase k s.clients)
        (destroy_entry instances (find k s.clients) w)
        (λ w1. ok (record s { clients = erase k s.clients }, notify s.handler_disconnect w1))
        (λ w1. refl)

  none_left :
      (fuel : ℕ) (s : Server W I) (w : W)
      → s.clients ≡ []
      → Ensures IsEmptied (kill_all instances fuel s w)
  unfolding kill_all
  none_left zero s w e = rw (kill_all, e) ((s, w), refl, e)
  none_left (suc fuel) s w e = rw (kill_all, e) ((s, w), refl, e)

  -- As much fuel as there are clients is enough.
  pub kill_all-IsEmptied :
      (fuel : ℕ) (s : Server W I) (w : W)
      → length s.clients ≤ fuel
      → Ensures IsEmptied (kill_all instances fuel s w)
  unfolding kill_all
  kill_all-IsEmptied zero s w h = elim (entries-cases s.clients) [
    | inl e ↦ none_left zero s w e
    | inr (k, v, rest, e) ↦ absurd (omega (arith, ap length e))
  ]
  kill_all-IsEmptied (suc fuel) s w h = elim (entries-cases s.clients) [
    | inl e ↦ none_left (suc fuel) s w e
    | inr (k, v, rest, e) ↦
        let bound = length-erase_first k v rest in
        let shorter : length (erase k s.clients) ≤ fuel = rw e (omega (arith, ap length e)) in
        rw (kill_all, e)
          (Ensures-bind (λ p. p.0.clients ≡ erase k s.clients) IsEmptied
            (kill_client instances k s w) (λ (s', w'). kill_all instances fuel s' w')
            (kill_client-clients k s w)
            (λ (s', w') g. kill_all-IsEmptied fuel s' w' (rw g shorter)))
  ]

  -- `finalize` of an initialized server comes to its end, unless a destructor fails, and leaves neither
  -- a client nor a socket.
  pub finalize-IsEmptied :
      (s : Server W I) (w : W)
      → s.is_initialized ≡ true
      → Ensures
          (λ r. (p : Server W I × W) × (r ≡ some p) × (p.0.clients ≡ []) × (p.0.sockets ≡ []))
          (finalize instances s w)
  unfolding finalize
  finalize-IsEmptied s w h =
      subst
        (λ b.
          Ensures
            (λ r. (p : Server W I × W) × (r ≡ some p) × (p.0.clients ≡ []) × (p.0.sockets ≡ []))
            (if not b
              then ok (some (s, w))
              else (kill_all instances (length s.clients) s w
                  >>= (λ r. ok (clear_sockets instances r)))))
        (sym h)
        (Ensures-bind IsEmptied
          (λ r. (p : Server W I × W) × (r ≡ some p) × (p.0.clients ≡ []) × (p.0.sockets ≡ []))
          (kill_all instances (length s.clients) s w) (λ r. ok (clear_sockets instances r))
          (kill_all-IsEmptied (length s.clients) s w (omega arith))
          (λ r (p, e, g). rw e ((record p.0 { sockets = [] }, p.1), refl, g, refl)))

module _ {ℓ} {W I : Type ℓ} (instances : Instances W I) (platform : Sockets W) where
  -- Sockets whose `accept` connects at once and that never disconnect, as those of macOS are.
  pub record ConnectsAtOnce : Type ℓ where
    pub stays : (socket : ℕ) (w : W) → platform.is_connected socket w ≡ (true, w)
    pub w_after : ℕ → W → W
    pub accepts :
        (socket : ℕ) (w : W)
        → platform.accept socket w ≡ ok (connected, some connected, w_after socket w)

  -- What a pass keeps and adds, for the clients `m` before it and the sockets it looks at.
  pub record Gains (sockets : List ℕ) (m : Map ℕ I) (r : Server W I × Map ℕ ℕ × W) : Type 0 where
    pub added : All (λ k. contains k r.0.clients ≡ true) sockets
    pub kept : (k : ℕ) → contains k m ≡ true → contains k r.0.clients ≡ true
    pub none_pending : r.1 ≡ []

  spawn_client-clients :
      (socket : ℕ) (s : Server W I) (w : W)
      → contains socket s.clients ≡ false
      → Ensures
          (λ p.
            (contains socket p.0.clients ≡ true)
            × ((k : ℕ) → contains k s.clients ≡ true → contains k p.0.clients ≡ true))
          (spawn_client instances socket s w)
  unfolding spawn_client
  spawn_client-clients socket s w h =
      let (client, w1) = instances.create socket s.call_timeout w in
      let P : Server W I × W → Type 0 = (λ p.
        (contains socket p.0.clients ≡ true)
        × ((k : ℕ) → contains k s.clients ≡ true → contains k p.0.clients ≡ true)) in
      Ensures-after P
        (destroy_entry instances (find socket s.clients) (notify s.handler_connect w1))
        (λ w2. ok (record s { clients = insert_or_assign socket client s.clients }, w2))
        (λ w2. (
          rw (contains-insert_or_assign socket socket client s.clients h, eq_self socket),
          λ k g. ground (arith, contains-insert_or_assign socket k client s.clients h, g),
        ))

  watch_socket-Gains :
      (c : ConnectsAtOnce) (socket : ℕ) (s : Server W I) (w : W)
      → Ensures (Gains (socket ∷ []) s.clients) (watch_socket instances platform socket s [] w)
  unfolding watch_socket accept_socket accept_client_cb contains is_success
  watch_socket-Gains c socket s w = elim (Bool-cases (contains socket s.clients)) [
    | inl e ↦
        rw (watch_socket, e, c.stays socket w)
          (record { added = (e, tt); kept = λ k h. h; none_pending = refl })
    | inr e ↦
        rw (watch_socket, e, accept_socket, c.accepts socket w)
          (Ensures-bind _ (Gains (socket ∷ []) s.clients)
            (spawn_client instances socket s (c.w_after socket w)) (λ x. ok (x.0, [], x.1))
            (spawn_client-clients socket s (c.w_after socket w) e)
            (λ x (here, rest). record { added = (here, tt); kept = rest; none_pending = refl }))
  ]

  -- Over sockets that connect at once and never disconnect, and with none pending, one pass of the
  -- watcher leaves a client for every socket of its list, loses none, and leaves none pending,
  -- unless a destructor fails.
  pub watch_pass-Gains :
      (c : ConnectsAtOnce) (sockets : List ℕ) (s : Server W I) (w : W)
      → Ensures (Gains sockets s.clients) (watch_pass instances platform sockets s [] w)
  unfolding watch_pass
  watch_pass-Gains c [] s w = record { added = tt; kept = λ k h. h; none_pending = refl }
  watch_pass-Gains c (socket ∷ sockets) s w =
      Ensures-bind (Gains (socket ∷ []) s.clients) (Gains (socket ∷ sockets) s.clients)
        (watch_socket instances platform socket s [] w)
        (λ (s', pending', w'). watch_pass instances platform sockets s' pending' w')
        (watch_socket-Gains c socket s w)
        (λ (s', pending', w') g. rw g.none_pending (
          Ensures-mono (Gains sockets s'.clients) (Gains (socket ∷ sockets) s.clients)
            (watch_pass instances platform sockets s' [] w') (watch_pass-Gains c sockets s' w')
            (λ r h. record {
              added = (h.kept socket (g.added.0), h.added);
              kept = λ k e. h.kept k (g.kept k e);
              none_pending = h.none_pending;
            })))
