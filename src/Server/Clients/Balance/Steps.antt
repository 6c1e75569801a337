-- ===== src/Server/Clients/Balance/Steps.antt =====
-- Every step of the server keeps its connections balanced, and what its end leaves.
use lib_streamlabs_ipc.Base.{
  ℕ, ◌+◌, ◌≤◌, ◌≡◌, ◌∙◌, refl, sym, ap, subst, inl, inr, true, false, not, Option, none, some, List,
  [], ◌∷◌, length, All, arith, if◌then◌else◌, Bool-cases, ok, ◌>>=◌, Ensures, Ensures-bind,
  Ensures-mono, Ensures-ok,
}
use lib_streamlabs_ipc.Bytes.{Bytes}
use lib_streamlabs_ipc.Map.{Map, contains, int64_key}
use lib_streamlabs_ipc.Map.Held.{count, count-append, held}
use lib_streamlabs_ipc.Os.{Error, connected}
use lib_streamlabs_ipc.Server.Clients.{
  new_server, set_call_timeout, set_connect_handler, set_disconnect_handler, Instances, Sockets,
  Server, kill_client, initialize, finalize, destroy_server, accept_client_cb, accept_socket,
  watch_socket, watch_pass,
}
use lib_streamlabs_ipc.Server.Clients.Schedule.{
  Running, Agrees, IsApart, Step, initialized, finalized, destroyed, watched, timed,
  connect_handled, disconnect_handled, elsewhere, Reach, fresh, later,
}
use lib_streamlabs_ipc.Server.Clients.Balance.{
  Balanced, Keeps, Settled, Agrees-Balanced, spawn_client-Keeps, kill_client-Keeps,
  finalize-Settled, destroy_server-Settled,
}

module _ {ℓ} {W I : Type ℓ} (instances : Instances W I) (platform : Sockets W)
    (opened closed : W → ℕ) (apart : IsApart platform opened closed) where
  initialize-Balanced :
      (path : Bytes) (s : Server W I) (w : W)
      → Balanced instances opened closed s w
      → Ensures
          (λ p. Balanced instances opened closed p.0 p.1)
          (initialize instances platform path s w)
  unfolding initialize
  initialize-Balanced path s w b =
      Ensures-bind _ (λ p. Balanced instances opened closed p.0 p.1) (platform.create path w) _
        (apart.create_agrees path w)
        (λ (socket, w1) (e, f). record {
          opens = b.opens;
          closes = b.closes;
          account = (let a = b.account in omega (arith, e, f, a));
          single = b.single;
          listed = λ k.
              (let l = b.listed k in
                let g = count-append k s.sockets (socket ∷ []) in omega (arith, l, g));
          bare = inl refl;
        })

  accept_client_cb-Keeps :
      (socket : ℕ) (called : Option Error) (s : Server W I) (w : W)
      → contains socket s.clients ≡ false
      → 1 ≤ count socket s.sockets
      → Balanced instances opened closed s w
      → Ensures
          (λ p. Keeps instances opened closed s p.0 p.1)
          (accept_client_cb instances platform socket called s w)
  unfolding accept_client_cb
  accept_client_cb-Keeps socket none s w h l b = record { balanced = b; same_sockets = refl }
  accept_client_cb-Keeps socket (some connected) s w h l b =
      spawn_client-Keeps instances opened closed socket s w h l b
  accept_client_cb-Keeps socket (some _) s w h l b = record { balanced = b; same_sockets = refl }

  abbrev AfterSocket : Server W I → Server W I × Map ℕ ℕ × W → Type ℓ
  AfterSocket s r = Keeps instances opened closed s r.0 r.2

  accept_socket-Keeps :
      (socket : ℕ) (s : Server W I) (pending : Map ℕ ℕ) (w : W)
      → contains socket s.clients ≡ false
      → 1 ≤ count socket s.sockets
      → Balanced instances opened closed s w
      → Ensures (AfterSocket s) (accept_socket instances platform socket s pending w)
  unfolding accept_socket
  accept_socket-Keeps socket s pending w h l b =
      Ensures-bind (λ r. Agrees opened closed w r.2) (AfterSocket s) (platform.accept socket w) _
        (apart.accept_agrees socket w)
        (λ (ec, called, w1) g.
          Ensures-bind (λ p. Keeps instances opened closed s p.0 p.1) (AfterSocket s)
            (accept_client_cb instances platform socket called s w1) _
            (accept_client_cb-Keeps socket called s w1 h l
              (Agrees-Balanced instances opened closed s w w1 g b))
            (λ p k. k))

  same_socket :
      (s : Server W I) (pending : Map ℕ ℕ) (w : W)
      → Balanced instances opened closed s w
      → Ensures (AfterSocket s) (ok (s, pending, w))
  same_socket s pending w b = record { balanced = b; same_sockets = refl }

  -- Behind the look at a socket with a client.
  checked_socket-Keeps :
      (socket : ℕ) (s : Server W I) (pending : Map ℕ ℕ) (w : W)
      → contains socket s.clients ≡ true
      → Balanced instances opened closed s w
      → let (alive, w1) = platform.is_connected socket w in
        Ensures (AfterSocket s) (
          if not alive
          then (do (s', w') ← kill_client instances socket s w1; ok (s', pending, w'))
          else ok (s, pending, w1))
  checked_socket-Keeps socket s pending w e b =
      let (alive, w1) = platform.is_connected socket w in
      let b1 =
        Agrees-Balanced instances opened closed s w w1 (apart.is_connected_agrees socket w) b in
      elim (Bool-cases alive) [
        | inl g ↦ rw g (same_socket s pending w1 b1)
        | inr g ↦ rw g (
            Ensures-bind (λ p. Keeps instances opened closed s p.0 p.1) (AfterSocket s)
              (kill_client instances socket s w1) (λ (s', w'). ok (s', pending, w'))
              (kill_client-Keeps instances opened closed socket s w1 e b1) (λ p k. k))
      ]

  watch_socket-Keeps :
      (socket : ℕ) (s : Server W I) (pending : Map ℕ ℕ) (w : W)
      → 1 ≤ count socket s.sockets
      → Balanced instances opened closed s w
      → Ensures (AfterSocket s) (watch_socket instances platform socket s pending w)
  unfolding watch_socket
  watch_socket-Keeps socket s pending w l b = elim (Bool-cases (contains socket s.clients)) [
    | inl e ↦ rw (watch_socket, e) (checked_socket-Keeps socket s pending w e b)
    | inr e ↦ elim (Bool-cases (contains socket pending)) [
      | inl g ↦ rw (watch_socket, e, g) (same_socket s pending w b)
      | inr g ↦ rw (watch_socket, e, g) (accept_socket-Keeps socket s pending w e l b)
    ]
  ]

  abbrev AllListed : List ℕ → List ℕ → Type 0
  AllListed sockets = All (λ k. 1 ≤ count k sockets)

  AllListed-weaken :
      (k : ℕ) (sockets : List ℕ) (xs : List ℕ) → AllListed sockets xs → AllListed (k ∷ sockets) xs
  AllListed-weaken k sockets [] h = tt
  AllListed-weaken k sockets (x ∷ xs) (h, hs) =
      (ground (arith, h), AllListed-weaken k sockets xs hs)

  AllListed-self : (sockets : List ℕ) → AllListed sockets sockets
  AllListed-self [] = tt
  AllListed-self (k ∷ sockets) =
      (ground arith, AllListed-weaken k sockets sockets (AllListed-self sockets))

  watch_pass-Keeps :
      (sockets : List ℕ) (s : Server W I) (pending : Map ℕ ℕ) (w : W)
      → AllListed s.sockets sockets
      → Balanced instances opened closed s w
      → Ensures (AfterSocket s) (watch_pass instances platform sockets s pending w)
  unfolding watch_pass
  watch_pass-Keeps [] s pending w h b = same_socket s pending w b
  watch_pass-Keeps (socket ∷ sockets) s pending w (h, hs) b =
      Ensures-bind (AfterSocket s) (AfterSocket s)
        (watch_socket instances platform socket s pending w)
        (λ (s', pending', w'). watch_pass instances platform sockets s' pending' w')
        (watch_socket-Keeps socket s pending w h b)
        (λ (s', pending', w') k.
          Ensures-mono (AfterSocket s') (AfterSocket s)
            (watch_pass instances platform sockets s' pending' w')
            (watch_pass-Keeps sockets s' pending' w' (rw (k.same_sockets) hs) k.balanced)
            (λ r g. record {
              balanced = g.balanced;
              same_sockets = g.same_sockets ∙ k.same_sockets;
            }))

  settled :
      (s : Server W I) (w : W)
      → Settled instances opened closed (some (s, w))
      → Balanced instances opened closed s w
  settled s w (p, e, b, g, f) =
      let same : (s, w) ≡ p = cc in
      subst (λ q. Balanced instances opened closed q.0 q.1) (sym same) b

  abbrev IsBalanced : Running W I → Type ℓ
  IsBalanced p = Balanced instances opened closed p.server p.world

  Step-IsBalanced :
      (p q : Running W I) → Step instances platform opened closed p q → IsBalanced p → IsBalanced q
  unfolding set_call_timeout set_connect_handler set_disconnect_handler
  Step-IsBalanced p q (initialized path s w e) b =
      Ensures-ok _ (initialize instances platform path p.server p.world) (s, w)
        (initialize-Balanced path p.server p.world b) e
  Step-IsBalanced p q (finalized s w e) b = settled s w (
      Ensures-ok _ (finalize instances p.server p.world) (some (s, w))
        (finalize-Settled instances opened closed p.server p.world b) e)
  Step-IsBalanced p q (destroyed s w e) b = settled s w (
      Ensures-ok _ (destroy_server instances p.server p.world) (some (s, w))
        (destroy_server-Settled instances opened closed p.server p.world b) e)
  Step-IsBalanced p q (watched s pending w g e) b =
      let kept =
        Ensures-ok (AfterSocket p.server)
          (watch_pass instances platform p.server.sockets p.server p.pending p.world)
          (s, pending, w)
          (watch_pass-Keeps p.server.sockets p.server p.pending p.world
            (AllListed-self p.server.sockets) b)
          e in
      kept.balanced
  Step-IsBalanced p q (timed timeout) b = record {
    opens = b.opens;
    closes = b.closes;
    account = b.account;
    single = b.single;
    listed = b.listed;
    bare = b.bare;
  }
  Step-IsBalanced p q (connect_handled handler h) b = record {
    opens = h;
    closes = b.closes;
    account = b.account;
    single = b.single;
    listed = b.listed;
    bare = b.bare;
  }
  Step-IsBalanced p q (disconnect_handled handler h) b = record {
    opens = b.opens;
    closes = h;
    account = b.account;
    single = b.single;
    listed = b.listed;
    bare = b.bare;
  }
  Step-IsBalanced p q (elsewhere w g) b =
      Agrees-Balanced instances opened closed p.server p.world w g b

  Reach-IsBalanced : (p : Running W I) → Reach instances platform opened closed p → IsBalanced p
  unfolding new_server set_connect_handler set_disconnect_handler
  Reach-IsBalanced p (fresh on_connect on_disconnect w h g e) = record {
    opens = h;
    closes = g;
    account = omega (arith, e);
    single = λ k. omega arith;
    listed = λ k. omega arith;
    bare = inr refl;
  }
  Reach-IsBalanced p (later r t) = Step-IsBalanced _ p t (Reach-IsBalanced _ r)

  -- Whatever order the operations of a server and the passes of its watcher run in: there are as many
  -- clients as have been opened and not closed, a socket has one at most, and a client has its socket in
  -- the list. "Opened" and "closed" are any two readings of the world that spawning and killing a
  -- client count up (with the handlers that are set), and that the sockets leave alone.
  pub Reach-balanced :
      (p : Running W I)
      → Reach instances platform opened closed p
      → (opened p.world ≡ closed p.world + length p.server.clients)
        × ((k : ℕ)
            → (held k p.server.clients ≤ 1) × (held k p.server.clients ≤ count k p.server.sockets))
  Reach-balanced p r = let b = Reach-IsBalanced p r in (b.account, λ k. (b.single k, b.listed k))

  -- When the destructor of a server returns, whatever order its operations and the passes of its watcher
  -- have run in before, it has come to the end of its loop, and every client that has been opened has
  -- been closed, as has every socket been dropped.
  pub destroy_server-closes :
      (p : Running W I)
      → Reach instances platform opened closed p
      → Ensures
          (λ r.
            (q : Server W I × W) × (r ≡ some q)
            × (opened q.1 ≡ closed q.1)
            × (q.0.clients ≡ [])
            × (q.0.sockets ≡ []))
          (destroy_server instances p.server p.world)
  destroy_server-closes p r =
      Ensures-mono (Settled instances opened closed) _ (destroy_server instances p.server p.world)
        (destroy_server-Settled instances opened closed p.server p.world (Reach-IsBalanced p r))
        (λ r (q, e, b, g, f).
          (q, e, (let a = b.account in let n = ap length g in omega (arith, a, n)), g, f))
