-- ===== src/Server/Clients/Balance.antt =====
-- What the server keeps of its connections, whatever order its operations and the watcher run in.
pub mod Steps
use lib_streamlabs_ipc.Base.{
  ℕ, zero, suc, ◌+◌, ◌≤◌, ◌≡◌, ◌⊎◌, refl, inl, inr, Bool, true, false, not, Option, none, some,
  List, [], ◌∷◌, ◌++◌, length, All, arith, if◌then◌else◌, ◌==◌, Bool-cases, ok, ◌>>=◌, Ensures,
  Ensures-bind, Ensures-after, Ensures-mono, Ensures-both, Ensures-ok,
}
use lib_streamlabs_ipc.Bytes.{Bytes}
use lib_streamlabs_ipc.Map.{
  Map, find, contains, insert_or_assign, place, erase, int64_key, eq_self, find-contains,
  contains-find,
}
use lib_streamlabs_ipc.Map.Held.{
  count, count-append, held, held-erase, held-place, contains-held, length-erase_once, length-place,
}
use lib_streamlabs_ipc.Os.{Error, connected, is_success}
use lib_streamlabs_ipc.Server.Clients.{
  Instances, Sockets, Server, destroy_entry, notify, spawn_client, kill_client, kill_all,
  clear_sockets, stop_watcher, initialize, finalize, destroy_server, accept_client_cb,
  accept_socket, watch_socket, watch_pass,
}
use lib_streamlabs_ipc.Server.Clients.Lifecycle.{entries-cases, IsEmptied, kill_all-IsEmptied}
use lib_streamlabs_ipc.Server.Clients.Schedule.{
  Running, Opens, Closes, Agrees, IsApart, Step, initialized, finalized, destroyed, watched, timed,
  connect_handled, disconnect_handled, elsewhere, Reach, fresh, later,
}

module _ {ℓ} {W I : Type ℓ} (instances : Instances W I) (opened closed : W → ℕ) where
  -- The handlers go on with the two readings; the clients are what has been opened and not closed, one at
  -- most to a socket and none without one; and the sockets of a server come from `initialize`.
  pub record Balanced (s : Server W I) (w : W) : Type ℓ where
    pub opens : Opens instances opened closed s.handler_connect
    pub closes : Closes instances opened closed s.handler_disconnect
    pub account : opened w ≡ closed w + length s.clients
    pub single : (k : ℕ) → held k s.clients ≤ 1
    pub listed : (k : ℕ) → held k s.clients ≤ count k s.sockets
    pub bare : (s.is_initialized ≡ true) ⊎ (s.sockets ≡ [])

  -- What a call that leaves the list of sockets alone comes to.
  pub record Keeps (s : Server W I) (s' : Server W I) (w' : W) : Type ℓ where
    pub balanced : Balanced s' w'
    pub same_sockets : s'.sockets ≡ s.sockets

  pub Agrees-Balanced :
      (s : Server W I) (v w : W) → Agrees opened closed v w → Balanced s v → Balanced s w
  Agrees-Balanced s v w (e, f) b = record {
    opens = b.opens;
    closes = b.closes;
    account = (let a = b.account in omega (arith, e, f, a));
    single = b.single;
    listed = b.listed;
    bare = b.bare;
  }

  pub spawn_client-Keeps :
      (socket : ℕ) (s : Server W I) (w : W)
      → contains socket s.clients ≡ false
      → 1 ≤ count socket s.sockets
      → Balanced s w
      → Ensures (λ p. Keeps s p.0 p.1) (spawn_client instances socket s w)
  unfolding spawn_client insert_or_assign
  spawn_client-Keeps socket s w h l b =
      let (e, f) = b.opens socket s.call_timeout w in
      let i = (instances.create socket s.call_timeout w).0 in
      let a = b.account in
      let none_held = contains-held socket s.clients h in
      rw (find-contains socket s.clients h, h)
        (record {
          balanced = record {
            opens = b.opens;
            closes = b.closes;
            account = (let g = length-place socket i s.clients in omega (arith, e, f, a, g));
            single = λ k.
                (let g = held-place socket k i s.clients in
                  let o = b.single k in ground (arith, g, o, none_held));
            listed = λ k.
                (let g = held-place socket k i s.clients in
                  let o = b.listed k in ground (arith, g, o, none_held));
            bare = b.bare;
          };
          same_sockets = refl;
        })

  pub kill_client-Keeps :
      (socket : ℕ) (s : Server W I) (w : W)
      → contains socket s.clients ≡ true
      → Balanced s w
      → Ensures (λ p. Keeps s p.0 p.1) (kill_client instances socket s w)
  unfolding kill_client
  kill_client-Keeps socket s w h b =
      let (i, found) = contains-find socket s.clients h in
      let a = b.account in
      let one = length-erase_once socket i s.clients (b.single socket) found in
      rw found (
        Ensures-bind _ (λ p. Keeps s p.0 p.1) (instances.destroy i w)
          (λ w1. ok (record s { clients = erase socket s.clients }, notify s.handler_disconnect w1))
          (b.closes i w)
          (λ w1 (e, f). record {
            balanced = record {
              opens = b.opens;
              closes = b.closes;
              account = omega (arith, e, f, a, one);
              single = λ k.
                  (let g = held-erase socket k s.clients in
                    let o = b.single k in ground (arith, g, o));
              listed = λ k.
                  (let g = held-erase socket k s.clients in
                    let o = b.listed k in ground (arith, g, o));
              bare = b.bare;
            };
            same_sockets = refl;
          }))

  abbrev WhereEnded : (Server W I → W → Type ℓ) → Option (Server W I × W) → Type ℓ
  WhereEnded P none = Unit {ℓ}
  WhereEnded P (some p) = P p.0 p.1

  kill_all-Balanced :
      (fuel : ℕ) (s : Server W I) (w : W)
      → Balanced s w
      → Ensures (WhereEnded Balanced) (kill_all instances fuel s w)
  unfolding kill_all contains
  kill_all-Balanced zero s w b = elim (entries-cases s.clients) [
    | inl e ↦ rw (kill_all, e) b
    | inr (k, i, rest, e) ↦ rw (kill_all, e) tt
  ]
  kill_all-Balanced (suc fuel) s w b = elim (entries-cases s.clients) [
    | inl e ↦ rw (kill_all, e) b
    | inr (k, i, rest, e) ↦
        rw (kill_all, e)
          (Ensures-bind (λ p. Keeps s p.0 p.1) (WhereEnded Balanced) (kill_client instances k s w)
            (λ (s', w'). kill_all instances fuel s' w')
            (kill_client-Keeps k s w (rw (e, eq_self k) refl) b)
            (λ (s', w') g. kill_all-Balanced fuel s' w' g.balanced))
  ]

  cleared-Balanced :
      (s : Server W I) (w : W)
      → s.clients ≡ []
      → Balanced s w
      → Balanced (record s { sockets = [] }) w
  cleared-Balanced s w e b = record {
    opens = b.opens;
    closes = b.closes;
    account = b.account;
    single = b.single;
    listed = λ k. rw e (omega arith);
    bare = inr refl;
  }

  stopped-Balanced : (s : Server W I) (w : W) → Balanced s w → Balanced (record s { stop = true }) w
  stopped-Balanced s w b = record {
    opens = b.opens;
    closes = b.closes;
    account = b.account;
    single = b.single;
    listed = b.listed;
    bare = b.bare;
  }

  -- What `finalize` comes to, of an initialized server and of another.
  abbrev pub Settled : Option (Server W I × W) → Type ℓ
  Settled r =
      (p : Server W I × W) × (r ≡ some p)
      × Balanced p.0 p.1
      × (p.0.clients ≡ [])
      × (p.0.sockets ≡ [])

  none_listed : (k : ℕ) (m : Map ℕ I) (sockets : List ℕ) → m ≡ [] → held k m ≤ count k sockets
  none_listed k m sockets e = rw e (omega arith)

  kept_empty : (s : Server W I) (w : W) → s.sockets ≡ [] → Balanced s w → s.clients ≡ []
  kept_empty s w e b = elim (entries-cases s.clients) [
    | inl g ↦ g
    | inr (k, i, rest, g) ↦
        let l = b.listed k in
        absurd
          (let l' : held k ((k, i) ∷ rest) ≤ 0 = rw (e, g) at l in ground (arith, l', eq_self k))
  ]

  kill_all-Settled :
      (s : Server W I) (w : W)
      → Balanced s w
      → Ensures Settled
          (kill_all instances (length s.clients) s w >>= (λ r. ok (clear_sockets instances r)))
  kill_all-Settled s w b =
      Ensures-bind (λ r. IsEmptied r × WhereEnded Balanced r) Settled
        (kill_all instances (length s.clients) s w) (λ r. ok (clear_sockets instances r))
        (Ensures-both IsEmptied (WhereEnded Balanced) (kill_all instances (length s.clients) s w)
          (kill_all-IsEmptied instances (length s.clients) s w (omega arith))
          (kill_all-Balanced (length s.clients) s w b))
        (λ r ((p, e, g), h). rw e (
          (record p.0 { sockets = [] }, p.1),
          refl,
          cleared-Balanced p.0 p.1 g (rw e at h),
          g,
          refl,
        ))

  chosen-Settled :
      (s : Server W I) (w : W) (initialized : Bool)
      → (initialized ≡ true) ⊎ (s.sockets ≡ [])
      → Balanced s w
      → Ensures Settled (
          if not initialized
          then ok (some (s, w))
          else (kill_all instances (length s.clients) s w
              >>= (λ r. ok (clear_sockets instances r))))
  chosen-Settled s w true h b = kill_all-Settled s w b
  chosen-Settled s w false (inl e) b = absurd cc
  chosen-Settled s w false (inr e) b = ((s, w), refl, b, kept_empty s w e b, e)

  pub finalize-Settled :
      (s : Server W I) (w : W) → Balanced s w → Ensures Settled (finalize instances s w)
  unfolding finalize
  finalize-Settled s w b = chosen-Settled s w s.is_initialized b.bare b

  pub destroy_server-Settled :
      (s : Server W I) (w : W) → Balanced s w → Ensures Settled (destroy_server instances s w)
  unfolding destroy_server
  destroy_server-Settled s w b =
      Ensures-bind Settled Settled (finalize instances s w) (λ r. ok (stop_watcher instances r))
        (finalize-Settled s w b)
        (λ r (p, e, h, g, f).
          rw e ((record p.0 { stop = true }, p.1), refl, stopped-Balanced p.0 p.1 h, g, f))
