-- ===== src/Server/Clients/Schedule.antt =====
-- The life of an `ipc::server` (source/ipc-server.cpp) as steps of its two threads: the one that owns it
-- and the watcher. A pass over the sockets and `finalize` both hold `m_sockets_mtx`, and `initialize`
-- adds its socket under it, so that each is one step.
use lib_streamlabs_ipc.Base.{ℕ, ◌+◌, ◌≡◌, false, Option, some, [], ok, Ensures}
use lib_streamlabs_ipc.Bytes.{Bytes}
use lib_streamlabs_ipc.Map.{Map}
use lib_streamlabs_ipc.Server.Clients.{
  Instances, Sockets, Server, notify, new_server, set_call_timeout, set_connect_handler,
  set_disconnect_handler, initialize, finalize, destroy_server, watch_pass,
}

-- The server, the sockets that the watcher has in `pa_map`, and the world that handlers, instances
-- and sockets act on.
pub record Running {ℓ} (W I : Type ℓ) : Type ℓ where
  pub server : Server W I
  pub pending : Map ℕ ℕ
  pub world : W

-- Two readings of the world, of which one goes up where a client is spawned and the other where one is
-- killed: the instances created and destroyed, for one, or the calls of the two handlers.
module _ {ℓ} {W I : Type ℓ} (instances : Instances W I) (opened closed : W → ℕ) where
  abbrev pub Opens : Option (W → W) → Type ℓ
  Opens handler =
      (socket timeout : ℕ) (w : W)
      → (opened (notify handler (instances.create socket timeout w).1) ≡ opened w + 1)
        × (closed (notify handler (instances.create socket timeout w).1) ≡ closed w)

  abbrev pub Closes : Option (W → W) → Type ℓ
  Closes handler =
      (i : I) (w : W)
      → Ensures
          (λ w'.
            (opened (notify handler w') ≡ opened w) × (closed (notify handler w') ≡ closed w + 1))
          (instances.destroy i w)

module _ {ℓ} {W : Type ℓ} (opened closed : W → ℕ) where
  abbrev pub Agrees : W → W → Type 0
  Agrees v w = (opened w ≡ opened v) × (closed w ≡ closed v)

-- The sockets change neither reading.
pub record IsApart {ℓ} {W : Type ℓ} (platform : Sockets W) (opened closed : W → ℕ) : Type ℓ where
  pub create_agrees :
      (path : Bytes) (w : W) → Ensures (λ p. Agrees opened closed w p.1) (platform.create path w)
  pub is_connected_agrees :
      (socket : ℕ) (w : W) → Agrees opened closed w (platform.is_connected socket w).1
  pub accept_agrees :
      (socket : ℕ) (w : W) → Ensures (λ r. Agrees opened closed w r.2) (platform.accept socket w)

-- What happens to the server: its operations, a pass of the watcher that has seen `stop` unset, and
-- whatever the process does elsewhere. The handlers that are set go on with the two readings.
pub data Step {ℓ} {W I : Type ℓ} (instances : Instances W I) (platform : Sockets W)
    (opened closed : W → ℕ) (p : Running W I) : Running W I → Type ℓ where
  initialized :
      (path : Bytes) (s : Server W I) (w : W)
      → initialize instances platform path p.server p.world ≡ ok (s, w)
      → Step instances platform opened closed p
          (record { server = s; pending = p.pending; world = w })
  finalized :
      (s : Server W I) (w : W)
      → finalize instances p.server p.world ≡ ok (some (s, w))
      → Step instances platform opened closed p
          (record { server = s; pending = p.pending; world = w })
  destroyed :
      (s : Server W I) (w : W)
      → destroy_server instances p.server p.world ≡ ok (some (s, w))
      → Step instances platform opened closed p
          (record { server = s; pending = p.pending; world = w })
  watched :
      (s : Server W I) (pending : Map ℕ ℕ) (w : W)
      → p.server.stop ≡ false
      → watch_pass instances platform p.server.sockets p.server p.pending p.world
        ≡ ok (s, pending, w)
      → Step instances platform opened closed p
          (record { server = s; pending = pending; world = w })
  timed :
      (timeout : ℕ)
      → Step instances platform opened closed p (record {
        server = set_call_timeout p.server timeout;
        pending = p.pending;
        world = p.world;
      })
  connect_handled :
      (handler : Option (W → W))
      → Opens instances opened closed handler
      → Step instances platform opened closed p (record {
        server = set_connect_handler p.server handler;
        pending = p.pending;
        world = p.world;
      })
  disconnect_handled :
      (handler : Option (W → W))
      → Closes instances opened closed handler
      → Step instances platform opened closed p (record {
        server = set_disconnect_handler p.server handler;
        pending = p.pending;
        world = p.world;
      })
  elsewhere :
      (w : W)
      → Agrees opened closed p.world w
      → Step instances platform opened closed p
          (record { server = p.server; pending = p.pending; world = w })

-- From a new server with its two handlers.
pub data Reach {ℓ} {W I : Type ℓ} (instances : Instances W I) (platform : Sockets W)
    (opened closed : W → ℕ) : Running W I → Type ℓ where
  fresh :
      (on_connect on_disconnect : Option (W → W)) (w : W)
      → Opens instances opened closed on_connect
      → Closes instances opened closed on_disconnect
      → opened w ≡ closed w
      → Reach instances platform opened closed (record {
        server = set_disconnect_handler (set_connect_handler new_server on_connect) on_disconnect;
        pending = [];
        world = w;
      })
  later :
      {p q : Running W I}
      → Reach instances platform opened closed p
      → Step instances platform opened closed p q
      → Reach instances platform opened closed q
