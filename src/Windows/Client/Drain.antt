-- ===== src/Windows/Client/Drain.antt =====
-- The end of the worker of the Windows client (source/windows/ipc-client-win.cpp) and the callbacks that
-- it finds.
use lib_streamlabs_ipc.Base.{
  ℕ, ◌+◌, ◌≡◌, refl, ap, ◌∙◌, Bool, true, false, Option, none, some, List, [], ◌∷◌, arith,
  if◌then◌else◌, Ensures, Ensures-bind, Ensures-ok, ok,
}
use lib_streamlabs_ipc.Map.{Map, int64_key}
use lib_streamlabs_ipc.Osx.Client.{CallReturn}
use lib_streamlabs_ipc.Windows.Utility.{ErrorCodes}
use lib_streamlabs_ipc.Windows.Socket
use lib_streamlabs_ipc.Windows.Socket.{PipeSystem, is_connected}
use lib_streamlabs_ipc.Windows.Client.{Client, Waiting, lost_values}
use lib_streamlabs_ipc.Windows.Client.Worker.{check_socket, call_lost, worker_end}
use lib_streamlabs_ipc.Map.Held.{held, count}
use lib_streamlabs_ipc.Windows.Client.Once.{AllLogs}
use lib_streamlabs_ipc.Windows.Client.Rounds.{check_socket-kept}

module _ {ℓ} {W : Type ℓ} (log : W → List ℕ) where
  -- The callbacks that are left run once each.
  call_lost-log :
      (k : ℕ) (m : Map ℕ (CallReturn W)) (w : W)
      → AllLogs log m
      → count k (log (call_lost m w)) ≡ held k m + count k (log w)
  unfolding call_lost
  call_lost-log k [] w h = ground arith
  call_lost-log k ((id, cb) ∷ rest) w (h, hs) =
      let e = call_lost-log k rest (cb lost_values w) hs in
      let f = h lost_values w in rw e (rw f (ground arith))

  -- `m_disconnectionCallback` runs no callback of a call.
  abbrev pub IsSilent : Option (W → W) → Type ℓ
  IsSilent on_disconnect = (f : W → W) → on_disconnect ≡ some f → (w : W) → log (f w) ≡ log w

  disconnect-log :
      (alive : Bool) (on_disconnect : Option (W → W)) (w : W)
      → IsSilent on_disconnect
      → log (if alive then w else elim on_disconnect [ none ↦ w | some f ↦ f w ]) ≡ log w
  disconnect-log true g w h = refl
  disconnect-log false none w h = refl
  disconnect-log false (some f) w h = h f refl w

  -- What is true of the client and the world that `worker` leaves.
  abbrev pub Drained : Client W → W → Client W × W → Type ℓ
  Drained s w r =
      (r.0.callbacks ≡ []) × ((k : ℕ) → count k (log r.1) ≡ held k s.callbacks + count k (log w))

  worker_end_returns :
      (system : PipeSystem W) (error_codes : ErrorCodes) (waiting : Waiting W)
      (on_disconnect : Option (W → W)) (socket : Socket.Socket) (s : Client W) (w : W)
      → s.socket ≡ some socket
      → (r : Client W × W) × (worker_end system error_codes waiting on_disconnect s w ≡ ok r)
  unfolding worker_end check_socket
  worker_end_returns system error_codes waiting on_disconnect socket s w e =
      let w1 = call_lost s.callbacks w in
      let r = is_connected system socket w1 in
      (
        (
          record s { callbacks = []; socket = some r.1 },
          if r.0 then w1 else elim on_disconnect [ none ↦ w1 | some f ↦ f w1 ],
        ),
        rw (worker_end, check_socket, e) refl,
      )

  pub worker_end-Drained :
      (system : PipeSystem W) (error_codes : ErrorCodes) (waiting : Waiting W)
      (on_disconnect : Option (W → W)) (s : Client W) (w : W)
      → AllLogs log s.callbacks
      → IsSilent on_disconnect
      → Ensures (Drained s w) (worker_end system error_codes waiting on_disconnect s w)
  unfolding worker_end
  worker_end-Drained system error_codes waiting on_disconnect s w h g =
      let w1 = call_lost s.callbacks w in
      Ensures-bind (λ r. r.1.callbacks ≡ []) (Drained s w)
        (check_socket system error_codes waiting (record s { callbacks = [] }) w1)
        (λ r. ok (r.1, if r.0 then w1 else elim on_disconnect [ none ↦ w1 | some f ↦ f w1 ]))
        (check_socket-kept system error_codes waiting (record s { callbacks = [] }) w1)
        (λ r e. (
          e,
          λ k.
              ap (count k) (disconnect-log r.0 on_disconnect w1 g)
              ∙ call_lost-log k s.callbacks w h,
        ))

  -- On a client with a socket the end of the worker returns: each callback that is still stored has run
  -- once then, and none stays stored, for callbacks that do no more than log their numbers and a
  -- disconnection callback that logs nothing.
  pub worker_end-drains :
      (system : PipeSystem W) (error_codes : ErrorCodes) (waiting : Waiting W)
      (on_disconnect : Option (W → W)) (socket : Socket.Socket) (s : Client W) (w : W)
      → s.socket ≡ some socket
      → AllLogs log s.callbacks
      → IsSilent on_disconnect
      → (r : Client W × W) × (worker_end system error_codes waiting on_disconnect s w ≡ ok r)
        × Drained s w r
  worker_end-drains system error_codes waiting on_disconnect socket s w e h g =
      let (r, f) = worker_end_returns system error_codes waiting on_disconnect socket s w e in
      (
        r,
        f,
        Ensures-ok (Drained s w) (worker_end system error_codes waiting on_disconnect s w) r
            (worker_end-Drained system error_codes waiting on_disconnect s w h g) f,
      )
