-- ===== src/Windows/Connections/Watching.antt =====
-- The watcher of a server with a Windows pipe (source/ipc-server.cpp over
-- source/windows/ipc-socket-win.cpp), from round to round.
use lib_streamlabs_ipc.Base.{
  ℕ, ◌≡◌, refl, ◌∙◌, ap, true, false, List, [], ◌∷◌, Outcome, if◌then◌else◌, ok, ◌>>=◌,
}
use lib_streamlabs_ipc.Map.{
  Map, contains, insert_or_assign, int64_key, find-contains, contains-insert_or_assign, eq_self,
}
use lib_streamlabs_ipc.Os.{pending, connected, is_success}
use lib_streamlabs_ipc.Windows.Utility.{ErrorCodes}
use lib_streamlabs_ipc.Windows.Socket.{Socket, PipeSystem}
use lib_streamlabs_ipc.Windows.Connections.{pipe_sockets}
use lib_streamlabs_ipc.Server.Clients.{
  Instances, Server, notify, spawn_client, accept_client_cb, accept_socket, watch_socket,
  watch_pass, watcher,
}
use lib_streamlabs_ipc.Windows.Connections.Polling.{
  status, given_up, accept_pipe-pending, accept_pipe-told,
}

-- The rounds of the watcher up to the one in which a client is there: each gives up on its connection,
-- the process and its peer go on meanwhile, and the last finds the peer connected.
pub data Comes {ℓ} {W : Type ℓ} (system : PipeSystem W) (error_codes : ErrorCodes)
    : List (W → W) → W → Type ℓ where
  now :
      (meanwhile : W → W) (w : W)
      → status system error_codes w ≡ connected
      → Comes system error_codes (meanwhile ∷ []) w
  missed :
      (meanwhile : W → W) (rounds : List (W → W)) (w : W)
      → status system error_codes w ≡ pending
      → Comes system error_codes rounds (meanwhile (given_up system error_codes w))
      → Comes system error_codes (meanwhile ∷ rounds) w

module _ {ℓ} {W I : Type ℓ} (instances : Instances (Socket × W) I) (system : PipeSystem W)
    (error_codes : ErrorCodes) where
  spawn_client-new :
      (socket : ℕ) (s : Server (Socket × W) I) (v : Socket × W)
      → contains socket s.clients ≡ false
      → (r : _) × (spawn_client instances socket s v ≡ ok r) × (contains socket r.0.clients ≡ true)
  unfolding spawn_client
  spawn_client-new socket s v h =
      let (client, v1) = instances.create socket s.call_timeout v in
      (
        (
          record s { clients = insert_or_assign socket client s.clients },
          notify s.handler_connect v1,
        ),
        rw (find-contains socket s.clients h) refl,
        rw (contains-insert_or_assign socket socket client s.clients h, eq_self socket) refl,
      )

  pass-pending :
      (s : Server (Socket × W) I) (pa_map : Map ℕ ℕ) (pipe : Socket) (w : W)
      → contains 0 s.clients ≡ false
      → contains 0 pa_map ≡ false
      → pipe.created ≡ true
      → status system error_codes w ≡ pending
      → watch_pass instances (pipe_sockets system error_codes) (0 ∷ []) s pa_map (pipe, w)
        ≡ ok (s, pa_map, (pipe, given_up system error_codes w))
  unfolding watch_pass watch_socket accept_socket accept_client_cb pipe_sockets is_success
  pass-pending s pa_map pipe w h g c e =
      rw
        (
          watch_pass,
          watch_socket,
          accept_socket,
          h,
          g,
          accept_pipe-pending system error_codes 0 pipe w c e,
        )
        refl

  pass-connected :
      (s : Server (Socket × W) I) (pa_map : Map ℕ ℕ) (pipe : Socket) (w : W)
      → contains 0 s.clients ≡ false
      → contains 0 pa_map ≡ false
      → pipe.created ≡ true
      → status system error_codes w ≡ connected
      → (r : _) × (watch_pass instances
            (pipe_sockets system error_codes)
            (0 ∷ [])
            s
            pa_map
            (pipe, w)
          ≡ ok r)
        × (contains 0 r.0.clients ≡ true)
        × (r.1 ≡ pa_map)
  unfolding watch_pass watch_socket accept_socket accept_client_cb pipe_sockets is_success
  pass-connected s pa_map pipe w h g c e =
      let (pipe', accepted) = accept_pipe-told system error_codes 0 pipe w c (rw e refl) in
      let (r, spawned, there) = spawn_client-new 0 s (pipe', (system.connect w).1) h in
      (
        (r.0, pa_map, r.1),
        rw (watch_pass, watch_socket, accept_socket, h, g, accepted, e, spawned) refl,
        there,
        refl,
      )

  -- What happens to the world of the system meanwhile, beside the socket.
  abbrev pub beside_socket : List (W → W) → List (Socket × W → Socket × W)
  beside_socket [] = []
  beside_socket (f ∷ fs) = (λ (pipe, w). (pipe, f w)) ∷ beside_socket fs

  abbrev Seen : Type ℓ
  Seen = Server (Socket × W) I × Map ℕ ℕ × (Socket × W)

  -- A round of the watcher of a server with one pipe, whose pass has come to `r`.
  watcher_step :
      (meanwhile : W → W) (rounds : List (W → W)) (s : Server (Socket × W) I) (pa_map : Map ℕ ℕ)
      (v : Socket × W) (r : Seen)
      → s.stop ≡ false
      → s.sockets ≡ 0 ∷ []
      → watch_pass instances (pipe_sockets system error_codes) (0 ∷ []) s pa_map v ≡ ok r
      → watcher instances
          (pipe_sockets system error_codes)
          (beside_socket (meanwhile ∷ rounds))
          s
          pa_map
          v
        ≡ watcher instances
            (pipe_sockets system error_codes)
            (beside_socket rounds)
            r.0
            r.1
            (r.2.0, meanwhile r.2.1)
  unfolding watcher
  watcher_step meanwhile rounds s pa_map v r live one passed =
      let pass : List ℕ → Outcome Seen =
        λ l. watch_pass instances (pipe_sockets system error_codes) l s pa_map v in
      let rest : Seen → Outcome Seen = λ (s', pa', (pipe', w')).
        watcher instances (pipe_sockets system error_codes) (beside_socket rounds) s' pa'
          (pipe', meanwhile w') in
      ap (λ b. if b then ok (s, pa_map, v) else (pass s.sockets >>= rest)) live
      ∙ ap (λ l. pass l >>= rest) one
      ∙ ap (λ o. o >>= rest) passed

  -- A server that runs, with one pipe that was created and no client of it yet. Whenever a peer has
  -- connected before one of the rounds of its watcher, which find nobody there and give up their wait
  -- until then, the server has a client when that round is over, and no round fails.
  pub watcher-connects :
      (rounds : List (W → W)) (s : Server (Socket × W) I) (pa_map : Map ℕ ℕ) (pipe : Socket) (w : W)
      → s.stop ≡ false
      → s.sockets ≡ 0 ∷ []
      → contains 0 s.clients ≡ false
      → contains 0 pa_map ≡ false
      → pipe.created ≡ true
      → Comes system error_codes rounds w
      → (r : _) × (watcher instances
            (pipe_sockets system error_codes)
            (beside_socket rounds)
            s
            pa_map
            (pipe, w)
          ≡ ok r)
        × (contains 0 r.0.clients ≡ true)
  unfolding watcher
  watcher-connects rounds s pa_map pipe w live one h g c (now meanwhile _ e) =
      let (r, passed, there, same) = pass-connected s pa_map pipe w h g c e in
      (
        (r.0, r.1, (r.2.0, meanwhile r.2.1)),
        watcher_step meanwhile [] s pa_map (pipe, w) r live one passed,
        there,
      )
  watcher-connects rounds s pa_map pipe w live one h g c (missed meanwhile rest _ e more) =
      let (r, ran, there) =
        watcher-connects rest s pa_map pipe (meanwhile (given_up system error_codes w)) live one h g
          c more in
      (
        r,
        watcher_step meanwhile rest s pa_map (pipe, w)
              (s, pa_map, (pipe, given_up system error_codes w)) live one
              (pass-pending s pa_map pipe w h g c e)
            ∙ ran,
        there,
      )
