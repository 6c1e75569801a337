-- ===== src/Windows/Socket/Peer.antt =====
-- Whom a socket takes for its peer, and what `accept` does with each status.
use lib_streamlabs_ipc.Base.{
  ℕ, ◌≡◌, ◌≢◌, ◌⊎◌, inl, inr, refl, ◌∙◌, Bool, true, false, none, some, List, [], ◌∷◌, All, arith,
  if◌then◌else◌, Option-cases, ok,
}
use lib_streamlabs_ipc.Os.{Error, pending}
use lib_streamlabs_ipc.Os.AsyncOp.{
  AsyncOp, AsyncOpCb, set_callback, set_system_callback, call_callback,
}
use lib_streamlabs_ipc.Windows.Utility.{ErrorCodes, translate_error}
use lib_streamlabs_ipc.Windows.AsyncRequest.{set_handle, set_valid, is_complete, invalidate}
use lib_streamlabs_ipc.Windows.Socket.{
  Socket, PipeSystem, is_connected, compare_peer, set_connected, peer_process, peer_session, accept,
  call_touching, settle_accept, handle_accept_callback,
}

module _ {ℓ} {W : Type ℓ} (system : PipeSystem W) where
  -- The answers of `is_connected` in one state of the world after the other.
  abbrev pub answers : Socket → List W → List Bool
  answers s [] = []
  answers s (w ∷ ws) = let (b, s') = is_connected system s w in b ∷ answers s' ws

  abbrev now_with : Socket → ℕ → ℕ → Socket
  now_with s process session = record s {
    remote_id = record { session_id = session; process_id = process };
  }

  set_connected-answered :
      (s : Socket) (w : W) (process session : ℕ)
      → peer_process system s w ≡ some process
      → peer_session system s w ≡ some session
      → set_connected system true s w ≡ now_with s process session
  unfolding set_connected
  set_connected-answered s w process session e f = rw (set_connected, e, f)

  is_connected-answered :
      (s : Socket) (w : W) (process session : ℕ)
      → peer_process system s w ≡ some process
      → peer_session system s w ≡ some session
      → is_connected system s w ≡ compare_peer system process session s w
  unfolding is_connected
  is_connected-answered s w process session e f = rw (is_connected, e, f)

  compare_peer-same :
      (s : Socket) (w : W) (process session : ℕ)
      → process ≢ 0
      → session ≢ 0
      → compare_peer system process session (now_with s process session) w
        ≡ (system.peek w, now_with s process session)
  unfolding compare_peer
  compare_peer-same s w process session h k = ground arith

  -- Directly behind `set_connected(true)`, while the peer has a process and a session other than 0,
  -- `is_connected` is what the last query says.
  pub is_connected-set_connected :
      (s : Socket) (w : W) (process session : ℕ)
      → peer_process system s w ≡ some process
      → peer_session system s w ≡ some session
      → process ≢ 0
      → session ≢ 0
      → is_connected system (set_connected system true s w) w
        ≡ (system.peek w, set_connected system true s w)
  is_connected-set_connected s w process session e f h k =
      rw (set_connected-answered s w process session e f) (
        is_connected-answered (now_with s process session) w process session e f
        ∙ compare_peer-same s w process session h k)

  -- A socket that has forgotten its peer.
  abbrev IsForgotten : Socket → Type 0
  IsForgotten s = s.remote_id.process_id ≡ 0

  abbrev Refuses : Bool × Socket → Type 0
  Refuses r = (r.0 ≡ false) × IsForgotten r.1

  compare_peer-forgotten :
      (s : Socket) (w : W) (process session : ℕ)
      → IsForgotten s
      → Refuses (compare_peer system process session s w)
  unfolding compare_peer
  compare_peer-forgotten s w process session h = ground arith

  compare_peer-other :
      (s : Socket) (w : W) (process session : ℕ)
      → (process ≢ s.remote_id.process_id) ⊎ (session ≢ s.remote_id.session_id)
      → Refuses (compare_peer system process session s w)
  unfolding compare_peer
  compare_peer-other s w process session h = ground arith

  is_connected-forgotten : (s : Socket) (w : W) → IsForgotten s → Refuses (is_connected system s w)
  unfolding is_connected
  is_connected-forgotten s w h = elim (Option-cases (peer_process system s w)) [
    | inl e ↦ rw (is_connected, e) (refl, h)
    | inr (process, e) ↦ elim (Option-cases (peer_session system s w)) [
      | inl f ↦ rw (is_connected, e, f) (refl, h)
      | inr (session, f) ↦ rw (is_connected, e, f) (compare_peer-forgotten s w process session h)
    ]
  ]

  answers-forgotten :
      (s : Socket) (ws : List W) → IsForgotten s → All (λ b. b ≡ false) (answers s ws)
  answers-forgotten s [] h = tt
  answers-forgotten s (w ∷ ws) h =
      let (refused, still) = is_connected-forgotten s w h in
      (refused, answers-forgotten (is_connected system s w).1 ws still)

  -- Once another process or another session answers, `is_connected` says no, and goes on to say no
  -- whoever answers later, until the next `set_connected`.
  pub answers-other_peer :
      (s : Socket) (w : W) (ws : List W) (process session : ℕ)
      → peer_process system s w ≡ some process
      → peer_session system s w ≡ some session
      → (process ≢ s.remote_id.process_id) ⊎ (session ≢ s.remote_id.session_id)
      → All (λ b. b ≡ false) (answers s (w ∷ ws))
  answers-other_peer s w ws process session e f h =
      let (refused, forgot) = compare_peer-other s w process session h in
      rw (is_connected-answered s w process session e f)
        (refused, answers-forgotten (compare_peer system process session s w).1 ws forgot)

abbrev pub is_pending : Error → Bool
is_pending pending = true
is_pending _ = false

module _ {ℓ} {W : Type ℓ} (system : PipeSystem W) where
  abbrev State : Type ℓ
  State = Socket × W

  -- The first operation of an `accept`, before `ConnectNamedPipe`.
  abbrev fresh : AsyncOpCb State → AsyncOp (AsyncOpCb State)
  fresh cb = record {
    valid = false;
    callback = some cb;
    callback_called = false;
    system_callback = some (handle_accept_callback system);
    system_callback_called = false;
  }

  settle_accept_lem :
      (ec : Error) (cb : AsyncOpCb State) (s : Socket) (w : W)
      → let r = settle_accept system invalidate ec (fresh cb) (s, w) in
        (r.0.valid ≡ is_pending ec)
        × (r.1 ≡ (
            if is_pending ec then (s, w) else cb ec 0 (handle_accept_callback system ec 0 (s, w))))
  unfolding settle_accept call_touching call_callback set_valid invalidate
  settle_accept_lem ec cb s w = ground arith

  -- `accept` on a socket that was created, with a new operation and a callback that invalidates the
  -- operation, as that of the server does: the operation is valid afterwards just if the status is
  -- `Pending`. With every other status the socket has taken note of it, and then the callback has run,
  -- once.
  pub accept_lem :
      (codes : ErrorCodes) (cb : AsyncOpCb State) (s : Socket) (w : W)
      → s.created ≡ true
      → let (code, w1) = system.connect w in
        let ec = translate_error codes code in
        (ar : AsyncOp (AsyncOpCb State)) × (st : State) × (accept system codes none invalidate cb
            (s, w)
          ≡ ok (some ar, ec, st))
        × (ar.valid ≡ is_pending ec)
        × (st ≡ (
            if is_pending ec
            then (s, w1)
            else cb ec 0 (handle_accept_callback system ec 0 (s, w1))))
  unfolding accept set_callback set_system_callback set_handle is_complete
  accept_lem codes cb s w h =
      let (code, w1) = system.connect w in
      let ec = translate_error codes code in
      let r = settle_accept system invalidate ec (fresh cb) (s, w1) in
      let (valid, state) = settle_accept_lem ec cb s w1 in
      (r.0, r.1, simp (accept, h), valid, state)
