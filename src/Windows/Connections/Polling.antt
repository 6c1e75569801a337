-- ===== src/Windows/Connections/Polling.antt =====
-- What the passes of the watcher make of the status of `ConnectNamedPipe`.
use lib_streamlabs_ipc.Base.{
  ℕ, ◌≡◌, refl, ◌∙◌, ap, true, false, Option, none, some, Outcome, if◌then◌else◌, ok, Bool-cases,
  inl, inr,
}
use lib_streamlabs_ipc.Map.{int64_key}
use lib_streamlabs_ipc.Os.{Error, pending, success, connected, is_success}
use lib_streamlabs_ipc.Os.AsyncOp.{AsyncOp, AsyncOpCb}
use lib_streamlabs_ipc.Windows.Utility.{ErrorCodes, translate_error}
use lib_streamlabs_ipc.Windows.AsyncRequest.{invalidate, destroy, cancel, is_valid, is_complete}
use lib_streamlabs_ipc.Windows.Socket.{Socket, PipeSystem, accept, handle_accept_callback}
use lib_streamlabs_ipc.Windows.Socket.Peer.{is_pending, accept_lem}
use lib_streamlabs_ipc.Windows.Connections.{Told, beside, note_status, release_accept, accept_pipe}

module _ {ℓ} {W : Type ℓ} (system : PipeSystem W) (error_codes : ErrorCodes) where
  -- The status that `accept` gets.
  abbrev pub status : W → Error
  status w = translate_error error_codes (system.connect w).0

  -- The connection that is waited for is given up, unless it has come about.
  abbrev pub given_up : W → W
  given_up w =
      let w1 = (system.connect w).1 in
      if system.overlapped.has_completed w1 then w1 else (system.overlapped.cancel_io w1).1

  accept_pipe-accept :
      (socket : ℕ) (s : Socket) (w : W) (op : Option (AsyncOp (AsyncOpCb (Socket × (Told × W)))))
      (ec : Error) (st : Socket × (Told × W))
      → accept (beside system) error_codes none invalidate note_status (s, (none, w))
        ≡ ok (op, ec, st)
      → accept_pipe system error_codes socket (s, w)
        ≡ ok (ec, st.1.0, (st.0, release_accept system error_codes (is_success ec) op st.1.1))
  unfolding accept_pipe
  accept_pipe-accept socket s w op ec st e = rw (accept_pipe, e) refl

  -- An operation that is valid is cancelled with the `pending_accept` if it is not complete, and one that
  -- is not valid is left alone.
  release_accept-valid :
      (op : AsyncOp (AsyncOpCb (Socket × (Told × W)))) (w : W)
      → op.valid ≡ true
      → release_accept system error_codes false (some op) w
        ≡ (if system.overlapped.has_completed w then w else (system.overlapped.cancel_io w).1)
  unfolding release_accept destroy cancel is_valid is_complete
  release_accept-valid op w e =
      rw (release_accept, e)
        (elim (Bool-cases (system.overlapped.has_completed w)) [
          | inl g ↦ rw g refl
          | inr g ↦ rw g refl
        ])

  abbrev Result : Type ℓ
  Result = Outcome (Error × Told × (Socket × W))

  abbrev released :
      AsyncOp (AsyncOpCb (Socket × (Told × W))) → Error → Socket × (Told × W) → Socket × W
  released ar ec st = (st.0, release_accept system error_codes (is_success ec) (some ar) st.1.1)

  released-pending :
      (ar : AsyncOp (AsyncOpCb (Socket × (Told × W)))) (ec : Error) (st : Socket × (Told × W))
      (s : Socket) (w1 : W)
      → ec ≡ pending
      → st ≡ (s, (none, w1))
      → ar.valid ≡ true
      → ◌≡◌ {A = Result} (ok (ec, st.1.0, released ar ec st)) (
          ok (
            pending,
            none,
            (
              s,
              if system.overlapped.has_completed w1 then w1 else (system.overlapped.cancel_io w1).1,
            ),
          ))
  unfolding is_success
  released-pending ar ec st s w1 e f v = rw (e, f, release_accept-valid ar w1 v) refl

  released-told :
      (ar : AsyncOp (AsyncOpCb (Socket × (Told × W)))) (ec : Error) (st : Socket × (Told × W))
      (told : Error) (s : Socket) (w1 : W)
      → st ≡ (s, (some told, w1))
      → ar.valid ≡ false
      → ◌≡◌ {A = Result} (ok (ec, st.1.0, released ar ec st)) (ok (ec, some told, (s, w1)))
  unfolding is_success release_accept destroy is_valid
  released-told ar ec st told s w1 f v = rw f (elim (Bool-cases (is_success ec)) [
    | inl g ↦ rw g refl
    | inr g ↦ rw (g, release_accept, destroy, v) refl
  ])

  -- With the status `Pending` the callback has not run, and the connection is given up.
  pub accept_pipe-pending :
      (socket : ℕ) (s : Socket) (w : W)
      → s.created ≡ true
      → status w ≡ pending
      → accept_pipe system error_codes socket (s, w) ≡ ok (pending, none, (s, given_up w))
  accept_pipe-pending socket s w h e =
      let (ar, st, accepted, valid, state) =
        accept_lem (beside system) error_codes note_status s (none, w) h in
      let run = accept_pipe-accept socket s w (some ar) (status w) st accepted in
      let state' : st ≡ (s, (none, (system.connect w).1)) = rw e at state in
      let valid' : ar.valid ≡ true = rw e at valid in
      run ∙ released-pending ar (status w) st s (system.connect w).1 e state' valid'

  handled_world :
      (ec : Error) (s : Socket) (v : Told × W)
      → (handle_accept_callback (beside system) ec 0 (s, v)).1 ≡ v
  unfolding handle_accept_callback
  handled_world connected s v = refl
  handled_world success s v = refl
  handled_world _ s v = refl

  -- With any other status the callback has been told it, and nothing is cancelled.
  pub accept_pipe-told :
      (socket : ℕ) (s : Socket) (w : W)
      → s.created ≡ true
      → is_pending (status w) ≡ false
      → (s' : Socket) × (accept_pipe system error_codes socket (s, w)
          ≡ ok (status w, some (status w), (s', (system.connect w).1)))
  accept_pipe-told socket s w h e =
      let (ar, st, accepted, valid, state) =
        accept_lem (beside system) error_codes note_status s (none, w) h in
      let run = accept_pipe-accept socket s w (some ar) (status w) st accepted in
      let w1 = (system.connect w).1 in
      let handled = handle_accept_callback (beside system) (status w) 0 (s, (none, w1)) in
      let same = handled_world (status w) s (none, w1) in
      let state' : st ≡ (handled.0, (some (status w), w1)) =
        (rw e at state) ∙ ap (λ v. (handled.0, (some (status w), v.1))) same in
      let valid' : ar.valid ≡ false = rw e at valid in
      (handled.0, run ∙ released-told ar (status w) st (status w) handled.0 w1 state' valid')
