-- ===== src/Osx/Socket/Accepting.antt =====
-- What `accept` of a socket does with its callback.
use lib_streamlabs_ipc.Base.{◌≡◌, ap, Bool, true, Option, some, ok, Bool-cases, inl, inr}
use lib_streamlabs_ipc.Os.{connected}
use lib_streamlabs_ipc.Os.AsyncOp.{
  AsyncOp, AsyncOpCb, op_or_new, is_valid, is_complete, set_callback, set_system_callback, set_sem,
  set_valid, call_callback,
}
use lib_streamlabs_ipc.Osx.Socket.{Socket, accept, handle_accept_callback}

module _ {ℓ} {W : Type ℓ} where
  set_callback_ok :
      (cb : Option (AsyncOpCb (Bool × W))) (op : AsyncOp (AsyncOpCb (Bool × W)))
      → set_callback (is_complete op) cb op ≡ ok (record op { callback = cb })
  unfolding set_callback is_valid is_complete
  set_callback_ok cb op = elim (Bool-cases op.valid) [ inl e ↦ rw e | inr e ↦ rw e ]

  set_system_callback_ok :
      (cb : Option (AsyncOpCb (Bool × W))) (op : AsyncOp (AsyncOpCb (Bool × W)))
      → set_system_callback (is_complete op) cb op ≡ ok (record op { system_callback = cb })
  unfolding set_system_callback is_valid is_complete
  set_system_callback_ok cb op = elim (Bool-cases op.valid) [ inl e ↦ rw e | inr e ↦ rw e ]

  -- The operation with the two callbacks of `accept` put in.
  abbrev armed :
      AsyncOp (AsyncOpCb (Bool × W)) → AsyncOpCb (Bool × W) → AsyncOp (AsyncOpCb (Bool × W))
  armed ar cb =
      set_valid true
        (set_sem (record ar { callback = some cb; system_callback = some handle_accept_callback }))

  armed_runs :
      (ar : AsyncOp (AsyncOpCb (Bool × W))) (cb : AsyncOpCb (Bool × W)) (w : W)
      → (call_callback connected 0 (armed ar cb) (true, w)).1 ≡ cb connected 0 (true, w)
  unfolding set_sem set_valid call_callback handle_accept_callback
  armed_runs ar cb w = elim (Bool-cases ar.system_callback_called) [ inl e ↦ rw e | inr e ↦ rw e ]

  -- On a socket that was created, with or without an operation from before, `accept` returns `Connected`
  -- and has run the callback once with it, on a socket that is connected.
  pub accept-connects :
      (s : Socket) (op : Option (AsyncOp (AsyncOpCb (Bool × W)))) (cb : AsyncOpCb (Bool × W))
      (c : Bool) (w : W)
      → s.created ≡ true
      → (ar : AsyncOp (AsyncOpCb (Bool × W))) × (accept s op cb (c, w)
          ≡ ok (some ar, connected, cb connected 0 (true, w)))
  unfolding accept
  accept-connects s op cb c w h =
      let ar = op_or_new op in
      let after = call_callback connected 0 (armed ar cb) (true, w) in
      (
        after.0,
        rw
            (
              accept,
              h,
              set_callback_ok (some cb) ar,
              set_system_callback_ok (some handle_accept_callback)
                  (record ar { callback = some cb }),
            )
            (ap (λ st. ok (some after.0, connected, st)) (armed_runs ar cb w)),
      )
