-- ===== src/Windows/Client/Replies.antt =====
-- The Windows client (source/windows/ipc-client-win.cpp) beside the macOS one, and what a call that fails
-- leaves.
use lib_streamlabs_ipc.Base.{
  ℕ, ◌≡◌, refl, sym, ap, ◌∙◌, inl, inr, false, Option, none, some, if◌then◌else◌, ◌==◌, ==_iff,
  Bool-cases, Option-cases, Outcome, ok, throws, aborts, undefined, ◌>>=◌, Ensures, Ensures-after,
  Ensures-mono, Ensures-ok,
}
use lib_streamlabs_ipc.Bytes.{Bytes}
use lib_streamlabs_ipc.Map.{
  Map, find, insert, erase, contains, int64_key, find-erase, find-contains, find-insert,
}
use lib_streamlabs_ipc.Value.{ui64}
use lib_streamlabs_ipc.Message.Reply
use lib_streamlabs_ipc.Message.Reply.{FunctionReply, new_reply}
use lib_streamlabs_ipc.Os.{disconnected}
use lib_streamlabs_ipc.Os.AsyncOp.{AsyncOp, new_op, set_callback}
use lib_streamlabs_ipc.Osx.Client as Mac
use lib_streamlabs_ipc.Osx.Client.{CallReturn}
use lib_streamlabs_ipc.Windows.Utility.{ErrorCodes}
use lib_streamlabs_ipc.Windows.AsyncRequest.{invalidate, prepare, is_complete, is_valid, set_handle}
use lib_streamlabs_ipc.Windows.Socket
use lib_streamlabs_ipc.Windows.Socket.{PipeSystem, Started, is_connected, settle_io}
use lib_streamlabs_ipc.Windows.Client.{
  Handler, deliver, invalidate_rop, read_callback_msg, cancel_callback, is_failure,
}
use lib_streamlabs_ipc.Windows.Client as Win
use lib_streamlabs_ipc.Windows.Client.Calls.{store_callback, Begun, refused, check_write, send_call}

module _ {ℓ} {W : Type ℓ} where
  -- What both clients leave, without what only one of them has.
  abbrev pub osx_view : Outcome (Mac.Client W × W) → Outcome (Map ℕ (CallReturn W) × W)
  osx_view x = x >>= (λ p. ok (p.0.callbacks, p.1))

  abbrev pub win_view : Outcome (Win.Client W × W) → Outcome (Map ℕ (CallReturn W) × W)
  win_view x = x >>= (λ p. ok (p.0.callbacks, p.1))

  deliver-view :
      (o : Mac.Client W) (s : Win.Client W) (r : FunctionReply) (w : W)
      → s.callbacks ≡ o.callbacks
      → osx_view (ok (Mac.deliver o r w)) ≡ win_view (ok (deliver s r w))
  unfolding Mac.deliver deliver
  deliver-view o s r w e = elim (Option-cases (find (ui64 r.uid) o.callbacks)) [
    | inl f ↦ rw (deliver, Mac.deliver, e, f) (rw e refl)
    | inr (cb, f) ↦ rw (deliver, Mac.deliver, e, f) (rw e refl)
  ]

  after_parse :
      (x : Outcome (FunctionReply × ℕ)) (o : Mac.Client W) (s : Win.Client W) (w : W)
      → s.callbacks ≡ o.callbacks
      → win_view (x >>= (λ p. ok (deliver s p.0 w)))
        ≡ osx_view (x >>= (λ p. ok (Mac.deliver o p.0 w)))
  after_parse (ok p) o s w e = sym (deliver-view o s p.0 w e)
  after_parse throws o s w e = refl
  after_parse aborts o s w e = refl
  after_parse undefined o s w e = refl

  -- On the same bytes and the same callbacks, while the Windows client has an operation, the two clients
  -- make the same of a reply: the same callback runs on the same values, the same entries stay, and the
  -- same bytes make both throw.
  pub read_callback_msg-platforms :
      (o : Mac.Client W) (s : Win.Client W) (op : AsyncOp Handler) (w : W)
      → s.rop ≡ some op
      → s.buf ≡ o.buffer
      → s.callbacks ≡ o.callbacks
      → win_view (read_callback_msg s w) ≡ osx_view (Mac.read_callback_msg o w)
  unfolding read_callback_msg Mac.read_callback_msg invalidate_rop
  read_callback_msg-platforms o s op w e f g =
      let s' = record s { rop = some (invalidate op); buf = o.buffer } in
      rw (read_callback_msg, invalidate_rop, e, f)
        (after_parse (Reply.deserialize new_reply o.buffer 0) o s' w g)

  -- What a call that has failed leaves of the entries.
  abbrev pub Restored : (ℕ → Option (CallReturn W)) → ℕ × Win.Client W × Begun × W → Type ℓ
  Restored entry r = (c : ℕ) → r.2 ≡ refused c → (k : ℕ) → find k r.1.callbacks ≡ entry k

  erase-insert :
      (uid k : ℕ) (cb : CallReturn W) (m : Map ℕ (CallReturn W))
      → contains uid m ≡ false
      → find k (erase uid (insert uid cb m)) ≡ find k m
  erase-insert uid k cb m h = elim (Bool-cases (uid == k)) [
    | inl e ↦
        find-erase uid k (insert uid cb m)
        ∙ rw e (sym (ap (λ j. find j m) (sym ((==_iff uid k).0 e)) ∙ find-contains uid m h))
    | inr e ↦ find-erase uid k (insert uid cb m) ∙ rw e (find-insert uid k cb m h ∙ rw e refl)
  ]

  check_write-erases :
      (s : Win.Client W) (cbid : ℕ) (r : Started Handler W) (c : ℕ)
      → (check_write s cbid r).1 ≡ refused c
      → (check_write s cbid r).0.callbacks ≡ erase cbid s.callbacks
  unfolding check_write cancel_callback
  check_write-erases s cbid r c h = elim (Option-cases r.op) [
    | inl e ↦ rw e refl
    | inr (op, e) ↦ elim (Bool-cases (is_failure r.status)) [
      | inl f ↦ rw (e, f) refl
      | inr f ↦ absurd (cc (rw (e, f) at h))
    ]
  ]

  send_call-erases :
      (system : PipeSystem W) (error_codes : ErrorCodes) (uid : ℕ) (s : Win.Client W)
      (frame : Bytes) (fn : Option (CallReturn W)) (cbid : ℕ) (socket : Socket.Socket) (w : W)
      → let stored = store_callback s uid fn cbid in
        Ensures
          (Restored (λ k. find k (erase stored.1 stored.0.callbacks)))
          (send_call system error_codes uid s frame fn cbid socket w)
  unfolding send_call
  send_call-erases system error_codes uid s frame fn cbid socket w =
      let stored = store_callback s uid fn cbid in
      Ensures-after (Restored (λ k. find k (erase stored.1 stored.0.callbacks)))
        (Socket.write {F = Handler} system error_codes frame none none socket w)
        (λ r. let c = check_write stored.0 stored.1 r in ok (uid, c.0, c.1, c.2))
        (λ r c h k. ap (find k) (check_write-erases stored.0 stored.1 r c h))

  abbrev pub entries_without :
      Option (CallReturn W) → ℕ → Map ℕ (CallReturn W) → ℕ → Option (CallReturn W)
  entries_without none cbid m k = if cbid == k then none else find k m
  entries_without (some cb) cbid m k = find k m

  send_call-Restored :
      (system : PipeSystem W) (error_codes : ErrorCodes) (uid : ℕ) (s : Win.Client W)
      (frame : Bytes) (fn : Option (CallReturn W)) (cbid : ℕ) (socket : Socket.Socket) (w : W)
      → contains uid s.callbacks ≡ false
      → Ensures
          (Restored (entries_without fn cbid s.callbacks))
          (send_call system error_codes uid s frame fn cbid socket w)
  unfolding store_callback
  send_call-Restored system error_codes uid s frame none cbid socket w h =
      Ensures-mono (Restored (λ k. find k (erase cbid s.callbacks)))
        (Restored (λ k. if cbid == k then none else find k s.callbacks))
        (send_call system error_codes uid s frame none cbid socket w)
        (send_call-erases system error_codes uid s frame none cbid socket w)
        (λ r g c e k. g c e k ∙ find-erase cbid k s.callbacks)
  send_call-Restored system error_codes uid s frame (some cb) cbid socket w h =
      Ensures-mono (Restored (λ k. find k (erase uid (insert uid cb s.callbacks))))
        (Restored (λ k. find k s.callbacks))
        (send_call system error_codes uid s frame (some cb) cbid socket w)
        (send_call-erases system error_codes uid s frame (some cb) cbid socket w)
        (λ r g c e k. g c e k ∙ erase-insert uid k cb s.callbacks h)

  write_returns :
      (system : PipeSystem W) (error_codes : ErrorCodes) (frame : Bytes) (socket : Socket.Socket)
      (w : W)
      → (r : Started Handler W) × (Socket.write system error_codes frame none none socket w ≡ ok r)
  unfolding Socket.write prepare set_callback is_complete is_valid set_handle
  write_returns system error_codes frame socket w =
      elim (Bool-cases (is_connected system socket w).0) [
        | inl e ↦ (
          settle_io system error_codes (is_connected system socket w).1 new_op
              (system.write_file frame w),
          rw (Socket.write, e) refl,
        )
        | inr e ↦ (
          record {
            socket = (is_connected system socket w).1;
            op = none;
            callback = none;
            status = disconnected;
            world = w;
          },
          rw (Socket.write, e) refl,
        )
      ]

  send_call_returns :
      (system : PipeSystem W) (error_codes : ErrorCodes) (uid : ℕ) (s : Win.Client W)
      (frame : Bytes) (fn : Option (CallReturn W)) (cbid : ℕ) (socket : Socket.Socket) (w : W)
      → (r : ℕ × Win.Client W × Begun × W) × (send_call system error_codes uid s frame fn cbid
            socket w
          ≡ ok r)
  unfolding send_call
  send_call_returns system error_codes uid s frame fn cbid socket w =
      let (started, e) = write_returns system error_codes frame socket w in
      let stored = store_callback s uid fn cbid in
      let c = check_write stored.0 stored.1 started in
      ((uid, c.0, c.1, c.2), rw (send_call, e) refl)

  -- A call with its frame comes back from its write, sent or refused. A refused one, when its number was
  -- not in use, leaves the callbacks as they were before it: with a callback of its own it takes that one
  -- back, and with none it removes that which the caller's `cbid` names.
  pub send_call-refused :
      (system : PipeSystem W) (error_codes : ErrorCodes) (uid : ℕ) (s : Win.Client W)
      (frame : Bytes) (fn : Option (CallReturn W)) (cbid : ℕ) (socket : Socket.Socket) (w : W)
      → contains uid s.callbacks ≡ false
      → (r : ℕ × Win.Client W × Begun × W) × (send_call system error_codes uid s frame fn cbid
            socket w
          ≡ ok r)
        × Restored (entries_without fn cbid s.callbacks) r
  send_call-refused system error_codes uid s frame fn cbid socket w h =
      let (r, e) = send_call_returns system error_codes uid s frame fn cbid socket w in
      (
        r,
        e,
        Ensures-ok (Restored (entries_without fn cbid s.callbacks))
            (send_call system error_codes uid s frame fn cbid socket w) r
            (send_call-Restored system error_codes uid s frame fn cbid socket w h) e,
      )
