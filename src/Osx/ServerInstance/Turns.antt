-- ===== src/Osx/ServerInstance/Turns.antt =====
-- The two threads of a server instance as interleaved steps. A round is one step: while it runs both
-- semaphores are at zero, so the other thread cannot start one.
use lib_streamlabs_ipc.Base.{
  ℕ, suc, ◌+◌, ◌≤◌, ◌≡◌, refl, ◌⊎◌, inl, inr, true, false, not, List, [], ◌∷◌, length, arith,
  Outcome, ok, throws, aborts, undefined, ltb, Bool-cases, length-append, Ensures, Ensures-bind,
  Ensures-after, Ensures-mono, Ensures-ok, Option-cases, ap, ◌&&◌,
}
use lib_streamlabs_ipc.Bytes.{Bytes}
use lib_streamlabs_ipc.Message.Call.{FunctionCall, new_call}
use lib_streamlabs_ipc.Message.Call
use lib_streamlabs_ipc.Message.Frame.{read_size, make_sendable}
use lib_streamlabs_ipc.Server.{Registry}
use lib_streamlabs_ipc.Os.{has_data}
use lib_streamlabs_ipc.Osx.Channel.{Channel, request, resize_bytes}
use lib_streamlabs_ipc.Osx.ServerInstance.{
  Instance, new_instance, worker_req_body, read_callback_init, read_body, read_callback_msg,
  queue_message, worker_rep_body, answer, send_reply, read_callback_msg_write, is_empty, is_pending,
}

-- Where a worker thread stands: at the test of its loop, in its `sem_wait`, or past its end.
pub data Position : Type 0 where
  looping waiting ended : Position

pub record System {ℓ} (W : Type ℓ) : Type ℓ where
  pub instance_state : Instance
  pub req : Position
  pub rep : Position
  pub world : W

-- What the two semaphores and the queue come to together.
pub record IsOneTurn (s : Instance) : Type 0 where
  pub turns : s.reader_sem + s.writer_sem ≤ 1
  pub queued : length s.msgs + s.reader_sem ≤ 1

-- What a request round leaves: the turn is handed on at most once, and with at most one message.
abbrev AfterReq : Instance → Instance → Type 0
AfterReq s i =
    (i.reader_sem ≡ s.reader_sem)
    × (i.writer_sem ≤ s.writer_sem + 1)
    × (length i.msgs ≤ length s.msgs + 1)

queue-AfterReq :
    (s : Instance) (m : Outcome (FunctionCall × ℕ)) → Ensures (AfterReq s) (queue_message s m)
unfolding queue_message
queue-AfterReq s (ok (msg, n)) = ground (arith, length-append s.msgs (msg ∷ []))
queue-AfterReq s throws = omega arith
queue-AfterReq s aborts = tt
queue-AfterReq s undefined = tt

-- What a reply round leaves: the turn goes back only if a message has been taken out.
abbrev AfterRep : Instance → Instance → Type 0
AfterRep s i =
    (i.writer_sem ≡ s.writer_sem)
    × (i.reader_sem ≤ s.reader_sem + 1)
    × (length i.msgs + i.reader_sem ≤ length s.msgs + s.reader_sem)

abbrev AfterSend : Instance → Instance → Type 0
AfterSend s i =
    (i.writer_sem ≡ s.writer_sem)
    × (i.reader_sem ≤ s.reader_sem + 1)
    × (length i.msgs ≡ length s.msgs)

module _ {ℓ} {W : Type ℓ} (channel : Channel W) where
  read_body-AfterReq :
      (s : Instance) (n : ℕ) (w : W) → Ensures (λ (i, w'). AfterReq s i) (read_body channel s n w)
  unfolding read_body read_callback_msg
  read_body-AfterReq s n w = elim (Bool-cases (ltb 1 n)) [
    | inl big ↦
        let got = channel.read (resize_bytes n s.rbuf) false request w in
        let s1 : Instance = record s { rbuf = got.1 } in
        rw big (
          Ensures-bind (AfterReq s1) _ (queue_message s1 (Call.deserialize new_call got.1 0)) _
            (queue-AfterReq s1 _) (λ i h. h))
    | inr small ↦ rw small (omega arith)
  ]

  req_body-AfterReq :
      (s : Instance) (w : W) → Ensures (λ (i, w'). AfterReq s i) (worker_req_body channel s w)
  unfolding worker_req_body read_callback_init
  req_body-AfterReq s w =
      let got = channel.read (resize_bytes 8 s.rbuf) true request w in
      elim (Bool-cases (has_data got.0)) [
        | inl good ↦ rw good (
            Ensures-after _ (read_size got.1) _
              (λ n. read_body-AfterReq (record s { rbuf = got.1 }) n got.2))
        | inr bad ↦ rw bad (omega arith)
      ]

  write-AfterRep :
      (s : Instance) (buf : Bytes) (w : W)
      → Ensures
          (λ (i, w').
            (i.writer_sem ≡ s.writer_sem) × (i.reader_sem ≡ s.reader_sem) × (i.msgs ≡ s.msgs))
          (read_callback_msg_write channel s buf w)
  unfolding read_callback_msg_write
  write-AfterRep s [] w = elim (Option-cases s.rop) [
    | inl e ↦ rw (e, read_callback_msg_write) tt
    | inr (b, e) ↦ rw (e, read_callback_msg_write) (refl, refl, refl)
  ]
  write-AfterRep s (x ∷ buf) w =
      elim (Bool-cases (not (is_pending s.wop) && is_empty s.write_queue)) [
        | inl idle ↦ rw idle (Ensures-after _ (make_sendable (x ∷ buf)) _ (λ b. (refl, refl, refl)))
        | inr busy ↦ rw busy (refl, refl, refl)
      ]

  send-AfterRep :
      (s : Instance) (m : Outcome (Bytes × ℕ)) (w : W)
      → Ensures (λ (i, w'). AfterSend s i) (send_reply channel s m w)
  unfolding send_reply
  send-AfterRep s (ok (buf, n)) w =
      Ensures-bind _ _ (read_callback_msg_write channel s buf w) _ (write-AfterRep s buf w)
        (λ (i, w') (a, b, c). (a, omega arith, ap length c))
  send-AfterRep s throws w = (refl, omega arith, refl)
  send-AfterRep s aborts w = tt
  send-AfterRep s undefined w = tt

  answer-AfterRep :
      (parent : Registry W) (s : Instance) (msgs : List FunctionCall) (w : W)
      → s.msgs ≡ msgs
      → Ensures (λ (i, w'). AfterRep s i) (answer channel parent s msgs w)
  unfolding answer
  answer-AfterRep parent s [] w e = tt
  answer-AfterRep parent s (msg ∷ rest) w e =
      Ensures-mono (λ (i, w'). AfterSend (record s { msgs = rest }) i) (λ (i, w'). AfterRep s i) _
        (send-AfterRep (record s { msgs = rest }) _ _)
        (λ x (a, b, c). (a, b, omega (arith, ap length e)))

  rep_body-AfterRep :
      (parent : Registry W) (s : Instance) (w : W)
      → Ensures (λ (i, w'). AfterRep s i) (worker_rep_body channel parent s w)
  unfolding worker_rep_body
  rep_body-AfterRep parent s w = elim (Bool-cases s.stop_workers) [
    | inl e ↦ simp e (omega arith)
    | inr e ↦ simp e (answer-AfterRep parent s s.msgs w refl)
  ]

module _ {ℓ} {W : Type ℓ} (channel : Channel W) (parent : Registry W) where
  pub data Step (s : System W) : System W → Type ℓ where
    req_enter :
        s.req ≡ looping
        → s.instance_state.stop_workers ≡ false
        → channel.is_connected s.world ≡ true
        → Step s (record s { req = waiting })
    req_leave :
        s.req ≡ looping
        → (s.instance_state.stop_workers ≡ true) ⊎ (channel.is_connected s.world ≡ false)
        → Step s (record s { req = ended })
    req_round :
        (n : ℕ) (i : Instance) (w : W)
        → s.req ≡ waiting
        → s.instance_state.reader_sem ≡ suc n
        → worker_req_body channel (record s.instance_state { reader_sem = n }) s.world ≡ ok (i, w)
        → Step s (record s { instance_state = i; req = looping; world = w })
    rep_enter :
        s.rep ≡ looping
        → s.instance_state.stop_workers ≡ false
        → channel.is_connected s.world ≡ true
        → Step s (record s { rep = waiting })
    rep_leave :
        s.rep ≡ looping
        → (s.instance_state.stop_workers ≡ true) ⊎ (channel.is_connected s.world ≡ false)
        → Step s (record s { rep = ended })
    rep_round :
        (n : ℕ) (i : Instance) (w : W) (p : Position)
        → s.rep ≡ waiting
        → s.instance_state.writer_sem ≡ suc n
        → worker_rep_body channel parent (record s.instance_state { writer_sem = n }) s.world
          ≡ ok (i, w)
        → Step s (record s { instance_state = i; rep = p; world = w })
    -- The destructor, from the outside.
    halt : Step s (record s { instance_state = record s.instance_state { stop_workers = true } })
    -- The client at the other end of the pipes, and the rest of the application.
    elsewhere : (w : W) → Step s (record s { world = w })

  pub data Reach (s : System W) : System W → Type ℓ where
    here : Reach s s
    next : {t u : System W} → Reach s t → Step t u → Reach s u

  abbrev pub start : W → System W
  start w = record { instance_state = new_instance; req = looping; rep = looping; world = w }

  Step-IsOneTurn :
      {s t : System W} → Step s t → IsOneTurn s.instance_state → IsOneTurn t.instance_state
  Step-IsOneTurn (req_enter _ _ _) h = h
  Step-IsOneTurn (req_leave _ _) h = h
  Step-IsOneTurn {s} (req_round n i w _ sem e) h =
      let a =
        Ensures-ok (λ (i, w'). AfterReq (record s.instance_state { reader_sem = n }) i)
          (worker_req_body channel (record s.instance_state { reader_sem = n }) s.world) (i, w)
          (req_body-AfterReq channel _ s.world) e in
      record { turns = omega arith; queued = omega arith }
  Step-IsOneTurn (rep_enter _ _ _) h = h
  Step-IsOneTurn (rep_leave _ _) h = h
  Step-IsOneTurn {s} (rep_round n i w p _ sem e) h =
      let a =
        Ensures-ok (λ (i, w'). AfterRep (record s.instance_state { writer_sem = n }) i)
          (worker_rep_body channel parent (record s.instance_state { writer_sem = n }) s.world)
          (i, w) (rep_body-AfterRep channel parent _ s.world) e in
      record { turns = omega arith; queued = omega arith }
  Step-IsOneTurn halt h = record { turns = h.turns; queued = h.queued }
  Step-IsOneTurn (elsewhere w) h = h

  -- However the two threads, the destructor and the rest of the process interleave, at most one of
  -- the semaphores is up, and at most one message is queued, and none while a request may be read.
  pub Reach-IsOneTurn : (w : W) {t : System W} → Reach (start w) t → IsOneTurn t.instance_state
  unfolding new_instance
  Reach-IsOneTurn w here = omega arith
  Reach-IsOneTurn w (next r st) = Step-IsOneTurn st (Reach-IsOneTurn w r)
