-- ===== src/Windows/ServerInstance/Handled.antt =====
-- The callbacks of a Windows instance (source/windows/ipc-server-instance-win.cpp) take the stream of its
-- replies forward.
use lib_streamlabs_ipc.Base.{
  ◌≡◌, refl, sym, ap, ◌∙◌, inl, inr, map, drop, append_assoc, Bool-cases, Option-cases, Ensures,
  Ensures-bind, Ensures-after, ℕ, ◌+◌, Bool, true, Option, none, some, List, [], ◌∷◌, ◌++◌,
  replicate, if◌then◌else◌, ◌==◌, ok, ◌>>=◌,
}
use lib_streamlabs_ipc.Bytes.{Bytes}
use lib_streamlabs_ipc.Message.Call
use lib_streamlabs_ipc.Message.Call.{FunctionCall, new_call}
use lib_streamlabs_ipc.Message.Reply
use lib_streamlabs_ipc.Message.Frame.{read_size}
use lib_streamlabs_ipc.Server.{Registry, client_call_function}
use lib_streamlabs_ipc.Os.{Error, has_data, is_success}
use lib_streamlabs_ipc.Osx.Channel.{resize_bytes}
use lib_streamlabs_ipc.Osx.ServerInstance.{reply_of}
use lib_streamlabs_ipc.Windows.Utility.{ErrorCodes}
use lib_streamlabs_ipc.Windows.AsyncRequest.{due, result}
use lib_streamlabs_ipc.Windows.Socket.{PipeSystem}
use lib_streamlabs_ipc.Windows.Client.{is_failure, is_disconnected}
use lib_streamlabs_ipc.Windows.ServerInstance.{
  Handler, read_init, read_msg, written, Slot, reading, writing, Instance, socket_read,
  read_callback_init, run_handler, invalidate_rop, write_callback, read_callback_msg_write, answer,
  read_callback_msg, check_body, read_body, read_sized,
}
use lib_streamlabs_ipc.Windows.ServerInstance.Worker.{Waiting, complete}
use lib_streamlabs_ipc.Windows.ServerInstance.Stream.{
  Grows, stream, TakesFrames, Forward, still, Forward-bind, kept_by_if, kept_by_bind, quiet_before,
  invalidate_rop-kept, write_callback-kept, read_callback_msg_write-Grows,
}
use lib_streamlabs_ipc.Windows.ServerInstance.Order.{Plain, stay, flag, socket_read-Forward}

map-append : (xs ys : List Bytes) → map (drop 8) (xs ++ ys) ≡ map (drop 8) xs ++ map (drop 8) ys
map-append [] ys = refl
map-append (x ∷ xs) ys = ap (◌∷◌ (drop 8 x)) (map-append xs ys)

module _ {ℓ} {W : Type ℓ} (sent : W → List Bytes) (parent : Registry W) (now : W → ℕ)
    (system : PipeSystem W) (error_codes : ErrorCodes) (waiting : Waiting W)
    (takes : TakesFrames sent parent system error_codes waiting) where
  longer_queue :
      (s t : Instance) (w v : W)
      → Grows s.write_queue t.write_queue
      → sent v ≡ sent w
      → Grows (stream sent s w) (stream sent t v)
  longer_queue s t w v (new, e) f = (
    map (drop 8) new,
    rw (e, f)
        (ap (map (drop 8)) (sym (append_assoc (sent w) s.write_queue new))
          ∙ map-append (sent w ++ s.write_queue) new),
  )

  answer-Forward :
      (msg : FunctionCall)
      → Plain sent parent now system error_codes waiting takes (λ s. answer parent now s msg)
  unfolding answer
  answer-Forward msg s w =
      let r =
        client_call_function parent s.client_id msg.class_name.value_str msg.function_name.value_str
          msg.arguments [] [] w in
      let fnc_reply = reply_of msg r in
      Ensures-after (Forward sent (λ p. p) s w)
        (Reply.serialize fnc_reply (replicate (Reply.size fnc_reply + 8) 0) 8)
        (λ b. read_callback_msg_write s b.0 >>= (λ t. ok (t, r.world)))
        (λ b.
          Ensures-bind (λ t. Grows s.write_queue t.write_queue) (Forward sent (λ p. p) s w)
            (read_callback_msg_write s b.0) (λ t. ok (t, r.world))
            (read_callback_msg_write-Grows s b.0)
            (λ t g. longer_queue s t w r.world g (
              takes.call s.client_id msg.class_name.value_str msg.function_name.value_str
                msg.arguments w)))

  read_callback_msg-Forward :
      (ec : Error)
      → Plain sent parent now system error_codes waiting takes (read_callback_msg parent now ec)
  unfolding read_callback_msg
  read_callback_msg-Forward ec s w =
      let s0 = record s { write_waiting = true; last_write_time = now w } in
      elim (Bool-cases (is_success ec)) [
        | inl e ↦
            rw (read_callback_msg, e)
              (Ensures-after (Forward sent (λ p. p) s w) (Call.deserialize new_call s0.rbuf 0)
                (λ m. answer parent now s0 m.0 w) (λ m. answer-Forward m.0 s0 w))
        | inr e ↦ rw (read_callback_msg, e) tt
      ]

  check_body-Forward :
      (r : Error × Instance × W)
      → Ensures (Forward sent (λ p. p) r.1 r.2) (check_body parent now system error_codes r)
  unfolding check_body
  check_body-Forward (ec, s, w) = elim (Bool-cases (is_failure ec)) [
    | inl e ↦ elim (Bool-cases (is_disconnected ec)) [
      | inl f ↦ rw (check_body, e, f) (stay sent parent now system error_codes waiting takes s w)
      | inr f ↦ rw (check_body, e, f) tt
    ]
    | inr e ↦ rw (check_body, e) (stay sent parent now system error_codes waiting takes s w)
  ]

  read_body-Forward :
      (n : ℕ)
      → Plain sent parent now system error_codes waiting takes
          (read_body parent now system error_codes n)
  unfolding read_body
  read_body-Forward n s w =
      kept_by_bind sent (λ p. (p.1, p.2)) (λ p. p)
        (socket_read system error_codes (read_callback_msg parent now) read_msg)
        (check_body parent now system error_codes)
        (socket_read-Forward sent parent now system error_codes waiting takes
          (read_callback_msg parent now) read_msg read_callback_msg-Forward)
        check_body-Forward (record s { rbuf = resize_bytes n s.rbuf }) w

  read_sized-Forward :
      Plain sent parent now system error_codes waiting takes
        (read_sized parent now system error_codes)
  unfolding read_sized
  read_sized-Forward s w =
      Ensures-after (Forward sent (λ p. p) s w) (read_size s.rbuf)
        (λ n. if n == 0 then ok (s, w) else read_body parent now system error_codes n s w)
        (λ n.
          kept_by_if sent (n == 0) (λ p. p) (λ t v. ok (t, v))
            (read_body parent now system error_codes n)
            (stay sent parent now system error_codes waiting takes) (read_body-Forward n) s w)

  pub read_callback_init-Forward :
      (ec : Error)
      → Plain sent parent now system error_codes waiting takes
          (read_callback_init parent now system error_codes ec)
  unfolding read_callback_init
  read_callback_init-Forward ec s w =
      Ensures-bind (λ t. t.write_queue ≡ s.write_queue) (Forward sent (λ p. p) s w)
        (invalidate_rop s)
        (λ t. if has_data ec then read_sized parent now system error_codes t w else ok (t, w))
        (invalidate_rop-kept s)
        (λ t e.
          quiet_before sent (λ p. p) s t w w
            (if has_data ec then read_sized parent now system error_codes t w else ok (t, w)) e refl
            (kept_by_if sent (has_data ec) (λ p. p) (read_sized parent now system error_codes)
              (λ u v. ok (u, v)) read_sized-Forward
              (stay sent parent now system error_codes waiting takes) t w))

  run_handler-Forward :
      (cb : Option Handler) (ec : Error)
      → Plain sent parent now system error_codes waiting takes
          (run_handler parent now system error_codes cb ec)
  unfolding run_handler
  run_handler-Forward none ec s w = stay sent parent now system error_codes waiting takes s w
  run_handler-Forward (some read_init) ec s w = read_callback_init-Forward ec s w
  run_handler-Forward (some read_msg) ec s w = read_callback_msg-Forward ec s w
  run_handler-Forward (some written) ec s w =
      Ensures-bind (λ t. t.write_queue ≡ s.write_queue) (Forward sent (λ p. p) s w)
        (write_callback s) (λ t. ok (t, w)) (write_callback-kept s)
        (λ t e. still sent s t w w e refl)

  complete-Forward :
      (slot : Slot)
      → Plain sent parent now system error_codes waiting takes
          (complete parent now system error_codes waiting slot)
  unfolding complete
  complete-Forward reading s w = elim (Option-cases s.rop) [
    | inl e ↦ rw (complete, e) (stay sent parent now system error_codes waiting takes s w)
    | inr (op, e) ↦
        rw (complete, e)
          (run_handler-Forward (due op).0 (result system.overlapped error_codes w).0
            (record s { rop = some (due op).1; rbuf = waiting.filled s.rbuf w }) w)
  ]
  complete-Forward writing s w = elim (Option-cases s.wop) [
    | inl e ↦ rw (complete, e) (stay sent parent now system error_codes waiting takes s w)
    | inr (op, e) ↦
        rw (complete, e)
          (run_handler-Forward (due op).0 (result system.overlapped error_codes w).0
            (record s { wop = some (due op).1 }) w)
  ]

  -- The callback behind a wait that has succeeded.
  pub served :
      (slot : Slot) (s : Instance) (w v : W)
      → sent v ≡ sent w
      → Ensures {A = Bool × Instance × W}
          (Forward sent (λ p. (p.1, p.2)) s w)
          (complete parent now system error_codes waiting slot s v >>= (λ p. ok (true, p.0, p.1)))
  served slot s w v e =
      quiet_before sent (λ p. (p.1, p.2)) s s w v
        (complete parent now system error_codes waiting slot s v >>= (λ p. ok (true, p.0, p.1)))
        refl e
        (Forward-bind sent (λ p. p) (λ p. (p.1, p.2)) s v
          (complete parent now system error_codes waiting slot s v) (λ p. ok (true, p.0, p.1))
          (complete-Forward slot s v)
          (λ p. flag sent parent now system error_codes waiting takes true p.0 p.1))
