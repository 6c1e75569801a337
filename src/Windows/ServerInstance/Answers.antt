-- ===== src/Windows/ServerInstance/Answers.antt =====
-- What a Windows instance (source/windows/ipc-server-instance-win.cpp) makes of a request and of its write
-- queue, and what the end of a write does to its read.
use lib_streamlabs_ipc.Base.{
  ℕ, ◌+◌, ◌^◌, ◌<◌, ◌≡◌, refl, sym, true, false, List, Option, none, some, [], ◌∷◌, ◌++◌, length,
  length-replicate, replicate, append-nil, arith, ok, ◌==◌,
}
use lib_streamlabs_ipc.Bytes.{Bytes}
use lib_streamlabs_ipc.Bytes.Laws.{Holds}
use lib_streamlabs_ipc.Message.Call
use lib_streamlabs_ipc.Message.Call.{FunctionCall, encode_call, arrived}
use lib_streamlabs_ipc.Message.Call.Serialize.{length-encode_call}
use lib_streamlabs_ipc.Message.Call.RoundTrip.{deserialize-encode_call}
use lib_streamlabs_ipc.Message.Reply
use lib_streamlabs_ipc.Message.Reply.{encode_reply}
use lib_streamlabs_ipc.Message.Reply.Serialize.{length-encode_reply, serialize-encode_reply}
use lib_streamlabs_ipc.Message.Frame.{splice-zeroed, framed, make_sendable-framed}
use lib_streamlabs_ipc.Server.{Registry, client_call_function}
use lib_streamlabs_ipc.Os.{success, pending, is_success}
use lib_streamlabs_ipc.Os.AsyncOp.{AsyncOp, new_op, set_callback}
use lib_streamlabs_ipc.Osx.ServerInstance.{reply_of}
use lib_streamlabs_ipc.Windows.Utility.{ErrorCodes, translate_error}
use lib_streamlabs_ipc.Windows.AsyncRequest.{prepare, is_complete, is_valid, set_handle, set_valid}
use lib_streamlabs_ipc.Windows.Client.{is_failure}
use lib_streamlabs_ipc.Windows.Socket
use lib_streamlabs_ipc.Windows.Socket.{PipeSystem, is_connected, settle_io}
use lib_streamlabs_ipc.Windows.ServerInstance.{
  Handler, written, Instance, read_callback_msg, answer, read_callback_msg_write, socket_write,
  settle,
}
use lib_streamlabs_ipc.Windows.ServerInstance.Worker.{
  is_busy, ensure_write, write_front, pop_written, check_started, written_front,
}

nonzero : (body : Bytes) → (length (replicate 8 0 ++ body) == 0) ≡ false
nonzero body = ground arith

module _ {ℓ} {W : Type ℓ} (parent : Registry W) (now : W → ℕ) where
  -- A sendable call that has been read without an error is dispatched, and its reply, where that can be
  -- sent, stands at the end of the queue behind eight bytes for its size; the watchdog is told.
  pub read_callback_msg-answers :
      (c : FunctionCall) (s : Instance) (w : W)
      → Call.IsSendable c
      → Call.size c < 2 ^ 64
      → s.rbuf ≡ encode_call c
      → let msg = arrived c in
        let r =
          client_call_function parent s.client_id msg.class_name.value_str
            msg.function_name.value_str msg.arguments [] [] w in
        Reply.IsSendable (reply_of msg r)
        → Reply.size (reply_of msg r) + 8 < 2 ^ 64
        → read_callback_msg parent now success s w
          ≡ ok (
            record s {
              write_waiting = true;
              last_write_time = now w;
              write_queue =
                  s.write_queue ++ ((replicate 8 0 ++ encode_reply (reply_of msg r)) ∷ []);
            },
            r.world,
          )
  unfolding read_callback_msg answer read_callback_msg_write is_success
  read_callback_msg-answers c s w v fits e vr small =
      let msg = arrived c in
      let r =
        client_call_function parent s.client_id msg.class_name.value_str msg.function_name.value_str
          msg.arguments [] [] w in
      let rp = reply_of msg r in
      let len = length-encode_reply rp vr in
      let whole : Holds (encode_call c) 0 (encode_call c) = ([], sym (append-nil _), omega arith) in
      rw
        (
          e,
          deserialize-encode_call c v (encode_call c) 0 (omega (arith, length-encode_call c v))
              whole,
          serialize-encode_reply rp vr (replicate (Reply.size rp + 8) 0) 8
              (omega (arith, length-replicate {A = ℕ} (Reply.size rp + 8) 0))
              (omega (arith, length-replicate {A = ℕ} (Reply.size rp + 8) 0)),
          splice-zeroed (encode_reply rp) (Reply.size rp) len,
          nonzero (encode_reply rp),
        )
        refl

module _ {ℓ} {W : Type ℓ} (system : PipeSystem W) (error_codes : ErrorCodes) where
  prepare_idle :
      (op : Option (AsyncOp Handler)) (cb : Option Handler) (w : W)
      → is_busy op ≡ false
      → (ar : AsyncOp Handler) × (prepare system.overlapped cb op w ≡ ok ar)
  unfolding prepare set_callback is_complete is_valid set_handle
  prepare_idle none cb w h = (record new_op { callback = cb }, refl)
  prepare_idle (some op) cb w h =
      (set_handle (record op { callback = cb }), rw (prepare, set_callback, h) refl)

  -- While no write is pending, the peer is connected and the system leaves the write pending, the worker
  -- sends the front of the queue: the bytes behind its header go to the pipe in their frame, it leaves the queue, the
  -- write is pending, and the watchdog is told.
  pub ensure_write-sends :
      (s : Instance) (body : Bytes) (rest : List Bytes) (w w1 : W) (code : ℕ)
      → is_busy s.wop ≡ false
      → s.write_queue ≡ (replicate 8 0 ++ body) ∷ rest
      → length body + 8 < 2 ^ 64
      → (is_connected system s.socket w).0 ≡ true
      → system.write_file (framed body) w ≡ (true, code, w1)
      → translate_error error_codes code ≡ pending
      → (t : Instance) × (ensure_write system error_codes s w ≡ ok (true, t, w1))
        × (t.write_queue ≡ rest)
        × (is_busy t.wop ≡ true)
        × (t.write_waiting ≡ false)
  unfolding ensure_write write_front socket_write Socket.write settle_io settle pop_written
      check_started written_front is_failure set_valid
  ensure_write-sends s body rest w w1 code idle queued small alive takes waits =
      let (ar, e) = prepare_idle s.wop (some written) w idle in
      (
        record s {
          socket = (is_connected system s.socket w).1;
          wop = some (set_valid true ar);
          write_waiting = false;
          write_queue = rest;
        },
        rw
            (
              ensure_write,
              idle,
              queued,
              write_front,
              make_sendable-framed body small,
              socket_write,
              Socket.write,
              alive,
              e,
              takes,
              settle_io,
              waits,
            )
            refl,
        refl,
        refl,
        refl,
      )
