-- ===== src/Windows/Client/Delivery.antt =====
-- How a reply reaches its callback in the Windows client (source/windows/ipc-client-win.cpp): one wait for
-- the header, another for the body.
use lib_streamlabs_ipc.Base.{
  ℕ, ◌^◌, ◌<◌, ◌≡◌, refl, sym, ap, ◌∙◌, true, false, some, [], take, append-nil, arith, ok, ◌==◌,
}
use lib_streamlabs_ipc.Bytes.Laws.{Holds}
use lib_streamlabs_ipc.Map.{find, erase, int64_key}
use lib_streamlabs_ipc.Value.{ui64}
use lib_streamlabs_ipc.Message.Reply
use lib_streamlabs_ipc.Message.Reply.{FunctionReply, new_reply, encode_reply, arrived}
use lib_streamlabs_ipc.Message.Reply.Serialize.{length-encode_reply}
use lib_streamlabs_ipc.Message.Reply.RoundTrip.{deserialize-encode_reply}
use lib_streamlabs_ipc.Message.Frame.{read_size, framed, read_size-framed}
use lib_streamlabs_ipc.Os.{Error, success, pending, has_data, is_success}
use lib_streamlabs_ipc.Os.AsyncOp.{AsyncOp, set_callback}
use lib_streamlabs_ipc.Osx.Channel.{resize_bytes, length-resize_bytes}
use lib_streamlabs_ipc.Osx.Client.{CallReturn, reply_values}
use lib_streamlabs_ipc.Windows.Utility.{ErrorCodes, translate_error}
use lib_streamlabs_ipc.Windows.AsyncRequest.{
  invalidate, due, prepare, set_handle, set_valid, is_complete, is_valid, result,
}
use lib_streamlabs_ipc.Windows.Socket
use lib_streamlabs_ipc.Windows.Socket.{PipeSystem, is_connected, settle_io}
use lib_streamlabs_ipc.Windows.Client.{
  Client, Handler, init, msg, Waiting, deliver, invalidate_rop, read_callback_msg, socket_read,
  check_body, read_body, read_sized, read_callback_init, run_handler, is_failure,
}
use lib_streamlabs_ipc.Windows.Client.Worker.{wait_rop}

-- The operation once the read of the body has started on it.
abbrev pub body_op : AsyncOp Handler → AsyncOp Handler
body_op op = record op { valid = true; callback = some msg; callback_called = false }

module _ {ℓ} {W : Type ℓ} (system : PipeSystem W) (error_codes : ErrorCodes)
    (waiting : Waiting W) where
  -- A client whose read of a body is pending.
  abbrev pub awaiting_body :
      FunctionReply → Client W → Socket.Socket → AsyncOp Handler → W → Client W
  awaiting_body r s socket op w = record s {
    socket = some (is_connected system socket w).1;
    rop = some (body_op op);
    buf = resize_bytes (Reply.size r) s.buf;
  }

  body_read :
      (n : ℕ) (s : Client W) (socket : Socket.Socket) (op : AsyncOp Handler) (w w1 : W) (code : ℕ)
      → s.socket ≡ some socket
      → s.rop ≡ some (invalidate op)
      → (is_connected system socket w).0 ≡ true
      → system.read_file n w ≡ (true, code, w1)
      → translate_error error_codes code ≡ pending
      → read_body system error_codes s n w
        ≡ ok (
          record s {
            socket = some (is_connected system socket w).1;
            rop = some (body_op op);
            buf = resize_bytes n s.buf;
          },
          w1,
        )
  unfolding read_body socket_read Socket.read settle_io set_handle set_valid prepare set_callback
      is_complete is_valid check_body is_failure invalidate
  body_read n s socket op w w1 code e f alive started waits =
      rw
        (
          read_body,
          socket_read,
          e,
          f,
          length-resize_bytes n s.buf,
          Socket.read,
          alive,
          started,
          settle_io,
          waits,
        )
        refl

  header_read :
      (r : FunctionReply) (s : Client W) (socket : Socket.Socket) (op : AsyncOp Handler)
      (ec : Error) (w w1 : W) (code : ℕ)
      → Reply.IsSendable r
      → Reply.size r < 2 ^ 32
      → s.socket ≡ some socket
      → s.rop ≡ some op
      → s.buf ≡ take 8 (framed (encode_reply r))
      → has_data ec ≡ true
      → (is_connected system socket w).0 ≡ true
      → system.read_file (Reply.size r) w ≡ (true, code, w1)
      → translate_error error_codes code ≡ pending
      → read_callback_init system error_codes ec s w ≡ ok (awaiting_body r s socket op w, w1)
  unfolding read_callback_init invalidate_rop read_sized
  header_read r s socket op ec w w1 code v small e f g good alive started waits =
      let len = length-encode_reply r v in
      let n : read_size s.buf ≡ ok (Reply.size r) =
        ap read_size g ∙ read_size-framed (encode_reply r) (omega arith) ∙ ap ok len in
      let nonzero : (Reply.size r == 0) ≡ false = unfold Reply.size in ground arith in
      rw (read_callback_init, invalidate_rop, f, good, read_sized, n, nonzero)
        (body_read (Reply.size r) (record s { rop = some (invalidate op) }) socket op w w1 code e
          refl alive started waits)

  body_arrives :
      (r : FunctionReply) (s : Client W) (op : AsyncOp Handler) (w : W)
      → Reply.IsSendable r
      → Reply.size r < 2 ^ 32
      → s.rop ≡ some op
      → s.buf ≡ encode_reply r
      → read_callback_msg s w ≡ ok (deliver (record s { rop = some (invalidate op) }) (arrived r) w)
  unfolding read_callback_msg invalidate_rop
  body_arrives r s op w v small e f =
      let whole : Holds (encode_reply r) 0 (encode_reply r) =
        ([], sym (append-nil _), omega arith) in
      let parsed =
        ap (λ b. Reply.deserialize new_reply b 0) f
        ∙ deserialize-encode_reply r v (encode_reply r) 0 (omega (arith, length-encode_reply r v))
            whole in
      rw (read_callback_msg, invalidate_rop, e, parsed) refl

  -- Two waits of the worker: the first finds the header of `r`, behind which the peer is connected and a read
  -- of the body is pending; the second finds the body.
  pub record Arrives (r : FunctionReply) (s : Client W) (socket : Socket.Socket) (ms ms2 : ℕ)
      (w w1 w2 w3 : W) : Type ℓ where
    pub code : ℕ
    pub header_came : waiting.wait ms w ≡ (success, w1)
    pub header : waiting.filled s.buf w1 ≡ take 8 (framed (encode_reply r))
    pub good : has_data (result system.overlapped error_codes w1).0 ≡ true
    pub alive : (is_connected system socket w1).0 ≡ true
    pub started : system.read_file (Reply.size r) w1 ≡ (true, code, w2)
    pub waits : translate_error error_codes code ≡ pending
    pub body_came : waiting.wait ms2 w2 ≡ (success, w3)
    pub body :
        waiting.filled (resize_bytes (Reply.size r) (waiting.filled s.buf w1)) w3 ≡ encode_reply r

  wait_header :
      (r : FunctionReply) (s : Client W) (socket : Socket.Socket) (op : AsyncOp Handler)
      (ms ms2 : ℕ) (w w1 w2 w3 : W)
      → Reply.IsSendable r
      → Reply.size r < 2 ^ 32
      → s.socket ≡ some socket
      → s.rop ≡ some op
      → due op ≡ (some init, record op { callback_called = true })
      → Arrives r s socket ms ms2 w w1 w2 w3
      → wait_rop system error_codes waiting ms s w
        ≡ ok (
          success,
          awaiting_body r
              (record s { buf = waiting.filled s.buf w1 })
              socket
              (record op { callback_called = true })
              w1,
          w2,
        )
  unfolding wait_rop run_handler is_success result
  wait_header r s socket op ms ms2 w w1 w2 w3 v small e f d a =
      let s1 = record s {
        buf = waiting.filled s.buf w1;
        rop = some (record op { callback_called = true });
      } in
      rw
        (
          wait_rop,
          f,
          a.header_came,
          d,
          run_handler,
          header_read r s1 socket (record op { callback_called = true })
              (result system.overlapped error_codes w1).0 w1 w2 a.code v small e refl a.header
              a.good a.alive a.started a.waits,
        )
        refl

  wait_body :
      (r : FunctionReply) (t : Client W) (op : AsyncOp Handler) (ms : ℕ) (w w1 : W)
      → Reply.IsSendable r
      → Reply.size r < 2 ^ 32
      → t.rop ≡ some (body_op op)
      → waiting.wait ms w ≡ (success, w1)
      → waiting.filled t.buf w1 ≡ encode_reply r
      → let u = record t {
        buf = waiting.filled t.buf w1;
        rop = some (invalidate (record (body_op op) { callback_called = true }));
      } in
        wait_rop system error_codes waiting ms t w
        ≡ ok (success, (deliver u (arrived r) w1).0, (deliver u (arrived r) w1).1)
  unfolding wait_rop run_handler is_success result due
  wait_body r t op ms w w1 v small e f g =
      let done = record (body_op op) { callback_called = true } in
      rw
        (
          wait_rop,
          e,
          f,
          run_handler,
          body_arrives r (record t { buf = waiting.filled t.buf w1; rop = some done }) done w1 v
              small refl g,
        )
        refl

  -- On a client with a socket that waits for a header, two waits deliver a sendable reply below 4 GiB, when
  -- the first finds its header, behind which the read of the body is pending, and the second finds its body:
  -- the callback of its number has run on its values and is stored no more.
  pub two_waits-deliver :
      (r : FunctionReply) (s : Client W) (socket : Socket.Socket) (op : AsyncOp Handler)
      (cb : CallReturn W) (ms ms2 : ℕ) (w w1 w2 w3 : W)
      → Reply.IsSendable r
      → Reply.size r < 2 ^ 32
      → s.socket ≡ some socket
      → s.rop ≡ some op
      → due op ≡ (some init, record op { callback_called = true })
      → find (ui64 (arrived r).uid) s.callbacks ≡ some cb
      → Arrives r s socket ms ms2 w w1 w2 w3
      → (t : Client W) × (u : Client W) × (wait_rop system error_codes waiting ms s w
          ≡ ok (success, t, w2))
        × (wait_rop system error_codes waiting ms2 t w2
            ≡ ok (success, u, cb (reply_values (arrived r)) w3))
        × (u.callbacks ≡ erase (ui64 (arrived r).uid) s.callbacks)
  unfolding deliver
  two_waits-deliver r s socket op cb ms ms2 w w1 w2 w3 v small e f d h a =
      let done = record op { callback_called = true } in
      let t = awaiting_body r (record s { buf = waiting.filled s.buf w1 }) socket done w1 in
      let u = record t {
        buf = waiting.filled t.buf w3;
        rop = some (invalidate (record (body_op done) { callback_called = true }));
      } in
      (
        t,
        record u { callbacks = erase (ui64 (arrived r).uid) s.callbacks },
        wait_header r s socket op ms ms2 w w1 w2 w3 v small e f d a,
        wait_body r t done ms2 w2 w3 v small refl a.body_came a.body ∙ rw (deliver, h) refl,
        refl,
      )
