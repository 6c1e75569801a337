-- ===== src/Osx/Client/Turn.antt =====
-- The client's writer semaphore across a call: taken before the frame is written, and posted by
-- `call_synchronous_helper`, or by `read_callback_msg` for a reply that no callback waits for.
use lib_streamlabs_ipc.Base.{
  ℕ, suc, ◌+◌, ◌%◌, ◌^◌, ◌<◌, ◌≡◌, refl, ap, ◌∙◌, true, false, none, some, List, take, ok,
}
use lib_streamlabs_ipc.Bytes.{Bytes}
use lib_streamlabs_ipc.Map.{Map, find, contains, insert, erase, int64_key, find-insert, eq_self}
use lib_streamlabs_ipc.Value.{Value, ui64}
use lib_streamlabs_ipc.Message.Call
use lib_streamlabs_ipc.Message.Call.{encode_call}
use lib_streamlabs_ipc.Message.Reply
use lib_streamlabs_ipc.Message.Reply.{FunctionReply, encode_reply, arrived}
use lib_streamlabs_ipc.Message.Frame.{framed}
use lib_streamlabs_ipc.Os.{Error, has_data, is_error}
use lib_streamlabs_ipc.Osx.Channel.{Channel, request, reply, resize_bytes}
use lib_streamlabs_ipc.Osx.Client.{
  Client, CallReturn, CallData, blocked, came_to, call, send_frame, write_loop, store_callback,
  call_message, deliver, reply_values, await_reply, lift_channel, call_synchronous_helper,
  finish_call,
}
use lib_streamlabs_ipc.Osx.Client.Calls.{IsSmall, call_frame-framed, call_message-IsSendable}
use lib_streamlabs_ipc.Osx.Client.Replies.{deliver_step, await_reply-delivers}

-- A client that is connected and not shutting down.
abbrev pub running {ℓ} : {W : Type ℓ} → ℕ → ℕ → Map ℕ (CallReturn W) → Bytes → Client W
running turns timestamp callbacks buffer = record {
  socket = true;
  stopped = false;
  shutting_down = false;
  timestamp = timestamp;
  writer_sem = turns;
  callbacks = callbacks;
  buffer = buffer;
}

abbrev pub next_uid : ℕ → ℕ
next_uid timestamp = (timestamp + 1) % 2 ^ 64

-- The pipes take the frame of the call, and then hold the frame of `r`, the reply with its number.
pub record Answers {ℓ} {W : Type ℓ} (channel : Channel W) (timestamp : ℕ) (buffer : Bytes)
    (cname fname : Bytes) (args : List Value) (r : FunctionReply) (w w3 : W) : Type ℓ where
  pub small : IsSmall cname fname args
  pub fits : Call.size (call_message (next_uid timestamp) cname fname args) + 8 < 2 ^ 64
  pub valid : Reply.IsSendable r
  pub fits_reply : Reply.size r < 2 ^ 32
  pub same_number : ui64 (arrived r).uid ≡ next_uid timestamp
  pub status : Error
  pub written : is_error status ≡ false
  pub w1 : W
  pub sent :
      channel.write
        (framed (encode_call (call_message (next_uid timestamp) cname fname args)))
        request
        w
      ≡ (status, w1)
  pub status1 : Error
  pub has_header : has_data status1 ≡ true
  pub w2 : W
  pub header :
      channel.read (resize_bytes 8 buffer) true reply w1
      ≡ (status1, take 8 (framed (encode_reply r)), w2)
  pub status2 : Error
  pub body :
      channel.read (resize_bytes (Reply.size r) (take 8 (framed (encode_reply r)))) false reply w2
      ≡ (status2, encode_reply r, w3)

module _ {ℓ} {W : Type ℓ} (channel : Channel W) where
  write_once :
      (fuel : ℕ) (frame : Bytes) (w w1 : W) (status : Error)
      → channel.write frame request w ≡ (status, w1)
      → is_error status ≡ false
      → write_loop channel (suc fuel) frame w ≡ some w1
  unfolding write_loop
  write_once fuel frame w w1 status sent good = rw (sent, good)

  send_once :
      (fuel turns timestamp : ℕ) (callbacks : Map ℕ (CallReturn W)) (buffer frame : Bytes)
      (cbid : ℕ) (w w1 : W)
      → write_loop channel fuel frame w ≡ some w1
      → send_frame channel fuel (running (suc turns) timestamp callbacks buffer) cbid (ok frame) w
        ≡ came_to (await_reply channel (running turns timestamp callbacks buffer) cbid w1)
  unfolding send_frame
  send_once fuel turns timestamp callbacks buffer frame cbid w w1 e = rw (e, send_frame)

  no_turn :
      (fuel : ℕ) (frame : Bytes) (s : Client W) (cbid : ℕ) (w : W)
      → s.writer_sem ≡ 0
      → send_frame channel fuel s cbid (ok frame) w ≡ blocked
  unfolding send_frame
  no_turn fuel frame s cbid w e = rw (e, send_frame)

-- The client behind an answered call.
abbrev answered {ℓ} :
    {W : Type ℓ} → ℕ → ℕ → Map ℕ (CallReturn W) → CallReturn W → FunctionReply → Client W
answered turns uid callbacks fn r =
    running turns uid (erase uid (insert uid fn callbacks)) (encode_reply r)

module _ {ℓ} {W : Type ℓ} (channel : Channel W) (fuel turns timestamp : ℕ)
    (callbacks : Map ℕ (CallReturn W)) (buffer cname fname : Bytes) (args : List Value)
    (fn : CallReturn W) (cbid : ℕ) (w w3 : W) (r : FunctionReply) where
  -- A call with a callback, on a client with a turn whose next number is free, over pipes that take
  -- its frame and answer with the frame of a sendable reply of that number: `call` runs the callback
  -- on the reply's values and returns true and the number. Its entry is gone then, and the turn that
  -- it took is not given back.
  pub call-answered :
      contains (next_uid timestamp) callbacks ≡ false
      → Answers channel timestamp buffer cname fname args r w w3
      → call channel
          (suc fuel)
          (running (suc turns) timestamp callbacks buffer)
          cname
          fname
          args
          (some fn)
          cbid
          w
        ≡ came_to (
            ok (
              answered turns (next_uid timestamp) callbacks fn r,
              true,
              next_uid timestamp,
              fn (reply_values (arrived r)) w3,
            ))
  unfolding call store_callback
  call-answered free h =
      let uid = next_uid timestamp in
      let msg = call_message uid cname fname args in
      let all = insert uid fn callbacks in
      let s1 : Client W = running turns uid all buffer in
      let s2 : Client W = running turns uid all (encode_reply r) in
      let found : find (ui64 (arrived r).uid) all ≡ some fn =
        rw (h.same_number, find-insert uid uid fn callbacks free, eq_self uid) in
      let step : deliver s2 (arrived r) w3
          ≡ (answered turns uid callbacks fn r, fn (reply_values (arrived r)) w3) =
        deliver_step s2 (arrived r) w3 fn found ∙ rw h.same_number in
      let awaited =
        await_reply-delivers channel r s1 uid h.w1 h.w2 w3 h.status1 h.status2 h.valid h.fits_reply
          refl h.has_header h.header h.body in
      let frame =
        call_frame-framed msg (call_message-IsSendable uid cname fname args h.small) h.fits in
      let write =
        write_once channel fuel (framed (encode_call msg)) w h.w1 h.status h.sent h.written in
      rw
        (
          frame,
          send_once channel (suc fuel) turns uid all buffer (framed (encode_call msg)) uid w h.w1
              write,
        )
        (ap came_to (awaited ∙ ap (λ x. ok (x.0, true, uid, x.1)) step))

module _ {ℓ} {W : Type ℓ} (channel : Channel W) (fuel timestamp : ℕ)
    (callbacks : Map ℕ (CallReturn W)) (buffer cname fname : Bytes) (args : List Value)
    (fn : CallReturn W) (cbid : ℕ) (w : W) where
  -- A call with a callback and a message that can be sent, on a connected client whose writer
  -- semaphore is at zero, waits, whatever the pipes do and however often the write would be tried.
  call_blocked :
      IsSmall cname fname args
      → Call.size (call_message (next_uid timestamp) cname fname args) + 8 < 2 ^ 64
      → call channel fuel (running 0 timestamp callbacks buffer) cname fname args (some fn) cbid w
        ≡ blocked
  unfolding call store_callback
  call_blocked small fits =
      let uid = next_uid timestamp in
      let msg = call_message uid cname fname args in
      let frame = call_frame-framed msg (call_message-IsSendable uid cname fname args small) fits in
      let s1 : Client W = running 0 uid (insert uid fn callbacks) buffer in
      rw (frame, no_turn channel fuel (framed (encode_call msg)) s1 uid w refl)

module _ {ℓ} {W : Type ℓ} (channel : Channel W) (fuel timestamp : ℕ)
    (callbacks : Map ℕ (CallReturn W)) (buffer cname fname : Bytes) (args : List Value)
    (fn : CallReturn W) (cbid : ℕ) (w w3 : W) (r : FunctionReply) where
  -- A client with one turn makes a call with a callback that is answered, its next number being free. The
  -- call returns, and every later call of the client with a callback and a message that can be sent
  -- waits for ever, whatever the world has come to and however often the write would be tried.
  pub second_call-blocked :
      (fuel' : ℕ) (cname' fname' : Bytes) (args' : List Value) (fn' : CallReturn W) (cbid' : ℕ)
      (v : W)
      → contains (next_uid timestamp) callbacks ≡ false
      → Answers channel timestamp buffer cname fname args r w w3
      → IsSmall cname' fname' args'
      → Call.size (call_message (next_uid (next_uid timestamp)) cname' fname' args') + 8 < 2 ^ 64
      → (s : Client W) × (w4 : W) × (call channel
            (suc fuel)
            (running 1 timestamp callbacks buffer)
            cname
            fname
            args
            (some fn)
            cbid
            w
          ≡ came_to (ok (s, true, next_uid timestamp, w4)))
        × (call channel fuel' s cname' fname' args' (some fn') cbid' v ≡ blocked)
  second_call-blocked fuel' cname' fname' args' fn' cbid' v free h small fits =
      let uid = next_uid timestamp in
      (
        answered 0 uid callbacks fn r,
        fn (reply_values (arrived r)) w3,
        call-answered channel fuel 0 timestamp callbacks buffer cname fname args fn cbid w w3 r free
            h,
        call_blocked channel fuel' uid (erase uid (insert uid fn callbacks)) (encode_reply r) cname'
            fname' args' fn' cbid' v small fits,
      )

abbrev not_called : CallData
not_called = none

module _ {W : Type 0} (channel : Channel W) (fuel turns timestamp : ℕ)
    (callbacks : Map ℕ (CallReturn (W × CallData))) (buffer cname fname : Bytes) (args : List Value)
    (w w3 : W) (r : FunctionReply) where
  -- On a client with a turn whose next number is free, over pipes that take the frame of the call
  -- and answer with the frame of a sendable reply of that number, the synchronous helper returns the
  -- reply's values, leaves no entry of its callback, and gives the turn back.
  pub call_synchronous_helper-answered :
      contains (next_uid timestamp) callbacks ≡ false
      → Answers channel timestamp buffer cname fname args r w w3
      → call_synchronous_helper channel
          (suc fuel)
          true
          (running (suc turns) timestamp callbacks buffer)
          cname
          fname
          args
          w
        ≡ came_to (
            ok (
              running
                  (turns + 1)
                  (next_uid timestamp)
                  (erase
                    (next_uid timestamp)
                    (insert (next_uid timestamp) (λ rval (w', d). (w', some rval)) callbacks))
                  (encode_reply r),
              reply_values (arrived r),
              w3,
            ))
  unfolding call_synchronous_helper finish_call
  call_synchronous_helper-answered free h = rw (
      call-answered (lift_channel channel) fuel turns timestamp callbacks buffer cname fname args
        (λ rval (w', d). (w', some rval)) 0 (w, none) (w3, none) r free lifted)
    where
      lifted :
          Answers
            (lift_channel channel)
            timestamp
            buffer
            cname
            fname
            args
            r
            (w, not_called)
            (w3, not_called)
      lifted = record {
        small = h.small;
        fits = h.fits;
        valid = h.valid;
        fits_reply = h.fits_reply;
        same_number = h.same_number;
        status = h.status;
        written = h.written;
        w1 = (h.w1, none);
        sent = ap (λ x. (x.0, (x.1, none))) h.sent;
        status1 = h.status1;
        has_header = h.has_header;
        w2 = (h.w2, none);
        header = ap (λ x. (x.0, x.1, (x.2, none))) h.header;
        status2 = h.status2;
        body = ap (λ x. (x.0, x.1, (x.2, none))) h.body;
      }
