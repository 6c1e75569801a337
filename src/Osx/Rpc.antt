-- ===== src/Osx/Rpc.antt =====
-- A whole call, from the arguments that the client passes to the values that its callback gets:
-- client_osx::call, server_instance_osx::worker_req and worker_rep, and client_osx::read_callback_init
-- and read_callback_msg, over pipes that carry each frame as it is.
use lib_streamlabs_ipc.Base.{
  ℕ, ◌+◌, ◌^◌, ◌<◌, ◌≡◌, ◌≢◌, refl, sym, Bool, true, false, List, [], ◌∷◌, map, length, take,
  take-all, drop, replicate, length-replicate, All, arith, Outcome, ok, ◌>>=◌, if◌then◌else◌,
  append-nil, lt→ltb,
}
use lib_streamlabs_ipc.Bytes.{Bytes}
use lib_streamlabs_ipc.Bytes.Laws.{Holds}
use lib_streamlabs_ipc.Value.{Value, null, string_value}
use lib_streamlabs_ipc.Value.Format.{IsValid, transmit, assign}
use lib_streamlabs_ipc.Message.Fields.{resize}
use lib_streamlabs_ipc.Message.Call
use lib_streamlabs_ipc.Message.Call.{FunctionCall, new_call, encode_call}
use lib_streamlabs_ipc.Message.Call.Serialize.{length-encode_call}
use lib_streamlabs_ipc.Message.Call.RoundTrip.{deserialize-encode_call}
use lib_streamlabs_ipc.Message.Reply
use lib_streamlabs_ipc.Message.Reply.{FunctionReply, new_reply, encode_reply}
use lib_streamlabs_ipc.Message.Reply.Serialize.{length-encode_reply, serialize-encode_reply}
use lib_streamlabs_ipc.Message.Reply.RoundTrip.{deserialize-encode_reply}
use lib_streamlabs_ipc.Message.Frame.{
  make_sendable, read_size, framed, read_size-framed, drop-framed, make_sendable-framed,
  splice-zeroed,
}
use lib_streamlabs_ipc.Server.{Registry, CallResult, client_call_function}
use lib_streamlabs_ipc.Server.Dispatch.{client_call_function_outcome}
use lib_streamlabs_ipc.Osx.ServerInstance.{reply_of}
use lib_streamlabs_ipc.Osx.Client.{call_message, call_frame, reply_values, error_values}
use lib_streamlabs_ipc.Osx.Client.Calls.{
  IsSmall, call_frame-framed, call_message-IsSendable, arrived-call_message, uint64_value-IsValid,
}

-- What a receiver makes of a frame whose reads succeed, without the reads themselves: the header, and
-- then as many bytes as it says.
unfoldable pub receive : Bytes → Outcome Bytes
receive frame = do n ← read_size (take 8 frame); ok (take n (drop 8 frame))

-- The frame of a reply, as `worker_rep` makes it.
unfoldable pub reply_frame : FunctionReply → Outcome Bytes
reply_frame r = do
  (buf, n) ← Reply.serialize r (replicate (Reply.size r + 8) 0) 8
  make_sendable buf

-- The call with the number `n`, there and back: the values for the callback, and the new state of the
-- application. It puts the parts of the two sides together without their threads, queues and sockets:
-- those are in Osx.ServerInstance.Serves and Osx.Client.Turn.
unfoldable pub round_trip {ℓ} :
    {W : Type ℓ} → Registry W → ℕ → Bytes → Bytes → List Value → W → Outcome (List Value × W)
unfolding receive reply_frame
round_trip parent n cname fname args w = do
  request ← call_frame (call_message n cname fname args)
  body ← receive request
  (msg, k) ← Call.deserialize new_call body 0
  let r =
      client_call_function parent 0 msg.class_name.value_str msg.function_name.value_str
        msg.arguments [] [] w
  reply ← reply_frame (reply_of msg r)
  answer ← receive reply
  (got, k') ← Reply.deserialize new_reply answer 0
  ok (reply_values got, r.world)

receive-framed : (body : Bytes) → length body < 2 ^ 32 → receive (framed body) ≡ ok body
unfolding receive
receive-framed body h =
    rw (read_size-framed body h, drop-framed body, take-all (length body) body (omega arith))

reply_frame-framed :
    (r : FunctionReply)
    → Reply.IsSendable r
    → Reply.size r + 8 < 2 ^ 64
    → reply_frame r ≡ ok (framed (encode_reply r))
unfolding reply_frame
reply_frame-framed r v small =
    let len = length-encode_reply r v in
    let room = length-replicate {A = ℕ} (Reply.size r + 8) 0 in
    rw
      (
        serialize-encode_reply r v (replicate (Reply.size r + 8) 0) 8 (omega arith) (omega arith),
        splice-zeroed (encode_reply r) (Reply.size r) len,
      )
      (make_sendable-framed (encode_reply r) (omega arith))

-- What the callback gets for what the server's handler, or its dispatch, came to.
abbrev pub delivered {ℓ} : {W : Type ℓ} → CallResult W → List Value
delivered r =
    if r.success
    then map transmit r.rval
    else record { type = null; value_union = []; value_str = r.errormsg; value_bin = [] } ∷ []

reply_values-arrived :
    (uid : Value) (b : Bool) (rval : List Value) (message : Bytes)
    → (b ≡ false → (rval ≡ []) × (message ≢ []))
    → reply_values (
        Reply.arrived (record {
          uid = uid;
          error = if b then string_value [] else string_value message;
          values = rval;
        }))
      ≡ (if b
          then map transmit rval
          else record { type = null; value_union = []; value_str = message; value_bin = [] } ∷ [])
unfolding reply_values error_values assign Reply.arrived resize
reply_values-arrived uid true rval message h = refl
reply_values-arrived uid false rval [] h = absurd ((h refl).1 refl)
reply_values-arrived uid false rval (x ∷ xs) h =
    rw ((h refl).0, lt→ltb 0 (length (x ∷ xs)) (omega arith))

delivered-arrived {ℓ} :
    {W : Type ℓ} (parent : Registry W) (msg : FunctionCall) (cname fname : Bytes)
    (args : List Value) (w : W)
    → let r = client_call_function parent 0 cname fname args [] [] w in
      reply_values (Reply.arrived (reply_of msg r)) ≡ delivered r
unfolding reply_of
delivered-arrived parent msg cname fname args w =
    let r = client_call_function parent 0 cname fname args [] [] w in
    let outcome = client_call_function_outcome parent 0 cname fname args [] [] w in
    reply_values-arrived msg.uid r.success r.rval r.errormsg
      (λ f. ((outcome.1 f).1, (outcome.1 f).2))

error-IsValid :
    (b : Bool) (message : Bytes)
    → length message < 2 ^ 32
    → IsValid (if b then string_value [] else string_value message)
error-IsValid true message h = record { written = tt; short = omega arith }
error-IsValid false message h = record { written = tt; short = h }

reply_of-IsSendable {ℓ} :
    {W : Type ℓ} (n : ℕ) (cname fname : Bytes) (args : List Value) (r : CallResult W)
    → length r.errormsg < 2 ^ 32
    → All IsValid r.rval
    → length r.rval < 2 ^ 32
    → Reply.IsSendable (reply_of (call_message n cname fname args) r)
unfolding reply_of call_message
reply_of-IsSendable n cname fname args r short valid count = record {
  uid = uint64_value-IsValid n;
  error = error-IsValid r.success r.errormsg short;
  values = valid;
  count = count;
}

whole : (bs : Bytes) → Holds bs 0 bs
whole bs = ([], sym (append-nil bs), omega arith)

-- A call with small names, valid arguments and valid results, over pipes that carry each frame as it
-- is, returns what the dispatch of the same names on the transmitted arguments returns: the
-- transmitted results if it succeeds, and otherwise one null with the error message as its text.
pub round_trip-delivered {ℓ} :
    {W : Type ℓ} (parent : Registry W) (n : ℕ) (cname fname : Bytes) (args : List Value) (w : W)
    → IsSmall cname fname args
    → Call.size (call_message n cname fname args) < 2 ^ 32
    → let r = client_call_function parent 0 cname fname (map transmit args) [] [] w in
      length r.errormsg < 2 ^ 32
      → All IsValid r.rval
      → length r.rval < 2 ^ 32
      → Reply.size (reply_of (call_message n cname fname (map transmit args)) r) < 2 ^ 32
      → round_trip parent n cname fname args w ≡ ok (delivered r, r.world)
unfolding round_trip
round_trip-delivered parent n cname fname args w h small short valid count small' =
    let msg = call_message n cname fname args in
    let msg' = call_message n cname fname (map transmit args) in
    let v = call_message-IsSendable n cname fname args h in
    let r = client_call_function parent 0 cname fname (map transmit args) [] [] w in
    let rp = reply_of msg' r in
    let v' : Reply.IsSendable rp =
      reply_of-IsSendable n cname fname (map transmit args) r short valid count in
    rw
      (
        call_frame-framed msg v (omega arith),
        receive-framed (encode_call msg) (omega (arith, length-encode_call msg v)),
        deserialize-encode_call msg v (encode_call msg) 0 (omega (arith, length-encode_call msg v))
            (whole (encode_call msg)),
        arrived-call_message n cname fname args,
      )
      (unfold call_message in
        rw (
          reply_frame-framed rp v' (omega arith),
          receive-framed (encode_reply rp) (omega (arith, length-encode_reply rp v')),
          deserialize-encode_reply rp v' (encode_reply rp) 0
              (omega (arith, length-encode_reply rp v')) (whole (encode_reply rp)),
          delivered-arrived parent msg' cname fname (map transmit args) w,
        ))
