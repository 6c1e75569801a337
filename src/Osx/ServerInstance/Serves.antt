-- ===== src/Osx/ServerInstance/Serves.antt =====
-- One request through the two threads: from its frame on the request pipe to the frame of its reply
-- on the reply pipe.
use lib_streamlabs_ipc.Base.{
  ℕ, ◌+◌, ◌^◌, ◌≤◌, ◌<◌, ◌≡◌, refl, sym, ap, ◌∙◌, true, false, none, List, [], ◌∷◌, ◌++◌, take,
  replicate, length-replicate, append-nil, arith, ok, undefined, lt→ltb, le→ltb,
}
use lib_streamlabs_ipc.Bytes.{Bytes}
use lib_streamlabs_ipc.Bytes.Laws.{Holds}
use lib_streamlabs_ipc.Message.Call
use lib_streamlabs_ipc.Message.Call.{FunctionCall, new_call, encode_call, arrived}
use lib_streamlabs_ipc.Message.Call.Serialize.{length-encode_call}
use lib_streamlabs_ipc.Message.Call.RoundTrip.{deserialize-encode_call}
use lib_streamlabs_ipc.Message.Reply
use lib_streamlabs_ipc.Message.Reply.{FunctionReply, encode_reply}
use lib_streamlabs_ipc.Message.Reply.Serialize.{length-encode_reply, serialize-encode_reply}
use lib_streamlabs_ipc.Message.Frame.{
  read_size, framed, read_size-framed, make_sendable-framed, splice-zeroed, make_sendable_undefined,
}
use lib_streamlabs_ipc.Server.{Registry, client_call_function}
use lib_streamlabs_ipc.Os.{Error, has_data}
use lib_streamlabs_ipc.Osx.Channel.{Channel, request, reply, resize_bytes}
use lib_streamlabs_ipc.Osx.ServerInstance.{
  Instance, worker_req_body, read_callback_init, read_body, read_callback_msg, queue_message,
  worker_rep_body, answer, send_reply, read_callback_msg_write, reply_of, stop_instance,
}

-- The buffer itself holds the whole of its bytes.
Holds-all : (bs : Bytes) → Holds bs 0 bs
Holds-all bs = ([], sym (append-nil bs), omega arith)

module _ {ℓ} {W : Type ℓ} (channel : Channel W) where
  -- The request thread, when the pipe holds the frame of a sendable call below 4 GiB: the call is
  -- queued as it arrives, and the turn goes to the reply thread.
  pub worker_req_body-queues :
      (c : FunctionCall) (s : Instance) (w w1 w2 : W) (ec ec2 : Error)
      → Call.IsSendable c
      → Call.size c < 2 ^ 32
      → has_data ec ≡ true
      → channel.read (resize_bytes 8 s.rbuf) true request w
        ≡ (ec, take 8 (framed (encode_call c)), w1)
      → channel.read (resize_bytes (Call.size c) (take 8 (framed (encode_call c)))) false request w1
        ≡ (ec2, encode_call c, w2)
      → worker_req_body channel s w
        ≡ ok (
          record s { rbuf = []; msgs = s.msgs ++ (arrived c ∷ []); writer_sem = s.writer_sem + 1 },
          w2,
        )
  unfolding worker_req_body read_callback_init read_body read_callback_msg queue_message
  worker_req_body-queues c s w w1 w2 ec ec2 v small good r1 r2 =
      let len = length-encode_call c v in
      let n : read_size (take 8 (framed (encode_call c))) ≡ ok (Call.size c) =
        read_size-framed (encode_call c) (omega arith) ∙ ap ok len in
      let big : 1 < Call.size c = unfold Call.size in omega arith in
      rw (
        r1,
        good,
        n,
        r2,
        lt→ltb 1 (Call.size c) big,
        deserialize-encode_call c v (encode_call c) 0 (omega arith) (Holds-all (encode_call c)),
      )

  -- The reply thread, when nobody stops the workers, no write is pending, and the reply can be sent:
  -- the oldest message is taken out and dispatched, the frame of its reply is written, and the turn
  -- goes back to the request thread.
  pub worker_rep_body-answers :
      (parent : Registry W) (s : Instance) (msg : FunctionCall) (rest : List FunctionCall)
      (w w' : W) (ec : Error)
      → s.stop_workers ≡ false
      → s.msgs ≡ msg ∷ rest
      → s.wop ≡ none
      → s.write_queue ≡ []
      → let r =
          client_call_function parent 0 msg.class_name.value_str msg.function_name.value_str
            msg.arguments [] [] w in
        Reply.IsSendable (reply_of msg r)
        → Reply.size (reply_of msg r) + 8 < 2 ^ 64
        → channel.write (framed (encode_reply (reply_of msg r))) reply r.world ≡ (ec, w')
        → worker_rep_body channel parent s w
          ≡ ok (record s { msgs = rest; reader_sem = s.reader_sem + 1 }, w')
  unfolding worker_rep_body answer send_reply read_callback_msg_write
  worker_rep_body-answers parent s msg rest w w' ec run queued now idle v small sent =
      let r =
        client_call_function parent 0 msg.class_name.value_str msg.function_name.value_str
          msg.arguments [] [] w in
      let rp = reply_of msg r in
      let len = length-encode_reply rp v in
      rw (
        run,
        queued,
        serialize-encode_reply rp v (replicate (Reply.size rp + 8) 0) 8
            (omega (arith, length-replicate {A = ℕ} (Reply.size rp + 8) 0))
            (omega (arith, length-replicate {A = ℕ} (Reply.size rp + 8) 0)),
        splice-zeroed (encode_reply rp) (Reply.size rp) len,
        now,
        idle,
        make_sendable-framed (encode_reply rp) (omega arith),
        sent,
      )

  -- A frame that announces at most one byte, read while no message is queued and nobody stops the
  -- workers, gives the turn to the reply thread, which then takes the front of an empty queue.
  pub short_frame_undefined :
      (parent : Registry W) (s : Instance) (w w1 : W) (ec : Error) (hdr : Bytes) (n : ℕ)
      → has_data ec ≡ true
      → channel.read (resize_bytes 8 s.rbuf) true request w ≡ (ec, hdr, w1)
      → read_size hdr ≡ ok n
      → n ≤ 1
      → s.msgs ≡ []
      → s.stop_workers ≡ false
      → (s' : Instance) × (worker_req_body channel s w ≡ ok (s', w1))
        × (s'.writer_sem ≡ s.writer_sem + 1)
        × (worker_rep_body channel parent s' w1 ≡ undefined)
  unfolding worker_req_body read_callback_init read_body worker_rep_body answer
  short_frame_undefined parent s w w1 ec hdr n good r size small none_queued run = (
    record s { rbuf = hdr; writer_sem = s.writer_sem + 1 },
    rw (r, good, size, le→ltb 1 n small),
    refl,
    rw (run, none_queued),
  )

  -- The destructor's wake-up message is one byte long, and making it sendable writes behind it.
  pub stop_instance_undefined : (s : Instance) (w : W) → stop_instance channel s w ≡ undefined
  unfolding stop_instance
  stop_instance_undefined s w = rw (make_sendable_undefined (49 ∷ []) (omega arith))
