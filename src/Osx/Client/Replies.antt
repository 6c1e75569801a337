-- ===== src/Osx/Client/Replies.antt =====
-- What a client makes of a reply.
use lib_streamlabs_ipc.Base.{
  ℕ, ◌^◌, ◌<◌, ◌≡◌, sym, ap, ◌∙◌, true, false, none, some, [], take, arith, ok, if◌then◌else◌, ◌==◌,
  append-nil,
}
use lib_streamlabs_ipc.Bytes.Laws.{Holds}
use lib_streamlabs_ipc.Map.{find, erase, int64_key, find-erase}
use lib_streamlabs_ipc.Value.{ui64}
use lib_streamlabs_ipc.Message.Reply
use lib_streamlabs_ipc.Message.Reply.{FunctionReply, new_reply, encode_reply, arrived}
use lib_streamlabs_ipc.Message.Reply.Serialize.{length-encode_reply}
use lib_streamlabs_ipc.Message.Reply.RoundTrip.{deserialize-encode_reply}
use lib_streamlabs_ipc.Message.Frame.{read_size, framed, read_size-framed}
use lib_streamlabs_ipc.Os.{Error, has_data}
use lib_streamlabs_ipc.Osx.Channel.{Channel, reply, resize_bytes}
use lib_streamlabs_ipc.Osx.Client.{
  Client, CallReturn, deliver, read_callback_msg, read_callback_init, await_reply, reply_values,
}

-- A reply whose uid has a callback: the callback runs once on the reply's values, its entry is
-- removed, every other entry stays, and the turn is not given back.
pub deliver-found {ℓ} :
    {W : Type ℓ} (s : Client W) (r : FunctionReply) (w : W) (cb : CallReturn W)
    → find (ui64 r.uid) s.callbacks ≡ some cb
    → ((deliver s r w).1 ≡ cb (reply_values r) w)
      × ((deliver s r w).0.writer_sem ≡ s.writer_sem)
      × ((id : ℕ)
          → find id (deliver s r w).0.callbacks
            ≡ (if ui64 r.uid == id then none else find id s.callbacks))
unfolding deliver
deliver-found s r w cb e = (
  rw (e, deliver),
  rw (e, deliver),
  λ id. rw (e, deliver) (find-erase (ui64 r.uid) id s.callbacks),
)

pub deliver_step {ℓ} :
    {W : Type ℓ} (s : Client W) (r : FunctionReply) (w : W) (cb : CallReturn W)
    → find (ui64 r.uid) s.callbacks ≡ some cb
    → deliver s r w
      ≡ (record s { callbacks = erase (ui64 r.uid) s.callbacks }, cb (reply_values r) w)
unfolding deliver
deliver_step s r w cb e = rw (e, deliver)

module _ {ℓ} {W : Type ℓ} (channel : Channel W) where
  -- When the reply pipe holds the frame of a sendable reply, a waiting client delivers that reply.
  pub await_reply-delivers :
      (r : FunctionReply) (s : Client W) (cbid : ℕ) (w w1 w2 : W) (ec ec2 : Error)
      → Reply.IsSendable r
      → Reply.size r < 2 ^ 32
      → s.shutting_down ≡ false
      → has_data ec ≡ true
      → channel.read (resize_bytes 8 s.buffer) true reply w
        ≡ (ec, take 8 (framed (encode_reply r)), w1)
      → channel.read (resize_bytes (Reply.size r) (take 8 (framed (encode_reply r)))) false reply w1
        ≡ (ec2, encode_reply r, w2)
      → let (s', w') = deliver (record s { buffer = encode_reply r }) (arrived r) w2 in
        await_reply channel s cbid w ≡ ok (s', true, cbid, w')
  unfolding await_reply read_callback_init read_callback_msg
  await_reply-delivers r s cbid w w1 w2 ec ec2 v small up good r1 r2 =
      let len = length-encode_reply r v in
      let n : read_size (take 8 (framed (encode_reply r))) ≡ ok (Reply.size r) =
        read_size-framed (encode_reply r) (omega arith) ∙ ap ok len in
      let nonzero : (Reply.size r == 0) ≡ false = unfold Reply.size in ground arith in
      let whole : Holds (encode_reply r) 0 (encode_reply r) =
        ([], sym (append-nil _), omega arith) in
      simp up (
        rw (
          r1,
          good,
          n,
          r2,
          nonzero,
          deserialize-encode_reply r v (encode_reply r) 0 (omega arith) whole,
        ))
