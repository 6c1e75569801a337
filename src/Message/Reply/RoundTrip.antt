-- ===== src/Message/Reply/RoundTrip.antt =====
-- `function_reply::deserialize` reads back what `serialize` wrote.
use lib_streamlabs_ipc.Base.{
  ℕ, ◌+◌, ◌%◌, ◌^◌, ◌≤◌, ◌<◌, ◌≡◌, refl, ap, subst, ◌++◌, [], length-append, length, arith, ok,
  le→ltb,
}
use lib_streamlabs_ipc.Bytes.{Bytes, le_bytes, sub_size, splice}
use lib_streamlabs_ipc.Bytes.Laws.{
  Holds, Holds-le, Holds-append, read_u32-Holds, read_u64-Holds, length-le_bytes, sub_size-eq,
  splice-Holds, length-splice,
}
use lib_streamlabs_ipc.Value
use lib_streamlabs_ipc.Value.{Value, null_value, uint64_value, string_value}
use lib_streamlabs_ipc.Value.Format.{encode, length-encode}
use lib_streamlabs_ipc.Message.Fields.{
  size_values, encode_values, resize_within-ample, deserialize_next-encode,
  deserialize_values-encode,
}
use lib_streamlabs_ipc.Message.Reply.{
  FunctionReply, new_reply, size, serialize, deserialize, deserialize_within, deserialize_fields,
  encode_error, encode_reply, IsSendable, arrived,
}
use lib_streamlabs_ipc.Message.Reply.Serialize.{
  error_length, length-encode_reply, serialize-encode_reply,
}

-- Where the three leading fields stand.
pub record ErrorAt (r : FunctionReply) (buf : Bytes) (o : ℕ) : Type 0 where
  pub total : Holds buf o (le_bytes 8 (size r))
  pub uid : Holds buf (o + 8) (encode r.uid)
  pub error : Holds buf (o + 8 + Value.size r.uid) (encode r.error)

pub error_at :
    (r : FunctionReply) (buf : Bytes) (o : ℕ)
    → IsSendable r
    → Holds buf o (encode_error r)
    → ErrorAt r buf o
unfolding encode_error
error_at r buf o v h =
    let head = le_bytes 8 (size r) in
    let e0 : length head ≡ 8 = length-le_bytes 8 (size r) in
    let e1 = length-encode r.uid v.uid.written in
    let (h2, hc) = Holds-append buf o (head ++ encode r.uid) (encode r.error) h in
    let (h1, hu) = Holds-append buf o head (encode r.uid) h2 in
    record {
      total = h1;
      uid = subst (λ k. Holds buf k (encode r.uid)) (omega arith) hu;
      error =
          subst (λ k. Holds buf k (encode r.error))
            (omega (arith, length-append head (encode r.uid))) hc;
    }

module _ (r : FunctionReply) (v : IsSendable r) (buf : Bytes) (o : ℕ)
    (hl : length buf < 2 ^ 64) where
  -- From a buffer that holds the wire format of a sendable reply, `deserialize` into a new message
  -- gives the reply as it arrives, and returns `size`.
  pub deserialize-encode_reply :
      Holds buf o (encode_reply r) → deserialize new_reply buf o ≡ ok (arrived r, size r)
  unfolding deserialize deserialize_within deserialize_fields encode_reply arrived
  deserialize-encode_reply h =
      let total : size r ≡ 8 + Value.size r.uid + Value.size r.error + 4 + size_values r.values =
        unfold size in refl in
      let cnt = le_bytes 4 (length r.values) in
      let ecnt = length-le_bytes 4 (length r.values) in
      let fits = Holds-le buf o (encode_reply r) h in
      let len = length-encode_reply r v in
      let n = error_length r v in
      let (h2, hargs) = Holds-append buf o (encode_error r ++ cnt) (encode_values r.values) h in
      let (h1, hcnt) = Holds-append buf o (encode_error r) cnt h2 in
      let at = error_at r buf o v h1 in
      let p2 : ℕ = o + 8 + Value.size r.uid + Value.size r.error in
      let hcnt' : Holds buf p2 cnt = subst (λ k. Holds buf k cnt) (omega arith) hcnt in
      let hargs' : Holds buf (p2 + 4) (encode_values r.values) =
        subst (λ k. Holds buf k (encode_values r.values))
          (omega (arith, length-append (encode_error r) cnt)) hargs in
      let small : size r % 2 ^ 64 ≡ size r = omega arith in
      let count : length r.values % 2 ^ 32 ≡ length r.values = omega (arith, v.count) in
      rw
        (
          le→ltb (sub_size (length buf) o) 8 (omega (arith, sub_size-eq (length buf) o)),
          read_u64-Holds buf o (size r) at.total,
          small,
          le→ltb (sub_size (length buf) o) (size r) (omega (arith, sub_size-eq (length buf) o)),
          deserialize_next-encode (uint64_value 0) r.uid buf (o + 8) v.uid hl at.uid,
          deserialize_next-encode (string_value []) r.error buf (o + 8 + Value.size r.uid) v.error
              hl at.error,
          read_u32-Holds buf p2 (length r.values) hcnt',
          count,
          resize_within-ample (length r.values) v.count,
          deserialize_values-encode r.values buf (p2 + 4) v.values hl hargs',
        )
        (ap (λ k. ok (arrived r, k)) (omega arith))

-- What `serialize` has written of a sendable reply into a buffer with room for it, `deserialize`
-- reads back into a new message, and both count the same bytes.
pub deserialize-serialize_reply :
    (r : FunctionReply) (buf : Bytes) (o : ℕ)
    → IsSendable r
    → length buf < 2 ^ 64
    → o + size r ≤ length buf
    → (buf' : Bytes) × (serialize r buf o ≡ ok (buf', size r))
      × (length buf' ≡ length buf)
      × (deserialize new_reply buf' o ≡ ok (arrived r, size r))
deserialize-serialize_reply r buf o v hl h =
    let len = length-encode_reply r v in
    let s = length-splice buf o (encode_reply r) (omega arith) in
    (
      splice buf o (encode_reply r),
      serialize-encode_reply r v buf o hl h,
      s,
      deserialize-encode_reply r v (splice buf o (encode_reply r)) o (omega arith)
          (splice-Holds buf o (encode_reply r) (omega arith)),
    )
