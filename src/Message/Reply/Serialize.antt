-- ===== src/Message/Reply/Serialize.antt =====
-- `function_reply::serialize` against the wire format.
use lib_streamlabs_ipc.Base.{
  ℕ, ◌+◌, ◌^◌, ◌≤◌, ◌<◌, ◌≡◌, refl, ap, ◌++◌, length, arith, ok, throws, lt→ltb, le→ltb,
  length-append,
}
use lib_streamlabs_ipc.Bytes.{Bytes, le_bytes, sub_size, splice}
use lib_streamlabs_ipc.Bytes.Laws.{length-le_bytes, sub_size-eq, write-splice, write_after}
use lib_streamlabs_ipc.Value
use lib_streamlabs_ipc.Value.Format.{encode, length-encode}
use lib_streamlabs_ipc.Message.Fields.{
  size_values, encode_values, length-encode_values, All-IsWritten, serialize_next_after,
  serialize_values_after,
}
use lib_streamlabs_ipc.Message.Reply.{
  FunctionReply, size, serialize, encode_error, encode_reply, IsSendable,
}

module _ (r : FunctionReply) (v : IsSendable r) where
  pub error_length : length (encode_error r) ≡ 8 + Value.size r.uid + Value.size r.error
  unfolding encode_error
  error_length = omega (
    arith,
    length-append (le_bytes 8 (size r) ++ encode r.uid) (encode r.error),
    length-append (le_bytes 8 (size r)) (encode r.uid),
    length-le_bytes 8 (size r),
    length-encode r.uid v.uid.written,
    length-encode r.error v.error.written,
  )

  pub length-encode_reply : length (encode_reply r) ≡ size r
  unfolding encode_reply size
  length-encode_reply = omega (
    arith,
    length-append (encode_error r ++ le_bytes 4 (length r.values)) (encode_values r.values),
    length-append (encode_error r) (le_bytes 4 (length r.values)),
    error_length,
    length-le_bytes 4 (length r.values),
    length-encode_values r.values (All-IsWritten r.values v.values),
  )

  -- Where the buffer has room behind the offset, `serialize` writes the whole reply there,
  -- changes no other byte, and returns `size`.
  pub serialize-encode_reply :
      (buf : Bytes) (o : ℕ)
      → length buf < 2 ^ 64
      → o + size r ≤ length buf
      → serialize r buf o ≡ ok (splice buf o (encode_reply r), size r)
  unfolding serialize encode_reply
  serialize-encode_reply buf o hl h =
      let total : size r ≡ 8 + Value.size r.uid + Value.size r.error + 4 + size_values r.values =
        unfold size in refl in
      let head = le_bytes 8 (size r) in
      let e0 : length head ≡ 8 = length-le_bytes 8 (size r) in
      let e1 = length-encode r.uid v.uid.written in
      let a1 = length-append head (encode r.uid) in
      let n = error_length in
      let cnt = le_bytes 4 (length r.values) in
      let e4 : length cnt ≡ 4 = length-le_bytes 4 (length r.values) in
      rw
        (
          le→ltb (sub_size (length buf) o) (size r) (omega (arith, sub_size-eq (length buf) o)),
          write-splice buf o head (omega arith),
          serialize_next_after r.uid buf o (o + 8) head v.uid.written hl (omega arith)
              (omega arith),
          serialize_next_after r.error buf o (o + 8 + Value.size r.uid) (head ++ encode r.uid)
              v.error.written hl (omega arith) (omega arith),
          write_after buf o (o + 8 + Value.size r.uid + Value.size r.error) (encode_error r) cnt
              (omega arith) (omega arith),
          serialize_values_after r.values buf o (o + 8 + Value.size r.uid + Value.size r.error + 4)
              (encode_error r ++ cnt) (All-IsWritten r.values v.values) hl
              (omega (arith, length-append (encode_error r) cnt)) (omega arith),
        )
        (ap (λ k. ok (splice buf o (encode_error r ++ cnt ++ encode_values r.values), k))
          (omega arith))

-- Where it has not, `serialize` throws.
pub serialize_reply_throws :
    (r : FunctionReply) (buf : Bytes) (o : ℕ)
    → length buf < 2 ^ 64
    → o ≤ length buf
    → length buf < o + size r
    → serialize r buf o ≡ throws
unfolding serialize
serialize_reply_throws r buf o hl ho h =
    rw (lt→ltb (sub_size (length buf) o) (size r) (omega (arith, sub_size-eq (length buf) o)))
