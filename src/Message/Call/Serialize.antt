-- ===== src/Message/Call/Serialize.antt =====
-- `function_call::serialize` against the wire format.
use lib_streamlabs_ipc.Base.{
  ℕ, ◌+◌, ◌^◌, ◌≤◌, ◌<◌, ◌≡◌, refl, ap, ◌++◌, length, arith, ok, throws, lt→ltb, le→ltb,
  length-append,
}
use lib_streamlabs_ipc.Bytes.{Bytes, le_bytes, sub_size, splice}
use lib_streamlabs_ipc.Bytes.Laws.{length-le_bytes, sub_size-eq, write-splice, write_after}
use lib_streamlabs_ipc.Value
use lib_streamlabs_ipc.Value.Format.{encode, length-encode}
use lib_streamlabs_ipc.Message.Fields.{
  size_values, encode_values, length-encode_values, All-IsWritten, serialize_next_after,
  serialize_values_after,
}
use lib_streamlabs_ipc.Message.Call.{
  FunctionCall, size, serialize, encode_names, encode_call, IsSendable,
}

module _ (c : FunctionCall) (v : IsSendable c) where
  pub names_length :
      length (encode_names c)
      ≡ 8 + Value.size c.uid + Value.size c.class_name + Value.size c.function_name
  unfolding encode_names
  names_length = omega (
    arith,
    length-append (le_bytes 8 (size c) ++ encode c.uid ++ encode c.class_name)
        (encode c.function_name),
    length-append (le_bytes 8 (size c) ++ encode c.uid) (encode c.class_name),
    length-append (le_bytes 8 (size c)) (encode c.uid),
    length-le_bytes 8 (size c),
    length-encode c.uid v.uid.written,
    length-encode c.class_name v.class_name.written,
    length-encode c.function_name v.function_name.written,
  )

  pub length-encode_call : length (encode_call c) ≡ size c
  unfolding encode_call size
  length-encode_call = omega (
    arith,
    length-append (encode_names c ++ le_bytes 4 (length c.arguments)) (encode_values c.arguments),
    length-append (encode_names c) (le_bytes 4 (length c.arguments)),
    names_length,
    length-le_bytes 4 (length c.arguments),
    length-encode_values c.arguments (All-IsWritten c.arguments v.arguments),
  )

  -- Where the buffer has room behind the offset, `serialize` writes the whole message there,
  -- changes no other byte, and returns `size`.
  pub serialize-encode_call :
      (buf : Bytes) (o : ℕ)
      → length buf < 2 ^ 64
      → o + size c ≤ length buf
      → serialize c buf o ≡ ok (splice buf o (encode_call c), size c)
  unfolding serialize encode_call
  serialize-encode_call buf o hl h =
      let total : size c
          ≡ 8
            + Value.size c.uid
            + Value.size c.class_name
            + Value.size c.function_name
            + 4
            + size_values c.arguments =
        unfold size in refl in
      let head = le_bytes 8 (size c) in
      let e0 : length head ≡ 8 = length-le_bytes 8 (size c) in
      let e1 = length-encode c.uid v.uid.written in
      let e2 = length-encode c.class_name v.class_name.written in
      let a1 = length-append head (encode c.uid) in
      let a2 = length-append (head ++ encode c.uid) (encode c.class_name) in
      let n = names_length in
      let cnt = le_bytes 4 (length c.arguments) in
      let e4 : length cnt ≡ 4 = length-le_bytes 4 (length c.arguments) in
      rw
        (
          le→ltb (sub_size (length buf) o) (size c) (omega (arith, sub_size-eq (length buf) o)),
          write-splice buf o head (omega arith),
          serialize_next_after c.uid buf o (o + 8) head v.uid.written hl (omega arith)
              (omega arith),
          serialize_next_after c.class_name buf o (o + 8 + Value.size c.uid) (head ++ encode c.uid)
              v.class_name.written hl (omega arith) (omega arith),
          serialize_next_after c.function_name buf o
              (o + 8 + Value.size c.uid + Value.size c.class_name)
              (head ++ encode c.uid ++ encode c.class_name) v.function_name.written hl (omega arith)
              (omega arith),
          write_after buf o
              (o + 8 + Value.size c.uid + Value.size c.class_name + Value.size c.function_name)
              (encode_names c) cnt (omega arith) (omega arith),
          serialize_values_after c.arguments buf o
              (o + 8 + Value.size c.uid + Value.size c.class_name + Value.size c.function_name + 4)
              (encode_names c ++ cnt) (All-IsWritten c.arguments v.arguments) hl
              (omega (arith, length-append (encode_names c) cnt)) (omega arith),
        )
        (ap (λ k. ok (splice buf o (encode_names c ++ cnt ++ encode_values c.arguments), k))
          (omega arith))

-- Where the buffer has less room than `size` behind an offset inside it, `serialize` of a call
-- throws.
pub serialize_call_throws :
    (c : FunctionCall) (buf : Bytes) (o : ℕ)
    → length buf < 2 ^ 64
    → o ≤ length buf
    → length buf < o + size c
    → serialize c buf o ≡ throws
unfolding serialize
serialize_call_throws c buf o hl ho h =
    rw (lt→ltb (sub_size (length buf) o) (size c) (omega (arith, sub_size-eq (length buf) o)))
