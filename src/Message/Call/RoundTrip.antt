-- ===== src/Message/Call/RoundTrip.antt =====
-- `function_call::deserialize` reads back what `serialize` wrote.
use lib_streamlabs_ipc.Base.{
  ℕ, ◌+◌, ◌%◌, ◌^◌, ◌≤◌, ◌<◌, ◌≡◌, refl, ap, subst, ◌++◌, [], length-append, length, arith, ok,
  le→ltb,
}
use lib_streamlabs_ipc.Bytes.{Bytes, le_bytes, sub_size, splice}
use lib_streamlabs_ipc.Bytes.Laws.{
  Holds, Holds-le, Holds-append, read_u32-Holds, read_u64-Holds, length-le_bytes, sub_size-eq,
  splice-Holds, length-splice,
}
use lib_streamlabs_ipc.Value
use lib_streamlabs_ipc.Value.{Value, null_value, uint64_value, string_value}
use lib_streamlabs_ipc.Value.Format.{encode, length-encode}
use lib_streamlabs_ipc.Message.Fields.{
  size_values, encode_values, resize_within-ample, deserialize_next-encode,
  deserialize_values-encode,
}
use lib_streamlabs_ipc.Message.Call.{
  FunctionCall, new_call, size, serialize, deserialize, deserialize_within, deserialize_fields,
  deserialize_arguments, encode_names, encode_call, IsSendable, arrived,
}
use lib_streamlabs_ipc.Message.Call.Serialize.{
  names_length, length-encode_call, serialize-encode_call,
}

-- Where the four leading fields stand.
pub record NamesAt (c : FunctionCall) (buf : Bytes) (o : ℕ) : Type 0 where
  pub total : Holds buf o (le_bytes 8 (size c))
  pub uid : Holds buf (o + 8) (encode c.uid)
  pub class_name : Holds buf (o + 8 + Value.size c.uid) (encode c.class_name)
  pub function_name :
      Holds buf (o + 8 + Value.size c.uid + Value.size c.class_name) (encode c.function_name)

pub names_at :
    (c : FunctionCall) (buf : Bytes) (o : ℕ)
    → IsSendable c
    → Holds buf o (encode_names c)
    → NamesAt c buf o
unfolding encode_names
names_at c buf o v h =
    let head = le_bytes 8 (size c) in
    let e0 : length head ≡ 8 = length-le_bytes 8 (size c) in
    let e1 = length-encode c.uid v.uid.written in
    let e2 = length-encode c.class_name v.class_name.written in
    let (h3, hf) =
      Holds-append buf o (head ++ encode c.uid ++ encode c.class_name) (encode c.function_name) h in
    let (h2, hc) = Holds-append buf o (head ++ encode c.uid) (encode c.class_name) h3 in
    let (h1, hu) = Holds-append buf o head (encode c.uid) h2 in
    record {
      total = h1;
      uid = subst (λ k. Holds buf k (encode c.uid)) (omega arith) hu;
      class_name =
          subst (λ k. Holds buf k (encode c.class_name))
            (omega (arith, length-append head (encode c.uid))) hc;
      function_name =
          subst (λ k. Holds buf k (encode c.function_name))
            (omega (
              arith,
              length-append head (encode c.uid),
              length-append (head ++ encode c.uid) (encode c.class_name),
            ))
            hf;
    }

module _ (c : FunctionCall) (v : IsSendable c) (buf : Bytes) (o : ℕ)
    (hl : length buf < 2 ^ 64) where
  -- From a buffer that holds the wire format of a sendable call, `deserialize` into a new message
  -- gives the call as it arrives, and returns `size`.
  pub deserialize-encode_call :
      Holds buf o (encode_call c) → deserialize new_call buf o ≡ ok (arrived c, size c)
  unfolding deserialize deserialize_within deserialize_fields deserialize_arguments encode_call
      arrived
  deserialize-encode_call h =
      let total : size c
          ≡ 8
            + Value.size c.uid
            + Value.size c.class_name
            + Value.size c.function_name
            + 4
            + size_values c.arguments =
        unfold size in refl in
      let cnt = le_bytes 4 (length c.arguments) in
      let ecnt = length-le_bytes 4 (length c.arguments) in
      let fits = Holds-le buf o (encode_call c) h in
      let len = length-encode_call c v in
      let n = names_length c v in
      let (h2, hargs) = Holds-append buf o (encode_names c ++ cnt) (encode_values c.arguments) h in
      let (h1, hcnt) = Holds-append buf o (encode_names c) cnt h2 in
      let at = names_at c buf o v h1 in
      let p3 : ℕ =
        o + 8 + Value.size c.uid + Value.size c.class_name + Value.size c.function_name in
      let hcnt' : Holds buf p3 cnt = subst (λ k. Holds buf k cnt) (omega arith) hcnt in
      let hargs' : Holds buf (p3 + 4) (encode_values c.arguments) =
        subst (λ k. Holds buf k (encode_values c.arguments))
          (omega (arith, length-append (encode_names c) cnt)) hargs in
      let small : size c % 2 ^ 64 ≡ size c = omega arith in
      let count : length c.arguments % 2 ^ 32 ≡ length c.arguments = omega (arith, v.count) in
      rw
        (
          le→ltb (sub_size (length buf) o) 8 (omega (arith, sub_size-eq (length buf) o)),
          read_u64-Holds buf o (size c) at.total,
          small,
          le→ltb (sub_size (length buf) o) (size c) (omega (arith, sub_size-eq (length buf) o)),
          deserialize_next-encode (uint64_value 0) c.uid buf (o + 8) v.uid hl at.uid,
          deserialize_next-encode (string_value []) c.class_name buf (o + 8 + Value.size c.uid)
              v.class_name hl at.class_name,
          deserialize_next-encode (string_value []) c.function_name buf
              (o + 8 + Value.size c.uid + Value.size c.class_name) v.function_name hl
              at.function_name,
          read_u32-Holds buf p3 (length c.arguments) hcnt',
          count,
          resize_within-ample (length c.arguments) v.count,
          deserialize_values-encode c.arguments buf (p3 + 4) v.arguments hl hargs',
        )
        (ap (λ k. ok (arrived c, k)) (omega arith))

-- What `serialize` has written of a sendable call into a buffer with room for it, `deserialize`
-- reads back into a new message, and both count the same bytes.
pub deserialize-serialize_call :
    (c : FunctionCall) (buf : Bytes) (o : ℕ)
    → IsSendable c
    → length buf < 2 ^ 64
    → o + size c ≤ length buf
    → (buf' : Bytes) × (serialize c buf o ≡ ok (buf', size c))
      × (length buf' ≡ length buf)
      × (deserialize new_call buf' o ≡ ok (arrived c, size c))
deserialize-serialize_call c buf o v hl h =
    let len = length-encode_call c v in
    let s = length-splice buf o (encode_call c) (omega arith) in
    (
      splice buf o (encode_call c),
      serialize-encode_call c v buf o hl h,
      s,
      deserialize-encode_call c v (splice buf o (encode_call c)) o (omega arith)
          (splice-Holds buf o (encode_call c) (omega arith)),
    )
