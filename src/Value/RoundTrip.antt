-- ===== src/Value/RoundTrip.antt =====
-- `deserialize` reads back what the format holds.
use lib_streamlabs_ipc.Base.{
  ℕ, ◌+◌, ◌%◌, ◌^◌, ◌≤◌, ◌<◌, ◌≡◌, ap, ◌∙◌, ◌++◌, length, take, arith, ok, drop, take-append-drop,
  take-all, lt→ltb, le→ltb, length-take,
}
use native.Mathlib.Decide.{dec_lt}
use lib_streamlabs_ipc.Bytes.{Bytes, le_bytes, sub_size}
use lib_streamlabs_ipc.Bytes.Laws.{
  Holds, Holds-le, Holds-append, read-Holds, read_u32-Holds, length-le_bytes, sub_size-eq,
}
use lib_streamlabs_ipc.Value.{
  ValueType, null, float, double, int32, int64, uint32, uint64, string, binary, unlisted, to_u32,
  Value, payload_size, size, deserialize_scalar, deserialize_block, deserialize_payload,
  deserialize,
}
use lib_streamlabs_ipc.Value.Format.{
  encode_block, encode_payload, encode, IsWritten, IsShort, IsValid, assign_payload, assign,
  of_u32-to_u32,
}

deserialize_scalar-encode :
    (width : ℕ) (w v : Value) (buf : Bytes) (o : ℕ)
    → width ≤ length v.value_union
    → length buf < 2 ^ 64
    → Holds buf o (take width v.value_union)
    → deserialize_scalar width w buf o
      ≡ ok (
        record w { value_union = take width v.value_union ++ drop width w.value_union },
        o + width,
      )
unfolding deserialize_scalar
deserialize_scalar-encode width w v buf o hw hl h =
    let e : length (take width v.value_union) ≡ width =
      omega (arith, length-take width v.value_union) in
    let fits = Holds-le buf o (take width v.value_union) h in
    rw (
      le→ltb (sub_size (length buf) o) width (omega (arith, sub_size-eq (length buf) o)),
      read-Holds buf o width (take width v.value_union) h e,
    )

-- From a buffer that holds the format of a block, as many bytes are read as the low 32 bits of its
-- length say: a block of 2 ^ 32 bytes or more comes back cut.
pub deserialize_block-encode :
    (bs buf : Bytes) (o : ℕ)
    → length buf < 2 ^ 64
    → Holds buf o (encode_block bs)
    → deserialize_block buf o ≡ ok (take (length bs % 2 ^ 32) bs, o + 4 + length bs % 2 ^ 32)
unfolding deserialize_block encode_block
deserialize_block-encode bs buf o hl h =
    let len = length bs % 2 ^ 32 in
    let (hn, hb) = Holds-append buf o (le_bytes 4 (length bs)) bs h in
    let en = length-le_bytes 4 (length bs) in
    let hb' : Holds buf (o + 4) bs = rw en at hb in
    let fits = Holds-le buf (o + 4) bs hb' in
    let front : Holds buf (o + 4) (take len bs) =
      (Holds-append buf (o + 4) (take len bs) (drop len bs) (rw (take-append-drop len bs) hb')).0 in
    let elen : length (take len bs) ≡ len = omega (arith, length-take len bs) in
    rw
      (
        le→ltb (sub_size (length buf) o) 4 (omega (arith, sub_size-eq (length buf) o)),
        read_u32-Holds buf o (length bs) hn,
        le→ltb (sub_size (length buf) (o + 4)) len
            (omega (arith, sub_size-eq (length buf) (o + 4))),
      )
      (elim (dec_lt 0 len) [
        | yes p ↦ rw (lt→ltb 0 len p, read-Holds buf (o + 4) len (take len bs) front elen)
        | no p ↦ let z : len ≡ 0 = omega arith in rw (z)
      ])

deserialize_short :
    (bs buf : Bytes) (o : ℕ)
    → length buf < 2 ^ 64
    → length bs < 2 ^ 32
    → Holds buf o (encode_block bs)
    → deserialize_block buf o ≡ ok (bs, o + (4 + length bs))
deserialize_short bs buf o hl hs h =
    let e : length bs % 2 ^ 32 ≡ length bs = omega arith in
    deserialize_block-encode bs buf o hl h
    ∙ rw (e, take-all (length bs) bs (omega arith)) (ap (λ k. ok (bs, k)) (omega arith))

deserialize_payload-encode :
    (t : ValueType) (w v : Value) (buf : Bytes) (o : ℕ)
    → IsWritten t v
    → IsShort t v
    → length buf < 2 ^ 64
    → Holds buf o (encode_payload t v)
    → deserialize_payload t w buf o ≡ ok (assign_payload t w v, o + payload_size t v)
unfolding deserialize_payload encode_payload payload_size assign_payload
deserialize_payload-encode int32 w v buf o hw hs hl h =
    deserialize_scalar-encode 4 w v buf o hw hl h
deserialize_payload-encode uint32 w v buf o hw hs hl h =
    deserialize_scalar-encode 4 w v buf o hw hl h
deserialize_payload-encode float w v buf o hw hs hl h =
    deserialize_scalar-encode 4 w v buf o hw hl h
deserialize_payload-encode int64 w v buf o hw hs hl h =
    deserialize_scalar-encode 8 w v buf o hw hl h
deserialize_payload-encode uint64 w v buf o hw hs hl h =
    deserialize_scalar-encode 8 w v buf o hw hl h
deserialize_payload-encode double w v buf o hw hs hl h =
    deserialize_scalar-encode 8 w v buf o hw hl h
deserialize_payload-encode string w v buf o hw hs hl h =
    rw (deserialize_short v.value_str buf o hl hs h)
deserialize_payload-encode binary w v buf o hw hs hl h =
    rw (deserialize_short v.value_bin buf o hl hs h)
deserialize_payload-encode null w v buf o hw hs hl h = ap (λ k. ok (w, k)) (omega arith)
deserialize_payload-encode (unlisted n) w v buf o hw hs hl h = ap (λ k. ok (w, k)) (omega arith)

-- From a buffer that holds the format of a valid value `v`, `deserialize` gives `w` the type and
-- the contents of `v` and returns `size`.
pub deserialize-encode :
    (w v : Value) (buf : Bytes) (o : ℕ)
    → IsValid v
    → length buf < 2 ^ 64
    → Holds buf o (encode v)
    → deserialize w buf o ≡ ok (assign w v, size v)
unfolding deserialize encode assign size
deserialize-encode w v buf o hv hl h =
    let tag = le_bytes 4 (to_u32 v.type) in
    let (ht, hp) = Holds-append buf o tag (encode_payload v.type v) h in
    let fits = Holds-le buf o tag ht in
    let hp' : Holds buf (o + 4) (encode_payload v.type v) =
      rw (length-le_bytes 4 (to_u32 v.type)) at hp in
    rw
      (
        le→ltb (sub_size (length buf) o) 4
            (omega (arith, sub_size-eq (length buf) o, length-le_bytes 4 (to_u32 v.type))),
        read_u32-Holds buf o (to_u32 v.type) ht,
        of_u32-to_u32 v.type v hv.short,
        deserialize_payload-encode v.type (record w { type = v.type }) v buf (o + 4) hv.written
            hv.short hl hp',
      )
      (ap (λ k. ok (assign_payload v.type (record w { type = v.type }) v, k)) (omega arith))
