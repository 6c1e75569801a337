-- ===== src/Value/Serialize.antt =====
-- `serialize` against the format, on each of its branches.
use lib_streamlabs_ipc.Base.{
  ℕ, ◌+◌, ◌^◌, ◌≤◌, ◌<◌, ◌≡◌, ap, ◌∙◌, [], ◌∷◌, ◌++◌, append-nil, length, take, arith, ok, lt→ltb,
  le→ltb, le→leb, length-take, take-append-drop, drop, sym, Outcome,
}
use lib_streamlabs_ipc.Bytes.{Bytes, le_bytes, sub_size, read, splice}
use lib_streamlabs_ipc.Bytes.Laws.{
  length-le_bytes, sub_size-eq, write-splice, length-splice, splice_next,
}
use lib_streamlabs_ipc.Value.{
  ValueType, null, float, double, int32, int64, uint32, uint64, string, binary, unlisted, to_u32,
  Value, payload_size, size, serialize_block, serialize_scalar, serialize_payload, serialize,
}
use lib_streamlabs_ipc.Value.Format.{encode_block, encode_payload, encode, IsWritten}

serialize_block-encode :
    (bs buf : Bytes) (o : ℕ)
    → o + 4 + length bs ≤ length buf
    → serialize_block bs buf o ≡ ok (splice buf o (encode_block bs), o + 4 + length bs)
unfolding serialize_block encode_block
serialize_block-encode [] buf o h =
    rw (write-splice buf o (le_bytes 4 0) (omega (arith, length-le_bytes 4 0)))
      (ap (λ x. ok (splice buf o x, o + 4 + 0)) (sym (append-nil (le_bytes 4 0))))
serialize_block-encode (b ∷ bs) buf o h =
    let n = le_bytes 4 (length (b ∷ bs)) in
    let e : length n ≡ 4 = length-le_bytes 4 (length (b ∷ bs)) in
    let s = length-splice buf o n (omega arith) in
    rw (
      write-splice buf o n (omega arith),
      write-splice (splice buf o n) (o + 4) (b ∷ bs) (omega arith),
      lt→ltb 0 (length (b ∷ bs)) (omega arith),
      splice_next buf o 4 n (b ∷ bs) e (omega arith),
    )

serialize_scalar-encode :
    (width : ℕ) (v : Value) (buf : Bytes) (o : ℕ)
    → width ≤ length v.value_union
    → o + width ≤ length buf
    → serialize_scalar width v buf o ≡ ok (splice buf o (take width v.value_union), o + width)
unfolding serialize_scalar read
serialize_scalar-encode width v buf o hw h = rw (
  le→leb (0 + width) (length v.value_union) (omega arith),
  write-splice buf o (take width v.value_union) (omega (arith, length-take width v.value_union)),
)

splice_nothing : (buf : Bytes) (o : ℕ) → splice buf o [] ≡ buf
unfolding splice
splice_nothing buf o = ap (λ k. take o buf ++ drop k buf) (omega arith) ∙ take-append-drop o buf

serialize_nothing :
    (buf : Bytes) (o : ℕ)
    → ◌≡◌ {A = Outcome (Bytes × ℕ)} (ok (buf, o)) (ok (splice buf o [], o + 0))
serialize_nothing buf o = rw (splice_nothing buf o) (ap (λ k. ok (buf, k)) (omega arith))

serialize_payload-encode :
    (t : ValueType) (v : Value) (buf : Bytes) (o : ℕ)
    → IsWritten t v
    → o + payload_size t v ≤ length buf
    → serialize_payload t v buf o ≡ ok (splice buf o (encode_payload t v), o + payload_size t v)
unfolding serialize_payload encode_payload payload_size
serialize_payload-encode int32 v buf o hw h = serialize_scalar-encode 4 v buf o hw h
serialize_payload-encode uint32 v buf o hw h = serialize_scalar-encode 4 v buf o hw h
serialize_payload-encode float v buf o hw h = serialize_scalar-encode 4 v buf o hw h
serialize_payload-encode int64 v buf o hw h = serialize_scalar-encode 8 v buf o hw h
serialize_payload-encode uint64 v buf o hw h = serialize_scalar-encode 8 v buf o hw h
serialize_payload-encode double v buf o hw h = serialize_scalar-encode 8 v buf o hw h
serialize_payload-encode string v buf o hw h =
    serialize_block-encode v.value_str buf o (omega arith)
    ∙ ap (λ k. ok (splice buf o (encode_block v.value_str), k)) (omega arith)
serialize_payload-encode binary v buf o hw h =
    serialize_block-encode v.value_bin buf o (omega arith)
    ∙ ap (λ k. ok (splice buf o (encode_block v.value_bin), k)) (omega arith)
serialize_payload-encode null v buf o hw h = serialize_nothing buf o
serialize_payload-encode (unlisted n) v buf o hw h = serialize_nothing buf o

-- Where the buffer has room for a written value behind the offset, `serialize` writes the format
-- there, changes no other byte, and returns `size`.
pub serialize-encode :
    (v : Value) (buf : Bytes) (o : ℕ)
    → IsWritten v.type v
    → length buf < 2 ^ 64
    → o + size v ≤ length buf
    → serialize v buf o ≡ ok (splice buf o (encode v), size v)
unfolding serialize encode size
serialize-encode v buf o hw hl h =
    let tag = le_bytes 4 (to_u32 v.type) in
    let e : length tag ≡ 4 = length-le_bytes 4 (to_u32 v.type) in
    let s = length-splice buf o tag (omega arith) in
    rw
      (
        le→ltb (sub_size (length buf) o) (4 + payload_size v.type v)
            (omega (arith, sub_size-eq (length buf) o)),
        write-splice buf o tag (omega arith),
        serialize_payload-encode v.type v (splice buf o tag) (o + 4) hw (omega arith),
        splice_next buf o 4 tag (encode_payload v.type v) e (omega arith),
      )
      (ap (λ k. ok (splice buf o (tag ++ encode_payload v.type v), k)) (omega arith))
