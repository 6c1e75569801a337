-- ===== src/Value/Format.antt =====
-- The wire format of a value, stated without offsets: a tag of four bytes, then four or eight bytes
-- of a number, or a length of four bytes and that many bytes. `assign` is the value that has been
-- read into `w`, and `transmit` into a fresh one.
use lib_streamlabs_ipc.Base.{
  ℕ, suc, ◌-◌, ◌%◌, ◌^◌, ◌≤◌, ◌<◌, ◌≡◌, refl, ap, [], ◌++◌, length, take, drop, arith,
  length-append, length-take,
}
use lib_streamlabs_ipc.Bytes.{Bytes, le_bytes}
use lib_streamlabs_ipc.Bytes.Laws.{length-le_bytes}
use lib_streamlabs_ipc.Value.{
  ValueType, null, float, double, int32, int64, uint32, uint64, string, binary, unlisted, to_u32,
  of_u32, Value, null_value, string_value, scalar_value, payload_size, size,
}

unfoldable pub encode_block : Bytes → Bytes
encode_block bs = le_bytes 4 (length bs) ++ bs

unfoldable pub encode_payload : ValueType → Value → Bytes
unfolding encode_block
encode_payload int32 v = take 4 v.value_union
encode_payload uint32 v = take 4 v.value_union
encode_payload float v = take 4 v.value_union
encode_payload int64 v = take 8 v.value_union
encode_payload uint64 v = take 8 v.value_union
encode_payload double v = take 8 v.value_union
encode_payload string v = encode_block v.value_str
encode_payload binary v = encode_block v.value_bin
encode_payload null v = []
encode_payload (unlisted n) v = []

unfoldable pub encode : Value → Bytes
unfolding encode_payload
encode v = le_bytes 4 (to_u32 v.type) ++ encode_payload v.type v

-- The member of the union that the tag names has been written.
abbrev pub IsWritten : ValueType → Value → Type 0
IsWritten int32 v = 4 ≤ length v.value_union
IsWritten uint32 v = 4 ≤ length v.value_union
IsWritten float v = 4 ≤ length v.value_union
IsWritten int64 v = 8 ≤ length v.value_union
IsWritten uint64 v = 8 ≤ length v.value_union
IsWritten double v = 8 ≤ length v.value_union
IsWritten _ v = Unit {0}

-- A length or a tag that 32 bits hold.
abbrev pub IsShort : ValueType → Value → Type 0
IsShort string v = length v.value_str < 2 ^ 32
IsShort binary v = length v.value_bin < 2 ^ 32
IsShort (unlisted n) v = (9 ≤ n) × (n < 2 ^ 32)
IsShort _ v = Unit {0}

-- A value that the format can carry.
pub record IsValid (v : Value) : Type 0 where
  pub written : IsWritten v.type v
  pub short : IsShort v.type v

unfoldable pub assign_payload : ValueType → Value → Value → Value
assign_payload int32 w v = record w { value_union = take 4 v.value_union ++ drop 4 w.value_union }
assign_payload uint32 w v = record w { value_union = take 4 v.value_union ++ drop 4 w.value_union }
assign_payload float w v = record w { value_union = take 4 v.value_union ++ drop 4 w.value_union }
assign_payload int64 w v = record w { value_union = take 8 v.value_union ++ drop 8 w.value_union }
assign_payload uint64 w v = record w { value_union = take 8 v.value_union ++ drop 8 w.value_union }
assign_payload double w v = record w { value_union = take 8 v.value_union ++ drop 8 w.value_union }
assign_payload string w v = record w { value_str = v.value_str }
assign_payload binary w v = record w { value_bin = v.value_bin }
assign_payload null w v = w
assign_payload (unlisted n) w v = w

unfoldable pub assign : Value → Value → Value
unfolding assign_payload
assign w v = assign_payload v.type (record w { type = v.type }) v

unfoldable pub transmit : Value → Value
unfolding assign
transmit v = assign null_value v

pub length-encode_payload :
    (t : ValueType) (v : Value) → IsWritten t v → length (encode_payload t v) ≡ payload_size t v
unfolding encode_payload payload_size
length-encode_payload int32 v h = omega (arith, length-take 4 v.value_union)
length-encode_payload uint32 v h = omega (arith, length-take 4 v.value_union)
length-encode_payload float v h = omega (arith, length-take 4 v.value_union)
length-encode_payload int64 v h = omega (arith, length-take 8 v.value_union)
length-encode_payload uint64 v h = omega (arith, length-take 8 v.value_union)
length-encode_payload double v h = omega (arith, length-take 8 v.value_union)
length-encode_payload string v h = omega (
  arith,
  length-append (le_bytes 4 (length v.value_str)) v.value_str,
  length-le_bytes 4 (length v.value_str),
)
length-encode_payload binary v h = omega (
  arith,
  length-append (le_bytes 4 (length v.value_bin)) v.value_bin,
  length-le_bytes 4 (length v.value_bin),
)
length-encode_payload null v h = refl
length-encode_payload (unlisted n) v h = refl

pub length-encode : (v : Value) → IsWritten v.type v → length (encode v) ≡ size v
unfolding encode size
length-encode v h = omega (
  arith,
  length-append (le_bytes 4 (to_u32 v.type)) (encode_payload v.type v),
  length-le_bytes 4 (to_u32 v.type),
  length-encode_payload v.type v h,
)

-- A listed type comes back from its number.
pub of_u32-to_u32 : (t : ValueType) (v : Value) → IsShort t v → of_u32 (to_u32 t % 2 ^ 32) ≡ t
unfolding of_u32 to_u32
of_u32-to_u32 (unlisted n) v (lo, hi) =
    let e : n % 2 ^ 32 ≡ suc (suc (suc (suc (suc (suc (suc (suc (suc (n - 9))))))))) =
      omega arith in
    rw e (ap unlisted (omega arith))
of_u32-to_u32 _ v h = refl

-- The values that the constructors make arrive as they are.
pub transmit-scalar_value_8 :
    (t : ValueType) (n : ℕ)
    → payload_size t null_value ≡ 8
    → transmit (scalar_value t 8 n) ≡ scalar_value t 8 n
unfolding transmit payload_size le_bytes
transmit-scalar_value_8 int64 n h = refl
transmit-scalar_value_8 uint64 n h = refl
transmit-scalar_value_8 double n h = refl
transmit-scalar_value_8 _ n h = absurd (omega arith)

pub transmit-scalar_value_4 :
    (t : ValueType) (n : ℕ)
    → payload_size t null_value ≡ 4
    → (t ≡ string → ⊥)
    → (t ≡ binary → ⊥)
    → transmit (scalar_value t 4 n) ≡ scalar_value t 4 n
unfolding transmit payload_size le_bytes
transmit-scalar_value_4 int32 n h a b = refl
transmit-scalar_value_4 uint32 n h a b = refl
transmit-scalar_value_4 float n h a b = refl
transmit-scalar_value_4 string n h a b = absurd (a refl)
transmit-scalar_value_4 binary n h a b = absurd (b refl)
transmit-scalar_value_4 _ n h a b = absurd (omega arith)

pub transmit-string_value : (s : Bytes) → transmit (string_value s) ≡ string_value s
unfolding transmit
transmit-string_value s = refl
