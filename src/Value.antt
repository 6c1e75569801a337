-- ===== src/Value.antt =====
-- include/ipc-value.hpp and source/ipc-value.cpp: the tagged value and its wire format. The union is
-- the list of its bytes written so far, from its first byte on, so a byte that no one has written is
-- absent. A number is its bit pattern: two's complement for the signed types, IEEE 754 for `float`
-- and `double`.
pub mod Format
pub mod Serialize
pub mod Safety
pub mod RoundTrip
use lib_streamlabs_ipc.Base.{
  ℕ, zero, suc, ◌+◌, ◌-◌, Bool, List, [], ◌∷◌, ◌++◌, length, take, drop, ltb, if◌then◌else◌,
  Outcome, ok, throws, aborts, ◌>>=◌,
}
use lib_streamlabs_ipc.Bytes.{Bytes, le_bytes, of_le_bytes, sub_size, read, read_u32, write, splice}

-- `unlisted n` is a `uint32_t` cast to the enumeration that no enumerator names.
pub data ValueType : Type 0 where
  null float double int32 int64 uint32 uint64 string binary : ValueType
  unlisted : ℕ → ValueType

-- `(uint32_t)type`
unfoldable pub to_u32 : ValueType → ℕ
to_u32 null = 0
to_u32 float = 1
to_u32 double = 2
to_u32 int32 = 3
to_u32 int64 = 4
to_u32 uint32 = 5
to_u32 uint64 = 6
to_u32 string = 7
to_u32 binary = 8
to_u32 (unlisted n) = n

-- `(ipc::type)n`
unfoldable pub of_u32 : ℕ → ValueType
of_u32 zero = null
of_u32 (suc zero) = float
of_u32 (suc (suc zero)) = double
of_u32 (suc (suc (suc zero))) = int32
of_u32 (suc (suc (suc (suc zero)))) = int64
of_u32 (suc (suc (suc (suc (suc zero))))) = uint32
of_u32 (suc (suc (suc (suc (suc (suc zero)))))) = uint64
of_u32 (suc (suc (suc (suc (suc (suc (suc zero))))))) = string
of_u32 (suc (suc (suc (suc (suc (suc (suc (suc zero)))))))) = binary
of_u32 (suc (suc (suc (suc (suc (suc (suc (suc (suc n))))))))) = unlisted (9 + n)

pub record Value : Type 0 where
  pub type : ValueType
  pub value_union : Bytes
  pub value_str : Bytes
  pub value_bin : Bytes

-- The nine constructors.
abbrev pub null_value : Value
null_value = record { type = null; value_union = []; value_str = []; value_bin = [] }

abbrev pub binary_value : Bytes → Value
binary_value bs = record { type = binary; value_union = []; value_str = []; value_bin = bs }

abbrev pub string_value : Bytes → Value
string_value s = record { type = string; value_union = []; value_str = s; value_bin = [] }

abbrev pub scalar_value : ValueType → ℕ → ℕ → Value
scalar_value t width n = record {
  type = t;
  value_union = le_bytes width n;
  value_str = [];
  value_bin = [];
}

abbrev pub uint64_value : ℕ → Value
uint64_value n = scalar_value uint64 8 n

abbrev pub uint32_value : ℕ → Value
uint32_value n = scalar_value uint32 4 n

abbrev pub int64_value : ℕ → Value
int64_value n = scalar_value int64 8 n

abbrev pub int32_value : ℕ → Value
int32_value n = scalar_value int32 4 n

abbrev pub double_value : ℕ → Value
double_value n = scalar_value double 8 n

abbrev pub float_value : ℕ → Value
float_value n = scalar_value float 4 n

-- `value_union.ui64`
unfoldable pub ui64 : Value → ℕ
ui64 v = of_le_bytes (take 8 v.value_union)

-- What `size` adds to the four bytes of the tag.
unfoldable pub payload_size : ValueType → Value → ℕ
payload_size int32 v = 4
payload_size uint32 v = 4
payload_size float v = 4
payload_size int64 v = 8
payload_size uint64 v = 8
payload_size double v = 8
payload_size string v = 4 + length v.value_str
payload_size binary v = 4 + length v.value_bin
payload_size null v = 0
payload_size (unlisted n) v = 0

unfoldable pub size : Value → ℕ
unfolding payload_size
size v = 4 + payload_size v.type v

-- A length in 32 bits, then the bytes, which are copied only if there are any.
unfoldable pub serialize_block : Bytes → Bytes → ℕ → Outcome (Bytes × ℕ)
serialize_block bs buf noffset = do
  buf' ← write buf noffset (le_bytes 4 (length bs))
  buf'' ← if ltb 0 (length bs) then write buf' (noffset + 4) bs else ok buf'
  ok (buf'', noffset + 4 + length bs)

-- To read a union byte that was never written is undefined.
unfoldable pub serialize_scalar : ℕ → Value → Bytes → ℕ → Outcome (Bytes × ℕ)
serialize_scalar width v buf noffset = do
  bs ← read v.value_union 0 width
  buf' ← write buf noffset bs
  ok (buf', noffset + width)

-- The `switch` of `serialize`: the buffer and the offset behind what was written.
unfoldable pub serialize_payload : ValueType → Value → Bytes → ℕ → Outcome (Bytes × ℕ)
unfolding serialize_block serialize_scalar
serialize_payload int32 v buf noffset = serialize_scalar 4 v buf noffset
serialize_payload uint32 v buf noffset = serialize_scalar 4 v buf noffset
serialize_payload float v buf noffset = serialize_scalar 4 v buf noffset
serialize_payload int64 v buf noffset = serialize_scalar 8 v buf noffset
serialize_payload uint64 v buf noffset = serialize_scalar 8 v buf noffset
serialize_payload double v buf noffset = serialize_scalar 8 v buf noffset
serialize_payload string v buf noffset = serialize_block v.value_str buf noffset
serialize_payload binary v buf noffset = serialize_block v.value_bin buf noffset
serialize_payload null v buf noffset = ok (buf, noffset)
serialize_payload (unlisted n) v buf noffset = ok (buf, noffset)

-- The new buffer, and the number of bytes written.
unfoldable pub serialize : Value → Bytes → ℕ → Outcome (Bytes × ℕ)
unfolding size serialize_payload
serialize v buf at_offset = if ltb (sub_size (length buf) at_offset) (size v) then throws else do
  buf' ← write buf at_offset (le_bytes 4 (to_u32 v.type))
  (buf'', noffset) ← serialize_payload v.type v buf' (at_offset + 4)
  ok (buf'', noffset - at_offset)

-- `memcpy` over the first bytes of the union.
unfoldable pub deserialize_scalar : ℕ → Value → Bytes → ℕ → Outcome (Value × ℕ)
deserialize_scalar width v buf noffset =
    if ltb (sub_size (length buf) noffset) width then aborts else do
      bs ← read buf noffset width
      ok (record v { value_union = bs ++ drop width v.value_union }, noffset + width)

-- The string or blob behind a length in 32 bits, and the offset behind it.
unfoldable pub deserialize_block : Bytes → ℕ → Outcome (Bytes × ℕ)
deserialize_block buf noffset = if ltb (sub_size (length buf) noffset) 4 then aborts else do
  len ← read_u32 buf noffset
  if ltb (sub_size (length buf) (noffset + 4)) len then aborts else do
    bs ← if ltb 0 len then read buf (noffset + 4) len else ok []
    ok (bs, noffset + 4 + len)

unfoldable pub deserialize_payload : ValueType → Value → Bytes → ℕ → Outcome (Value × ℕ)
unfolding deserialize_scalar deserialize_block
deserialize_payload int32 v buf noffset = deserialize_scalar 4 v buf noffset
deserialize_payload uint32 v buf noffset = deserialize_scalar 4 v buf noffset
deserialize_payload float v buf noffset = deserialize_scalar 4 v buf noffset
deserialize_payload int64 v buf noffset = deserialize_scalar 8 v buf noffset
deserialize_payload uint64 v buf noffset = deserialize_scalar 8 v buf noffset
deserialize_payload double v buf noffset = deserialize_scalar 8 v buf noffset
deserialize_payload string v buf noffset = do
  (s, end) ← deserialize_block buf noffset
  ok (record v { value_str = s }, end)
deserialize_payload binary v buf noffset = do
  (bs, end) ← deserialize_block buf noffset
  ok (record v { value_bin = bs }, end)
deserialize_payload null v buf noffset = ok (v, noffset)
deserialize_payload (unlisted n) v buf noffset = ok (v, noffset)

-- The new value, and the number of bytes read.
unfoldable pub deserialize : Value → Bytes → ℕ → Outcome (Value × ℕ)
unfolding deserialize_payload
deserialize v buf at_offset = if ltb (sub_size (length buf) at_offset) 4 then aborts else do
  tag ← read_u32 buf at_offset
  (v', noffset) ←
      deserialize_payload (of_u32 tag) (record v { type = of_u32 tag }) buf (at_offset + 4)
  ok (v', noffset - at_offset)
