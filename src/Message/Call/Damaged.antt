-- ===== src/Message/Call/Damaged.antt =====
-- `function_call::deserialize` on bytes that nobody vouches for.
use lib_streamlabs_ipc.Base.{
  ℕ, ◌+◌, ◌-◌, ◌%◌, ◌^◌, ◌≤◌, ◌<◌, ◌≡◌, [], lt→leb, length, arith, undefined, ok, refl, ◌∙◌, le→ltb,
}
use lib_streamlabs_ipc.Bytes.{Bytes, le_bytes, sub_size, read, read_u32}
use lib_streamlabs_ipc.Bytes.Laws.{Holds, Holds-le, read_u64-Holds, sub_size-eq, length-le_bytes}
use lib_streamlabs_ipc.Value
use lib_streamlabs_ipc.Value.{Value, uint64_value, string_value}
use lib_streamlabs_ipc.Value.Format.{encode}
use lib_streamlabs_ipc.Message.Fields.{deserialize_next-encode, ample_memory}
use lib_streamlabs_ipc.Message.Call.{
  FunctionCall, new_call, deserialize, deserialize_within, deserialize_fields,
  deserialize_arguments, IsSendable, arrived,
}

-- A word of the buffer, read as the number of arguments, is more than memory takes.
abbrev pub Announces : ℕ → Bytes → ℕ → Type 0
Announces memory buf at_least =
    (p : ℕ) × (n : ℕ) × (at_least ≤ p) × (read_u32 buf p ≡ ok n) × (memory < n)

-- A buffer that holds the names of the sendable call `c` behind a size `n` that is not larger than what
-- there is.
record HoldsNames (c : FunctionCall) (buf : Bytes) (o n : ℕ) : Type 0 where
  sendable : IsSendable c
  short : length buf < 2 ^ 64
  size_at : Holds buf o (le_bytes 8 n)
  size_fits : n ≤ length buf - o
  uid_at : Holds buf (o + 8) (encode c.uid)
  class_name_at : Holds buf (o + 8 + Value.size c.uid) (encode c.class_name)
  function_name_at :
      Holds buf (o + 8 + Value.size c.uid + Value.size c.class_name) (encode c.function_name)

-- The offset behind the function name.
abbrev names_end : FunctionCall → ℕ → ℕ
names_end c o = o + 8 + Value.size c.uid + Value.size c.class_name + Value.size c.function_name

deserialize_names :
    (memory : ℕ) (c : FunctionCall) (buf : Bytes) (o n : ℕ)
    → HoldsNames c buf o n
    → deserialize_within memory new_call buf o
      ≡ deserialize_arguments memory (record (arrived c) { arguments = [] }) buf o (names_end c o)
unfolding deserialize_within deserialize_fields arrived
deserialize_names memory c buf o n h =
    let v = h.sendable in
    let hl = h.short in
    let hn = h.size_fits in
    let fits = Holds-le buf o (le_bytes 8 n) h.size_at in
    let e0 = length-le_bytes 8 n in
    let small : n % 2 ^ 64 ≡ n = omega arith in
    rw (
      le→ltb (sub_size (length buf) o) 8 (omega (arith, sub_size-eq (length buf) o)),
      read_u64-Holds buf o n h.size_at,
      small,
      le→ltb (sub_size (length buf) o) n (omega (arith, sub_size-eq (length buf) o)),
      deserialize_next-encode (uint64_value 0) c.uid buf (o + 8) v.uid hl h.uid_at,
      deserialize_next-encode (string_value []) c.class_name buf (o + 8 + Value.size c.uid)
          v.class_name hl h.class_name_at,
      deserialize_next-encode (string_value []) c.function_name buf
          (o + 8 + Value.size c.uid + Value.size c.class_name) v.function_name hl
          h.function_name_at,
    )

-- If the bytes of a sendable call end behind the function name, or less than four bytes later, and
-- the size at the front is not larger than what there is, `deserialize` reads the number of
-- arguments outside the buffer.
pub deserialize_undefined :
    (c : FunctionCall) (buf : Bytes) (o n : ℕ)
    → IsSendable c
    → length buf < 2 ^ 64
    → Holds buf o (le_bytes 8 n)
    → n ≤ length buf - o
    → Holds buf (o + 8) (encode c.uid)
    → Holds buf (o + 8 + Value.size c.uid) (encode c.class_name)
    → Holds buf (o + 8 + Value.size c.uid + Value.size c.class_name) (encode c.function_name)
    → length buf
      < o + 8 + Value.size c.uid + Value.size c.class_name + Value.size c.function_name + 4
    → deserialize new_call buf o ≡ undefined
unfolding deserialize deserialize_arguments read_u32 read
deserialize_undefined c buf o n v hl h0 hn h1 h2 h3 short =
    deserialize_names ample_memory c buf o n (record {
      sendable = v;
      short = hl;
      size_at = h0;
      size_fits = hn;
      uid_at = h1;
      class_name_at = h2;
      function_name_at = h3;
    })
    ∙ rw (lt→leb (names_end c o + 4) (length buf) short) refl
