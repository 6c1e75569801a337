-- ===== src/Message/Call.antt =====
-- `ipc::message::function_call`: size, uid, class name, function name, number of arguments,
-- arguments. An offset behind a successful access lies inside the buffer, so `noffset` cannot wrap.
pub mod Serialize
pub mod RoundTrip
pub mod Damaged
use lib_streamlabs_ipc.Base.{
  ℕ, ◌+◌, ◌-◌, List, [], ◌∷◌, ◌++◌, length, All, ltb, if◌then◌else◌, Outcome, ok, throws, aborts,
  ◌>>=◌, map, ◌<◌, ◌^◌,
}
use lib_streamlabs_ipc.Bytes.{Bytes, le_bytes, sub_size, read_u32, read_u64, write}
use lib_streamlabs_ipc.Value
use lib_streamlabs_ipc.Value.{Value, uint64_value, string_value}
use lib_streamlabs_ipc.Value.Format.{encode, IsValid, assign, transmit}
use lib_streamlabs_ipc.Message.Fields.{
  size_values, serialize_next, serialize_values, deserialize_next, deserialize_values,
  resize_within, ample_memory, encode_values,
}

pub record FunctionCall : Type 0 where
  pub uid : Value
  pub class_name : Value
  pub function_name : Value
  pub arguments : List Value

abbrev pub new_call : FunctionCall
new_call = record {
  uid = uint64_value 0;
  class_name = string_value [];
  function_name = string_value [];
  arguments = [];
}

unfoldable pub size : FunctionCall → ℕ
size c =
    8
    + Value.size c.uid
    + Value.size c.class_name
    + Value.size c.function_name
    + 4
    + size_values c.arguments

-- The new buffer, and the number of bytes written.
unfoldable pub serialize : FunctionCall → Bytes → ℕ → Outcome (Bytes × ℕ)
serialize c buf at_offset = if ltb (sub_size (length buf) at_offset) (size c) then throws else do
  buf0 ← write buf at_offset (le_bytes 8 (size c))
  (buf1, o1) ← serialize_next c.uid buf0 (at_offset + 8)
  (buf2, o2) ← serialize_next c.class_name buf1 o1
  (buf3, o3) ← serialize_next c.function_name buf2 o2
  buf4 ← write buf3 o3 (le_bytes 4 (length c.arguments))
  (buf5, o5) ← serialize_values c.arguments buf4 (o3 + 4)
  ok (buf5, o5 - at_offset)

-- What stands behind the function name. The number of arguments is read with no test that it lies
-- inside the buffer, and there is no bound on it but its 32 bits.
unfoldable pub deserialize_arguments : ℕ → FunctionCall → Bytes → ℕ → ℕ → Outcome (FunctionCall × ℕ)
unfolding resize_within
deserialize_arguments memory c buf at_offset noffset = do
  cnt ← read_u32 buf noffset
  args ← resize_within memory cnt c.arguments
  (args', end) ← deserialize_values args buf (noffset + 4)
  ok (record c { arguments = args' }, end - at_offset)

-- The fields behind the size.
unfoldable pub deserialize_fields : ℕ → FunctionCall → Bytes → ℕ → Outcome (FunctionCall × ℕ)
unfolding deserialize_arguments
deserialize_fields memory c buf at_offset = do
  (uid', o1) ← deserialize_next c.uid buf (at_offset + 8)
  (class', o2) ← deserialize_next c.class_name buf o1
  (function', o3) ← deserialize_next c.function_name buf o2
  let c' : FunctionCall = record c { uid = uid'; class_name = class'; function_name = function' }
  deserialize_arguments memory c' buf at_offset o3

-- The new message, and the number of bytes read, where memory takes `memory` values at most.
unfoldable pub deserialize_within : ℕ → FunctionCall → Bytes → ℕ → Outcome (FunctionCall × ℕ)
unfolding deserialize_fields
deserialize_within memory c buf at_offset =
    let room = sub_size (length buf) at_offset in
    let fields = deserialize_fields memory c buf at_offset in
    let sized = (do size ← read_u64 buf at_offset; if ltb room size then aborts else fields) in
    if ltb room 8 then aborts else sized

-- The same with memory for every number of values.
unfoldable pub deserialize : FunctionCall → Bytes → ℕ → Outcome (FunctionCall × ℕ)
unfolding deserialize_within
deserialize c buf at_offset = deserialize_within ample_memory c buf at_offset

-- The wire format without offsets.
unfoldable pub encode_names : FunctionCall → Bytes
encode_names c =
    le_bytes 8 (size c) ++ encode c.uid ++ encode c.class_name ++ encode c.function_name

unfoldable pub encode_call : FunctionCall → Bytes
unfolding encode_names
encode_call c = encode_names c ++ le_bytes 4 (length c.arguments) ++ encode_values c.arguments

-- A call that the format can carry.
pub record IsSendable (c : FunctionCall) : Type 0 where
  pub uid : IsValid c.uid
  pub class_name : IsValid c.class_name
  pub function_name : IsValid c.function_name
  pub arguments : All IsValid c.arguments
  pub count : length c.arguments < 2 ^ 32

-- The call `c` as it is read into a new message.
unfoldable pub arrived : FunctionCall → FunctionCall
arrived c = record {
  uid = assign (uint64_value 0) c.uid;
  class_name = assign (string_value []) c.class_name;
  function_name = assign (string_value []) c.function_name;
  arguments = map transmit c.arguments;
}
