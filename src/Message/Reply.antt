-- ===== src/Message/Reply.antt =====
-- `ipc::message::function_reply`: size, uid, error, number of values, values. The record keeps the
-- order of the wire, in which `error` stands before `values`.
pub mod Serialize
pub mod RoundTrip
use lib_streamlabs_ipc.Base.{
  ℕ, ◌+◌, ◌-◌, List, [], ◌∷◌, ◌++◌, length, All, ltb, if◌then◌else◌, Outcome, ok, throws, ◌>>=◌,
  map, ◌<◌, ◌^◌,
}
use lib_streamlabs_ipc.Bytes.{Bytes, le_bytes, sub_size, read_u32, read_u64, write}
use lib_streamlabs_ipc.Value
use lib_streamlabs_ipc.Value.{Value, uint64_value, string_value}
use lib_streamlabs_ipc.Value.Format.{encode, IsValid, assign, transmit}
use lib_streamlabs_ipc.Message.Fields.{
  size_values, serialize_next, serialize_values, deserialize_next, deserialize_values,
  resize_within, ample_memory, encode_values,
}

pub record FunctionReply : Type 0 where
  pub uid : Value
  pub error : Value
  pub values : List Value

abbrev pub new_reply : FunctionReply
new_reply = record { uid = uint64_value 0; error = string_value []; values = [] }

unfoldable pub size : FunctionReply → ℕ
size r = 8 + Value.size r.uid + Value.size r.error + 4 + size_values r.values

-- The new buffer, and the number of bytes written.
unfoldable pub serialize : FunctionReply → Bytes → ℕ → Outcome (Bytes × ℕ)
serialize r buf at_offset = if ltb (sub_size (length buf) at_offset) (size r) then throws else do
  buf0 ← write buf at_offset (le_bytes 8 (size r))
  (buf1, o1) ← serialize_next r.uid buf0 (at_offset + 8)
  (buf2, o2) ← serialize_next r.error buf1 o1
  buf3 ← write buf2 o2 (le_bytes 4 (length r.values))
  (buf4, o4) ← serialize_values r.values buf3 (o2 + 4)
  ok (buf4, o4 - at_offset)

-- The fields behind the size. The number of values is read with no test that it lies inside the
-- buffer, and there is no bound on it but its 32 bits.
unfoldable pub deserialize_fields : ℕ → FunctionReply → Bytes → ℕ → Outcome (FunctionReply × ℕ)
unfolding resize_within
deserialize_fields memory r buf at_offset = do
  (uid', o1) ← deserialize_next r.uid buf (at_offset + 8)
  (error', o2) ← deserialize_next r.error buf o1
  cnt ← read_u32 buf o2
  values ← resize_within memory cnt r.values
  (values', o3) ← deserialize_values values buf (o2 + 4)
  let r' : FunctionReply = record { uid = uid'; error = error'; values = values' }
  ok (r', o3 - at_offset)

-- The new message, and the number of bytes read, where memory takes `memory` values at most.
unfoldable pub deserialize_within : ℕ → FunctionReply → Bytes → ℕ → Outcome (FunctionReply × ℕ)
unfolding deserialize_fields
deserialize_within memory r buf at_offset =
    let room = sub_size (length buf) at_offset in
    let fields = deserialize_fields memory r buf at_offset in
    let sized = (do size ← read_u64 buf at_offset; if ltb room size then throws else fields) in
    if ltb room 8 then throws else sized

-- The same with memory for every number of values.
unfoldable pub deserialize : FunctionReply → Bytes → ℕ → Outcome (FunctionReply × ℕ)
unfolding deserialize_within
deserialize r buf at_offset = deserialize_within ample_memory r buf at_offset

-- The wire format without offsets.
unfoldable pub encode_error : FunctionReply → Bytes
encode_error r = le_bytes 8 (size r) ++ encode r.uid ++ encode r.error

unfoldable pub encode_reply : FunctionReply → Bytes
unfolding encode_error
encode_reply r = encode_error r ++ le_bytes 4 (length r.values) ++ encode_values r.values

-- A reply that the format can carry.
pub record IsSendable (r : FunctionReply) : Type 0 where
  pub uid : IsValid r.uid
  pub error : IsValid r.error
  pub values : All IsValid r.values
  pub count : length r.values < 2 ^ 32

-- The reply `r` as it is read into a new message.
unfoldable pub arrived : FunctionReply → FunctionReply
arrived r = record {
  uid = assign (uint64_value 0) r.uid;
  error = assign (string_value []) r.error;
  values = map transmit r.values;
}
