-- ===== src/Tests/Messages.antt =====
-- Values, messages and frames: ipc-value.cpp, ipc.cpp and ipc.hpp.
use lib_streamlabs_ipc.Base.{
  ◌+◌, ◌%◌, ◌^◌, ◌≡◌, refl, [], ◌∷◌, ◌++◌, length, codes, drop, take, replicate, arith, ok,
  undefined,
}
use lib_streamlabs_ipc.Bytes.{Bytes, le_bytes, splice}
use lib_streamlabs_ipc.Value
use lib_streamlabs_ipc.Value.{
  ValueType, int32, string, uint64, Value, null_value, uint64_value, string_value,
  deserialize_block,
}
use lib_streamlabs_ipc.Value.Format.{IsValid, encode, encode_block, assign}
use lib_streamlabs_ipc.Value.Serialize.{serialize-encode}
use lib_streamlabs_ipc.Value.RoundTrip.{deserialize-encode, deserialize_block-encode}
use lib_streamlabs_ipc.Value.Safety.{EndsWithin, deserialize-EndsWithin}
use lib_streamlabs_ipc.Message.Fields.{size_values}
use lib_streamlabs_ipc.Message.Call
use lib_streamlabs_ipc.Message.Call.{FunctionCall, new_call}
use lib_streamlabs_ipc.Message.Call.RoundTrip.{deserialize-serialize_call}
use lib_streamlabs_ipc.Message.Call.Damaged.{deserialize_undefined}
use lib_streamlabs_ipc.Message.Reply
use lib_streamlabs_ipc.Message.Reply.{FunctionReply, new_reply}
use lib_streamlabs_ipc.Message.Reply.RoundTrip.{deserialize-serialize_reply}
use lib_streamlabs_ipc.Message.Frame.{make_sendable, read_size, read_size-make_sendable}
use lib_streamlabs_ipc.Naming.{vectortohex, hex_loop, hexchar}
use lib_streamlabs_ipc.Naming.UniqueId.{make_unique_id-injective}
use lib_streamlabs_ipc.Osx.Client.Calls.{uint64_value-IsValid}

abbrev pub text : Value
text = string_value (codes "hi")

pub text-IsValid : IsValid text
text-IsValid = record { written = tt; short = omega arith }

abbrev pub sample_call : FunctionCall
sample_call = record {
  uid = uint64_value 1;
  class_name = string_value (codes "C");
  function_name = string_value (codes "f");
  arguments = text ∷ uint64_value 7 ∷ [];
}

pub sample_call-IsSendable : Call.IsSendable sample_call
sample_call-IsSendable = record {
  uid = uint64_value-IsValid 1;
  class_name = record { written = tt; short = omega arith };
  function_name = record { written = tt; short = omega arith };
  arguments = (text-IsValid, (uint64_value-IsValid 7, tt));
  count = omega arith;
}

abbrev pub sample_reply : FunctionReply
sample_reply = record { uid = uint64_value 1; error = string_value []; values = text ∷ [] }

pub sample_reply-IsSendable : Reply.IsSendable sample_reply
sample_reply-IsSendable = record {
  uid = uint64_value-IsValid 1;
  error = record { written = tt; short = omega arith };
  values = (text-IsValid, tt);
  count = omega arith;
}

serialize-encode_example :
    Value.serialize text (replicate 20 0) 4
    ≡ ok (splice (replicate 20 0) 4 (encode text), Value.size text)
unfolding Value.size
serialize-encode_example = serialize-encode text (replicate 20 0) 4 tt (omega arith) (omega arith)

deserialize-encode_example :
    Value.deserialize null_value (encode text) 0 ≡ ok (assign null_value text, Value.size text)
unfolding encode le_bytes
deserialize-encode_example =
    deserialize-encode null_value text (encode text) 0 text-IsValid (omega arith)
      ([], refl, omega arith)

deserialize_block-encode_example :
    deserialize_block (encode_block (codes "hi")) 0
    ≡ ok (take (2 % 2 ^ 32) (codes "hi"), 0 + 4 + 2 % 2 ^ 32)
unfolding encode_block le_bytes
deserialize_block-encode_example =
    deserialize_block-encode (codes "hi") (encode_block (codes "hi")) 0 (omega arith)
      ([], refl, omega arith)

deserialize-EndsWithin_example :
    EndsWithin 4 8
      (Value.deserialize null_value (255 ∷ 255 ∷ 255 ∷ 255 ∷ 255 ∷ 255 ∷ 255 ∷ 255 ∷ []) 0)
deserialize-EndsWithin_example =
    deserialize-EndsWithin (255 ∷ 255 ∷ 255 ∷ 255 ∷ 255 ∷ 255 ∷ 255 ∷ 255 ∷ []) (omega arith)
      null_value 0 (omega arith)

deserialize-serialize_call_example :
    (buf' : Bytes) × (Call.serialize sample_call (replicate 100 0) 8
      ≡ ok (buf', Call.size sample_call))
    × (length buf' ≡ 100)
    × (Call.deserialize new_call buf' 8 ≡ ok (Call.arrived sample_call, Call.size sample_call))
unfolding Call.size Value.size size_values
deserialize-serialize_call_example =
    deserialize-serialize_call sample_call (replicate 100 0) 8 sample_call-IsSendable (omega arith)
      (omega arith)

deserialize-serialize_reply_example :
    (buf' : Bytes) × (Reply.serialize sample_reply (replicate 100 0) 8
      ≡ ok (buf', Reply.size sample_reply))
    × (length buf' ≡ 100)
    × (Reply.deserialize new_reply buf' 8
        ≡ ok (Reply.arrived sample_reply, Reply.size sample_reply))
unfolding Reply.size Value.size size_values
deserialize-serialize_reply_example =
    deserialize-serialize_reply sample_reply (replicate 100 0) 8 sample_reply-IsSendable
      (omega arith) (omega arith)

-- The number of arguments is cut off.
abbrev cut_call : Bytes
cut_call =
    le_bytes 8 0
    ++ (encode sample_call.uid
        ++ (encode sample_call.class_name ++ encode sample_call.function_name))

deserialize_undefined_example : Call.deserialize new_call cut_call 0 ≡ undefined
unfolding encode le_bytes Value.size
deserialize_undefined_example =
    deserialize_undefined sample_call cut_call 0 0 sample_call-IsSendable (omega arith)
      (drop 8 cut_call, refl, omega arith) (omega arith) (drop 20 cut_call, refl, omega arith)
      (drop 29 cut_call, refl, omega arith) ([], refl, omega arith) (omega arith)

-- Six arguments are announced, and memory takes five.
abbrev long_call : Bytes
long_call = cut_call ++ (6 ∷ 0 ∷ 0 ∷ 0 ∷ [])

read_size-make_sendable_example :
    (buf' : Bytes) × (make_sendable (replicate 10 0) ≡ ok buf')
    × (length buf' ≡ 10)
    × (read_size buf' ≡ ok (2 % 2 ^ 32))
    × (drop 8 buf' ≡ drop 8 (replicate 10 0))
read_size-make_sendable_example =
    read_size-make_sendable (replicate 10 0) (omega arith) (omega arith)

make_unique_id-injective_example :
    (codes "f" ≡ codes "f") × ((int32 ∷ string ∷ []) ≡ (int32 ∷ string ∷ []))
make_unique_id-injective_example =
    make_unique_id-injective (codes "f") (codes "f") (int32 ∷ string ∷ []) (int32 ∷ string ∷ [])
      (tt, (tt, tt)) (tt, (tt, tt)) refl

vectortohex_test : vectortohex (10 ∷ 255 ∷ []) ≡ codes "0A FF "
unfolding vectortohex hex_loop hexchar
vectortohex_test = refl
