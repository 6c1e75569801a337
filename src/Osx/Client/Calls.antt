-- ===== src/Osx/Client/Calls.antt =====
-- What a client writes to the request pipe.
use lib_streamlabs_ipc.Base.{
  ℕ, ◌+◌, ◌^◌, ◌<◌, ◌≡◌, refl, List, map, length, replicate, All, arith, ok, length-replicate,
}
use lib_streamlabs_ipc.Bytes.{Bytes, le_bytes}
use lib_streamlabs_ipc.Bytes.Laws.{length-le_bytes}
use lib_streamlabs_ipc.Value.{Value, uint64_value}
use lib_streamlabs_ipc.Value.Format.{IsValid, transmit, assign}
use lib_streamlabs_ipc.Message.Call
use lib_streamlabs_ipc.Message.Call.{FunctionCall, encode_call, arrived}
use lib_streamlabs_ipc.Message.Call.Serialize.{length-encode_call, serialize-encode_call}
use lib_streamlabs_ipc.Message.Frame.{framed, make_sendable-framed, splice-zeroed}
use lib_streamlabs_ipc.Osx.Client.{call_message, call_frame}

-- The frame of a sendable call is its wire format behind the eight bytes with its size.
pub call_frame-framed :
    (msg : FunctionCall)
    → Call.IsSendable msg
    → Call.size msg + 8 < 2 ^ 64
    → call_frame msg ≡ ok (framed (encode_call msg))
unfolding call_frame
call_frame-framed msg v small =
    let len = length-encode_call msg v in
    let room = length-replicate {A = ℕ} (Call.size msg + 8) 0 in
    rw
      (
        serialize-encode_call msg v (replicate (Call.size msg + 8) 0) 8 (omega arith) (omega arith),
        splice-zeroed (encode_call msg) (Call.size msg) len,
      )
      (make_sendable-framed (encode_call msg) (omega arith))

-- What the caller must see to: names and the number of arguments below 2 ^ 32, and valid arguments.
pub record IsSmall (cname fname : Bytes) (args : List Value) : Type 0 where
  pub class_name : length cname < 2 ^ 32
  pub function_name : length fname < 2 ^ 32
  pub count : length args < 2 ^ 32
  pub arguments : All IsValid args

pub uint64_value-IsValid : (n : ℕ) → IsValid (uint64_value n)
uint64_value-IsValid n = record { written = omega (arith, length-le_bytes 8 n); short = tt }

pub call_message-IsSendable :
    (n : ℕ) (cname fname : Bytes) (args : List Value)
    → IsSmall cname fname args
    → Call.IsSendable (call_message n cname fname args)
unfolding call_message
call_message-IsSendable n cname fname args h = record {
  uid = uint64_value-IsValid n;
  class_name = record { written = tt; short = h.class_name };
  function_name = record { written = tt; short = h.function_name };
  arguments = h.arguments;
  count = h.count;
}

-- On the other side the uid and the names are those that were sent.
pub arrived-call_message :
    (n : ℕ) (cname fname : Bytes) (args : List Value)
    → arrived (call_message n cname fname args) ≡ call_message n cname fname (map transmit args)
unfolding arrived call_message assign le_bytes
arrived-call_message n cname fname args = refl
