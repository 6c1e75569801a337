-- ===== src/Tests/Pipes.antt =====
-- Pipes, the two workers of an instance, and a client: source/apple.
use lib_streamlabs_ipc.Base.{
  ℕ, ◌+◌, ◌≡◌, refl, true, none, some, List, [], ◌∷◌, map, take, codes, replicate, arith, ok,
  undefined,
}
use lib_streamlabs_ipc.Bytes.{Bytes, le_bytes, read, read_u32, of_le_bytes}
use lib_streamlabs_ipc.Map.{contains, insert, erase, int64_key, find, bytes_eq}
use lib_streamlabs_ipc.Value
use lib_streamlabs_ipc.Value.{Value, uint64_value, string_value, ui64}
use lib_streamlabs_ipc.Value.Format.{transmit, assign}
use lib_streamlabs_ipc.Message.Fields.{size_values}
use lib_streamlabs_ipc.Message.Call
use lib_streamlabs_ipc.Message.Call.{FunctionCall, encode_call, arrived}
use lib_streamlabs_ipc.Message.Reply
use lib_streamlabs_ipc.Message.Reply.{FunctionReply, encode_reply}
use lib_streamlabs_ipc.Message.Frame.{framed, read_size}
use lib_streamlabs_ipc.Server.{Registry, CallResult, client_call_function, run_function}
use lib_streamlabs_ipc.Functions
use lib_streamlabs_ipc.Functions.{get_name, make_function}
use lib_streamlabs_ipc.Collections.{make_collection, register_function, get_function, search, c_str}
use lib_streamlabs_ipc.Os.{Error, success, error, has_data, is_error}
use lib_streamlabs_ipc.Osx.Channel.{Channel}
use lib_streamlabs_ipc.Osx.ServerInstance.{
  Instance, new_instance, worker_req_body, worker_rep_body, reply_of,
}
use lib_streamlabs_ipc.Osx.ServerInstance.Serves.{
  worker_req_body-queues, worker_rep_body-answers, short_frame_undefined,
}
use lib_streamlabs_ipc.Osx.ServerInstance.Turns.{
  IsOneTurn, here, next, halt, req_enter, Reach-IsOneTurn,
}
use lib_streamlabs_ipc.Osx.Client.{
  Client, blocked, came_to, call, call_message, call_synchronous_helper, reply_values, new_client,
}
use lib_streamlabs_ipc.Osx.Client.Calls.{IsSmall, uint64_value-IsValid}
use lib_streamlabs_ipc.Osx.Client.Turn.{
  running, Answers, call-answered, second_call-blocked, call_synchronous_helper-answered,
}
use lib_streamlabs_ipc.Osx.Rpc.{round_trip, delivered, round_trip-delivered}
use lib_streamlabs_ipc.Tests.Messages.{
  text, text-IsValid, sample_call, sample_call-IsSendable, sample_reply, sample_reply-IsSendable,
}
use lib_streamlabs_ipc.Tests.Dispatch.{sample_registry}

-- What the next reads give.
abbrev Incoming : Type 0
Incoming = List Bytes

abbrev next_read : Bytes → Incoming → Error × Bytes × Incoming
next_read buf [] = (error, buf, [])
next_read buf (x ∷ xs) = (success, x, xs)

abbrev queue_channel : Channel Incoming
queue_channel = record {
  is_connected = λ w. true;
  read = λ buf blocking t w. next_read buf w;
  write = λ buf t w. (success, w);
}

abbrev pieces : Bytes → Incoming
pieces body = take 8 (framed body) ∷ body ∷ []

abbrev no_functions : Registry Incoming
no_functions = record { classes = []; pre_callback = none; post_callback = none }

worker_req_body-queues_example :
    worker_req_body queue_channel new_instance (pieces (encode_call sample_call))
    ≡ ok (record new_instance { rbuf = []; msgs = arrived sample_call ∷ []; writer_sem = 1 }, [])
unfolding new_instance Call.size Value.size size_values has_data
worker_req_body-queues_example =
    worker_req_body-queues queue_channel sample_call new_instance (pieces (encode_call sample_call))
      (encode_call sample_call ∷ []) [] success success sample_call-IsSendable (omega arith) refl
      refl refl

Reach-IsOneTurn_example : IsOneTurn (record new_instance { stop_workers = true })
unfolding new_instance
Reach-IsOneTurn_example =
    Reach-IsOneTurn queue_channel no_functions [] (next (next here (req_enter refl refl refl)) halt)

short_frame_undefined_example :
    (s' : Instance) × (worker_req_body queue_channel new_instance (replicate 8 0 ∷ [])
      ≡ ok (s', []))
    × (s'.writer_sem ≡ 1)
    × (worker_rep_body queue_channel no_functions s' [] ≡ undefined)
unfolding new_instance has_data read_size read_u32 of_le_bytes read
short_frame_undefined_example =
    short_frame_undefined queue_channel no_functions new_instance (replicate 8 0 ∷ []) [] success
      (replicate 8 0) 0 refl refl refl (omega arith) refl refl

abbrev echo_call : FunctionCall
echo_call = record {
  uid = uint64_value 1;
  class_name = string_value (codes "C");
  function_name = string_value (codes "echo");
  arguments = [];
}

abbrev queued : Instance
queued = record new_instance { msgs = echo_call ∷ [] }

-- The application only counts: `sample_registry` runs over it.
abbrev counting_channel : Channel ℕ
counting_channel = record {
  is_connected = λ w. true;
  read = λ buf blocking t w. (error, buf, w);
  write = λ buf t w. (success, w);
}

worker_rep_body-answers_example :
    worker_rep_body counting_channel sample_registry queued 0
    ≡ ok (record queued { msgs = []; reader_sem = 2 }, 11)
unfolding new_instance reply_of client_call_function find bytes_eq get_function search
    register_function contains make_collection insert get_name make_function c_str Functions.call
    run_function Reply.size Value.size size_values
worker_rep_body-answers_example =
    worker_rep_body-answers counting_channel sample_registry queued echo_call [] 0 11 success refl
      refl refl refl
      (record {
        uid = uint64_value-IsValid 1;
        error = record { written = tt; short = omega arith };
        values = tt;
        count = omega arith;
      })
      (omega arith) refl

abbrev waiting_client : Client ℕ
waiting_client = record new_client { callbacks = (1, λ vs w. w + 1) ∷ [] }

abbrev text_args : List Value
text_args = text ∷ []

small : IsSmall (codes "C") (codes "f") text_args
small = record {
  class_name = omega arith;
  function_name = omega arith;
  count = omega arith;
  arguments = (text-IsValid, tt);
}

abbrev replies : Incoming
replies = pieces (encode_reply sample_reply)

sample_Answers :
    Answers queue_channel 0
      (replicate 130000 0)
      (codes "C")
      (codes "f")
      text_args
      sample_reply
      replies
      []
unfolding Call.size Value.size size_values Reply.size has_data is_error call_message ui64
    of_le_bytes Reply.arrived assign le_bytes
sample_Answers = record {
  small = small;
  fits = omega arith;
  valid = sample_reply-IsSendable;
  fits_reply = omega arith;
  same_number = refl;
  status = success;
  written = refl;
  w1 = replies;
  sent = refl;
  status1 = success;
  has_header = refl;
  w2 = encode_reply sample_reply ∷ [];
  header = refl;
  status2 = success;
  body = refl;
}

-- The callback empties the pipe.
call-answered_example :
    call queue_channel 1
      (running 1 0 [] (replicate 130000 0))
      (codes "C")
      (codes "f")
      text_args
      (some (λ vs w. w))
      0
      replies
    ≡ came_to (
        ok (
          running 0 1 (erase 1 (insert 1 (λ vs w. w) [])) (encode_reply sample_reply),
          true,
          1,
          [],
        ))
unfolding contains
call-answered_example =
    call-answered queue_channel 0 0 0 [] (replicate 130000 0) (codes "C") (codes "f") text_args
      (λ vs w. w) 0 replies [] sample_reply refl sample_Answers

second_call-blocked_example :
    (s : Client Incoming) × (w4 : Incoming) × (call queue_channel 1
        (running 1 0 [] (replicate 130000 0))
        (codes "C")
        (codes "f")
        text_args
        (some (λ vs w. w))
        0
        replies
      ≡ came_to (ok (s, true, 1, w4)))
    × (call queue_channel 5 s (codes "C") (codes "f") text_args (some (λ vs w. w)) 0 replies
        ≡ blocked)
unfolding contains Call.size Value.size size_values call_message
second_call-blocked_example =
    second_call-blocked queue_channel 0 0 [] (replicate 130000 0) (codes "C") (codes "f") text_args
      (λ vs w. w) 0 replies [] sample_reply 5 (codes "C") (codes "f") text_args (λ vs w. w) 0
      replies refl sample_Answers small (omega arith)

call_synchronous_helper-answered_example :
    call_synchronous_helper queue_channel 1 true
      (running 1 0 [] (replicate 130000 0))
      (codes "C")
      (codes "f")
      text_args
      replies
    ≡ came_to (
        ok (
          running 1 1
              (erase 1 (insert 1 (λ rval (w', d). (w', some rval)) []))
              (encode_reply sample_reply),
          reply_values (Reply.arrived sample_reply),
          [],
        ))
unfolding contains
call_synchronous_helper-answered_example =
    call_synchronous_helper-answered queue_channel 0 0 0 [] (replicate 130000 0) (codes "C")
      (codes "f") text_args replies [] sample_reply refl sample_Answers

abbrev echoed : CallResult ℕ
echoed =
    client_call_function sample_registry 0 (codes "C") (codes "echo") (map transmit text_args) [] []
      0

round_trip-delivered_example :
    round_trip sample_registry 1 (codes "C") (codes "echo") text_args 0
    ≡ ok (delivered echoed, echoed.world)
unfolding Call.size Value.size size_values call_message reply_of client_call_function find bytes_eq
    get_function search register_function contains make_collection insert get_name make_function
    c_str Functions.call run_function Reply.size assign transmit
round_trip-delivered_example =
    round_trip-delivered sample_registry 1 (codes "C") (codes "echo") text_args 0
      (record {
        class_name = omega arith;
        function_name = omega arith;
        count = omega arith;
        arguments = (text-IsValid, tt);
      })
      (omega arith) (omega arith) (record { written = tt; short = omega arith }, tt) (omega arith)
      (omega arith)
