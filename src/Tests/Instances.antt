-- ===== src/Tests/Instances.antt =====
-- The Windows server instance and the Windows socket at concrete inputs.
use lib_streamlabs_ipc.Base.{
  ◌≡◌, refl, true, false, none, some, List, [], ◌∷◌, ◌++◌, codes, arith, ok, Ensures, All, inl,
  replicate,
}
use lib_streamlabs_ipc.Bytes.{Bytes, le_bytes}
use lib_streamlabs_ipc.Map.{find, int64_key}
use lib_streamlabs_ipc.Value.{Value, uint64_value, string_value, ui64}
use lib_streamlabs_ipc.Message.Call
use lib_streamlabs_ipc.Value
use lib_streamlabs_ipc.Value.Format.{assign}
use lib_streamlabs_ipc.Message.Fields.{size_values}
use lib_streamlabs_ipc.Osx.Client.{call_message}
use lib_streamlabs_ipc.Osx.Client.Calls.{uint64_value-IsValid, call_message-IsSendable}
use lib_streamlabs_ipc.Os.{success, timed_out}
use lib_streamlabs_ipc.Os.AsyncOp.{AsyncOp}
use lib_streamlabs_ipc.Windows.Utility.{translate_error}
use lib_streamlabs_ipc.Windows.Socket
use lib_streamlabs_ipc.Windows.Socket.{PipeSystem, is_connected, settle_io}
use lib_streamlabs_ipc.Windows.Client.{is_failure}
use lib_streamlabs_ipc.Message.Reply
use lib_streamlabs_ipc.Message.Reply.{FunctionReply, encode_reply}
use lib_streamlabs_ipc.Message.Call.{FunctionCall, encode_call}
use lib_streamlabs_ipc.Osx.ServerInstance.{reply_of}
use lib_streamlabs_ipc.Server.{Registry, client_call_function}
use lib_streamlabs_ipc.Windows.ServerInstance as Server
use lib_streamlabs_ipc.Windows.ServerInstance.{Instance, new_instance, writing, written}
use lib_streamlabs_ipc.Windows.ServerInstance.Worker as Work
use lib_streamlabs_ipc.Windows.ServerInstance.Worker.{ensure_write, run_worker, is_busy}
use lib_streamlabs_ipc.Windows.ServerInstance.Stream.{Grows, stream, TakesFrames}
use lib_streamlabs_ipc.Windows.ServerInstance.InOrder.{run_worker-Grows}
use lib_streamlabs_ipc.Windows.ServerInstance.Answers.{
  ensure_write-sends, read_callback_msg-answers,
}
use lib_streamlabs_ipc.Windows.Socket.{new_socket, accept, handle_accept_callback}
use lib_streamlabs_ipc.Windows.Socket.Peer.{answers, answers-other_peer}
use lib_streamlabs_ipc.Tests.Windows.{win_codes}
use lib_streamlabs_ipc.Message.Frame.{framed}
use lib_streamlabs_ipc.Windows.Socket.{is_connected, compare_peer}

-- The world is what has been written.
abbrev frames_pipe : PipeSystem (List Bytes)
frames_pipe = record {
  overlapped = record {
    has_completed = λ w. true;
    cancel_io = λ w. (true, w);
    get_result = λ w. (0, 8);
  };
  client_process = λ w. some 7;
  client_session = λ w. some 1;
  server_process = λ w. some 7;
  server_session = λ w. some 1;
  peek = λ w. true;
  connect = λ w. (535, w);
  read_file = λ n w. (true, 997, w);
  write_file = λ b w. (true, 997, w ++ (b ∷ []));
  create_pipe = λ name n t m u w. (true, w);
  open_pipe = λ name w. (true, w);
  set_read_mode = λ m w. (true, w);
}

abbrev both_wait : Work.Waiting (List Bytes)
both_wait = record {
  wait = λ slot n w. (timed_out, w);
  wait_any = λ both n w. (success, writing, w);
  filled = λ b w. b;
}

abbrev no_functions {ℓ} : {W : Type ℓ} → Registry W
no_functions = record { classes = []; pre_callback = none; post_callback = none }

frames_pipe-TakesFrames : TakesFrames (λ w. w) no_functions frames_pipe win_codes both_wait
unfolding translate_error is_failure client_call_function find
frames_pipe-TakesFrames = record {
  started = λ b w. refl;
  write = λ b w. refl;
  read = λ n w. refl;
  cancel = λ w. refl;
  wait = λ slot n w. refl;
  wait_any = λ both n w. refl;
  call = λ cid cname fname args w. refl;
}

abbrev connected_socket : Socket.Socket
connected_socket = record { created = true; remote_id = record { session_id = 1; process_id = 7 } }

abbrev two_replies : Instance
two_replies = record (new_instance connected_socket) {
  write_queue = replicate 9 0 ∷ replicate 10 0 ∷ [];
}

run_worker-Grows_example :
    Ensures
      (λ r. Grows (stream (λ w. w) two_replies []) (stream (λ w. w) r.1 r.2))
      (run_worker no_functions (λ w. 0) frames_pipe win_codes both_wait 3 two_replies [])
unfolding new_instance
run_worker-Grows_example =
    run_worker-Grows (λ w. w) no_functions (λ w. 0) frames_pipe win_codes both_wait
      frames_pipe-TakesFrames 3 two_replies []

abbrev write_op : AsyncOp Server.Handler
write_op = record {
  valid = true;
  callback = some written;
  callback_called = false;
  system_callback = none;
  system_callback_called = false;
}

abbrev both_busy : Instance
both_busy = record two_replies { rop = some write_op; wop = some write_op }

answers-other_peer_example : All (λ b. b ≡ false) (answers frames_pipe new_socket ([] ∷ [] ∷ []))
unfolding new_socket
answers-other_peer_example =
    answers-other_peer frames_pipe new_socket [] ([] ∷ []) 7 1 refl refl
      (inl (λ e. absurd (omega arith)))

abbrev unknown_call : FunctionCall
unknown_call = call_message 1 (codes "a") (codes "b") []

abbrev with_call : Instance
with_call = record (new_instance connected_socket) { rbuf = encode_call unknown_call }

abbrev no_class : FunctionReply
no_class =
    reply_of (Call.arrived unknown_call)
      (client_call_function {W = List Bytes} no_functions 0 (codes "a") (codes "b") [] [] [] [])

read_callback_msg-answers_example :
    Server.read_callback_msg {W = List Bytes} no_functions (λ w. 5) success with_call []
    ≡ ok (
      record with_call {
        write_waiting = true;
        last_write_time = 5;
        write_queue = (replicate 8 0 ++ encode_reply no_class) ∷ [];
      },
      [],
    )
unfolding new_instance call_message client_call_function find reply_of Call.size Value.size
    size_values Reply.size Call.arrived assign le_bytes
read_callback_msg-answers_example =
    read_callback_msg-answers no_functions (λ w. 5) unknown_call with_call []
      (call_message-IsSendable 1 (codes "a") (codes "b") [] (record {
        class_name = omega arith;
        function_name = omega arith;
        count = omega arith;
        arguments = tt;
      }))
      (omega arith) refl
      (record {
        uid = uint64_value-IsValid 1;
        error = record { written = tt; short = omega arith };
        values = tt;
        count = omega arith;
      })
      (omega arith)

abbrev one_reply : Instance
one_reply = record (new_instance connected_socket) {
  write_queue = (replicate 8 0 ++ (5 ∷ [])) ∷ [];
}

ensure_write-sends_example :
    (t : Instance) × (ensure_write frames_pipe win_codes one_reply []
      ≡ ok (true, t, framed (5 ∷ []) ∷ []))
    × (t.write_queue ≡ [])
    × (is_busy t.wop ≡ true)
    × (t.write_waiting ≡ false)
unfolding new_instance is_connected compare_peer translate_error
ensure_write-sends_example =
    ensure_write-sends frames_pipe win_codes one_reply (5 ∷ []) [] [] (framed (5 ∷ []) ∷ []) 997
      refl refl (omega arith) refl refl refl
