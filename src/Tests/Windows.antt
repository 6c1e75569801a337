-- ===== src/Tests/Windows.antt =====
-- The Windows client and the Windows waits at concrete inputs.
use lib_streamlabs_ipc.Base.{
  ℕ, ◌+◌, ◌≡◌, ◌≤◌, refl, true, false, none, some, List, [], ◌∷◌, codes, arith, ok,
}
use lib_streamlabs_ipc.Bytes.{Bytes}
use lib_streamlabs_ipc.Map.{contains, insert, place, find, int64_key}
use lib_streamlabs_ipc.Value.{Value, uint64_value, string_value, ui64}
use lib_streamlabs_ipc.Message.Call
use lib_streamlabs_ipc.Value
use lib_streamlabs_ipc.Message.Fields.{size_values}
use lib_streamlabs_ipc.Osx.Client.{call_message}
use lib_streamlabs_ipc.Osx.Client.Calls.{call_frame-framed, call_message-IsSendable}
use lib_streamlabs_ipc.Windows.AsyncRequest.{prepare, is_complete, is_valid, set_handle, set_valid}
use lib_streamlabs_ipc.Os.{timed_out}
use lib_streamlabs_ipc.Os.AsyncOp.{AsyncOp, set_callback}
use lib_streamlabs_ipc.Windows.Utility.{ErrorCodes, translate_error}
use lib_streamlabs_ipc.Windows.Waitable.{wait_object, wait, wait_any, forget_index, wait-wait_any}
use lib_streamlabs_ipc.Windows.Socket
use lib_streamlabs_ipc.Windows.Socket.{PipeSystem, is_connected, settle_io}
use lib_streamlabs_ipc.Windows.Client.{is_failure, Client, Handler, Waiting}
use lib_streamlabs_ipc.Windows.Client.Calls.{
  Begun, begin_call, send_call, store_callback, check_write, sent,
}
use lib_streamlabs_ipc.Windows.Client.Worker.{worker_end, call_lost, check_socket}
use lib_streamlabs_ipc.Windows.Client.Quiet.{IsQuiet}
use lib_streamlabs_ipc.Map.Held.{held, count}
use lib_streamlabs_ipc.Windows.Client.Schedule.{begun, finished, Reach, fresh, later}
use lib_streamlabs_ipc.Windows.Client.NeverTwice.{Reach-once}
use lib_streamlabs_ipc.Windows.Client.Drain.{IsSilent, Drained, worker_end-drains}
use lib_streamlabs_ipc.Osx.Client as Mac
use lib_streamlabs_ipc.Osx.Client.{new_client}
use lib_streamlabs_ipc.Message.Reply.{encode_reply}
use lib_streamlabs_ipc.Message.Call.{FunctionCall, encode_call}
use lib_streamlabs_ipc.Tests.Messages.{sample_reply}
use lib_streamlabs_ipc.Windows.Client.{read_callback_msg}
use lib_streamlabs_ipc.Windows.Client.Replies.{
  osx_view, win_view, Restored, read_callback_msg-platforms, send_call-refused,
}
use lib_streamlabs_ipc.Windows.Socket.{new_socket, accept, handle_accept_callback}
use lib_streamlabs_ipc.Base.{take}
use lib_streamlabs_ipc.Bytes.{le_bytes, of_le_bytes}
use lib_streamlabs_ipc.Map.{erase}
use lib_streamlabs_ipc.Message.Frame.{framed}
use lib_streamlabs_ipc.Message.Reply
use lib_streamlabs_ipc.Message.Reply.{arrived}
use lib_streamlabs_ipc.Value.{ui64}
use lib_streamlabs_ipc.Value.Format.{assign}
use lib_streamlabs_ipc.Os.{success, has_data}
use lib_streamlabs_ipc.Tests.Messages.{sample_reply-IsSendable}
use lib_streamlabs_ipc.Windows.AsyncRequest.{due, result}
use lib_streamlabs_ipc.Windows.Client.{init}
use lib_streamlabs_ipc.Windows.Client.Worker.{wait_rop}
use lib_streamlabs_ipc.Windows.Client.Delivery.{two_waits-deliver}

abbrev pub win_codes : ErrorCodes
win_codes = record {
  error_success = 0;
  error_io_pending = 997;
  error_broken_pipe = 109;
  error_more_data = 234;
  error_pipe_connected = 535;
  error_timeout = 1460;
  error_too_many_posts = 298;
  error_no_data = 232;
}

-- The world is a log. Every write is pending.
abbrev log_pipe : PipeSystem (List ℕ)
log_pipe = record {
  overlapped = record {
    has_completed = λ w. true;
    cancel_io = λ w. (true, w);
    get_result = λ w. (0, 8);
  };
  client_process = λ w. some 7;
  client_session = λ w. some 1;
  server_process = λ w. some 7;
  server_session = λ w. some 1;
  peek = λ w. true;
  connect = λ w. (0, w);
  read_file = λ n w. (true, 997, w);
  write_file = λ b w. (true, 997, w);
  create_pipe = λ name n t m u w. (true, w);
  open_pipe = λ name w. (true, w);
  set_read_mode = λ m w. (true, w);
}

abbrev closed_pipe : PipeSystem (List ℕ)
closed_pipe = record log_pipe { write_file = λ b w. (false, 232, w) }

abbrev idle_waits : Waiting (List ℕ)
idle_waits = record { wait = λ n w. (timed_out, w); filled = λ b w. b }

abbrev log_pipe-IsQuiet : IsQuiet (λ w. w) log_pipe idle_waits
log_pipe-IsQuiet = record {
  cancel = λ w. refl;
  read = λ n w. refl;
  write = λ b w. refl;
  wait = λ n w. refl;
}

abbrev client_socket : Socket.Socket
client_socket = record { created = false; remote_id = record { session_id = 1; process_id = 7 } }

abbrev idle_client : Client (List ℕ)
idle_client = record {
  socket = some client_socket;
  rop = none;
  buf = [];
  callbacks = [];
  stop = false;
}

abbrev log_one : List Value → List ℕ → List ℕ
log_one vs w = 1 ∷ w

abbrev calling_client : Client (List ℕ)
calling_client = record idle_client { callbacks = (1, log_one) ∷ [] }

abbrev written_op : AsyncOp Handler
written_op = record {
  valid = true;
  callback = none;
  callback_called = false;
  system_callback = none;
  system_callback_called = false;
}

sent_once :
    (frame : Bytes)
    → send_call log_pipe win_codes 1 idle_client frame (some log_one) 0 client_socket []
      ≡ ok (1, calling_client, sent 1 written_op, [])
unfolding send_call store_callback check_write insert contains place Socket.write is_connected
    Socket.compare_peer prepare is_complete is_valid set_handle set_valid settle_io translate_error
    is_failure set_callback
sent_once frame = refl

begun_once :
    begin_call log_pipe win_codes 0 idle_client (codes "a") (codes "b") [] (some log_one) 0 []
    ≡ ok (1, calling_client, sent 1 written_op, [])
unfolding begin_call call_message Call.size Value.size size_values
begun_once =
    rw
      (call_frame-framed (call_message 1 (codes "a") (codes "b") [])
        (call_message-IsSendable 1 (codes "a") (codes "b") [] (record {
          class_name = omega arith;
          function_name = omega arith;
          count = omega arith;
          arguments = tt;
        }))
        (omega arith))
      (sent_once _)

abbrev one_call :
    Reach
      (λ w. w)
      log_pipe
      win_codes
      idle_waits
      none
      (record { timestamp = 1; client = calling_client; world = [] })
one_call = later (fresh (record { timestamp = 0; client = idle_client; world = [] }) refl refl) (
    begun (codes "a") (codes "b") [] (some log_one) 0 1 calling_client (sent 1 written_op) []
      (omega arith) (λ vs w. refl) begun_once)

silent : IsSilent {W = List ℕ} (λ w. w) none
silent f e w = absurd cc

Reach-once_example : held 1 idle_client.callbacks + count 1 (1 ∷ []) ≤ 1
unfolding worker_end call_lost check_socket is_connected Socket.compare_peer
Reach-once_example =
    Reach-once (λ w. w) log_pipe idle_waits log_pipe-IsQuiet win_codes none
      (record { timestamp = 1; client = idle_client; world = 1 ∷ [] }) 1 silent
      (later one_call (finished idle_client (1 ∷ []) refl))

worker_end-drains_example :
    (r : Client (List ℕ) × List ℕ) × (worker_end log_pipe win_codes idle_waits none calling_client
        []
      ≡ ok r)
    × Drained (λ w. w) calling_client [] r
worker_end-drains_example =
    worker_end-drains (λ w. w) log_pipe win_codes idle_waits none client_socket calling_client []
      refl (λ vs w. refl, tt) silent

abbrev mac_client : Mac.Client (List ℕ)
mac_client = record new_client { callbacks = (1, log_one) ∷ []; buffer = encode_reply sample_reply }

read_callback_msg-platforms_example :
    win_view (
      read_callback_msg
        (record calling_client { rop = some written_op; buf = encode_reply sample_reply })
        [])
    ≡ osx_view (Mac.read_callback_msg mac_client [])
unfolding new_client
read_callback_msg-platforms_example =
    read_callback_msg-platforms mac_client
      (record calling_client { rop = some written_op; buf = encode_reply sample_reply }) written_op
      [] refl refl refl

send_call-refused_example :
    (r : ℕ × Client (List ℕ) × Begun × List ℕ) × (send_call closed_pipe win_codes 2 calling_client
        (0 ∷ [])
        (some log_one)
        0
        client_socket
        []
      ≡ ok r)
    × Restored (λ k. find k calling_client.callbacks) r
unfolding contains
send_call-refused_example =
    send_call-refused closed_pipe win_codes 2 calling_client (0 ∷ []) (some log_one) 0 client_socket
      [] refl

wait-wait_any_example :
    forget_index (wait_any (λ hs ms n. wait_object 0) (λ item w. w + 1) 2 (some (some 6 ∷ [])) 20 0)
    ≡ wait (λ ms n. wait_object 0) (λ w. w + 1) 2 20 0
wait-wait_any_example =
    wait-wait_any (λ hs ms n. wait_object 0) (λ item w. w + 1) 6 (λ ms n. refl) 2 20 0

-- Each wait succeeds; the first read that completes is the header of `sample_reply`, the next one its body.
abbrev arriving : Bytes → List ℕ → Bytes
arriving b [] = take 8 (framed (encode_reply sample_reply))
arriving b (n ∷ ns) = encode_reply sample_reply

abbrev reply_waits : Waiting (List ℕ)
reply_waits = record { wait = λ n w. (success, w); filled = arriving }

-- A read leaves a mark.
abbrev marking_pipe : PipeSystem (List ℕ)
marking_pipe = record log_pipe { read_file = λ n w. (true, 997, 0 ∷ w) }

abbrev header_op : AsyncOp Handler
header_op = record written_op { callback = some init }

abbrev reading_client : Client (List ℕ)
reading_client = record calling_client { rop = some header_op }

two_waits-deliver_example :
    (t : Client (List ℕ)) × (u : Client (List ℕ)) × (wait_rop marking_pipe win_codes reply_waits 0
        reading_client []
      ≡ ok (success, t, 0 ∷ []))
    × (wait_rop marking_pipe win_codes reply_waits 20 t (0 ∷ []) ≡ ok (success, u, 1 ∷ 0 ∷ []))
    × (u.callbacks ≡ erase (ui64 (arrived sample_reply).uid) reading_client.callbacks)
unfolding due find ui64 arrived of_le_bytes le_bytes translate_error has_data result is_connected
    Socket.compare_peer Reply.size Value.size size_values assign
two_waits-deliver_example =
    two_waits-deliver marking_pipe win_codes reply_waits sample_reply reading_client client_socket
      header_op log_one 0 20 [] [] (0 ∷ []) (0 ∷ []) sample_reply-IsSendable (omega arith) refl refl
      refl refl
      (record {
        code = 997;
        header_came = refl;
        header = refl;
        good = refl;
        alive = refl;
        started = refl;
        waits = refl;
        body_came = refl;
        body = refl;
      })
