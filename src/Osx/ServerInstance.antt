-- ===== src/Osx/ServerInstance.antt =====
-- `ipc::server_instance_osx` (source/apple/ipc-server-instance-osx.cpp). Two threads, one for requests
-- and one for replies, hand the turn to each other by two semaphores. A `…_body` is what a thread does
-- between a `sem_wait` that has returned and the end of the loop's round.
pub mod Turns
pub mod Serves
use lib_streamlabs_ipc.Base.{
  ℕ, zero, suc, ◌+◌, ◌-◌, Bool, true, false, not, ◌&&◌, ◌||◌, Option, none, some, List, [], ◌∷◌,
  ◌++◌, length, replicate, if◌then◌else◌, ltb, ◌==◌, Outcome, ok, throws, aborts, undefined, ◌>>=◌,
}
use lib_streamlabs_ipc.Bytes.{Bytes}
use lib_streamlabs_ipc.Value.{Value, string_value}
use lib_streamlabs_ipc.Message.Call
use lib_streamlabs_ipc.Message.Call.{FunctionCall, new_call}
use lib_streamlabs_ipc.Message.Reply
use lib_streamlabs_ipc.Message.Reply.{FunctionReply}
use lib_streamlabs_ipc.Message.Frame.{make_sendable, read_size}
use lib_streamlabs_ipc.Server.{Registry, CallResult, client_call_function}
use lib_streamlabs_ipc.Os.{Error, has_data}
use lib_streamlabs_ipc.Osx.Channel.{Channel, SocketType, request, reply, resize_bytes}

-- `wop` and `rop` are null pointers here, or operations that are valid or not.
pub record Instance : Type 0 where
  pub stop_workers : Bool
  pub reader_sem : ℕ
  pub writer_sem : ℕ
  pub rbuf : Bytes
  pub msgs : List FunctionCall
  pub wop : Option Bool
  pub rop : Option Bool
  pub write_queue : List Bytes

unfoldable pub new_instance : Instance
new_instance = record {
  stop_workers = false;
  reader_sem = 1;
  writer_sem = 0;
  rbuf = [];
  msgs = [];
  wop = none;
  rop = none;
  write_queue = [];
}

abbrev pub is_pending : Option Bool → Bool
is_pending none = false
is_pending (some valid) = valid

abbrev pub is_empty {ℓ} : {A : Type ℓ} → List A → Bool
is_empty [] = true
is_empty (x ∷ xs) = false

-- The `catch` of `read_callback_msg` logs and returns; nothing is posted then.
unfoldable pub queue_message : Instance → Outcome (FunctionCall × ℕ) → Outcome Instance
queue_message s (ok (msg, n)) =
    ok (record s { rbuf = []; msgs = s.msgs ++ (msg ∷ []); writer_sem = s.writer_sem + 1 })
queue_message s throws = ok s
queue_message s aborts = aborts
queue_message s undefined = undefined

unfoldable pub read_callback_msg : Instance → Outcome Instance
unfolding queue_message
read_callback_msg s = queue_message s (Call.deserialize new_call s.rbuf 0)

unfoldable pub reply_of {ℓ} : {W : Type ℓ} → FunctionCall → CallResult W → FunctionReply
reply_of msg r = record {
  uid = msg.uid;
  error = if r.success then string_value [] else string_value r.errormsg;
  values = r.rval;
}

module _ {ℓ} {W : Type ℓ} (channel : Channel W) where
  -- The inner `if`: a size of at most 1 posts the writer semaphore with no message queued.
  unfoldable pub read_body : Instance → ℕ → W → Outcome (Instance × W)
  unfolding read_callback_msg
  read_body s n_size w =
      let (ec2, buf, w') = channel.read (resize_bytes n_size s.rbuf) false request w in
      if ltb 1 n_size
      then (do s' ← read_callback_msg (record s { rbuf = buf }); ok (s', w'))
      else ok (record s { writer_sem = s.writer_sem + 1 }, w)

  unfoldable pub read_callback_init : Instance → Error → W → Outcome (Instance × W)
  unfolding read_body
  read_callback_init s ec w =
      if has_data ec then (do n_size ← read_size s.rbuf; read_body s n_size w) else ok (s, w)

  -- The round of `worker_req` behind `sem_wait(m_reader_sem)`.
  unfoldable pub worker_req_body : Instance → W → Outcome (Instance × W)
  unfolding read_callback_init
  worker_req_body s w =
      let (ec, buf, w') = channel.read (resize_bytes 8 s.rbuf) true request w in
      read_callback_init (record s { rbuf = buf }) ec w'

  unfoldable pub read_callback_msg_write : Instance → Bytes → W → Outcome (Instance × W)
  read_callback_msg_write s write_buffer w =
      if is_empty write_buffer
      then elim s.rop [ none ↦ undefined | some valid ↦ ok (record s { rop = some false }, w) ]
      else if not (is_pending s.wop) && is_empty s.write_queue
      then (do
        buf ← make_sendable write_buffer
        let (ec2, w') = channel.write buf reply w
        ok (s, w'))
      else ok (record s { write_queue = s.write_queue ++ (write_buffer ∷ []) }, w)

  -- The `catch` around `serialize` logs and ends the thread; nothing is posted then.
  unfoldable pub send_reply : Instance → Outcome (Bytes × ℕ) → W → Outcome (Instance × W)
  unfolding read_callback_msg_write
  send_reply s (ok (write_buffer, n)) w = do
    (s', w') ← read_callback_msg_write s write_buffer w
    ok (record s' { reader_sem = s'.reader_sem + 1 }, w')
  send_reply s throws w = ok (s, w)
  send_reply s aborts w = aborts
  send_reply s undefined w = undefined

  -- `front` and `pop` of an empty queue are undefined.
  unfoldable pub answer : Registry W → Instance → List FunctionCall → W → Outcome (Instance × W)
  unfolding send_reply reply_of
  answer parent s [] w = undefined
  answer parent s (msg ∷ rest) w =
      let r =
        client_call_function parent 0 msg.class_name.value_str msg.function_name.value_str
          msg.arguments [] [] w in
      let fnc_reply = reply_of msg r in
      send_reply (record s { msgs = rest })
        (Reply.serialize fnc_reply (replicate (Reply.size fnc_reply + 8) 0) 8) r.world

  -- The round of `worker_rep` behind `sem_wait(m_writer_sem)`.
  unfoldable pub worker_rep_body : Registry W → Instance → W → Outcome (Instance × W)
  unfolding answer
  worker_rep_body parent s w = if s.stop_workers then ok (s, w) else answer parent s s.msgs w

  unfoldable pub is_alive : Instance → W → Bool
  is_alive s w = channel.is_connected w && not s.stop_workers

  -- The destructor up to the joins: the write is to wake `worker_req`.
  unfoldable pub stop_instance : Instance → W → Outcome (Instance × W)
  stop_instance s w = do
    buffer ← make_sendable (49 ∷ [])
    let (ec, w') = channel.write buffer request w
    ok (record s { stop_workers = true }, w')
