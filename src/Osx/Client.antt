-- ===== src/Osx/Client.antt =====
-- `ipc::client_osx` (source/apple/ipc-client-osx.cpp). A client waits for the reply inside `call`: no
-- other thread reads for it. `timestamp`, a `static` of `call`, is part of the state, which is that
-- of the only client of its process.
pub mod Calls
pub mod Replies
pub mod Turn
use lib_streamlabs_ipc.Base.{
  ℕ, zero, suc, ◌+◌, ◌-◌, ◌%◌, ◌^◌, Bool, true, false, not, Option, none, some, List, [], ◌∷◌, ◌++◌,
  length, replicate, if◌then◌else◌, ltb, ◌==◌, Outcome, ok, throws, aborts, undefined, ◌>>=◌, drop,
}
use lib_streamlabs_ipc.Bytes.{Bytes}
use lib_streamlabs_ipc.Map.{Map, find, insert, erase, contains, int64_key}
use lib_streamlabs_ipc.Value.{Value, null, null_value, uint64_value, string_value, ui64}
use lib_streamlabs_ipc.Message.Fields.{resize}
use lib_streamlabs_ipc.Message.Call
use lib_streamlabs_ipc.Message.Call.{FunctionCall}
use lib_streamlabs_ipc.Message.Reply
use lib_streamlabs_ipc.Message.Reply.{FunctionReply, new_reply}
use lib_streamlabs_ipc.Message.Frame.{make_sendable, read_size}
use lib_streamlabs_ipc.Os.{Error, error, has_data, is_error}
use lib_streamlabs_ipc.Osx.Channel.{Channel, SocketType, request, reply, resize_bytes}

-- `call_return_t` with its data pointer put in.
abbrev pub CallReturn {ℓ} : Type ℓ → Type ℓ
CallReturn W = List Value → W → W

-- `socket` says whether `m_socket` is set.
pub record Client {ℓ} (W : Type ℓ) : Type ℓ where
  pub socket : Bool
  pub stopped : Bool
  pub shutting_down : Bool
  pub timestamp : ℕ
  pub writer_sem : ℕ
  pub callbacks : Map ℕ (CallReturn W)
  pub buffer : Bytes

-- `blocked` is a `sem_wait` that finds the semaphore at zero, or a write that fails for ever: `fuel`
-- bounds the attempts.
pub data Run {ℓ} (A : Type ℓ) : Type ℓ where
  blocked : Run A
  came_to : Outcome A → Run A

abbrev pub first_value : List Value → Value
first_value [] = null_value
first_value (v ∷ vs) = v

-- `values.resize(1)`, then the first value becomes a null with the error as its string.
unfoldable pub error_values : Bytes → List Value → List Value
unfolding resize
error_values message values =
    record (first_value (resize 1 values)) { type = null; value_str = message } ∷ []

unfoldable pub reply_values : FunctionReply → List Value
unfolding error_values
reply_values r =
    if ltb 0 (length r.error.value_str) then error_values r.error.value_str r.values else r.values

unfoldable pub call_message : ℕ → Bytes → Bytes → List Value → FunctionCall
call_message timestamp cname fname args = record {
  uid = uint64_value timestamp;
  class_name = string_value cname;
  function_name = string_value fname;
  arguments = args;
}

-- The serialized call in its frame, or what `serialize` threw.
unfoldable pub call_frame : FunctionCall → Outcome Bytes
call_frame msg = do
  (buf, n) ← Call.serialize msg (replicate (Call.size msg + 8) 0) 8
  make_sendable buf

unfoldable pub new_client {ℓ} : {W : Type ℓ} → Client W
new_client = record {
  socket = true;
  stopped = false;
  shutting_down = false;
  timestamp = 0;
  writer_sem = 1;
  callbacks = [];
  buffer = replicate 130000 0;
}

module _ {ℓ} {W : Type ℓ} where
  unfoldable pub stop : Client W → Client W
  stop s =
      if s.stopped
      then s
      else record s { stopped = true; writer_sem = s.writer_sem + 1; socket = false }

  unfoldable pub cancel : Client W → ℕ → Client W × Bool
  cancel s id = (record s { callbacks = erase id s.callbacks }, contains id s.callbacks)

  -- No callback under this number: only the semaphore is posted. Otherwise the callback runs, and its
  -- entry is removed.
  unfoldable pub deliver : Client W → FunctionReply → W → Client W × W
  unfolding reply_values
  deliver s r w = elim (find (ui64 r.uid) s.callbacks) [
    | none ↦ (record s { writer_sem = s.writer_sem + 1 }, w)
    | some cb ↦ (record s { callbacks = erase (ui64 r.uid) s.callbacks }, cb (reply_values r) w)
  ]

  -- The `catch` logs and throws on.
  unfoldable pub read_callback_msg : Client W → W → Outcome (Client W × W)
  unfolding deliver
  read_callback_msg s w = do (r, n) ← Reply.deserialize new_reply s.buffer 0; ok (deliver s r w)

  -- With `fn` null nothing is stored, and the caller's `cbid` is as it was.
  unfoldable pub store_callback : Client W → ℕ → Option (CallReturn W) → ℕ → Client W × ℕ
  store_callback s uid none cbid = (s, cbid)
  store_callback s uid (some fn) cbid = (record s { callbacks = insert uid fn s.callbacks }, uid)

module _ {ℓ} {W : Type ℓ} (channel : Channel W) where
  unfoldable pub read_callback_init : Client W → Error → W → Outcome (Client W × W)
  read_callback_init s ec w =
      if has_data ec
      then (do
        n_size ← read_size s.buffer
        let (ec2, buf, w') = channel.read (resize_bytes n_size s.buffer) false reply w
        if n_size == 0 then ok (s, w) else read_callback_msg (record s { buffer = buf }) w')
      else ok (s, w)

  -- `while (ec == Error)` around the write.
  unfoldable pub write_loop : ℕ → Bytes → W → Option W
  write_loop zero buf w = none
  write_loop (suc fuel) buf w =
      let (ec, w') = channel.write buf request w in
      let again = write_loop fuel buf w' in if is_error ec then again else some w'

  -- What `call` does once the frame has been written.
  unfoldable pub await_reply : Client W → ℕ → W → Outcome (Client W × Bool × ℕ × W)
  unfolding read_callback_init
  await_reply s cbid w = if s.shutting_down then ok (s, true, cbid, w) else do
    let (ec, buf, w1) = channel.read (resize_bytes 8 s.buffer) true reply w
    (s', w2) ← read_callback_init (record s { buffer = buf }) ec w1
    ok (s', true, cbid, w2)

  -- What `call` does with a frame: take the turn, write, and wait.
  unfoldable pub send_frame : ℕ → Client W → ℕ → Outcome Bytes → W → Run (Client W × Bool × ℕ × W)
  unfolding await_reply write_loop
  send_frame fuel s cbid (ok frame) w = elim s.writer_sem [
    | zero ↦ blocked
    | suc turns ↦ elim (write_loop fuel frame w) [
      | none ↦ blocked
      | some w' ↦ came_to (await_reply (record s { writer_sem = turns }) cbid w')
    ]
  ]
  send_frame fuel s cbid throws w = came_to throws
  send_frame fuel s cbid aborts w = came_to aborts
  send_frame fuel s cbid undefined w = came_to undefined

  -- The new client, the returned flag, the new `cbid`, and the world.
  unfoldable pub call :
      ℕ
      → Client W
      → Bytes
      → Bytes
      → List Value
      → Option (CallReturn W)
      → ℕ
      → W
      → Run (Client W × Bool × ℕ × W)
  unfolding send_frame store_callback call_message call_frame
  call fuel s cname fname args fn cbid w =
      if s.socket
      then (let uid = (s.timestamp + 1) % 2 ^ 64 in
          let (s', cbid') = store_callback (record s { timestamp = uid }) uid fn cbid in
          send_frame fuel s' cbid' (call_frame (call_message uid cname fname args)) w)
      else came_to (ok (s, false, cbid, w))

-- The channel of a process whose world has one more part.
abbrev pub lift_channel {ℓ} : {W D : Type ℓ} → Channel W → Channel (W × D)
lift_channel channel = record {
  is_connected = λ (w, d). channel.is_connected w;
  read = λ buf blocking t (w, d).
      let (ec, buf', w') = channel.read buf blocking t w in (ec, buf', (w', d));
  write = λ buf t (w, d). let (ec, w') = channel.write buf t w in (ec, (w', d));
}

-- `CallData` of `call_synchronous_helper`: the values, once the callback has been called.
abbrev pub CallData : Type 0
CallData = Option (List Value)

module _ {W : Type 0} (channel : Channel W) where
  -- The waits and cleanups behind `call`: if the callback has not run by then, no one posts the
  -- semaphore that is waited for.
  unfoldable pub finish_call :
      Run (Client (W × CallData) × Bool × ℕ × (W × CallData))
      → Run (Client (W × CallData) × List Value × W)
  finish_call blocked = blocked
  finish_call (came_to (ok (s, false, cbid, (w, d)))) = came_to (ok (s, [], w))
  finish_call (came_to (ok (s, true, cbid, (w, none)))) = blocked
  finish_call (came_to (ok (s, true, cbid, (w, some values)))) =
      came_to (ok (record s { writer_sem = s.writer_sem + 1 }, values, w))
  finish_call (came_to throws) = came_to throws
  finish_call (came_to aborts) = came_to aborts
  finish_call (came_to undefined) = came_to undefined

  -- `sem_opened` is false where `sem_open` fails.
  unfoldable pub call_synchronous_helper :
      ℕ
      → Bool
      → Client (W × CallData)
      → Bytes
      → Bytes
      → List Value
      → W
      → Run (Client (W × CallData) × List Value × W)
  unfolding finish_call call
  call_synchronous_helper fuel sem_opened s cname fname args w =
      if sem_opened
      then finish_call (
          call (lift_channel channel) fuel s cname fname args
            (some (λ rval (w', d). (w', some rval))) 0 (w, none))
      else came_to (ok (s, [], w))
