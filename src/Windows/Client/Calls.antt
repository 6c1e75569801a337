-- ===== src/Windows/Client/Calls.antt =====
-- `client_win::call` and `call_synchronous_helper`, split where they wait.
use lib_streamlabs_ipc.Base.{
  ℕ, ◌+◌, ◌%◌, ◌^◌, Bool, true, false, Option, none, some, List, [], ◌∷◌, if◌then◌else◌, Outcome,
  ok, ◌>>=◌,
}
use lib_streamlabs_ipc.Bytes.{Bytes}
use lib_streamlabs_ipc.Map.{insert, int64_key}
use lib_streamlabs_ipc.Value.{Value}
use lib_streamlabs_ipc.Os.{Error, is_success}
use lib_streamlabs_ipc.Os.AsyncOp.{AsyncOp}
use lib_streamlabs_ipc.Osx.Client.{CallReturn, call_message, call_frame}
use lib_streamlabs_ipc.Windows.Utility.{ErrorCodes}
use lib_streamlabs_ipc.Windows.AsyncRequest.{cancel}
use lib_streamlabs_ipc.Windows.Socket
use lib_streamlabs_ipc.Windows.Socket.{PipeSystem, Started, byte, open_socket}
use lib_streamlabs_ipc.Windows.Client.{Client, Handler, is_failure, is_timed_out, cancel_callback}

module _ {ℓ} {W : Type ℓ} where
  unfoldable pub store_callback : Client W → ℕ → Option (CallReturn W) → ℕ → Client W × ℕ
  store_callback s uid none cbid = (s, cbid)
  store_callback s uid (some fn) cbid = (record s { callbacks = insert uid fn s.callbacks }, uid)

-- A call that has been sent waits for its write; `refused` is one that has failed.
pub data Begun : Type 0 where
  refused : ℕ → Begun
  sent : ℕ → AsyncOp Handler → Begun

module _ {ℓ} {W : Type ℓ} where
  -- `call` behind its write.
  unfoldable pub check_write : Client W → ℕ → Started Handler W → Client W × Begun × W
  unfolding cancel_callback is_failure
  check_write s cbid r =
      let s1 = record s { socket = some r.socket } in
      elim r.op [
        | none ↦ ((cancel_callback s1 cbid).0, refused cbid, r.world)
        | some op ↦
            (if is_failure r.status
              then ((cancel_callback s1 cbid).0, refused cbid, r.world)
              else (s1, sent cbid op, r.world))
      ]

module _ {ℓ} {W : Type ℓ} (system : PipeSystem W) (error_codes : ErrorCodes) where
  -- From the callback's entry in the map on.
  unfoldable pub send_call :
      ℕ
      → Client W
      → Bytes
      → Option (CallReturn W)
      → ℕ
      → Socket.Socket
      → W
      → Outcome (ℕ × Client W × Begun × W)
  unfolding store_callback check_write
  send_call uid s frame fn cbid socket w = do
    let (s1, cbid') = store_callback s uid fn cbid
    r ← Socket.write system error_codes frame none none socket w
    let (s2, begun, w2) = check_write s1 cbid' r
    ok (uid, s2, begun, w2)

  -- The first argument and the first result are `timestamp`, which all clients of the process share.
  unfoldable pub begin_call :
      ℕ
      → Client W
      → Bytes
      → Bytes
      → List Value
      → Option (CallReturn W)
      → ℕ
      → W
      → Outcome (ℕ × Client W × Begun × W)
  unfolding send_call call_message call_frame
  begin_call timestamp s cname fname args fn cbid w = elim s.socket [
    | none ↦ ok (timestamp, s, refused cbid, w)
    | some socket ↦ (do
      let uid = (timestamp + 1) % 2 ^ 64
      frame ← call_frame (call_message uid cname fname args)
      send_call uid s frame fn cbid socket w)
  ]

module _ {ℓ} {W : Type ℓ} (system : PipeSystem W) where
  -- `call` behind its wait, which has ended with the status `ec`: the returned flag.
  unfoldable pub end_call : Begun → Error → Client W → W → Client W × Bool × W
  unfolding cancel_callback
  end_call (refused cbid) ec s w = (s, false, w)
  end_call (sent cbid op) ec s w =
      if is_success ec
      then (s, true, w)
      else ((cancel_callback s cbid).0, false, (cancel system.overlapped op w).1)

module _ {ℓ} {W : Type ℓ} where
  -- The loop over the waits for the write, with a time limit each: `freez_cb` is told of those that run
  -- out. The list is what the waits return, `none` a wait that has not ended.
  unfoldable pub await_write : Option (W → W) → List Error → W → Option (Error × W)
  await_write freez_cb [] w = none
  await_write freez_cb (ec ∷ rest) w =
      let again = await_write freez_cb rest (elim freez_cb [ none ↦ w | some f ↦ f w ]) in
      if is_timed_out ec then again else some (ec, w)

  -- `call_synchronous_helper` behind `call`, with the two calls of `freez_cb`, when a wait runs out for
  -- the first time and when the waiting is over.
  unfoldable pub await_signal : Option (Bool → W → W) → Bool → List Error → W → Option W
  await_signal freez_cb flagged [] w = none
  await_signal freez_cb flagged (ec ∷ rest) w =
      let tell = λ (b : Bool) (w' : W). elim freez_cb as (λ x. W) [ none ↦ w' | some f ↦ f b w' ] in
      let again = await_signal freez_cb true rest (if flagged then w else tell true w) in
      if is_timed_out ec then again else some (if flagged then tell false w else w)

  -- The end of `call_synchronous_helper`; `values` once the callback has been called.
  unfoldable pub finish_call : Client W → ℕ → Option (List Value) → Client W × List Value
  unfolding cancel_callback
  finish_call s cbid none = ((cancel_callback s cbid).0, [])
  finish_call s cbid (some values) = (s, values)

-- `start`, where a client that is stopped opens its socket, and `stop` behind the end of the worker.
module _ {ℓ} {W : Type ℓ} where
  unfoldable pub start_client : PipeSystem W → Bytes → Client W → W → Outcome (Client W × W)
  unfolding open_socket
  start_client system socket_path s w =
      if s.stop
      then (do
        (socket, w1) ← open_socket system socket_path byte w
        ok (record s { socket = some socket; stop = false }, w1))
      else ok (s, w)

  unfoldable pub stop_client : Client W → Client W
  stop_client s = if s.stop then s else record s { socket = none; stop = true }
