-- ===== src/Windows/Client/Sound.antt =====
-- A sound state of a Windows client (source/windows/ipc-client-win.cpp): no number in use twice, and none
-- above the last one. The two halves of a call keep it.
use lib_streamlabs_ipc.Base.{
  ℕ, ◌+◌, ◌%◌, ◌^◌, ◌≤◌, ◌<◌, ◌≡◌, refl, inl, inr, Option, none, some, List, arith, Bool-cases,
  Option-cases, ok, Ensures, Ensures-bind, Ensures-after,
}
use lib_streamlabs_ipc.Bytes.{Bytes}
use lib_streamlabs_ipc.Map.{insert}
use lib_streamlabs_ipc.Value.{Value}
use lib_streamlabs_ipc.Os.{Error, is_success}
use lib_streamlabs_ipc.Osx.Client.{CallReturn, call_frame, call_message}
use lib_streamlabs_ipc.Windows.Utility.{ErrorCodes}
use lib_streamlabs_ipc.Windows.AsyncRequest.{cancel}
use lib_streamlabs_ipc.Windows.Socket
use lib_streamlabs_ipc.Windows.Socket.{PipeSystem, Started, settle_io, is_connected}
use lib_streamlabs_ipc.Windows.Client.{cancel_callback, Client, Handler, Waiting, is_failure}
use lib_streamlabs_ipc.Windows.Client.Quiet.{IsQuiet, same-IsFine}
use lib_streamlabs_ipc.Windows.Client.Reading.{write-log, cancel-log}
use lib_streamlabs_ipc.Windows.Client.Calls.{
  store_callback, Begun, refused, sent, check_write, send_call, begin_call, end_call,
}
use lib_streamlabs_ipc.Map.Held.{held-erase, held-place, held-contains}
use lib_streamlabs_ipc.Windows.Client.Once.{erase-AllLogs, place-AllLogs, AllLogs, IsFine, total}
use lib_streamlabs_ipc.Windows.Client.Schedule.{Process, GivenLogs}

module _ {ℓ} {W : Type ℓ} (log : W → List ℕ) where
  -- No number is in use twice, and none above the last one is in use.
  pub record IsSound (p : Process W) : Type ℓ where
    pub once : (k : ℕ) → total log k p.client.callbacks p.world ≤ 1
    pub unused : (k : ℕ) → p.timestamp < k → total log k p.client.callbacks p.world ≡ 0
    pub logs : AllLogs log p.client.callbacks

  pub fine-IsSound :
      (p : Process W) (t : ℕ) (s : Client W) (w : W)
      → IsSound p
      → p.timestamp ≤ t
      → IsFine log p.client.callbacks p.world (s, w)
      → IsSound (record { timestamp = t; client = s; world = w })
  fine-IsSound p t s w h e f = record {
    once = λ k. let a = f.bound k in let b = h.once k in omega arith;
    unused = λ k g. (let a = f.bound k in let b = h.unused k (omega arith) in omega arith);
    logs = f.logs;
  }

  pub cancel_callback-IsFine :
      (s : Client W) (id : ℕ) (w v : W)
      → AllLogs log s.callbacks
      → log v ≡ log w
      → IsFine log s.callbacks w ((cancel_callback s id).0, v)
  unfolding cancel_callback
  cancel_callback-IsFine s id w v h e = record {
    bound = λ k. rw e (ground (arith, held-erase id k s.callbacks));
    logs = erase-AllLogs log id s.callbacks h;
  }

  -- The new callback has a number that is not in use.
  store_callback-IsSound :
      (p : Process W) (fn : Option (CallReturn W)) (cbid : ℕ)
      → IsSound p
      → GivenLogs log (p.timestamp + 1) fn
      → IsSound (record {
        timestamp = p.timestamp + 1;
        client = (store_callback p.client (p.timestamp + 1) fn cbid).0;
        world = p.world;
      })
  unfolding store_callback insert
  store_callback-IsSound p none cbid h g =
      fine-IsSound p (p.timestamp + 1) p.client p.world h (omega arith)
        (same-IsFine log p.client p.world p.world h.logs refl)
  store_callback-IsSound p (some fn) cbid h g =
      let uid = p.timestamp + 1 in
      let free = h.unused uid (omega arith) in
      let absent = held-contains uid p.client.callbacks (omega arith) in
      rw absent (record {
        once = λ k. ground (arith, held-place uid k fn p.client.callbacks, h.once k, free);
        unused =
            λ k l. ground (arith, held-place uid k fn p.client.callbacks, h.unused k (omega arith));
        logs = place-AllLogs log uid fn p.client.callbacks g h.logs;
      })

module _ {ℓ} {W : Type ℓ} (log : W → List ℕ) (system : PipeSystem W) (waiting : Waiting W)
    (quiet : IsQuiet log system waiting) (error_codes : ErrorCodes) where
  check_write-IsFine :
      (s : Client W) (cbid : ℕ) (r : Started Handler W) (w : W)
      → AllLogs log s.callbacks
      → log r.world ≡ log w
      → IsFine log s.callbacks w ((check_write s cbid r).0, (check_write s cbid r).2)
  unfolding check_write
  check_write-IsFine s cbid r w h e =
      let t = record s { socket = some r.socket } in
      elim (Option-cases r.op) [
        | inl f ↦ rw f (cancel_callback-IsFine log t cbid w r.world h e)
        | inr (op, f) ↦ elim (Bool-cases (is_failure r.status)) [
          | inl g ↦ rw (f, g) (cancel_callback-IsFine log t cbid w r.world h e)
          | inr g ↦ rw (f, g) (same-IsFine log t w r.world h e)
        ]
      ]

  -- What a call makes of the process.
  abbrev pub then_process : ℕ × Client W × Begun × W → Process W
  then_process r = record { timestamp = r.0; client = r.1; world = r.3 }

  send_call-IsSound :
      (p : Process W) (frame : Bytes) (fn : Option (CallReturn W)) (cbid : ℕ)
      (socket : Socket.Socket)
      → IsSound log p
      → GivenLogs log (p.timestamp + 1) fn
      → Ensures
          (λ r. IsSound log (then_process r))
          (send_call system error_codes (p.timestamp + 1) p.client frame fn cbid socket p.world)
  unfolding send_call
  send_call-IsSound p frame fn cbid socket h g =
      let uid = p.timestamp + 1 in
      let stored = store_callback p.client uid fn cbid in
      let sound = store_callback-IsSound log p fn cbid h g in
      let finish = λ (r : Started Handler W).
        (let c = check_write stored.0 stored.1 r in then_process (uid, c.0, c.1, c.2)) in
      Ensures-bind (λ r. log r.world ≡ log p.world) (λ r. IsSound log (then_process r))
        (Socket.write {F = Handler} system error_codes frame none none socket p.world)
        (λ r. let c = check_write stored.0 stored.1 r in ok (uid, c.0, c.1, c.2))
        (write-log log system waiting quiet error_codes frame none none socket p.world)
        (λ r e.
          fine-IsSound log (record { timestamp = uid; client = stored.0; world = p.world }) uid
            (check_write stored.0 stored.1 r).0 (check_write stored.0 stored.1 r).2 sound
            (omega arith) (check_write-IsFine stored.0 stored.1 r p.world sound.logs e))

  wrap : (n : ℕ) → n < 2 ^ 64 → n % 2 ^ 64 ≡ n
  wrap n h = omega arith

  pub begin_call-IsSound :
      (p : Process W) (cname fname : Bytes) (args : List Value) (fn : Option (CallReturn W))
      (cbid : ℕ)
      → IsSound log p
      → p.timestamp + 1 < 2 ^ 64
      → GivenLogs log (p.timestamp + 1) fn
      → Ensures
          (λ r. IsSound log (then_process r))
          (begin_call system error_codes p.timestamp p.client cname fname args fn cbid p.world)
  unfolding begin_call
  begin_call-IsSound p cname fname args fn cbid h l g = elim (Option-cases p.client.socket) [
    | inl e ↦ rw (begin_call, e) h
    | inr (socket, e) ↦
        rw (begin_call, e, wrap (p.timestamp + 1) l)
          (Ensures-after (λ r. IsSound log (then_process r))
            (call_frame (call_message (p.timestamp + 1) cname fname args))
            (λ frame.
              send_call system error_codes (p.timestamp + 1) p.client frame fn cbid socket p.world)
            (λ frame. send_call-IsSound p frame fn cbid socket h g))
  ]

  pub end_call-IsFine :
      (b : Begun) (ec : Error) (s : Client W) (w : W)
      → AllLogs log s.callbacks
      → IsFine log s.callbacks w ((end_call system b ec s w).0, (end_call system b ec s w).2)
  unfolding end_call
  end_call-IsFine (refused cbid) ec s w h = same-IsFine log s w w h refl
  end_call-IsFine (sent cbid op) ec s w h = elim (Bool-cases (is_success ec)) [
    | inl e ↦ rw e (same-IsFine log s w w h refl)
    | inr e ↦ rw e (
        cancel_callback-IsFine log s cbid w (cancel system.overlapped op w).1 h
          (cancel-log log system waiting quiet error_codes op w))
  ]
