-- ===== src/Windows/Client/NeverTwice.antt =====
-- Any number of calls beside the worker of a Windows client, in any order: no callback runs twice.
use lib_streamlabs_ipc.Base.{
  ℕ, ◌+◌, ◌≤◌, refl, Bool, true, false, Option, none, List, arith, if◌then◌else◌, Ensures,
  Ensures-mono, Ensures-ok,
}
use lib_streamlabs_ipc.Map.{Map}
use lib_streamlabs_ipc.Osx.Client.{CallReturn}
use lib_streamlabs_ipc.Windows.Utility.{ErrorCodes}
use lib_streamlabs_ipc.Windows.Socket.{PipeSystem}
use lib_streamlabs_ipc.Windows.Client.{cancel_callback, Client, Waiting}
use lib_streamlabs_ipc.Windows.Client.Worker.{worker_pass, worker_end}
use lib_streamlabs_ipc.Windows.Client.Quiet.{IsQuiet, same-IsFine}
use lib_streamlabs_ipc.Windows.Client.Calls.{begin_call, end_call, stop_client}
use lib_streamlabs_ipc.Windows.Client.Rounds.{worker_pass-IsFine}
use lib_streamlabs_ipc.Windows.Client.Drain.{Drained, IsSilent, worker_end-Drained}
use lib_streamlabs_ipc.Map.Held.{held, count}
use lib_streamlabs_ipc.Windows.Client.Once.{AllLogs, IsFine}
use lib_streamlabs_ipc.Windows.Client.Schedule.{
  Process, Step, begun, ended, passed, finished, cancelled, stopped, elsewhere, Reach, fresh, later,
}
use lib_streamlabs_ipc.Windows.Client.Sound.{
  IsSound, then_process, fine-IsSound, cancel_callback-IsFine, begin_call-IsSound, end_call-IsFine,
}

module _ {ℓ} {W : Type ℓ} (log : W → List ℕ) (system : PipeSystem W) (waiting : Waiting W)
    (quiet : IsQuiet log system waiting) (error_codes : ErrorCodes) where
  worker_end-IsFine :
      (on_disconnect : Option (W → W)) (s : Client W) (w : W)
      → AllLogs log s.callbacks
      → IsSilent log on_disconnect
      → Ensures (IsFine log s.callbacks w) (worker_end system error_codes waiting on_disconnect s w)
  worker_end-IsFine on_disconnect s w h g =
      Ensures-mono (Drained log s w) (IsFine log s.callbacks w)
        (worker_end system error_codes waiting on_disconnect s w)
        (worker_end-Drained log system error_codes waiting on_disconnect s w h g)
        (λ r (e, f). record { bound = λ k. (let a = f k in rw e (omega arith)); logs = rw e tt })

  chosen :
      {m : Map ℕ (CallReturn W)} (b : Bool) (s t : Client W) (w : W)
      → IsFine log m w (s, w)
      → IsFine log m w (t, w)
      → IsFine log m w (if b then s else t, w)
  chosen true s t w f g = f
  chosen false s t w f g = g

  stop_client-IsFine :
      (s : Client W) (w : W) → AllLogs log s.callbacks → IsFine log s.callbacks w (stop_client s, w)
  unfolding stop_client
  stop_client-IsFine s w h =
      let t = record s { socket = none; stop = true } in
      chosen s.stop s t w (same-IsFine log s w w h refl) (same-IsFine log t w w h refl)

  Step-IsSound :
      (on_disconnect : Option (W → W)) (p q : Process W)
      → IsSilent log on_disconnect
      → Step log system error_codes waiting on_disconnect p q
      → IsSound log p
      → IsSound log q
  Step-IsSound on_disconnect p q g (begun cname fname args fn cbid t s b w l k e) h =
      Ensures-ok (λ r. IsSound log (then_process log system waiting quiet error_codes r))
        (begin_call system error_codes p.timestamp p.client cname fname args fn cbid p.world)
        (t, s, b, w)
        (begin_call-IsSound log system waiting quiet error_codes p cname fname args fn cbid h l k) e
  Step-IsSound on_disconnect p q g (ended b ec) h =
      fine-IsSound log p p.timestamp (end_call system b ec p.client p.world).0
        (end_call system b ec p.client p.world).2 h (omega arith)
        (end_call-IsFine log system waiting quiet error_codes b ec p.client p.world h.logs)
  Step-IsSound on_disconnect p q g (passed more s w e) h =
      fine-IsSound log p p.timestamp s w h (omega arith) (
        Ensures-ok (λ r. IsFine log p.client.callbacks p.world (r.1, r.2))
          (worker_pass system error_codes waiting p.client p.world) (more, s, w)
          (worker_pass-IsFine log system waiting quiet error_codes p.client p.world h.logs) e)
  Step-IsSound on_disconnect p q g (finished s w e) h =
      fine-IsSound log p p.timestamp s w h (omega arith) (
        Ensures-ok (IsFine log p.client.callbacks p.world)
          (worker_end system error_codes waiting on_disconnect p.client p.world) (s, w)
          (worker_end-IsFine on_disconnect p.client p.world h.logs g) e)
  Step-IsSound on_disconnect p q g (cancelled id) h =
      fine-IsSound log p p.timestamp (cancel_callback p.client id).0 p.world h (omega arith)
        (cancel_callback-IsFine log p.client id p.world p.world h.logs refl)
  Step-IsSound on_disconnect p q g stopped h =
      fine-IsSound log p p.timestamp (stop_client p.client) p.world h (omega arith)
        (stop_client-IsFine p.client p.world h.logs)
  Step-IsSound on_disconnect p q g (elsewhere t w l e) h =
      fine-IsSound log p t p.client w h l (same-IsFine log p.client p.world w h.logs e)

  Reach-IsSound :
      (on_disconnect : Option (W → W)) (p : Process W)
      → IsSilent log on_disconnect
      → Reach log system error_codes waiting on_disconnect p
      → IsSound log p
  Reach-IsSound on_disconnect p g (fresh p' e f) = record {
    once = λ k. rw (e, f) (omega arith);
    unused = λ k l. rw (e, f) refl;
    logs = rw e tt;
  }
  Reach-IsSound on_disconnect p g (later r t) =
      Step-IsSound on_disconnect _ p g t (Reach-IsSound on_disconnect _ g r)

  -- From a client without callbacks and an empty log, whatever order the worker of the client, its calls,
  -- `cancel` and `stop` run in: no callback runs twice, and none that has run is still stored. The number
  -- of a call stands in the map and in the log together once at most. A callback does no more to the log
  -- than put its number there, the system calls and the disconnection callback do nothing to it, and the
  -- numbers stay below 2^64.
  pub Reach-once :
      (on_disconnect : Option (W → W)) (p : Process W) (k : ℕ)
      → IsSilent log on_disconnect
      → Reach log system error_codes waiting on_disconnect p
      → held k p.client.callbacks + count k (log p.world) ≤ 1
  Reach-once on_disconnect p k g r = (Reach-IsSound on_disconnect p g r).once k
