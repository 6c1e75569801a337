-- ===== src/Windows/Client/Schedule.antt =====
-- The threads of a Windows client (source/windows/ipc-client-win.cpp) in any order: the worker, and any
-- number of calls. Each step is one that `m_lock` or `mtx` or the split into two halves of `call` allows.
use lib_streamlabs_ipc.Base.{ℕ, ◌+◌, ◌^◌, ◌≤◌, ◌<◌, ◌≡◌, Bool, Option, none, some, List, [], ok}
use lib_streamlabs_ipc.Bytes.{Bytes}
use lib_streamlabs_ipc.Value.{Value}
use lib_streamlabs_ipc.Os.{Error}
use lib_streamlabs_ipc.Osx.Client.{CallReturn}
use lib_streamlabs_ipc.Windows.Utility.{ErrorCodes}
use lib_streamlabs_ipc.Windows.Socket.{PipeSystem}
use lib_streamlabs_ipc.Windows.Client.{cancel_callback, Client, Waiting}
use lib_streamlabs_ipc.Windows.Client.Worker.{worker_pass, worker_end}
use lib_streamlabs_ipc.Windows.Client.Calls.{Begun, begin_call, end_call, stop_client}
use lib_streamlabs_ipc.Windows.Client.Once.{Logs}

-- The number of the last call, the client, and the world that the callbacks act on.
pub record Process {ℓ} (W : Type ℓ) : Type ℓ where
  pub timestamp : ℕ
  pub client : Client W
  pub world : W

module _ {ℓ} {W : Type ℓ} (log : W → List ℕ) where
  -- The callback that a call is given logs the number of the call.
  abbrev pub GivenLogs : ℕ → Option (CallReturn W) → Type ℓ
  GivenLogs uid none = Unit {ℓ}
  GivenLogs uid (some cb) = Logs log uid cb

-- What happens to the client: a call up to its wait, a call behind it, a pass of the worker, its end,
-- `cancel`, `stop`, and whatever the process does elsewhere, calls of other clients included. `timestamp`
-- does not reach its end.
pub data Step {ℓ} {W : Type ℓ} (log : W → List ℕ) (system : PipeSystem W) (error_codes : ErrorCodes)
    (waiting : Waiting W) (on_disconnect : Option (W → W)) (p : Process W)
    : Process W → Type ℓ where
  begun :
      (cname fname : Bytes) (args : List Value) (fn : Option (CallReturn W)) (cbid t : ℕ)
      (s : Client W) (b : Begun) (w : W)
      → p.timestamp + 1 < 2 ^ 64
      → GivenLogs log (p.timestamp + 1) fn
      → begin_call system error_codes p.timestamp p.client cname fname args fn cbid p.world
        ≡ ok (t, s, b, w)
      → Step log system error_codes waiting on_disconnect p
          (record { timestamp = t; client = s; world = w })
  ended :
      (b : Begun) (ec : Error)
      → Step log system error_codes waiting on_disconnect p (record {
        timestamp = p.timestamp;
        client = (end_call system b ec p.client p.world).0;
        world = (end_call system b ec p.client p.world).2;
      })
  passed :
      (more : Bool) (s : Client W) (w : W)
      → worker_pass system error_codes waiting p.client p.world ≡ ok (more, s, w)
      → Step log system error_codes waiting on_disconnect p
          (record { timestamp = p.timestamp; client = s; world = w })
  finished :
      (s : Client W) (w : W)
      → worker_end system error_codes waiting on_disconnect p.client p.world ≡ ok (s, w)
      → Step log system error_codes waiting on_disconnect p
          (record { timestamp = p.timestamp; client = s; world = w })
  cancelled :
      (id : ℕ)
      → Step log system error_codes waiting on_disconnect p (record {
        timestamp = p.timestamp;
        client = (cancel_callback p.client id).0;
        world = p.world;
      })
  stopped :
      Step log system error_codes waiting on_disconnect p
        (record { timestamp = p.timestamp; client = stop_client p.client; world = p.world })
  elsewhere :
      (t : ℕ) (w : W)
      → p.timestamp ≤ t
      → log w ≡ log p.world
      → Step log system error_codes waiting on_disconnect p
          (record { timestamp = t; client = p.client; world = w })

-- From a client whose map is empty, at any number of the last call, in a world whose log is empty.
pub data Reach {ℓ} {W : Type ℓ} (log : W → List ℕ) (system : PipeSystem W)
    (error_codes : ErrorCodes) (waiting : Waiting W) (on_disconnect : Option (W → W))
    : Process W → Type ℓ where
  fresh :
      (p : Process W)
      → p.client.callbacks ≡ []
      → log p.world ≡ []
      → Reach log system error_codes waiting on_disconnect p
  later :
      {p q : Process W}
      → Reach log system error_codes waiting on_disconnect p
      → Step log system error_codes waiting on_disconnect p q
      → Reach log system error_codes waiting on_disconnect q
