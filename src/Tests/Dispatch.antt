-- ===== src/Tests/Dispatch.antt =====
-- The registry, the dispatch and the connections: ipc-class.cpp and ipc-server.cpp.
use lib_streamlabs_ipc.Base.{
  ℕ, ◌+◌, ◌≡◌, ◌≢◌, ◌↔◌, refl, true, false, none, some, [], ◌∷◌, codes, All, arith, ok, Ensures,
}
use lib_streamlabs_ipc.Map.{find, insert, contains, bytes_key, bytes_eq, int64_key}
use lib_streamlabs_ipc.Value.{uint64_value, string}
use lib_streamlabs_ipc.Functions.{Function, make_function, get_name, call}
use lib_streamlabs_ipc.Collections.{
  Collection, make_collection, register_function, get_function, search, c_str,
  get_function-register_function,
}
use lib_streamlabs_ipc.Server.{Registry, CallResult, register_collection, client_call_function}
use lib_streamlabs_ipc.Server.Dispatch.{
  registered, registered-register, client_call_function_outcome,
}
use lib_streamlabs_ipc.Server.Clients.{Instances, Sockets, Server, watch_pass}
use lib_streamlabs_ipc.Server.Clients.Lifecycle.{Gains, watch_pass-Gains}
use lib_streamlabs_ipc.Os.{connected}

-- The application counts the calls; `echo` returns its arguments.
abbrev pub echo : Function ℕ
echo =
    make_function (codes "echo") (string ∷ []) (some (λ user_data id args rval w. (args, w + 1))) 0

abbrev sample_class : Collection ℕ
sample_class = (register_function (make_collection (codes "C")) echo).0

abbrev pub sample_registry : Registry ℕ
sample_registry = record {
  classes = (codes "C", sample_class) ∷ [];
  pre_callback = none;
  post_callback = some (λ cname fname vs w. w + 10);
}

abbrev empty_registry : Registry ℕ
empty_registry = record { classes = []; pre_callback = none; post_callback = none }

abbrev echoed : CallResult ℕ
echoed =
    client_call_function sample_registry 0 (codes "C") (codes "echo") (uint64_value 7 ∷ []) [] [] 0

echoed_test : (echoed.success ≡ true) × (echoed.rval ≡ uint64_value 7 ∷ []) × (echoed.world ≡ 11)
unfolding client_call_function find bytes_eq get_function search register_function contains
    make_collection insert get_name make_function c_str call
echoed_test = (refl, refl, refl)

client_call_function_outcome_example :
    ((echoed.success ≡ true)
      ↔ ((fnc : Function ℕ) × (registered sample_registry (codes "C") (codes "echo") ≡ some fnc)))
    × (echoed.success ≡ false → (echoed.world ≡ 0) × (echoed.rval ≡ []) × (echoed.errormsg ≢ []))
    × (echoed.success ≡ true → echoed.errormsg ≡ [])
client_call_function_outcome_example =
    client_call_function_outcome sample_registry 0 (codes "C") (codes "echo") (uint64_value 7 ∷ [])
      [] [] 0

echo-IsText : All (λ b. b ≢ 0) (codes "echo")
echo-IsText = (omega arith, (omega arith, (omega arith, (omega arith, tt))))

registered-register_example :
    registered
      (register_collection empty_registry
        (register_function (make_collection (codes "C")) echo).0).0
      (codes "C")
      (codes "echo")
    ≡ some echo
unfolding make_collection make_function get_name contains
registered-register_example =
    registered-register empty_registry (make_collection (codes "C")) echo refl echo-IsText refl

get_function-register_function_example :
    ((register_function (make_collection (codes "C")) echo).1 ≡ true)
    × (get_function (register_function (make_collection (codes "C")) echo).0 (codes "echo")
        ≡ some echo)
unfolding make_collection make_function get_name c_str bytes_eq contains
get_function-register_function_example =
    get_function-register_function (make_collection (codes "C")) echo (codes "echo") refl

-- Instances without a state; the application counts those that are alive.
abbrev counted : Instances ℕ ℕ
counted = record { create = λ socket timeout w. (socket, w + 1); destroy = λ i w. ok w }

abbrev open_sockets : Sockets ℕ
open_sockets = record {
  create = λ name w. ok (w, w);
  is_connected = λ socket w. (true, w);
  accept = λ socket w. ok (connected, some connected, w);
}

abbrev sample_server : Server ℕ ℕ
sample_server = record {
  is_initialized = true;
  sockets = 3 ∷ 4 ∷ [];
  socket_path = codes "pipe";
  call_timeout = 0;
  clients = (3, 3) ∷ (4, 4) ∷ [];
  handler_connect = none;
  handler_disconnect = some (λ w. w + 1);
  stop = false;
}

watch_pass-Gains_example :
    Ensures
      (Gains counted open_sockets (5 ∷ 3 ∷ []) sample_server.clients)
      (watch_pass counted open_sockets (5 ∷ 3 ∷ []) sample_server [] 0)
watch_pass-Gains_example =
    watch_pass-Gains counted open_sockets
      (record { stays = λ socket w. refl; w_after = λ socket w. w; accepts = λ socket w. refl })
      (5 ∷ 3 ∷ []) sample_server 0
