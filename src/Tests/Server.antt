-- ===== src/Tests/Server.antt =====
-- The life of a server: ipc-server.cpp.
use lib_streamlabs_ipc.Base.{
  ◌==◌, if◌then◌else◌, ℕ, ◌+◌, ◌≤◌, ◌≡◌, refl, true, false, none, some, List, [], ◌∷◌, length,
  codes, ok, Ensures,
}
use lib_streamlabs_ipc.Map.{int64_key, contains, find, insert_or_assign}
use lib_streamlabs_ipc.Map.Held.{held, count}
use lib_streamlabs_ipc.Os.{connected, is_success}
use lib_streamlabs_ipc.Server.Clients.{
  Instances, Sockets, Server, new_server, set_connect_handler, set_disconnect_handler, initialize,
  destroy_server, watch_pass, watcher,
}
use lib_streamlabs_ipc.Windows.Utility.{translate_error}
use lib_streamlabs_ipc.Windows.Socket.{Socket, PipeSystem}
use lib_streamlabs_ipc.Windows.Connections.{pipe_sockets}
use lib_streamlabs_ipc.Windows.Connections.Watching.{
  Comes, now, missed, beside_socket, watcher-connects,
}
use lib_streamlabs_ipc.Tests.Windows.{win_codes}
use lib_streamlabs_ipc.Server.Clients.Schedule.{
  Running, IsApart, initialized, watched, Reach, fresh, later,
}
use lib_streamlabs_ipc.Server.Clients.Balance.Steps.{Reach-balanced, destroy_server-closes}

-- The world counts the instances that have been created and those that have been destroyed.
abbrev World : Type 0
World = ℕ × ℕ

abbrev created : World → ℕ
created w = w.0

abbrev destroyed : World → ℕ
destroyed w = w.1

abbrev instances : Instances World ℕ
instances = record {
  create = λ socket timeout (c, d). (socket, (c + 1, d));
  destroy = λ i (c, d). ok (c, d + 1);
}

-- One socket, of number 7, that connects at once.
abbrev platform : Sockets World
platform = record {
  create = λ path w. ok (7, w);
  is_connected = λ socket w. (true, w);
  accept = λ socket w. ok (connected, some connected, w);
}

abbrev pipe_name : List ℕ
pipe_name = codes "pipe"

abbrev server_of : List ℕ → List (ℕ × ℕ) → Server World ℕ
server_of sockets clients = record {
  is_initialized = true;
  sockets = sockets;
  socket_path = pipe_name;
  call_timeout = 0;
  clients = clients;
  handler_connect = none;
  handler_disconnect = none;
  stop = false;
}

abbrev running : Running World ℕ
running = record { server = server_of (7 ∷ []) ((7, 7) ∷ []); pending = []; world = (1, 0) }

running-Reach : Reach instances platform created destroyed running
unfolding new_server set_connect_handler set_disconnect_handler initialize watch_pass contains find
    insert_or_assign is_success
running-Reach =
    later
      (later (fresh none none (0, 0) (λ socket timeout w. (refl, refl)) (λ i w. (refl, refl)) refl)
        (initialized pipe_name (server_of (7 ∷ []) []) (0, 0) refl))
      (watched (server_of (7 ∷ []) ((7, 7) ∷ [])) [] (1, 0) refl refl)

sockets-IsApart : IsApart platform created destroyed
sockets-IsApart = record {
  create_agrees = λ path w. (refl, refl);
  is_connected_agrees = λ socket w. (refl, refl);
  accept_agrees = λ socket w. (refl, refl);
}

Reach-balanced_example :
    (created running.world ≡ destroyed running.world + length running.server.clients)
    × ((k : ℕ)
        → (held k running.server.clients ≤ 1)
          × (held k running.server.clients ≤ count k running.server.sockets))
Reach-balanced_example =
    Reach-balanced instances platform created destroyed sockets-IsApart running running-Reach

destroy_server-closes_example :
    Ensures
      (λ r.
        (q : Server World ℕ × World) × (r ≡ some q)
        × (created q.1 ≡ destroyed q.1)
        × (q.0.clients ≡ [])
        × (q.0.sockets ≡ []))
      (destroy_server instances running.server running.world)
destroy_server-closes_example =
    destroy_server-closes instances platform created destroyed sockets-IsApart running running-Reach

-- A Windows pipe whose peer connects when the world has reached 1.
abbrev late_pipe : PipeSystem ℕ
late_pipe = record {
  overlapped = record {
    has_completed = λ w. false;
    cancel_io = λ w. (true, w);
    get_result = λ w. (0, 8);
  };
  client_process = λ w. some 7;
  client_session = λ w. some 1;
  server_process = λ w. some 7;
  server_session = λ w. some 1;
  peek = λ w. true;
  connect = λ w. ((if w == 0 then 997 else 535), w);
  read_file = λ n w. (true, 997, w);
  write_file = λ b w. (true, 997, w);
  create_pipe = λ name n t m u w. (true, w);
  open_pipe = λ name w. (true, w);
  set_read_mode = λ m w. (true, w);
}

abbrev pipe_instances : Instances (Socket × ℕ) ℕ
pipe_instances = record { create = λ socket timeout w. (socket, w); destroy = λ i w. ok w }

abbrev created_pipe : Socket
created_pipe = record { created = true; remote_id = record { session_id = 0; process_id = 0 } }

abbrev pipe_server : Server (Socket × ℕ) ℕ
pipe_server = record {
  is_initialized = true;
  sockets = 0 ∷ [];
  socket_path = pipe_name;
  call_timeout = 0;
  clients = [];
  handler_connect = none;
  handler_disconnect = none;
  stop = false;
}

abbrev two_rounds : List (ℕ → ℕ)
two_rounds = (λ w. w + 1) ∷ (λ w. w) ∷ []

late-Comes : Comes late_pipe win_codes two_rounds 0
unfolding translate_error
late-Comes = missed (λ w. w + 1) ((λ w. w) ∷ []) 0 refl (now (λ w. w) 1 refl)

watcher-connects_example :
    (r : _) × (watcher pipe_instances
        (pipe_sockets late_pipe win_codes)
        (beside_socket pipe_instances late_pipe win_codes two_rounds)
        pipe_server
        []
        (created_pipe, 0)
      ≡ ok r)
    × (contains 0 r.0.clients ≡ true)
unfolding contains
watcher-connects_example =
    watcher-connects pipe_instances late_pipe win_codes two_rounds pipe_server [] created_pipe 0
      refl refl refl refl refl late-Comes
