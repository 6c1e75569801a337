-- ===== src/Server/Clients.antt =====
-- The connections of `ipc::server` (source/ipc-server.cpp): the list of sockets, the instance behind
-- each connected one, and the watcher. The instances and the sockets are those of the platform, and
-- come in by the two interfaces. A `std::shared_ptr` to a socket is its number.
pub mod Lifecycle
pub mod Schedule
pub mod Balance
use lib_streamlabs_ipc.Base.{
  ℕ, zero, suc, ◌+◌, ◌%◌, ◌^◌, Bool, true, false, not, Option, none, some, List, [], ◌∷◌, ◌++◌,
  length, if◌then◌else◌, Outcome, ok, throws, aborts, undefined, ◌>>=◌,
}
use lib_streamlabs_ipc.Bytes.{Bytes}
use lib_streamlabs_ipc.Map.{Map, find, contains, insert_or_assign, erase, int64_key}
use lib_streamlabs_ipc.Os.{Error, connected, is_success}

-- `ipc::server_instance`: `create(parent, socket, m_callTimeout)`, and the destructor.
pub record Instances {ℓ} (W I : Type ℓ) : Type ℓ where
  pub create : ℕ → ℕ → W → I × W
  pub destroy : I → W → Outcome W

-- `ipc::socket`: the constructor that `initialize` calls; `is_connected`; and `accept`, with the
-- status that it returns and the one it has run its callback with before, if it has.
pub record Sockets {ℓ} (W : Type ℓ) : Type ℓ where
  pub create : Bytes → W → Outcome (ℕ × W)
  pub is_connected : ℕ → W → Bool × W
  pub accept : ℕ → W → Outcome (Error × Option Error × W)

-- The handlers are functions on `W`, with the user's pointer and the number 0 put in.
pub record Server {ℓ} (W I : Type ℓ) : Type ℓ where
  pub is_initialized : Bool
  pub sockets : List ℕ
  pub socket_path : Bytes
  pub call_timeout : ℕ
  pub clients : Map ℕ I
  pub handler_connect : Option (W → W)
  pub handler_disconnect : Option (W → W)
  pub stop : Bool

abbrev pub notify {ℓ} : {W : Type ℓ} → Option (W → W) → W → W
notify none w = w
notify (some handler) w = handler w

module _ {ℓ} {W I : Type ℓ} where
  unfoldable pub new_server : Server W I
  new_server = record {
    is_initialized = false;
    sockets = [];
    socket_path = [];
    call_timeout = 0;
    clients = [];
    handler_connect = none;
    handler_disconnect = none;
    stop = false;
  }

  unfoldable pub set_call_timeout : Server W I → ℕ → Server W I
  set_call_timeout s timeout = record s { call_timeout = timeout }

  unfoldable pub set_connect_handler : Server W I → Option (W → W) → Server W I
  set_connect_handler s handler = record s { handler_connect = handler }

  unfoldable pub set_disconnect_handler : Server W I → Option (W → W) → Server W I
  set_disconnect_handler s handler = record s { handler_disconnect = handler }

module _ {ℓ} {W I : Type ℓ} (instances : Instances W I) where
  -- The entry that an assignment or `erase` drops is destroyed, if there is one.
  abbrev pub destroy_entry : Option I → W → Outcome W
  destroy_entry none w = ok w
  destroy_entry (some i) w = instances.destroy i w

  unfoldable pub spawn_client : ℕ → Server W I → W → Outcome (Server W I × W)
  spawn_client socket s w = do
    let (client, w1) = instances.create socket s.call_timeout w
    w2 ← destroy_entry (find socket s.clients) (notify s.handler_connect w1)
    ok (record s { clients = insert_or_assign socket client s.clients }, w2)

  unfoldable pub kill_client : ℕ → Server W I → W → Outcome (Server W I × W)
  kill_client socket s w = do
    w1 ← destroy_entry (find socket s.clients) w
    ok (record s { clients = erase socket s.clients }, notify s.handler_disconnect w1)

  -- `while (m_clients.size() > 0)`; `none` where the fuel is out.
  unfoldable pub kill_all : ℕ → Server W I → W → Outcome (Option (Server W I × W))
  unfolding kill_client
  kill_all zero s w = elim s.clients [ [] ↦ ok (some (s, w)) | c ∷ cs ↦ ok none ]
  kill_all (suc fuel) s w = elim s.clients [
    | [] ↦ ok (some (s, w))
    | c ∷ cs ↦ (do (s', w') ← kill_client c.0 s w; kill_all fuel s' w')
  ]

  abbrev pub clear_sockets : Option (Server W I × W) → Option (Server W I × W)
  clear_sockets none = none
  clear_sockets (some (s, w)) = some (record s { sockets = [] }, w)

  unfoldable pub finalize : Server W I → W → Outcome (Option (Server W I × W))
  unfolding kill_all
  finalize s w =
      if not s.is_initialized
      then ok (some (s, w))
      else do r ← kill_all (length s.clients) s w; ok (clear_sockets r)

  abbrev pub stop_watcher : Option (Server W I × W) → Option (Server W I × W)
  stop_watcher none = none
  stop_watcher (some (s, w)) = some (record s { stop = true }, w)

  unfoldable pub destroy_server : Server W I → W → Outcome (Option (Server W I × W))
  unfolding finalize
  destroy_server s w = do r ← finalize s w; ok (stop_watcher r)

module _ {ℓ} {W I : Type ℓ} (instances : Instances W I) (platform : Sockets W) where
  -- What the constructor of the socket throws is thrown on.
  unfoldable pub initialize : Bytes → Server W I → W → Outcome (Server W I × W)
  initialize path s w = do
    (socket, w1) ← platform.create path w
    ok (
      record s { sockets = s.sockets ++ (socket ∷ []); is_initialized = true; socket_path = path },
      w1,
    )

  -- `pending_accept::accept_client_cb`, where it has been called. What it does on Windows only,
  -- `op->invalidate()`, is a part of accept_pipe in Windows.Connections.
  unfoldable pub accept_client_cb : ℕ → Option Error → Server W I → W → Outcome (Server W I × W)
  unfolding spawn_client
  accept_client_cb socket none s w = ok (s, w)
  accept_client_cb socket (some connected) s w = spawn_client instances socket s w
  accept_client_cb socket (some _) s w = ok (s, w)

  -- A socket without a client, and not waiting for one: `pending` is `pa_map`, without what it keeps
  -- for a socket.
  unfoldable pub accept_socket : ℕ → Server W I → Map ℕ ℕ → W → Outcome (Server W I × Map ℕ ℕ × W)
  unfolding accept_client_cb
  accept_socket socket s pending w = do
    (ec, called, w1) ← platform.accept socket w
    (s', w2) ← accept_client_cb socket called s w1
    ok (s', if is_success ec then insert_or_assign socket socket pending else pending, w2)

  unfoldable pub watch_socket : ℕ → Server W I → Map ℕ ℕ → W → Outcome (Server W I × Map ℕ ℕ × W)
  unfolding kill_client accept_socket
  watch_socket socket s pending w =
      let accepted = accept_socket socket s pending w in
      let (alive, w1) = platform.is_connected socket w in
      let killed = (do (s', w') ← kill_client instances socket s w1; ok (s', pending, w')) in
      if contains socket s.clients
      then (if not alive then killed else ok (s, pending, w1))
      else (if contains socket pending then ok (s, pending, w) else accepted)

  -- One pass of the watcher over the sockets.
  unfoldable pub watch_pass : List ℕ → Server W I → Map ℕ ℕ → W → Outcome (Server W I × Map ℕ ℕ × W)
  unfolding watch_socket
  watch_pass [] s pending w = ok (s, pending, w)
  watch_pass (socket ∷ sockets) s pending w = do
    (s', pending', w') ← watch_socket socket s pending w
    watch_pass sockets s' pending' w'

  -- The loop of `watcher`, as many rounds as there are entries: each is what other threads do to the
  -- world behind the pass, in the 20 ms that it sleeps for or, with sockets pending, at once. No code
  -- waits for the pending ones.
  unfoldable pub watcher :
      List (W → W) → Server W I → Map ℕ ℕ → W → Outcome (Server W I × Map ℕ ℕ × W)
  unfolding watch_pass
  watcher [] s pending w = ok (s, pending, w)
  watcher (meanwhile ∷ rounds) s pending w = if s.stop then ok (s, pending, w) else do
    (s', pending', w') ← watch_pass s.sockets s pending w
    watcher rounds s' pending' (meanwhile w')
