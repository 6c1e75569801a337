-- ===== src/Windows/Socket.antt =====
-- `os::windows::socket_win` (source/windows/ipc-socket-win.cpp) over the system calls, which are
-- parameters. A process or a session is `none` where the query fails.
pub mod Peer
use lib_streamlabs_ipc.Base.{
  ℕ, ◌+◌, ◌-◌, ◌*◌, Bool, true, false, ◌||◌, ◌&&◌, not, Option, none, some, List, [], ◌∷◌, ◌++◌,
  map, length, codes, if◌then◌else◌, ltb, leb, ◌==◌, Outcome, ok, throws, ◌>>=◌,
}
use lib_streamlabs_ipc.Bytes.{Bytes}
use lib_streamlabs_ipc.Os.{Error, success, error, connected, pending, disconnected}
use lib_streamlabs_ipc.Os.AsyncOp.{
  AsyncOp, AsyncOpCb, op_or_new, set_callback, set_system_callback, call_callback,
}
use lib_streamlabs_ipc.Windows.Utility.{ErrorCodes, translate_error}
use lib_streamlabs_ipc.Windows.AsyncRequest.{
  Overlapped, prepare, is_complete, set_valid, due, set_handle,
}

-- `pipe_type` and `pipe_read_mode`
pub data PipeMode : Type 0 where
  byte message : PipeMode

-- `remoteId`
pub record RemoteId : Type 0 where
  pub session_id : ℕ
  pub process_id : ℕ

pub record Socket : Type 0 where
  pub created : Bool
  pub remote_id : RemoteId

-- The calls on the handle of a pipe. `connect`, `read_file` and `write_file` return the last error;
-- the latter two also whether they have started. `create_pipe` and `open_pipe` say whether they
-- succeed.
pub record PipeSystem {ℓ} (W : Type ℓ) : Type ℓ where
  pub overlapped : Overlapped W
  pub client_process : W → Option ℕ
  pub client_session : W → Option ℕ
  pub server_process : W → Option ℕ
  pub server_session : W → Option ℕ
  pub peek : W → Bool
  pub connect : W → ℕ × W
  pub read_file : ℕ → W → Bool × ℕ × W
  pub write_file : Bytes → W → Bool × ℕ × W
  pub create_pipe : Bytes → ℕ → PipeMode → PipeMode → Bool → W → Bool × W
  pub open_pipe : Bytes → W → Bool × W
  pub set_read_mode : PipeMode → W → Bool × W

-- `MAX_PATH` is 260.
abbrev pub max_path_minus_prefix : ℕ
max_path_minus_prefix = 251

abbrev pub pipe_unlimited_instances : ℕ
pipe_unlimited_instances = 255

unfoldable pub validate_open_param : Bytes → Outcome (Unit {0})
validate_open_param name =
    if length name == 0
    then throws
    else if leb max_path_minus_prefix (length name)
    then throws
    else ok tt

unfoldable pub validate_create_param : Bytes → ℕ → Outcome (Unit {0})
validate_create_param name max_instances =
    if length name == 0
    then throws
    else if leb max_path_minus_prefix (length name)
    then throws
    else if max_instances == 0
    then throws
    else if ltb pipe_unlimited_instances max_instances
    then throws
    else ok tt

-- A backslash is 92, a slash is 47.
abbrev pub slashed : ℕ → ℕ
slashed v = if v == 92 then 47 else v

unfoldable pub make_windows_compatible : Bytes → Bytes
make_windows_compatible name = 92 ∷ 92 ∷ 46 ∷ 92 ∷ (codes "pipe" ++ (92 ∷ map slashed name))

unfoldable pub new_socket : Socket
new_socket = record { created = false; remote_id = record { session_id = 0; process_id = 0 } }

module _ {ℓ} {W : Type ℓ} (system : PipeSystem W) where
  unfoldable pub create_logic : Bytes → ℕ → PipeMode → PipeMode → Bool → W → Outcome W
  create_logic name max_instances type mode is_unique w =
      let (good, w1) = system.create_pipe name max_instances type mode is_unique w in
      if good then ok w1 else throws

  unfoldable pub open_logic : Bytes → PipeMode → W → Outcome W
  open_logic name mode w =
      let (opened, w1) = system.open_pipe name w in
      let (changed, w2) = system.set_read_mode mode w1 in
      if not opened then throws else if changed then ok w2 else throws

  -- The queries in their order; the session is asked for only behind a process.
  abbrev pub peer_process : Socket → W → Option ℕ
  peer_process s w = if s.created then system.client_process w else system.server_process w

  abbrev pub peer_session : Socket → W → Option ℕ
  peer_session s w = if s.created then system.client_session w else system.server_session w

  unfoldable pub set_connected : Bool → Socket → W → Socket
  set_connected false s w = record s { remote_id = record { session_id = 0; process_id = 0 } }
  set_connected true s w = elim (peer_process s w) [
    | none ↦ s
    | some process ↦ elim (peer_session s w) [
      | none ↦ s
      | some session ↦ record s {
        remote_id = record { session_id = session; process_id = process };
      }
    ]
  ]

  -- The comparison with the peer that was connected.
  unfoldable pub compare_peer : ℕ → ℕ → Socket → W → Bool × Socket
  compare_peer process session s w =
      let forgotten = record s { remote_id = record { session_id = 0; process_id = 0 } } in
      if not (process == s.remote_id.process_id) || process == 0
      then (false, forgotten)
      else if not (session == s.remote_id.session_id) || session == 0
      then (false, forgotten)
      else if not (system.peek w)
      then (false, s)
      else (true, record s { remote_id = record { session_id = session; process_id = process } })

  unfoldable pub is_connected : Socket → W → Bool × Socket
  unfolding compare_peer
  is_connected s w = elim (peer_process s w) [
    | none ↦ (false, s)
    | some process ↦ elim (peer_session s w) [
      | none ↦ (false, s)
      | some session ↦ compare_peer process session s w
    ]
  ]

  unfoldable pub create_socket : Bytes → ℕ → PipeMode → PipeMode → Bool → W → Outcome (Socket × W)
  unfolding validate_create_param create_logic make_windows_compatible new_socket
  create_socket name max_instances type mode is_unique w = do
    checked ← validate_create_param name max_instances
    w1 ←
        create_logic (make_windows_compatible (name ++ (0 ∷ []))) max_instances type mode is_unique
          w
    ok (record new_socket { created = true }, w1)

  unfoldable pub open_socket : Bytes → PipeMode → W → Outcome (Socket × W)
  unfolding validate_open_param open_logic make_windows_compatible new_socket set_connected
  open_socket name mode w = do
    checked ← validate_open_param name
    w1 ← open_logic (make_windows_compatible (name ++ (0 ∷ []))) mode w
    ok (set_connected true new_socket w1, w1)

  -- The callbacks of `accept` work on the socket and the world.
  unfoldable pub handle_accept_callback : AsyncOpCb (Socket × W)
  unfolding set_connected
  handle_accept_callback connected n (s, w) = (set_connected true s w, w)
  handle_accept_callback success n (s, w) = (set_connected true s w, w)
  handle_accept_callback _ n (s, w) = (set_connected false s w, w)

  -- `call_callback` of an operation whose callback also does `touch` to the operation itself, which it
  -- reaches by a pointer of its own.
  unfoldable pub call_touching :
      (AsyncOp (AsyncOpCb (Socket × W)) → AsyncOp (AsyncOpCb (Socket × W)))
      → Error
      → AsyncOp (AsyncOpCb (Socket × W))
      → Socket × W
      → AsyncOp (AsyncOpCb (Socket × W)) × (Socket × W)
  call_touching touch ec ar st =
      let (ar', st') = call_callback ec 0 ar st in
      (if ar.callback_called then ar' else touch ar', st')

  -- What `accept` does with the status of `ConnectNamedPipe`. The `cancel` behind the callback finds
  -- an operation that is not valid: `set_handle` has seen to it, and no callback makes one valid.
  unfoldable pub settle_accept :
      (AsyncOp (AsyncOpCb (Socket × W)) → AsyncOp (AsyncOpCb (Socket × W)))
      → Error
      → AsyncOp (AsyncOpCb (Socket × W))
      → Socket × W
      → AsyncOp (AsyncOpCb (Socket × W)) × (Socket × W)
  unfolding set_valid call_touching
  settle_accept touch pending ar st = (set_valid true ar, st)
  settle_accept touch connected ar st = call_touching touch connected (set_valid true ar) st
  settle_accept touch ec ar st = call_touching touch ec ar st

  -- The callback is what it does to the operation and what it does to the rest.
  unfoldable pub accept :
      ErrorCodes
      → Option (AsyncOp (AsyncOpCb (Socket × W)))
      → (AsyncOp (AsyncOpCb (Socket × W)) → AsyncOp (AsyncOpCb (Socket × W)))
      → AsyncOpCb (Socket × W)
      → Socket × W
      → Outcome (Option (AsyncOp (AsyncOpCb (Socket × W))) × Error × (Socket × W))
  unfolding handle_accept_callback settle_accept is_complete set_handle
  accept codes op touch cb (s, w) = if not s.created then ok (op, error, (s, w)) else do
    let ar = op_or_new op
    ar1 ← set_callback (is_complete system.overlapped ar w) (some cb) ar
    ar2 ←
        set_system_callback (is_complete system.overlapped ar1 w) (some handle_accept_callback) ar1
    let (code, w1) = system.connect w
    let ec = translate_error codes code
    let (ar3, st) = settle_accept touch ec (set_handle ar2) (s, w1)
    ok (some ar3, ec, st)

-- What `read` and `write` leave: the operation, the callback that they run with the status and the
-- length before they return, behind which they cancel the operation, and the status.
pub record Started {ℓ κ} (F : Type ℓ) (W : Type κ) : Type (ℓ ⊔ κ) where
  pub socket : Socket
  pub op : Option (AsyncOp F)
  pub callback : Option F
  pub status : Error
  pub world : W

module _ {ℓ κ} {F : Type ℓ} {W : Type κ} (system : PipeSystem W) (codes : ErrorCodes) where
  unfoldable pub settle_io : Socket → AsyncOp F → Bool × ℕ × W → Started F W
  unfolding due set_valid
  settle_io s ar (started, code, w) =
      let ec = translate_error codes code in
      if started
      then record {
        socket = s;
        op = some (set_valid true ar);
        callback = none;
        status = ec;
        world = w;
      }
      else record {
        socket = s;
        op = some (due ar).1;
        callback = (due ar).0;
        status = ec;
        world = w;
      }

  unfoldable pub read : ℕ → Option (AsyncOp F) → Option F → Socket → W → Outcome (Started F W)
  unfolding is_connected settle_io prepare
  read buffer_length op cb s w =
      let (alive, s') = is_connected system s w in
      if not alive
      then ok (record { socket = s'; op = op; callback = none; status = disconnected; world = w })
      else do
        ar ← prepare system.overlapped cb op w
        ok (settle_io s' ar (system.read_file buffer_length w))

  unfoldable pub write : Bytes → Option (AsyncOp F) → Option F → Socket → W → Outcome (Started F W)
  unfolding is_connected settle_io prepare
  write buffer op cb s w =
      let (alive, s') = is_connected system s w in
      if not alive
      then ok (record { socket = s'; op = op; callback = none; status = disconnected; world = w })
      else do
        ar ← prepare system.overlapped cb op w
        ok (settle_io s' ar (system.write_file buffer w))
