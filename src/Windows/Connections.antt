-- ===== src/Windows/Connections.antt =====
-- The interface that the watcher of `ipc::server` uses, filled by the socket of Windows
-- (source/ipc-server.cpp under `#ifdef WIN32`, source/windows/ipc-socket-win.cpp). A server has one
-- pipe here, of number 0.
pub mod Polling
pub mod Watching
use lib_streamlabs_ipc.Base.{
  ℕ, Bool, true, false, Option, none, some, Outcome, ok, ◌>>=◌, if◌then◌else◌,
}
use lib_streamlabs_ipc.Bytes.{Bytes}
use lib_streamlabs_ipc.Os.{Error, is_success}
use lib_streamlabs_ipc.Os.AsyncOp.{AsyncOp, AsyncOpCb}
use lib_streamlabs_ipc.Windows.Utility.{ErrorCodes}
use lib_streamlabs_ipc.Windows.AsyncRequest.{Overlapped, invalidate, destroy}
use lib_streamlabs_ipc.Windows.Socket.{
  Socket, PipeSystem, byte, create_socket, is_connected, accept,
}
use lib_streamlabs_ipc.Server.Clients.{Sockets}

-- What a callback has been told, if it has run.
abbrev pub Told : Type 0
Told = Option Error

module _ {ℓ} {W : Type ℓ} where
  -- The same system beside what a callback has been told.
  abbrev pub overlapped_beside : Overlapped W → Overlapped (Told × W)
  overlapped_beside overlapped = record {
    has_completed = λ (t, w). overlapped.has_completed w;
    cancel_io = λ (t, w). (let (b, w') = overlapped.cancel_io w in (b, (t, w')));
    get_result = λ (t, w). overlapped.get_result w;
  }

  abbrev pub beside : PipeSystem W → PipeSystem (Told × W)
  beside system = record {
    overlapped = overlapped_beside system.overlapped;
    client_process = λ (t, w). system.client_process w;
    client_session = λ (t, w). system.client_session w;
    server_process = λ (t, w). system.server_process w;
    server_session = λ (t, w). system.server_session w;
    peek = λ (t, w). system.peek w;
    connect = λ (t, w). (let (code, w') = system.connect w in (code, (t, w')));
    read_file = λ n (t, w). (let (b, code, w') = system.read_file n w in (b, code, (t, w')));
    write_file = λ bs (t, w). (let (b, code, w') = system.write_file bs w in (b, code, (t, w')));
    create_pipe = λ name n type mode unique (t, w).
        (let (b, w') = system.create_pipe name n type mode unique w in (b, (t, w')));
    open_pipe = λ name (t, w). (let (b, w') = system.open_pipe name w in (b, (t, w')));
    set_read_mode = λ mode (t, w). (let (b, w') = system.set_read_mode mode w in (b, (t, w')));
  }

  -- What `pending_accept::accept_client_cb` is told. What it does then is accept_client_cb of
  -- Server.Clients, and `op->invalidate()`.
  abbrev pub note_status : AsyncOpCb (Socket × (Told × W))
  note_status ec n (s, (t, w)) = (s, (some ec, w))

module _ {ℓ} {W : Type ℓ} (system : PipeSystem W) (error_codes : ErrorCodes) where
  -- The operation of a `pending_accept` goes with it, unless that is kept in `pa_map`.
  unfoldable pub release_accept {κ} : {F : Type κ} → Bool → Option (AsyncOp F) → W → W
  unfolding destroy
  release_accept true op w = w
  release_accept false none w = w
  release_accept false (some op) w = destroy system.overlapped op w

  unfoldable pub accept_pipe : ℕ → Socket × W → Outcome (Error × Told × (Socket × W))
  unfolding accept release_accept
  accept_pipe socket (s, w) = do
    (op, ec, (s', (told, w'))) ←
        accept (beside system) error_codes none invalidate note_status (s, (none, w))
    let released = release_accept (is_success ec) op w'
    ok (ec, told, (s', released))

  unfoldable pub pipe_sockets : Sockets (Socket × W)
  unfolding accept_pipe create_socket is_connected
  pipe_sockets = record {
    create = λ path (s, w). (do
      (s', w') ← create_socket system path 255 byte byte true w
      ok (0, (s', w')));
    is_connected = λ socket (s, w). (let (b, s') = is_connected system s w in (b, (s', w)));
    accept = accept_pipe;
  }
