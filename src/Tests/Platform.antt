-- ===== src/Tests/Platform.antt =====
-- Sockets over pipes, asynchronous operations and waiting: ipc-socket-osx.cpp, async_request.cpp and
-- windows/waitable.cpp.
use lib_streamlabs_ipc.Base.{
  ℕ, ◌+◌, ◌≡◌, refl, Bool, true, false, Option, none, some, [], ◌∷◌, ◌++◌, length, codes, replicate,
  length-replicate, if◌then◌else◌, ok, inl,
}
use lib_streamlabs_ipc.Bytes.{Bytes}
use lib_streamlabs_ipc.Os.{success, connected}
use lib_streamlabs_ipc.Os.AsyncOp.{AsyncOp, AsyncOpCb, new_op}
use lib_streamlabs_ipc.Osx.Channel.{reply, request}
use lib_streamlabs_ipc.Osx.Client.{Run, blocked, came_to}
use lib_streamlabs_ipc.Osx.Socket.{accept, System, Socket, read, write, pipe_name}
use lib_streamlabs_ipc.Osx.Socket.Accepting.{accept-connects}
use lib_streamlabs_ipc.Osx.Socket.Transfer.{Accepts, write-contents, read_blocked}
use lib_streamlabs_ipc.Windows.Waitable.{wait_object, wait_any, wait_any-after_null}

-- One pipe: a read of an empty one waits.
abbrev take_all : Bytes → Run (Option Bytes × Bytes)
take_all [] = blocked
take_all (b ∷ bs) = came_to (ok (some (b ∷ bs), []))

abbrev pipe : System Bytes
pipe = record {
  open_pipe = λ name mode w. (some 5, w);
  close = λ fd w. w;
  read = λ fd n w. take_all w;
  write = λ fd bs w. (some (length bs), w ++ bs);
  remove = λ name w. w;
  mkfifo = λ name w. (true, w);
}

abbrev client_socket : Socket
client_socket = record {
  created = false;
  name_req = codes "p-req";
  name_rep = codes "p-rep";
  fd_write = none;
  fd_read_b = none;
  fd_read_nb = none;
}

abbrev pipe-Accepts : Accepts pipe (pipe_name client_socket request)
pipe-Accepts = record {
  contents = λ w. w;
  fd = 5;
  opens = λ w. (w, refl, refl);
  closes = λ n w. refl;
  writes = λ bs w. (w ++ bs, refl, refl);
}

write-contents_example :
    ((write pipe client_socket (1 ∷ 2 ∷ []) request (9 ∷ [])).1 ≡ success)
    × ((write pipe client_socket (1 ∷ 2 ∷ []) request (9 ∷ [])).2 ≡ 9 ∷ 1 ∷ 2 ∷ [])
write-contents_example =
    write-contents pipe client_socket request pipe-Accepts (1 ∷ 2 ∷ []) (9 ∷ [])

-- A pipe whose first read gives a full chunk but for the length; the state says whether it is empty. Its
-- descriptors do not block.
abbrev chunk_pipe : System Bool
chunk_pipe = record {
  open_pipe = λ name mode w. (some 5, w);
  close = λ fd w. w;
  read = λ fd n w. came_to (ok (if w then none else some (replicate 8184 0), true));
  write = λ fd bs w. (none, w);
  remove = λ name w. w;
  mkfifo = λ name w. (true, w);
}

read_blocked_example :
    read chunk_pipe 7 9 client_socket (replicate 8184 0) false reply false ≡ blocked
read_blocked_example =
    read_blocked chunk_pipe 7 9 5 client_socket (replicate 8184 0) (replicate 8184 0) reply false
      false true refl refl (inl (length-replicate {A = ℕ} 8184 0)) refl

abbrev counting_op : AsyncOp (AsyncOpCb ℕ)
counting_op = record new_op {
  callback = some (λ ec n w. w + n);
  system_callback = some (λ ec n w. w + 100);
}

wait_any-after_null_example :
    wait_any {W = ℕ} (λ hs ms n. wait_object 0) (λ item w. w) 1 (some (none ∷ some 6 ∷ [])) 20 0
    ≡ came_to (ok (success, some 0, 0))
wait_any-after_null_example =
    wait_any-after_null (λ hs ms n. wait_object 0) (λ item w. w) 0 20 6 0 refl

abbrev created_socket : Socket
created_socket = record client_socket { created = true }

accept-connects_example :
    (ar : AsyncOp (AsyncOpCb (Bool × ℕ))) × (accept created_socket
        (some new_op)
        (λ ec n (c, w). (c, w + 1))
        (false, 5)
      ≡ ok (some ar, connected, (true, 6)))
accept-connects_example =
    accept-connects created_socket (some new_op) (λ ec n (c, w). (c, w + 1)) false 5 refl
