-- ===== src/Osx/Socket.antt =====
-- `os::apple::socket_osx` (source/apple/ipc-socket-osx.cpp) over the system calls, which are
-- parameters. A descriptor is `none` where the code has a negative number. Buffers are below 2 ^ 31
-- bytes, as the `int` counters of the code are.
pub mod Accepting
pub mod Transfer
use lib_streamlabs_ipc.Base.{
  ℕ, zero, suc, ◌+◌, ◌-◌, Bool, true, false, ◌||◌, not, Option, none, some, List, [], ◌∷◌, ◌++◌,
  length, take, drop, codes, replicate, if◌then◌else◌, ltb, leb, ◌==◌, Outcome, ok, throws, aborts,
  undefined, ◌>>=◌,
}
use lib_streamlabs_ipc.Bytes.{Bytes, splice}
use lib_streamlabs_ipc.Os.{Error, success, error, connected}
use lib_streamlabs_ipc.Os.AsyncOp.{
  AsyncOp, AsyncOpCb, op_or_new, is_complete, set_callback, set_system_callback, set_sem, set_valid,
  call_callback,
}
use lib_streamlabs_ipc.Osx.Channel.{SocketType, request, reply}
use lib_streamlabs_ipc.Osx.Client.{Run, blocked, came_to}

-- `O_RDWR`, `O_RDWR | O_NONBLOCK`, `O_WRONLY | O_DSYNC`
pub data Mode : Type 0 where
  read_write read_write_nonblocking write_only : Mode

-- `read` is given the most bytes to take, and `write` the bytes; `none` is a negative result, and
-- `blocked` is a read that waits for ever, as on a descriptor without O_NONBLOCK whose pipe stays
-- empty. `mkfifo` says whether it succeeded.
pub record System {ℓ} (W : Type ℓ) : Type ℓ where
  pub open_pipe : Bytes → Mode → W → Option ℕ × W
  pub close : ℕ → W → W
  pub read : ℕ → ℕ → W → Run (Option Bytes × W)
  pub write : ℕ → Bytes → W → Option ℕ × W
  pub remove : Bytes → W → W
  pub mkfifo : Bytes → W → Bool × W

-- The members but `connected`: `accept` runs its callback while it sets that.
pub record Socket : Type 0 where
  pub created : Bool
  pub name_req : Bytes
  pub name_rep : Bytes
  pub fd_write : Option ℕ
  pub fd_read_b : Option ℕ
  pub fd_read_nb : Option ℕ

abbrev pub size_chunks : ℕ
size_chunks = 8192

unfoldable pub open_socket : Bytes → Socket
open_socket name = record {
  created = false;
  name_req = name ++ codes "-req";
  name_rep = name ++ codes "-rep";
  fd_write = none;
  fd_read_b = none;
  fd_read_nb = none;
}

-- `ret > 0`
abbrev pub is_positive : Option ℕ → Bool
is_positive none = false
is_positive (some zero) = false
is_positive (some (suc n)) = true

abbrev pub and_then {ℓ κ} : {A : Type ℓ} {B : Type κ} → Run A → (A → Run B) → Run B
and_then blocked f = blocked
and_then (came_to (ok a)) f = f a
and_then (came_to throws) f = came_to throws
and_then (came_to aborts) f = came_to aborts
and_then (came_to undefined) f = came_to undefined

abbrev pub pipe_name : Socket → SocketType → Bytes
pipe_name s request = s.name_req
pipe_name s reply = s.name_rep

module _ {ℓ} {W : Type ℓ} (system : System W) where
  unfoldable pub create_socket : Bytes → W → Outcome (Socket × W)
  unfolding open_socket
  create_socket name w =
      let s = record (open_socket name) { created = true } in
      let (req, w1) = system.mkfifo s.name_req (system.remove s.name_req w) in
      let (rep, w2) = system.mkfifo s.name_rep (system.remove s.name_rep w1) in
      if not req then throws else if not rep then throws else ok (s, w2)

  -- `if (fd > 0) close(fd);`
  abbrev pub close_fd : Option ℕ → W → W
  close_fd none w = w
  close_fd (some zero) w = w
  close_fd (some (suc n)) w = system.close (suc n) w

  unfoldable pub clean_file_descriptors : Socket → W → W
  clean_file_descriptors s w = system.remove s.name_rep (
      system.remove s.name_req
        (close_fd s.fd_read_nb (close_fd s.fd_read_b (close_fd s.fd_write w))))

  -- The condition of the inner loop: a full chunk, with or without the length before it, or a failure.
  unfoldable pub wants_more : Option ℕ → Bool
  wants_more none = true
  wants_more (some n) = n == size_chunks - 8 || n == size_chunks

  -- The inner loop: the buffer, the offset, the last result. `memcpy` past the end is undefined.
  -- `blocked` is a read that waits, or a loop that goes on past `fuel` reads.
  unfoldable pub read_more : ℕ → ℕ → Bytes → ℕ → Option ℕ → W → Run (Bytes × ℕ × Option ℕ × W)
  unfolding wants_more splice
  read_more zero fd buf offset ret w = blocked
  read_more (suc fuel) fd buf offset ret w = elim (wants_more ret) [
    | false ↦ came_to (ok (buf, offset, ret, w))
    | true ↦ and_then (system.read fd size_chunks w) (λ (got, w'). elim got [
      | none ↦ read_more fuel fd buf offset none w'
      | some bs ↦ elim (ltb (length buf) (offset + length bs)) [
        | true ↦ came_to undefined
        | false ↦
            read_more fuel fd (splice buf offset bs) (offset + length bs) (some (length bs)) w'
      ]
    ])
  ]

  -- One round of the outer loop: a read into the buffer itself, then the inner loop.
  unfoldable pub read_round : ℕ → ℕ → Bytes → ℕ → W → Run (Bytes × ℕ × Option ℕ × W)
  unfolding read_more splice
  read_round fuel fd buf offset w = and_then (system.read fd (length buf) w) (λ (got, w').
      elim got [
        | none ↦ read_more fuel fd buf offset none w'
        | some bs ↦ read_more fuel fd (splice buf 0 bs) (offset + length bs) (some (length bs)) w'
      ])

  -- `while (ret <= 0)`
  unfoldable pub read_loop : ℕ → ℕ → ℕ → Bytes → ℕ → W → Run (Bytes × W)
  unfolding read_round
  read_loop zero inner fd buf offset w = blocked
  read_loop (suc fuel) inner fd buf offset w =
      and_then (read_round inner fd buf offset w) (λ (buf', offset', ret, w').
        elim (is_positive ret) [
          | true ↦ came_to (ok (buf', w'))
          | false ↦ read_loop fuel inner fd buf' offset' w'
        ])

  abbrev pub open_for_read : Socket → Bool → SocketType → W → Socket × Option ℕ × W
  open_for_read s true t w =
      let (fd, w') = system.open_pipe (pipe_name s t) read_write w in
      (record s { fd_read_b = fd }, fd, w')
  open_for_read s false t w =
      let (fd, w') = system.open_pipe (pipe_name s t) read_write_nonblocking w in
      (record s { fd_read_nb = fd }, fd, w')

  -- Both descriptors are closed after a read that does not block; their numbers stay.
  unfoldable pub finish_read : Socket → Bool → Bytes → W → Run (Socket × Error × Bytes × W)
  finish_read s true buf w = came_to (ok (s, success, buf, w))
  finish_read s false buf w =
      came_to (ok (s, success, buf, close_fd s.fd_read_nb (close_fd s.fd_read_b w)))

  unfoldable pub read :
      ℕ → ℕ → Socket → Bytes → Bool → SocketType → W → Run (Socket × Error × Bytes × W)
  unfolding read_loop finish_read
  read fuel inner s buffer is_blocking t w =
      let (s', fd, w') = open_for_read s is_blocking t w in
      elim fd [
        | none ↦ came_to (ok (s', error, buffer, w'))
        | some n ↦
            and_then (read_loop fuel inner n buffer 0 w')
              (λ (buf, w2). finish_read s' is_blocking buf w2)
      ]

  -- `::write` on a descriptor that may be negative.
  abbrev pub write_fd : Option ℕ → Bytes → W → Option ℕ × W
  write_fd none bs w = (none, w)
  write_fd (some fd) bs w = system.write fd bs w

  abbrev pub reopen : Option ℕ → Bytes → W → Option ℕ × W
  reopen none name w = system.open_pipe name write_only w
  reopen (some n) name w = (some n, w)

  abbrev pub close_any : Option ℕ → W → W
  close_any none w = w
  close_any (some n) w = system.close n w

  -- The loop over the chunks: the descriptor, whether the last write succeeded, the world. A chunk
  -- counts as written however much of it `::write` took. Each round takes a byte at least, so that
  -- the length of the bytes is enough fuel.
  unfoldable pub write_chunks : ℕ → Option ℕ → Bytes → Bytes → W → Option ℕ × Bool × W
  write_chunks fuel fd name [] w = (fd, true, w)
  write_chunks zero fd name (b ∷ bs) w = (fd, false, w)
  write_chunks (suc fuel) fd name (b ∷ bs) w =
      let (fd', w1) = reopen fd name w in
      let (ret, w2) = write_fd fd' (take size_chunks (b ∷ bs)) w1 in
      elim ret [
        | none ↦ (fd', false, w2)
        | some n ↦ write_chunks fuel none name (drop size_chunks (b ∷ bs)) (close_any fd' w2)
      ]

  unfoldable pub write : Socket → Bytes → SocketType → W → Socket × Error × W
  unfolding write_chunks
  write s buffer t w =
      let name = pipe_name s t in
      let (fd, w1) = system.open_pipe name write_only (close_fd s.fd_write w) in
      elim fd [
        | none ↦ (record s { fd_write = none }, error, w1)
        | some n ↦ elim (leb (length buffer) size_chunks) [
          | true ↦
              let (ret, w2) = system.write n buffer w1 in
              (record s { fd_write = some n }, elim ret [ none ↦ error | some m ↦ success ], w2)
          | false ↦
              let (fd', good, w2) = write_chunks (length buffer) (some n) name buffer w1 in
              (record s { fd_write = fd' }, if good then success else error, w2)
        ]
      ]

-- The state that `accept` works on: whether the socket is connected, and what the user's callback
-- changes.
module _ {ℓ} {W : Type ℓ} where
  unfoldable pub handle_accept_callback : AsyncOpCb (Bool × W)
  handle_accept_callback connected n (c, w) = (true, w)
  handle_accept_callback success n (c, w) = (true, w)
  handle_accept_callback _ n (c, w) = (false, w)

  -- `op` is null where there is no request yet. The status is always `Connected`.
  unfoldable pub accept :
      Socket
      → Option (AsyncOp (AsyncOpCb (Bool × W)))
      → AsyncOpCb (Bool × W)
      → Bool × W
      → Outcome (Option (AsyncOp (AsyncOpCb (Bool × W))) × Error × (Bool × W))
  unfolding handle_accept_callback is_complete set_callback set_system_callback set_sem set_valid
      call_callback
  accept s op cb (c, w) = elim s.created [
    | false ↦ ok (op, error, (c, w))
    | true ↦ (do
      let ar = op_or_new op
      ar1 ← set_callback (is_complete ar) (some cb) ar
      ar2 ← set_system_callback (is_complete ar1) (some handle_accept_callback) ar1
      let (ar3, st) = call_callback connected 0 (set_valid true (set_sem ar2)) (true, w)
      ok (some ar3, connected, st))
  ]
