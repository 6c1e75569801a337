-- ===== src/Osx/Channel.antt =====
-- What the workers ask of `os::apple::socket_osx`. `W` is all that a call can change outside the
-- object at hand: the pipes and the state of the application.
use lib_streamlabs_ipc.Base.{
  ℕ, ◌-◌, ◌≡◌, Bool, ◌++◌, take, length, replicate, length-append, length-take, length-replicate,
  arith,
}
use lib_streamlabs_ipc.Bytes.{Bytes}
use lib_streamlabs_ipc.Os.{Error}

-- `SocketType`
pub data SocketType : Type 0 where
  request reply : SocketType

pub record Channel {ℓ} (W : Type ℓ) : Type ℓ where
  pub is_connected : W → Bool
  -- The buffer to fill, and whether to block: the status, the buffer, the new world.
  pub read : Bytes → Bool → SocketType → W → Error × Bytes × W
  pub write : Bytes → SocketType → W → Error × W

-- `std::vector<char>::resize`
unfoldable pub resize_bytes : ℕ → Bytes → Bytes
resize_bytes n buf = take n buf ++ replicate (n - length buf) 0

pub length-resize_bytes : (n : ℕ) (buf : Bytes) → length (resize_bytes n buf) ≡ n
unfolding resize_bytes
length-resize_bytes n buf = omega (
  arith,
  length-append (take n buf) (replicate (n - length buf) 0),
  length-take n buf,
  length-replicate {A = ℕ} (n - length buf) 0,
)
