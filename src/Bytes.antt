-- ===== src/Bytes.antt =====
-- Memory as the sources use it: `std::vector<char>` is a list of bytes, and
-- `reinterpret_cast<T &>(buf[i])` reads or writes the bytes of a little-endian word. An access that
-- leaves the vector is undefined. `size_t` is 64 bits wide, and only its subtraction can wrap: the
-- sums are of sizes of objects that are in memory together.
pub mod Laws
use lib_streamlabs_ipc.Base.{
  ℕ, zero, suc, ◌+◌, ◌-◌, ◌*◌, ◌/◌, ◌%◌, ◌^◌, ◌<◌, List, [], ◌∷◌, ◌++◌, length, take, drop, leb,
  if◌then◌else◌, Outcome, ok, undefined, ◌>>=◌,
}

abbrev pub Bytes : Type 0
Bytes = List ℕ

abbrev pub IsByte : ℕ → Type 0
IsByte b = b < 256

-- The low `w` bytes of `n`, lowest first.
unfoldable pub le_bytes : ℕ → ℕ → Bytes
le_bytes zero n = []
le_bytes (suc w) n = n % 256 ∷ le_bytes w (n / 256)

-- The number that the bytes stand for.
unfoldable pub of_le_bytes : Bytes → ℕ
of_le_bytes [] = 0
of_le_bytes (b ∷ bs) = b + 256 * of_le_bytes bs

-- `a - b` on size_t.
unfoldable pub sub_size : ℕ → ℕ → ℕ
sub_size a b = (a + 2 ^ 64 - b) % 2 ^ 64

unfoldable pub read : Bytes → ℕ → ℕ → Outcome Bytes
read buf at_offset n =
    if leb (at_offset + n) (length buf) then ok (take n (drop at_offset buf)) else undefined

unfoldable pub read_u32 : Bytes → ℕ → Outcome ℕ
unfolding read
read_u32 buf at_offset = do bs ← read buf at_offset 4; ok (of_le_bytes bs)

unfoldable pub read_u64 : Bytes → ℕ → Outcome ℕ
unfolding read
read_u64 buf at_offset = do bs ← read buf at_offset 8; ok (of_le_bytes bs)

-- `buf` with `bs` copied over what stands from `at_offset` on.
unfoldable pub splice : Bytes → ℕ → Bytes → Bytes
splice buf at_offset bs = take at_offset buf ++ (bs ++ drop (at_offset + length bs) buf)

unfoldable pub write : Bytes → ℕ → Bytes → Outcome Bytes
write buf at_offset bs =
    if leb (at_offset + length bs) (length buf) then ok (splice buf at_offset bs) else undefined
