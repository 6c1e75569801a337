-- ===== src/Bytes/Laws.antt =====
-- The laws of words, reads and writes.
use lib_streamlabs_ipc.Base.{
  ℕ, zero, suc, ◌+◌, ◌-◌, ◌/◌, ◌%◌, ◌^◌, ◌≤◌, ◌<◌, ◌≡◌, refl, ap, ◌∙◌, ◌++◌, append_assoc, length,
  take, drop, All, arith, ok, length-append, length-take, length-drop, take-append_self,
  drop-append_self, le→leb, drop-drop, take_past, drop_past,
}
use lib_streamlabs_ipc.Bytes.{
  Bytes, IsByte, le_bytes, of_le_bytes, sub_size, read, read_u32, read_u64, write, splice,
}
use native.Mathlib.Nat.{add_assoc}

pub length-le_bytes : (w n : ℕ) → length (le_bytes w n) ≡ w
unfolding le_bytes
length-le_bytes zero n = refl
length-le_bytes (suc w) n = ap suc (length-le_bytes w (n / 256))

pub le_bytes-IsByte : (w n : ℕ) → All IsByte (le_bytes w n)
unfolding le_bytes
le_bytes-IsByte zero n = tt
le_bytes-IsByte (suc w) n = (omega arith, le_bytes-IsByte w (n / 256))

pub of_le_bytes-le_bytes_4 : (n : ℕ) → of_le_bytes (le_bytes 4 n) ≡ n % 2 ^ 32
unfolding le_bytes of_le_bytes
of_le_bytes-le_bytes_4 n = omega arith

pub of_le_bytes-le_bytes_8 : (n : ℕ) → of_le_bytes (le_bytes 8 n) ≡ n % 2 ^ 64
unfolding le_bytes of_le_bytes
of_le_bytes-le_bytes_8 n = omega arith

pub sub_size-eq : (a b : ℕ) → b ≤ a → a < 2 ^ 64 → sub_size a b ≡ a - b
unfolding sub_size
sub_size-eq a b h k = omega arith

-- `bs` stands in `buf` from `at_offset` on.
abbrev pub Holds : Bytes → ℕ → Bytes → Type 0
Holds buf at_offset bs =
    (rest : Bytes) × (drop at_offset buf ≡ bs ++ rest) × (at_offset ≤ length buf)

pub Holds-le : (buf : Bytes) (o : ℕ) (bs : Bytes) → Holds buf o bs → o + length bs ≤ length buf
Holds-le buf o bs (rest, e, h) =
    omega (arith, ap length e, length-append bs rest, length-drop o buf)

pub Holds-append :
    (buf : Bytes) (o : ℕ) (xs ys : Bytes)
    → Holds buf o (xs ++ ys)
    → Holds buf o xs × Holds buf (o + length xs) ys
Holds-append buf o xs ys (rest, e, h) = (
  (ys ++ rest, e ∙ append_assoc xs ys rest, h),
  (
    rest,
    rw (← drop-drop (length xs) o buf, e, append_assoc xs ys rest)
        (drop-append_self xs (ys ++ rest)),
    omega
        (arith, ap length e, length-append (xs ++ ys) rest, length-append xs ys, length-drop o buf),
  ),
)

pub read-Holds :
    (buf : Bytes) (o n : ℕ) (bs : Bytes) → Holds buf o bs → length bs ≡ n → read buf o n ≡ ok bs
unfolding read
read-Holds buf o n bs (rest, e, h) k = rw (
  le→leb (o + n) (length buf)
      (omega (arith, ap length e, length-append bs rest, length-drop o buf)),
  e,
  ← k,
  take-append_self bs rest,
)

pub read_u32-Holds :
    (buf : Bytes) (o n : ℕ) → Holds buf o (le_bytes 4 n) → read_u32 buf o ≡ ok (n % 2 ^ 32)
unfolding read_u32
read_u32-Holds buf o n h =
    rw (read-Holds buf o 4 _ h (length-le_bytes 4 n)) (ap ok (of_le_bytes-le_bytes_4 n))

pub read_u64-Holds :
    (buf : Bytes) (o n : ℕ) → Holds buf o (le_bytes 8 n) → read_u64 buf o ≡ ok (n % 2 ^ 64)
unfolding read_u64
read_u64-Holds buf o n h =
    rw (read-Holds buf o 8 _ h (length-le_bytes 8 n)) (ap ok (of_le_bytes-le_bytes_8 n))

module _ (buf : Bytes) (o : ℕ) (bs : Bytes) (fits : o + length bs ≤ length buf) where
  length_front : length (take o buf) ≡ o
  length_front = omega (arith, length-take o buf)

  pub length-splice : length (splice buf o bs) ≡ length buf
  unfolding splice
  length-splice = omega (
    arith,
    length-append (take o buf) (bs ++ drop (o + length bs) buf),
    length-append bs (drop (o + length bs) buf),
    length-drop (o + length bs) buf,
    length_front,
  )

  pub write-splice : write buf o bs ≡ ok (splice buf o bs)
  unfolding write
  write-splice = rw (le→leb (o + length bs) (length buf) fits)

  pub splice-Holds : Holds (splice buf o bs) o bs
  unfolding splice
  splice-Holds = (
    drop (o + length bs) buf,
    drop_past (take o buf) _ 0 o (omega (arith, length_front)),
    omega (arith, length-splice),
  )

-- Two writes one behind the other are one write.
splice-splice :
    (buf : Bytes) (o : ℕ) (xs ys : Bytes)
    → o ≤ length buf
    → splice (splice buf o xs) (o + length xs) ys ≡ splice buf o (xs ++ ys)
unfolding splice
splice-splice buf o xs ys h =
    let front : length (take o buf) ≡ o = omega (arith, length-take o buf) in
    let back = drop (o + length xs) buf in
    rw (
      take_past (take o buf) (xs ++ back) (length xs) (o + length xs) (omega arith),
      take-append_self xs back,
      drop_past (take o buf) (xs ++ back) (length xs + length ys) (o + length xs + length ys)
          (omega arith),
      drop_past xs back (length ys) (length xs + length ys) refl,
      drop-drop (length ys) (o + length xs) buf,
      length-append xs ys,
      add_assoc o (length xs) (length ys),
      append_assoc (take o buf) xs (ys ++ drop (o + (length xs + length ys)) buf),
      append_assoc xs ys (drop (o + (length xs + length ys)) buf),
    )

pub splice_next :
    (buf : Bytes) (o k : ℕ) (xs ys : Bytes)
    → length xs ≡ k
    → o ≤ length buf
    → splice (splice buf o xs) (o + k) ys ≡ splice buf o (xs ++ ys)
splice_next buf o k xs ys e h = rw (← e) (splice-splice buf o xs ys h)

-- A write behind `xs`, which stands from `o` on.
pub write_after :
    (buf : Bytes) (o p : ℕ) (xs bs : Bytes)
    → p ≡ o + length xs
    → p + length bs ≤ length buf
    → write (splice buf o xs) p bs ≡ ok (splice buf o (xs ++ bs))
write_after buf o p xs bs e h =
    let s = length-splice buf o xs (omega arith) in
    write-splice (splice buf o xs) p bs (omega arith)
    ∙ rw e (ap ok (splice_next buf o (length xs) xs bs refl (omega arith)))
