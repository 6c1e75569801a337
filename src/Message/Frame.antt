-- ===== src/Message/Frame.antt =====
-- `make_sendable` and `read_size` of include/ipc.hpp: the eight bytes in front of a message, whose
-- upper four hold the number of bytes behind them.
use lib_streamlabs_ipc.Base.{
  ℕ, suc, ◌+◌, ◌-◌, ◌%◌, ◌^◌, ◌≤◌, ◌<◌, ◌≡◌, ap, ◌∙◌, [], ◌∷◌, ◌++◌, append-nil, length, take, drop,
  replicate, arith, Outcome, ok, undefined, lt→leb, length-append, length-take, length-replicate,
  drop_past, take_past, drop-all, inl, inr, Bool-cases, leb, leb→le, Ensures,
}
use lib_streamlabs_ipc.Bytes.{Bytes, le_bytes, sub_size, read_u32, write, splice}
use lib_streamlabs_ipc.Bytes.Laws.{
  length-le_bytes, sub_size-eq, write-splice, length-splice, splice-Holds, read_u32-Holds,
}

unfoldable pub make_sendable : Bytes → Outcome Bytes
make_sendable buf = write buf 4 (le_bytes 4 (sub_size (length buf) 8))

unfoldable pub read_size : Bytes → Outcome ℕ
read_size buf = read_u32 buf 4

-- A frame as a receiver sees it: eight bytes, four of them zero, and the body.
unfoldable pub framed : Bytes → Bytes
framed body = replicate 4 0 ++ (le_bytes 4 (length body) ++ body)

pub length-framed : (body : Bytes) → length (framed body) ≡ 8 + length body
unfolding framed
length-framed body =
    omega (arith, length-append (le_bytes 4 (length body)) body, length-le_bytes 4 (length body))

abbrev header : Bytes → Bytes
header body = replicate 4 0 ++ le_bytes 4 (length body)

header_length : (body : Bytes) → length (header body) ≡ 8
header_length body = omega (arith, length-le_bytes 4 (length body))

-- The two reads of a receiver: the header, and as many bytes as it says.
pub take-framed : (body : Bytes) → take 8 (framed body) ≡ header body
unfolding framed
take-framed body =
    ap (λ x. 0 ∷ 0 ∷ 0 ∷ 0 ∷ x)
      (take_past (le_bytes 4 (length body)) body 0 4
          (omega (arith, length-le_bytes 4 (length body)))
        ∙ append-nil (le_bytes 4 (length body)))

pub drop-framed : (body : Bytes) → drop 8 (framed body) ≡ body
unfolding framed
drop-framed body =
    drop_past (le_bytes 4 (length body)) body 0 4 (omega (arith, length-le_bytes 4 (length body)))

pub read_size-framed :
    (body : Bytes) → length body < 2 ^ 32 → read_size (take 8 (framed body)) ≡ ok (length body)
unfolding read_size
read_size-framed body h = rw take-framed (
    read_u32-Holds (header body) 4 (length body)
      ([], rw (append-nil (le_bytes 4 (length body))), omega (arith, header_length body))
    ∙ ap ok (omega arith))

-- A buffer that begins with eight zero bytes becomes a frame around the rest.
pub make_sendable-framed :
    (body : Bytes)
    → length body + 8 < 2 ^ 64
    → make_sendable (replicate 8 0 ++ body) ≡ ok (framed body)
unfolding make_sendable framed splice
make_sendable-framed body h =
    let n : sub_size (suc (suc (suc (suc (suc (suc (suc (suc (length body))))))))) 8 ≡ length body =
      sub_size-eq _ 8 (omega arith) (omega arith) ∙ omega arith in
    let e = length-le_bytes 4 (length body) in
    rw n (write-splice (replicate 8 0 ++ body) 4 (le_bytes 4 (length body)) (omega arith) ∙ rw e)

-- A message written at offset 8 of a zeroed buffer of just the right size.
pub splice-zeroed :
    (body : Bytes) (n : ℕ)
    → length body ≡ n
    → splice (replicate (n + 8) 0) 8 body ≡ replicate 8 0 ++ body
unfolding splice
splice-zeroed body n e =
    let rest =
      drop-all {A = ℕ} (8 + length body) (replicate (n + 8) 0)
        (omega (arith, length-replicate {A = ℕ} (n + 8) 0)) in
    let long : n + 8 ≡ suc (suc (suc (suc (suc (suc (suc (suc n))))))) = omega arith in
    rw (rest, append-nil body, long)

drop-spliced :
    (buf bs : Bytes) → 8 ≤ length buf → length bs ≡ 4 → drop 8 (splice buf 4 bs) ≡ drop 8 buf
unfolding splice
drop-spliced buf bs h e =
    let back = drop (4 + length bs) buf in
    drop_past (take 4 buf) (bs ++ back) 4 8 (omega (arith, length-take 4 buf))
    ∙ drop_past bs back 0 4 (omega arith)
    ∙ ap (λ k. drop k buf) {y = 8} (omega arith)

-- On a buffer with room for the header, `make_sendable` writes the number of bytes behind the
-- header, of which 32 bits are kept, where `read_size` finds it, and leaves those bytes alone.
pub read_size-make_sendable :
    (buf : Bytes)
    → 8 ≤ length buf
    → length buf < 2 ^ 64
    → (buf' : Bytes) × (make_sendable buf ≡ ok buf')
      × (length buf' ≡ length buf)
      × (read_size buf' ≡ ok ((length buf - 8) % 2 ^ 32))
      × (drop 8 buf' ≡ drop 8 buf)
unfolding make_sendable read_size
read_size-make_sendable buf h hl =
    let n = sub_size-eq (length buf) 8 h hl in
    let bs = le_bytes 4 (length buf - 8) in
    let e : length bs ≡ 4 = length-le_bytes 4 (length buf - 8) in
    (
      splice buf 4 bs,
      rw n (write-splice buf 4 bs (omega arith)),
      length-splice buf 4 bs (omega arith),
      read_u32-Holds (splice buf 4 bs) 4 (length buf - 8) (splice-Holds buf 4 bs (omega arith)),
      drop-spliced buf bs h e,
    )

-- On a buffer without room for the header the write leaves the buffer.
pub make_sendable_undefined : (buf : Bytes) → length buf < 8 → make_sendable buf ≡ undefined
unfolding make_sendable write
make_sendable_undefined buf h = rw (
    lt→leb (4 + length (le_bytes 4 (sub_size (length buf) 8))) (length buf)
      (omega (arith, length-le_bytes 4 (sub_size (length buf) 8))))

-- `make_sendable` leaves the bytes behind the header alone.
pub make_sendable-body : (buf : Bytes) → Ensures (λ f. drop 8 f ≡ drop 8 buf) (make_sendable buf)
unfolding make_sendable write
make_sendable-body buf =
    let bs = le_bytes 4 (sub_size (length buf) 8) in
    let four : length bs ≡ 4 = length-le_bytes 4 (sub_size (length buf) 8) in
    elim (Bool-cases (leb (4 + length bs) (length buf))) [
      | inl e ↦
          rw e
            (drop-spliced buf bs (omega (arith, four, leb→le (4 + length bs) (length buf) e)) four)
      | inr e ↦ rw e tt
    ]
