-- ===== src/Message/Fields.antt =====
-- What the two messages share: values written and read one behind the other, with the offset moved
-- on by what each call returns (`noffset += v.serialize(buf, noffset)`).
use lib_streamlabs_ipc.Base.{
  ℕ, ◌+◌, ◌-◌, ◌^◌, ◌≤◌, ◌<◌, ◌≡◌, refl, ap, ◌∙◌, List, [], ◌∷◌, ◌++◌, map, append-nil,
  append_assoc, length, take, drop, replicate, ltb, ltb→lt, le→ltb, if◌then◌else◌, All, arith,
  Outcome, ok, throws, aborts, undefined, inl, inr, leb, leb→le, Bool-cases, ◌>>=◌, length-append,
  take-all,
}
use lib_streamlabs_ipc.Bytes.{Bytes, splice, read, read_u32, of_le_bytes}
use lib_streamlabs_ipc.Bytes.Laws.{Holds, Holds-append, splice_next, length-splice}
use lib_streamlabs_ipc.Value
use lib_streamlabs_ipc.Value.{Value, null_value}
use lib_streamlabs_ipc.Value.Format.{encode, IsWritten, IsValid, assign, transmit, length-encode}
use lib_streamlabs_ipc.Value.Serialize.{serialize-encode}
use lib_streamlabs_ipc.Value.Safety.{EndsWithin, deserialize-EndsWithin}
use lib_streamlabs_ipc.Value.RoundTrip.{deserialize-encode}

unfoldable pub size_values : List Value → ℕ
size_values [] = 0
size_values (v ∷ vs) = Value.size v + size_values vs

unfoldable pub serialize_next : Value → Bytes → ℕ → Outcome (Bytes × ℕ)
serialize_next v buf noffset = do (buf', n) ← Value.serialize v buf noffset; ok (buf', noffset + n)

unfoldable pub serialize_values : List Value → Bytes → ℕ → Outcome (Bytes × ℕ)
unfolding serialize_next
serialize_values [] buf noffset = ok (buf, noffset)
serialize_values (v ∷ vs) buf noffset = do
  (buf', noffset') ← serialize_next v buf noffset
  serialize_values vs buf' noffset'

unfoldable pub deserialize_next : Value → Bytes → ℕ → Outcome (Value × ℕ)
deserialize_next v buf noffset = do (v', n) ← Value.deserialize v buf noffset; ok (v', noffset + n)

unfoldable pub deserialize_values : List Value → Bytes → ℕ → Outcome (List Value × ℕ)
unfolding deserialize_next
deserialize_values [] buf noffset = ok ([], noffset)
deserialize_values (v ∷ vs) buf noffset = do
  (v', noffset') ← deserialize_next v buf noffset
  (vs', end) ← deserialize_values vs buf noffset'
  ok (v' ∷ vs', end)

-- `std::vector<ipc::value>::resize`, where memory takes that many values.
unfoldable pub resize : ℕ → List Value → List Value
resize n vs = take n vs ++ replicate (n - length vs) null_value

-- The same where memory takes `memory` values at most: for more, `resize` throws.
unfoldable pub resize_within : ℕ → ℕ → List Value → Outcome (List Value)
unfolding resize
resize_within memory n vs = if ltb memory n then throws else ok (resize n vs)

-- Memory that takes as many values as 32 bits can announce.
abbrev pub ample_memory : ℕ
ample_memory = 2 ^ 32

unfoldable pub encode_values : List Value → Bytes
encode_values [] = []
encode_values (v ∷ vs) = encode v ++ encode_values vs

pub length-encode_values :
    (vs : List Value)
    → All (λ v. IsWritten v.type v) vs
    → length (encode_values vs) ≡ size_values vs
unfolding encode_values size_values
length-encode_values [] h = refl
length-encode_values (v ∷ vs) (h, hs) = omega (
  arith,
  length-append (encode v) (encode_values vs),
  length-encode v h,
  length-encode_values vs hs,
)

pub All-IsWritten : (vs : List Value) → All IsValid vs → All (λ v. IsWritten v.type v) vs
All-IsWritten [] h = tt
All-IsWritten (v ∷ vs) (h, hs) = (h.written, All-IsWritten vs hs)

pub serialize_next-encode :
    (v : Value) (buf : Bytes) (o : ℕ)
    → IsWritten v.type v
    → length buf < 2 ^ 64
    → o + Value.size v ≤ length buf
    → serialize_next v buf o ≡ ok (splice buf o (encode v), o + Value.size v)
unfolding serialize_next
serialize_next-encode v buf o hw hl h = rw (serialize-encode v buf o hw hl h)

-- The same behind `xs`, which stands from `o` on.
pub serialize_next_after :
    (v : Value) (buf : Bytes) (o p : ℕ) (xs : Bytes)
    → IsWritten v.type v
    → length buf < 2 ^ 64
    → p ≡ o + length xs
    → p + Value.size v ≤ length buf
    → serialize_next v (splice buf o xs) p ≡ ok (splice buf o (xs ++ encode v), p + Value.size v)
serialize_next_after v buf o p xs hw hl e h =
    let s = length-splice buf o xs (omega arith) in
    serialize_next-encode v (splice buf o xs) p hw (omega arith) (omega arith)
    ∙ rw e (
        ap (λ b. ok (b, o + length xs + Value.size v))
          (splice_next buf o (length xs) xs (encode v) refl (omega arith)))

pub serialize_values_after :
    (vs : List Value) (buf : Bytes) (o p : ℕ) (xs : Bytes)
    → All (λ v. IsWritten v.type v) vs
    → length buf < 2 ^ 64
    → p ≡ o + length xs
    → p + size_values vs ≤ length buf
    → serialize_values vs (splice buf o xs) p
      ≡ ok (splice buf o (xs ++ encode_values vs), p + size_values vs)
unfolding serialize_values size_values encode_values
serialize_values_after [] buf o p xs hw hl e h =
    rw (append-nil xs) (ap (λ k. ok (splice buf o xs, k)) (omega arith))
serialize_values_after (v ∷ vs) buf o p xs (hv, hvs) hl e h =
    rw
      (
        serialize_next_after v buf o p xs hv hl e (omega arith),
        serialize_values_after vs buf o (p + Value.size v) (xs ++ encode v) hvs hl
            (omega (arith, length-append xs (encode v), length-encode v hv)) (omega arith),
        append_assoc xs (encode v) (encode_values vs),
      )
      (ap (λ k. ok (splice buf o (xs ++ (encode v ++ encode_values vs)), k)) (omega arith))

pub deserialize_next-encode :
    (w v : Value) (buf : Bytes) (o : ℕ)
    → IsValid v
    → length buf < 2 ^ 64
    → Holds buf o (encode v)
    → deserialize_next w buf o ≡ ok (assign w v, o + Value.size v)
unfolding deserialize_next
deserialize_next-encode w v buf o hv hl h = rw (deserialize-encode w v buf o hv hl h)

pub deserialize_values-encode :
    (vs : List Value) (buf : Bytes) (o : ℕ)
    → All IsValid vs
    → length buf < 2 ^ 64
    → Holds buf o (encode_values vs)
    → deserialize_values (replicate (length vs) null_value) buf o
      ≡ ok (map transmit vs, o + size_values vs)
unfolding deserialize_values encode_values size_values transmit
deserialize_values-encode [] buf o hv hl h = ap (λ k. ok ([], k)) (omega arith)
deserialize_values-encode (v ∷ vs) buf o (hv, hvs) hl h =
    let (h1, h2) = Holds-append buf o (encode v) (encode_values vs) h in
    let h2' : Holds buf (o + Value.size v) (encode_values vs) =
      rw (length-encode v hv.written) at h2 in
    rw
      (
        deserialize_next-encode null_value v buf o hv hl h1,
        deserialize_values-encode vs buf (o + Value.size v) hvs hl h2',
      )
      (ap (λ k. ok (map transmit (v ∷ vs), k)) (omega arith))

pub resize_new : (n : ℕ) → resize n [] ≡ replicate n null_value
unfolding resize
resize_new n =
    rw (take-all {A = Value} n [] (omega arith)) (ap (λ k. replicate k null_value) (omega arith))

pub resize_within-ample :
    (n : ℕ) → n < 2 ^ 32 → resize_within ample_memory n [] ≡ ok (replicate n null_value)
unfolding resize_within
resize_within-ample n h = rw (le→ltb (2 ^ 32) n (omega arith), resize_new n)

-- The call returns an end between `lo` and `hi`, aborts, is undefined, or throws because of `T`.
abbrev pub Contained {ℓ} : {A : Type ℓ} → Type 0 → ℕ → ℕ → Outcome (A × ℕ) → Type 0
Contained T lo hi (ok (a, n)) = (lo ≤ n) × (n ≤ hi)
Contained T lo hi throws = T
Contained T lo hi aborts = Unit {0}
Contained T lo hi undefined = Unit {0}

module _ (T : Type 0) where
  pub Contained-bind {ℓ κ} :
      {A : Type ℓ} {B : Type κ} (lo hi lo' hi' : ℕ) (m : Outcome (A × ℕ))
      (f : A × ℕ → Outcome (B × ℕ))
      → EndsWithin lo hi m
      → ((a : A) (n : ℕ) → lo ≤ n → n ≤ hi → Contained T lo' hi' (f (a, n)))
      → Contained T lo' hi' (m >>= f)
  Contained-bind lo hi lo' hi' (ok (a, n)) f h k = k a n h.0 h.1
  Contained-bind lo hi lo' hi' throws f h k = absurd h
  Contained-bind lo hi lo' hi' aborts f h k = tt
  Contained-bind lo hi lo' hi' undefined f h k = tt

  pub Contained-read_u32 {ℓ} :
      {B : Type ℓ} (lo hi : ℕ) (buf : Bytes) (o : ℕ) (f : ℕ → Outcome (B × ℕ))
      → ((n : ℕ) → read_u32 buf o ≡ ok n → o + 4 ≤ length buf → Contained T lo hi (f n))
      → Contained T lo hi (read_u32 buf o >>= f)
  unfolding read_u32 read
  Contained-read_u32 lo hi buf o f k = elim (Bool-cases (leb (o + 4) (length buf))) [
    | inl e ↦ rw e (
        k (of_le_bytes (take 4 (drop o buf))) (rw (read_u32, read, e) refl)
          (leb→le (o + 4) (length buf) e))
    | inr e ↦ rw e tt
  ]

  pub Contained-resize_within {ℓ} :
      {B : Type ℓ} (lo hi memory n : ℕ) (vs : List Value) (f : List Value → Outcome (B × ℕ))
      → (memory < n → T)
      → Contained T lo hi (f (resize n vs))
      → Contained T lo hi (resize_within memory n vs >>= f)
  unfolding resize_within
  Contained-resize_within lo hi memory n vs f h k = elim (Bool-cases (ltb memory n)) [
    | inl e ↦ rw e (h (ltb→lt memory n e))
    | inr e ↦ rw e k
  ]

module _ (buf : Bytes) (hl : length buf < 2 ^ 64) where
  pub deserialize_next-EndsWithin :
      (v : Value) (o : ℕ)
      → o ≤ length buf
      → EndsWithin (o + 4) (length buf) (deserialize_next v buf o)
  unfolding deserialize_next
  deserialize_next-EndsWithin v o ho =
      moved (Value.deserialize v buf o) (deserialize-EndsWithin buf hl v o ho)
    where
      moved :
          (m : Outcome (Value × ℕ))
          → EndsWithin 4 (length buf - o) m
          → EndsWithin (o + 4) (length buf) (m >>= λ (v', n). ok (v', o + n))
      moved (ok (v', n)) h = omega arith
      moved throws h = h
      moved aborts h = h
      moved undefined h = h

  pub deserialize_values-EndsWithin :
      (vs : List Value) (o : ℕ)
      → o ≤ length buf
      → EndsWithin o (length buf) (deserialize_values vs buf o)
  unfolding deserialize_values
  deserialize_values-EndsWithin [] o ho = omega arith
  deserialize_values-EndsWithin (v ∷ vs) o ho =
      first (deserialize_next v buf o) (deserialize_next-EndsWithin v o ho)
        (λ p. deserialize_values vs buf p) (λ p hp. deserialize_values-EndsWithin vs p hp)
    where
      rest :
          (p : ℕ) (v' : Value) (m : Outcome (List Value × ℕ))
          → o ≤ p
          → EndsWithin p (length buf) m
          → EndsWithin o (length buf) (m >>= λ (vs', end). ok (v' ∷ vs', end))
      rest p v' (ok (vs', end)) hp h = omega arith
      rest p v' throws hp h = h
      rest p v' aborts hp h = h
      rest p v' undefined hp h = h

      first :
          (m : Outcome (Value × ℕ))
          → EndsWithin (o + 4) (length buf) m
          → (k : ℕ → Outcome (List Value × ℕ))
          → ((p : ℕ) → p ≤ length buf → EndsWithin p (length buf) (k p))
          → EndsWithin o (length buf) (m >>= λ (v', p). k p >>= λ (vs', end). ok (v' ∷ vs', end))
      first (ok (v', p)) h k hk = rest p v' (k p) (omega arith) (hk p h.1)
      first throws h k hk = h
      first aborts h k hk = h
      first undefined h k hk = h
