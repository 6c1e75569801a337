-- ===== src/Value/Safety.antt =====
-- `deserialize` on bytes that nobody vouches for.
use lib_streamlabs_ipc.Base.{
  ℕ, ◌+◌, ◌-◌, ◌^◌, ◌≤◌, ◌<◌, ◌≡◌, inl, inr, length, arith, Outcome, ok, throws, aborts, undefined,
  false, ltb, Bool-cases, ltb→le, le→leb, if◌then◌else◌, ◌>>=◌, take, drop, [],
}
use lib_streamlabs_ipc.Bytes.{Bytes, sub_size, read, read_u32, of_le_bytes}
use lib_streamlabs_ipc.Bytes.Laws.{sub_size-eq}
use lib_streamlabs_ipc.Value.{
  ValueType, null, float, double, int32, int64, uint32, uint64, string, binary, unlisted, Value,
  deserialize_scalar, deserialize_block, deserialize_payload, deserialize,
}

-- The call returns an end between `lo` and `hi`, or it aborts.
abbrev pub EndsWithin {ℓ} : {A : Type ℓ} → ℕ → ℕ → Outcome (A × ℕ) → Type 0
EndsWithin lo hi (ok (a, n)) = (lo ≤ n) × (n ≤ hi)
EndsWithin lo hi throws = ⊥
EndsWithin lo hi aborts = Unit {0}
EndsWithin lo hi undefined = ⊥

EndsWithin-then {ℓ κ} :
    {A : Type ℓ} {B : Type κ} (lo hi : ℕ) (m : Outcome (A × ℕ)) (f : A → B)
    → EndsWithin lo hi m
    → EndsWithin lo hi (m >>= λ (a, n). ok (f a, n))
EndsWithin-then lo hi (ok (a, n)) f h = h
EndsWithin-then lo hi throws f h = h
EndsWithin-then lo hi aborts f h = h
EndsWithin-then lo hi undefined f h = h

module _ (buf : Bytes) (hl : length buf < 2 ^ 64) where
  room : (o n : ℕ) → o ≤ length buf → ltb (sub_size (length buf) o) n ≡ false → o + n ≤ length buf
  room o n ho h = omega (arith, ltb→le (sub_size (length buf) o) n h, sub_size-eq (length buf) o)

  deserialize_scalar-EndsWithin :
      (width : ℕ) (v : Value) (o : ℕ)
      → o ≤ length buf
      → EndsWithin o (length buf) (deserialize_scalar width v buf o)
  unfolding deserialize_scalar read
  deserialize_scalar-EndsWithin width v o ho =
      elim (Bool-cases (ltb (sub_size (length buf) o) width)) [
        | inl e ↦ rw e tt
        | inr e ↦
            rw (e, le→leb (o + width) (length buf) (room o width ho e))
              (omega arith, room o width ho e)
      ]

  deserialize_block-EndsWithin :
      (o : ℕ) → o ≤ length buf → EndsWithin o (length buf) (deserialize_block buf o)
  unfolding deserialize_block read_u32 read
  deserialize_block-EndsWithin o ho = elim (Bool-cases (ltb (sub_size (length buf) o) 4)) [
    | inl e ↦ rw e tt
    | inr e ↦
        rw (e, le→leb (o + 4) (length buf) (room o 4 ho e))
          (body (of_le_bytes (take 4 (drop o buf))) (room o 4 ho e))
  ]
    where
      body :
          (len : ℕ)
          → o + 4 ≤ length buf
          → EndsWithin o (length buf) (
              if ltb (sub_size (length buf) (o + 4)) len
              then aborts
              else do bs ← if ltb 0 len then read buf (o + 4) len else ok []; ok (bs, o + 4 + len))
      body len h = elim (Bool-cases (ltb (sub_size (length buf) (o + 4)) len)) [
        | inl e ↦ rw e tt
        | inr e ↦
            rw (e, le→leb (o + 4 + len) (length buf) (room (o + 4) len h e))
              (ground (arith, room (o + 4) len h e))
      ]

  deserialize_payload-EndsWithin :
      (t : ValueType) (v : Value) (o : ℕ)
      → o ≤ length buf
      → EndsWithin o (length buf) (deserialize_payload t v buf o)
  unfolding deserialize_payload
  deserialize_payload-EndsWithin int32 v o ho = deserialize_scalar-EndsWithin 4 v o ho
  deserialize_payload-EndsWithin uint32 v o ho = deserialize_scalar-EndsWithin 4 v o ho
  deserialize_payload-EndsWithin float v o ho = deserialize_scalar-EndsWithin 4 v o ho
  deserialize_payload-EndsWithin int64 v o ho = deserialize_scalar-EndsWithin 8 v o ho
  deserialize_payload-EndsWithin uint64 v o ho = deserialize_scalar-EndsWithin 8 v o ho
  deserialize_payload-EndsWithin double v o ho = deserialize_scalar-EndsWithin 8 v o ho
  deserialize_payload-EndsWithin string v o ho =
      EndsWithin-then _ _ (deserialize_block buf o) _ (deserialize_block-EndsWithin o ho)
  deserialize_payload-EndsWithin binary v o ho =
      EndsWithin-then _ _ (deserialize_block buf o) _ (deserialize_block-EndsWithin o ho)
  deserialize_payload-EndsWithin null v o ho = omega arith
  deserialize_payload-EndsWithin (unlisted n) v o ho = omega arith

  -- On any buffer, from any offset inside it, `deserialize` either aborts or reads at least four
  -- bytes, none of them behind the end of the buffer; it never throws, and no access is undefined.
  pub deserialize-EndsWithin :
      (v : Value) (o : ℕ) → o ≤ length buf → EndsWithin 4 (length buf - o) (deserialize v buf o)
  unfolding deserialize read_u32 read
  deserialize-EndsWithin v o ho = elim (Bool-cases (ltb (sub_size (length buf) o) 4)) [
    | inl e ↦ rw e tt
    | inr e ↦
        rw (e, le→leb (o + 4) (length buf) (room o 4 ho e))
          (counted _ (deserialize_payload-EndsWithin _ _ (o + 4) (room o 4 ho e)))
  ]
    where
      counted :
          (m : Outcome (Value × ℕ))
          → EndsWithin (o + 4) (length buf) m
          → EndsWithin 4 (length buf - o) (m >>= λ (v', noffset). ok (v', noffset - o))
      counted (ok (v', n)) h = omega arith
      counted throws h = h
      counted aborts h = h
      counted undefined h = h
