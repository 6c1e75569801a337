-- ===== src/Naming/UniqueId.antt =====
-- `make_unique_id` tells overloads apart.
use lib_streamlabs_ipc.Base.{ℕ, ◌≡◌, refl, ◌≢◌, [], ◌∷◌, ◌++◌, List, All, arith}
use Prim.Native.Nat.{compare, Ordering}
use lib_streamlabs_ipc.Bytes.{Bytes}
use lib_streamlabs_ipc.Value.{
  ValueType, null, float, double, int32, int64, uint32, uint64, string, binary, unlisted,
}
use lib_streamlabs_ipc.Naming.{type_code, type_codes, make_unique_id}

abbrev pub IsListed : ValueType → Type 0
IsListed (unlisted n) = ⊥
IsListed _ = Unit {0}

abbrev IsPlain : Bytes → Type 0
IsPlain = All (λ b. b ≢ 95)

-- The type that two characters name.
abbrev decode_type : ℕ → ℕ → ValueType
decode_type a b = elim (compare a 73) [
  | Ordering.lt ↦ elim (compare b 56) [ Ordering.eq ↦ double | _ ↦ float ]
  | Ordering.eq ↦ elim (compare b 56) [ Ordering.eq ↦ int64 | _ ↦ int32 ]
  | Ordering.gt ↦ elim (compare a 80) [
    | Ordering.lt ↦ null
    | Ordering.eq ↦ elim (compare b 66) [ Ordering.eq ↦ binary | _ ↦ string ]
    | Ordering.gt ↦ elim (compare b 56) [ Ordering.eq ↦ uint64 | _ ↦ uint32 ]
  ]
]

-- Two characters that are no underscore, and that name the type.
Coded : ValueType → Type 0
Coded t = (a b : ℕ) × (type_code t ≡ a ∷ b ∷ []) × (decode_type a b ≡ t) × (a ≢ 95) × (b ≢ 95)

coded : (t : ValueType) → IsListed t → Coded t
unfolding Coded type_code
coded null h = (78, 48, refl, refl, omega arith, omega arith)
coded float h = (70, 52, refl, refl, omega arith, omega arith)
coded double h = (70, 56, refl, refl, omega arith, omega arith)
coded int32 h = (73, 52, refl, refl, omega arith, omega arith)
coded int64 h = (73, 56, refl, refl, omega arith, omega arith)
coded uint32 h = (85, 52, refl, refl, omega arith, omega arith)
coded uint64 h = (85, 56, refl, refl, omega arith, omega arith)
coded string h = (80, 83, refl, refl, omega arith, omega arith)
coded binary h = (80, 66, refl, refl, omega arith, omega arith)
coded (unlisted n) h = absurd h

codes-IsPlain : (ps : List ValueType) → All IsListed ps → IsPlain (type_codes ps)
unfolding type_codes Coded
codes-IsPlain [] h = tt
codes-IsPlain (p ∷ ps) (h, hs) =
    let (a, b, e, _, na, nb) = coded p h in rw e (na, (nb, codes-IsPlain ps hs))

type_codes-injective :
    (ps qs : List ValueType)
    → All IsListed ps
    → All IsListed qs
    → type_codes ps ≡ type_codes qs
    → ps ≡ qs
unfolding type_codes Coded
type_codes-injective [] [] hp hq e = refl
type_codes-injective [] (q ∷ qs) hp (hq, hqs) e =
    let (a, b, eq, _, _, _) = coded q hq in absurd (cc eq)
type_codes-injective (p ∷ ps) [] (hp, hps) hq e =
    let (a, b, eq, _, _, _) = coded p hp in absurd (cc eq)
type_codes-injective (p ∷ ps) (q ∷ qs) (hp, hps) (hq, hqs) e =
    let (a, b, ep, dp, _, _) = coded p hp in
    let (c, d, eq, dq, _, _) = coded q hq in
    let both : a ∷ b ∷ type_codes ps ≡ c ∷ d ∷ type_codes qs = rw (ep, eq) at e in
    let rest = type_codes-injective ps qs hps hqs (cc) in cc

hidden : (m xs ys : Bytes) → IsPlain xs → xs ≡ m ++ (95 ∷ ys) → ⊥
hidden m [] ys h e = nothing m e
  where
    nothing : (m : Bytes) → [] ≡ m ++ (95 ∷ ys) → ⊥
    nothing [] e = cc
    nothing (x ∷ m) e = cc
hidden [] (x ∷ xs) ys h e = h.0 (cc)
hidden (y ∷ m) (x ∷ xs) ys h e = hidden m xs ys h.1 (cc)

-- Both texts end in a suffix without underscores behind their last underscore.
split_last :
    (n m xs ys : Bytes)
    → IsPlain xs
    → IsPlain ys
    → n ++ (95 ∷ xs) ≡ m ++ (95 ∷ ys)
    → (n ≡ m) × (xs ≡ ys)
split_last [] [] xs ys hx hy e = (refl, cc)
split_last [] (y ∷ m) xs ys hx hy e = absurd (hidden m xs ys hx (cc))
split_last (x ∷ n) [] xs ys hx hy e = absurd (hidden n ys xs hy (cc))
split_last (x ∷ n) (y ∷ m) xs ys hx hy e =
    let (en, exs) = split_last n m xs ys hx hy (cc) in let head : x ≡ y = cc in (cc, exs)

-- Equal identifiers have equal names and equal parameter lists, where the parameters are listed
-- types.
pub make_unique_id-injective :
    (n m : Bytes) (ps qs : List ValueType)
    → All IsListed ps
    → All IsListed qs
    → make_unique_id n ps ≡ make_unique_id m qs
    → (n ≡ m) × (ps ≡ qs)
unfolding make_unique_id
make_unique_id-injective n m ps qs hp hq e =
    let (en, ec) =
      split_last n m (type_codes ps) (type_codes qs) (codes-IsPlain ps hp) (codes-IsPlain qs hq)
        e in
    (en, type_codes-injective ps qs hp hq ec)
