-- ===== src/Map.antt =====
-- `std::map` as the sources use it: entries in the order of their keys, at most one to a key. The
-- laws below hold of every list of entries.
pub mod Held
use lib_streamlabs_ipc.Base.{
  ℕ, ◌+◌, ◌%◌, ◌^◌, ◌≡◌, refl, ◌↔◌, inl, inr, Bool, true, false, ◌&&◌, Option, none, some, List, [],
  ◌∷◌, arith, if◌then◌else◌, ltb, ◌==◌, ==_iff, Bool-cases,
}

pub record Key {ℓ} (K : Type ℓ) : Type ℓ where
  pub eq : K → K → Bool
  pub lt : K → K → Bool
  pub eq_iff : (a b : K) → (eq a b ≡ true) ↔ (a ≡ b)

abbrev pub Map {ℓ κ} : Type ℓ → Type κ → Type (ℓ ⊔ κ)
Map K V = List (K × V)

module _ {ℓ κ} {K : Type ℓ} {V : Type κ} ⦃key : Key K⦄ where
  unfoldable pub find : K → Map K V → Option V
  find k [] = none
  find k ((j, v) ∷ m) = if key.eq j k then some v else find k m

  -- `count(k) > 0`
  unfoldable pub contains : K → Map K V → Bool
  contains k [] = false
  contains k ((j, v) ∷ m) = if key.eq j k then true else contains k m

  unfoldable pub place : K → V → Map K V → Map K V
  place k v [] = (k, v) ∷ []
  place k v ((j, w) ∷ m) = if key.lt k j then (k, v) ∷ (j, w) ∷ m else (j, w) ∷ place k v m

  unfoldable pub replace : K → V → Map K V → Map K V
  replace k v [] = []
  replace k v ((j, w) ∷ m) = if key.eq j k then (j, v) ∷ m else (j, w) ∷ replace k v m

  -- `insert` leaves an entry that is there.
  unfoldable pub insert : K → V → Map K V → Map K V
  unfolding contains place
  insert k v m = if contains k m then m else place k v m

  unfoldable pub insert_or_assign : K → V → Map K V → Map K V
  unfolding contains place replace
  insert_or_assign k v m = if contains k m then replace k v m else place k v m

  unfoldable pub erase : K → Map K V → Map K V
  erase k [] = []
  erase k ((j, v) ∷ m) = if key.eq j k then erase k m else (j, v) ∷ erase k m

module _ {ℓ κ} {K : Type ℓ} {V : Type κ} ⦃key : Key K⦄ where
  pub find-contains : (k : K) (m : Map K V) → contains k m ≡ false → find k m ≡ none
  unfolding contains find
  find-contains k [] h = refl
  find-contains k ((j, v) ∷ m) h = ground (arith, find-contains k m)

  pub contains-find : (k : K) (m : Map K V) → contains k m ≡ true → (v : V) × (find k m ≡ some v)
  unfolding contains find
  contains-find k [] h = cc
  contains-find k ((j, v) ∷ m) h = elim (Bool-cases (key.eq j k)) [
    | inl e ↦ (v, rw e)
    | inr e ↦ rw e (contains-find k m (rw e at h))
  ]

  find-place :
      (k j : K) (v : V) (m : Map K V)
      → contains k m ≡ false
      → find j (place k v m) ≡ (if key.eq k j then some v else find j m)
  unfolding contains find place
  find-place k j v [] h = refl
  find-place k j v ((i, w) ∷ m) h =
      ground (arith, key.eq_iff k j, key.eq_iff i k, key.eq_iff i j, find-place k j v m)

  find-replace :
      (k j : K) (v : V) (m : Map K V)
      → contains k m ≡ true
      → find j (replace k v m) ≡ (if key.eq k j then some v else find j m)
  unfolding contains find replace
  find-replace k j v [] h = cc
  find-replace k j v ((i, w) ∷ m) h =
      ground (arith, key.eq_iff k j, key.eq_iff i k, key.eq_iff i j, find-replace k j v m)

  pub find-insert :
      (k j : K) (v : V) (m : Map K V)
      → contains k m ≡ false
      → find j (insert k v m) ≡ (if key.eq k j then some v else find j m)
  unfolding insert
  find-insert k j v m h = rw h (find-place k j v m h)

  contains-place : (k : K) (v : V) (m : Map K V) → contains k (place k v m) ≡ true
  unfolding contains place
  contains-place k v [] = rw ((key.eq_iff k k).1 refl)
  contains-place k v ((i, w) ∷ m) = ground (arith, key.eq_iff k k, contains-place k v m)

  contains-place_any :
      (k j : K) (v : V) (m : Map K V)
      → contains j (place k v m) ≡ (if key.eq k j then true else contains j m)
  unfolding contains place
  contains-place_any k j v [] = refl
  contains-place_any k j v ((i, w) ∷ m) = ground (arith, contains-place_any k j v m)

  -- Of a new key.
  pub contains-insert_or_assign :
      (k j : K) (v : V) (m : Map K V)
      → contains k m ≡ false
      → contains j (insert_or_assign k v m) ≡ (if key.eq k j then true else contains j m)
  unfolding insert_or_assign
  contains-insert_or_assign k j v m h = rw h (contains-place_any k j v m)

  pub contains-insert :
      (k : K) (v : V) (m : Map K V) → contains k m ≡ false → contains k (insert k v m) ≡ true
  unfolding insert
  contains-insert k v m h = rw h (contains-place k v m)

  pub insert_known : (k : K) (v : V) (m : Map K V) → contains k m ≡ true → insert k v m ≡ m
  unfolding insert
  insert_known k v m h = rw h

  pub find-insert_or_assign :
      (k j : K) (v : V) (m : Map K V)
      → find j (insert_or_assign k v m) ≡ (if key.eq k j then some v else find j m)
  unfolding insert_or_assign
  find-insert_or_assign k j v m = elim (Bool-cases (contains k m)) [
    | inl e ↦ rw e (find-replace k j v m e)
    | inr e ↦ rw e (find-place k j v m e)
  ]

  pub find-erase :
      (k j : K) (m : Map K V) → find j (erase k m) ≡ (if key.eq k j then none else find j m)
  unfolding find erase
  find-erase k j [] = ground arith
  find-erase k j ((i, w) ∷ m) =
      ground (arith, key.eq_iff k j, key.eq_iff i k, key.eq_iff i j, find-erase k j m)

pub eq_self {ℓ} : {K : Type ℓ} ⦃key : Key K⦄ (k : K) → key.eq k k ≡ true
eq_self ⦃key⦄ k = (key.eq_iff k k).1 refl

-- `std::string` by its bytes.
unfoldable pub bytes_eq : List ℕ → List ℕ → Bool
bytes_eq [] [] = true
bytes_eq [] (y ∷ ys) = false
bytes_eq (x ∷ xs) [] = false
bytes_eq (x ∷ xs) (y ∷ ys) = x == y && bytes_eq xs ys

unfoldable pub bytes_lt : List ℕ → List ℕ → Bool
bytes_lt xs [] = false
bytes_lt [] (y ∷ ys) = true
bytes_lt (x ∷ xs) (y ∷ ys) = let rest = bytes_lt xs ys in if x == y then rest else ltb x y

pub bytes_eq_self : (xs : List ℕ) → bytes_eq xs xs ≡ true
unfolding bytes_eq
bytes_eq_self [] = refl
bytes_eq_self (x ∷ xs) = ground (arith, bytes_eq_self xs)

pub bytes_eq_sound : (xs ys : List ℕ) → bytes_eq xs ys ≡ true → xs ≡ ys
unfolding bytes_eq
bytes_eq_sound [] [] h = refl
bytes_eq_sound [] (y ∷ ys) h = cc
bytes_eq_sound (x ∷ xs) [] h = cc
bytes_eq_sound (x ∷ xs) (y ∷ ys) h = ground (arith, bytes_eq_sound xs ys)

pub bytes_eq_iff : (xs ys : List ℕ) → (bytes_eq xs ys ≡ true) ↔ (xs ≡ ys)
bytes_eq_iff xs ys = (bytes_eq_sound xs ys, λ e. rw e (bytes_eq_self ys))

instance abbrev pub bytes_key : Key (List ℕ)
bytes_key = record { eq = bytes_eq; lt = bytes_lt; eq_iff = bytes_eq_iff }

-- `int64_t` by its bit pattern; the order is that of the signed numbers.
instance abbrev pub int64_key : Key ℕ
int64_key = record {
  eq = ◌==◌;
  lt = λ a b. ltb ((a + 2 ^ 63) % 2 ^ 64) ((b + 2 ^ 63) % 2 ^ 64);
  eq_iff = ==_iff;
}
