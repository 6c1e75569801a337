-- ===== src/Map/Held.antt =====
-- How many entries a map with numbers for keys has, in all and for one key, and how often a number
-- stands in a list.
use lib_streamlabs_ipc.Base.{
  ℕ, suc, ◌+◌, ◌≤◌, ◌≡◌, refl, false, some, List, [], ◌∷◌, ◌++◌, length, arith, if◌then◌else◌, ◌==◌,
}
use lib_streamlabs_ipc.Map.{Map, find, contains, place, erase, int64_key}

-- How often the number stands in the list.
abbrev pub count : ℕ → List ℕ → ℕ
count k [] = 0
count k (j ∷ l) = if j == k then suc (count k l) else count k l

pub count-append : (k : ℕ) (xs ys : List ℕ) → count k xs ≤ count k (xs ++ ys)
count-append k [] ys = omega arith
count-append k (x ∷ xs) ys = ground (arith, count-append k xs ys)

-- How many entries of the map have the key.
abbrev pub held {ℓ} : {V : Type ℓ} → ℕ → Map ℕ V → ℕ
held k [] = 0
held k ((j, v) ∷ m) = if j == k then suc (held k m) else held k m

pub held-erase {ℓ} :
    {V : Type ℓ} (i k : ℕ) (m : Map ℕ V) → held k (erase i m) ≡ (if i == k then 0 else held k m)
unfolding erase
held-erase i k [] = ground arith
held-erase i k ((j, v) ∷ m) = ground (arith, held-erase i k m)

pub held-place {ℓ} :
    {V : Type ℓ} (i k : ℕ) (v : V) (m : Map ℕ V)
    → held k (place i v m) ≡ (if i == k then suc (held k m) else held k m)
unfolding place
held-place i k v [] = refl
held-place i k v ((j, u) ∷ m) = ground (arith, held-place i k v m)

pub held-contains {ℓ} : {V : Type ℓ} (k : ℕ) (m : Map ℕ V) → held k m ≡ 0 → contains k m ≡ false
unfolding contains
held-contains k [] h = refl
held-contains k ((j, v) ∷ m) h = ground (arith, held-contains k m)

pub held-find {ℓ} : {V : Type ℓ} (k : ℕ) (v : V) (m : Map ℕ V) → find k m ≡ some v → 1 ≤ held k m
unfolding find
held-find k v [] h = absurd cc
held-find k v ((j, u) ∷ m) h = ground (arith, held-find k v m)

pub contains-held {ℓ} : {V : Type ℓ} (k : ℕ) (m : Map ℕ V) → contains k m ≡ false → held k m ≡ 0
unfolding contains
contains-held k [] h = refl
contains-held k ((j, v) ∷ m) h = ground (arith, contains-held k m)

pub length-erase {ℓ} : {V : Type ℓ} (k : ℕ) (m : Map ℕ V) → length (erase k m) + held k m ≡ length m
unfolding erase
length-erase k [] = refl
length-erase k ((j, v) ∷ m) = ground (arith, length-erase k m)

pub length-place {ℓ} :
    {V : Type ℓ} (k : ℕ) (v : V) (m : Map ℕ V) → length (place k v m) ≡ suc (length m)
unfolding place
length-place k v [] = refl
length-place k v ((j, u) ∷ m) = ground (arith, length-place k v m)

-- Of a key that is there once at most.
pub length-erase_once {ℓ} :
    {V : Type ℓ} (k : ℕ) (v : V) (m : Map ℕ V)
    → held k m ≤ 1
    → find k m ≡ some v
    → length (erase k m) + 1 ≡ length m
length-erase_once k v m h e =
    let one = held-find k v m e in let same = length-erase k m in omega (arith, one, same)
