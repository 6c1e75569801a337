-- ===== src/Base/Outcomes.antt =====
-- What a C++ call can come to: a value, an exception, `abort()`, or undefined behaviour (an access
-- outside an object).
use mathlib.Core.Path.{◌≡◌}

pub data Outcome {ℓ} (A : Type ℓ) : Type ℓ where
  ok : A → Outcome A
  throws aborts undefined : Outcome A

infixl 5 ◌>>=◌
abbrev pub ◌>>=◌ {κ ℓ} : {X : Type κ} {Y : Type ℓ} → Outcome X → (X → Outcome Y) → Outcome Y
ok a >>= f = f a
throws >>= f = throws
aborts >>= f = aborts
undefined >>= f = undefined

-- If there is a value, it satisfies `P`.
abbrev pub Ensures {ℓ κ} : {A : Type ℓ} → (A → Type κ) → Outcome A → Type κ
Ensures P (ok a) = P a
Ensures P throws = Unit
Ensures P aborts = Unit
Ensures P undefined = Unit

module _ {ℓ κ} {A : Type ℓ} {B : Type κ} where
  pub Ensures-bind {μ ν} :
      (P : A → Type μ) (Q : B → Type ν) (m : Outcome A) (f : A → Outcome B)
      → Ensures P m
      → ((a : A) → P a → Ensures Q (f a))
      → Ensures Q (m >>= f)
  Ensures-bind P Q (ok a) f h k = k a h
  Ensures-bind P Q throws f h k = tt
  Ensures-bind P Q aborts f h k = tt
  Ensures-bind P Q undefined f h k = tt

  -- The same with nothing known of the first call.
  pub Ensures-after {ν} :
      (Q : B → Type ν) (m : Outcome A) (f : A → Outcome B)
      → ((a : A) → Ensures Q (f a))
      → Ensures Q (m >>= f)
  Ensures-after Q (ok a) f k = k a
  Ensures-after Q throws f k = tt
  Ensures-after Q aborts f k = tt
  Ensures-after Q undefined f k = tt

pub Ensures-ok {ℓ κ} :
    {A : Type ℓ} (P : A → Type κ) (m : Outcome A) (a : A) → Ensures P m → m ≡ ok a → P a
Ensures-ok P m a h e = rw e at h

pub Ensures-mono {ℓ μ ν} :
    {A : Type ℓ} (P : A → Type μ) (Q : A → Type ν) (m : Outcome A)
    → Ensures P m
    → ((a : A) → P a → Q a)
    → Ensures Q m
Ensures-mono P Q (ok a) h k = k a h
Ensures-mono P Q throws h k = tt
Ensures-mono P Q aborts h k = tt
Ensures-mono P Q undefined h k = tt

pub Ensures-both {ℓ μ ν} :
    {A : Type ℓ} (P : A → Type μ) (Q : A → Type ν) (m : Outcome A)
    → Ensures P m
    → Ensures Q m
    → Ensures (λ a. P a × Q a) m
Ensures-both P Q (ok a) h g = (h, g)
Ensures-both P Q throws h g = tt
Ensures-both P Q aborts h g = tt
Ensures-both P Q undefined h g = tt
