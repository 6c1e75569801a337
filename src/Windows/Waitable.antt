-- ===== src/Windows/Waitable.antt =====
-- `os::waitable::wait_any` (source/windows/waitable.cpp). What the system says of the handles, and how
-- long it took, are parameters. Times are in milliseconds.
use lib_streamlabs_ipc.Base.{
  ℕ, zero, suc, ◌+◌, ◌-◌, ◌<◌, ◌≤◌, ◌≡◌, refl, ap, Option, none, some, ◌>>=◌, ◌==◌, List, [], ◌∷◌,
  length, if◌then◌else◌, ltb, le→ltb, ok, throws, arith,
}
use lib_streamlabs_ipc.Os.{Error, success, error, timed_out, disconnected}
use lib_streamlabs_ipc.Osx.Client.{Run, blocked, came_to}

abbrev pub maximum_wait_objects : ℕ
maximum_wait_objects = 64

-- What `WaitForMultipleObjectsEx` returns; `io_completion` with the time that it has taken.
pub data WaitResult : Type 0 where
  wait_object abandoned : ℕ → WaitResult
  timeout failed : WaitResult
  io_completion : ℕ → WaitResult

-- The handles of the items that are not null, in their order.
unfoldable pub valid_handles : List (Option ℕ) → List ℕ
valid_handles [] = []
valid_handles (none ∷ items) = valid_handles items
valid_handles (some handle ∷ items) = handle ∷ valid_handles items

-- `idxToTrueIdx`: at the index of an item, the number of items before it that are not null; 0 for a
-- null.
unfoldable pub idx_to_true_idx : ℕ → List (Option ℕ) → List ℕ
idx_to_true_idx n [] = []
idx_to_true_idx n (none ∷ items) = 0 ∷ idx_to_true_idx n items
idx_to_true_idx n (some handle ∷ items) = n ∷ idx_to_true_idx (suc n) items

abbrev pub at_index {ℓ} : {A : Type ℓ} → A → List A → ℕ → A
at_index a [] n = a
at_index a (x ∷ xs) zero = x
at_index a (x ∷ xs) (suc n) = at_index a xs n

-- The status, the index, `none` where it is left as it was or set to -1, and the world. `system` is
-- given the handles, the time left and a count of the retries left; `callback` is what the item at an
-- index does with its `call_callback`, nothing where it is null or no `async_op`. `blocked` is a wait
-- that is taken up again more than `fuel` times.
module _ {ℓ} {W : Type ℓ} (system : List ℕ → ℕ → ℕ → WaitResult) (callback : Option ℕ → W → W) where
  unfoldable pub wait_retry : ℕ → List (Option ℕ) → ℕ → W → Run (Error × Option ℕ × W)
  unfolding valid_handles idx_to_true_idx
  wait_retry zero items ms w = blocked
  wait_retry (suc fuel) items ms w = elim (system (valid_handles items) ms fuel) [
    | wait_object n ↦
        let signalled_index = at_index 0 (idx_to_true_idx 0 items) n in
        came_to
          (ok (success, some signalled_index, callback (at_index none items signalled_index) w))
    | abandoned n ↦ came_to (ok (disconnected, some (at_index 0 (idx_to_true_idx 0 items) n), w))
    | timeout ↦ came_to (ok (timed_out, none, w))
    | failed ↦ came_to (ok (error, none, w))
    | io_completion taken ↦ wait_retry fuel items (ms - taken) w
  ]

  -- `items` is null where it is `none`.
  unfoldable pub wait_any : ℕ → Option (List (Option ℕ)) → ℕ → W → Run (Error × Option ℕ × W)
  unfolding wait_retry
  wait_any fuel none ms w = came_to throws
  wait_any fuel (some items) ms w =
      if ltb maximum_wait_objects (length items) then came_to throws else wait_retry fuel items ms w

-- The items that point to the given handles, none of them null.
unfoldable pub items_of : List ℕ → List (Option ℕ)
items_of [] = []
items_of (h ∷ hs) = some h ∷ items_of hs

valid_handles-items_of : (hs : List ℕ) → valid_handles (items_of hs) ≡ hs
unfolding valid_handles items_of
valid_handles-items_of [] = refl
valid_handles-items_of (h ∷ hs) = ap (◌∷◌ h) (valid_handles-items_of hs)

length-items_of : (hs : List ℕ) → length (items_of hs) ≡ length hs
unfolding items_of
length-items_of [] = refl
length-items_of (h ∷ hs) = ap suc (length-items_of hs)

at_index-idx_to_true_idx :
    (m n : ℕ) (hs : List ℕ) → n < length hs → at_index 0 (idx_to_true_idx m (items_of hs)) n ≡ m + n
unfolding idx_to_true_idx items_of
at_index-idx_to_true_idx m n [] h = absurd (omega arith)
at_index-idx_to_true_idx m zero (x ∷ xs) h = omega arith
at_index-idx_to_true_idx m (suc n) (x ∷ xs) h =
    omega (arith, at_index-idx_to_true_idx (suc m) n xs (omega arith))

at_index-items_of :
    (n : ℕ) (hs : List ℕ) → n < length hs → at_index none (items_of hs) n ≡ some (at_index 0 hs n)
unfolding items_of
at_index-items_of n [] h = absurd (omega arith)
at_index-items_of zero (x ∷ xs) h = refl
at_index-items_of (suc n) (x ∷ xs) h = at_index-items_of n xs (omega arith)

module _ {ℓ} {W : Type ℓ} (system : List ℕ → ℕ → ℕ → WaitResult) (callback : Option ℕ → W → W) where
  -- Where none of the items is null, and there are no more than 64, the index that is returned is that
  -- of the handle that the system found signalled, and that item's callback has run.
  pub wait_any-signalled :
      (fuel ms n : ℕ) (hs : List ℕ) (w : W)
      → length hs ≤ maximum_wait_objects
      → n < length hs
      → system hs ms fuel ≡ wait_object n
      → wait_any system callback (suc fuel) (some (items_of hs)) ms w
        ≡ came_to (ok (success, some n, callback (some (at_index 0 hs n)) w))
  unfolding wait_any wait_retry
  wait_any-signalled fuel ms n hs w few bound signalled =
      let here : at_index 0 (idx_to_true_idx 0 (items_of hs)) n ≡ n =
        omega (arith, at_index-idx_to_true_idx 0 n hs bound) in
      rw (
        length-items_of hs,
        le→ltb maximum_wait_objects (length hs) few,
        wait_retry,
        valid_handles-items_of hs,
        signalled,
        here,
        at_index-items_of n hs bound,
      )

  -- Where a null stands before the only other item, and that is signalled, the index that is returned
  -- is that of the null, and the callback of the signalled item is not run.
  pub wait_any-after_null :
      (fuel ms handle : ℕ) (w : W)
      → system (handle ∷ []) ms fuel ≡ wait_object 0
      → wait_any system callback (suc fuel) (some (none ∷ some handle ∷ [])) ms w
        ≡ came_to (ok (success, some 0, callback none w))
  unfolding wait_any wait_retry valid_handles idx_to_true_idx
  wait_any-after_null fuel ms handle w signalled =
      rw (wait_any, wait_retry, valid_handles, signalled)

-- `wait` on one item. `callback` is its `call_callback`, nothing where it is no `async_op`.
module _ {ℓ} {W : Type ℓ} (single : ℕ → ℕ → WaitResult) (callback : W → W) where
  unfoldable pub wait : ℕ → ℕ → W → Run (Error × W)
  wait zero ms w = blocked
  wait (suc fuel) ms w = elim (single ms fuel) [
    | wait_object n ↦
        (if n == 0 then came_to (ok (success, callback w)) else came_to (ok (error, w)))
    | abandoned n ↦ (if n == 0 then came_to (ok (disconnected, w)) else came_to (ok (error, w)))
    | timeout ↦ came_to (ok (timed_out, w))
    | failed ↦ came_to (ok (error, w))
    | io_completion taken ↦ wait fuel (ms - taken) w
  ]

-- What the system says of one handle names that handle.
abbrev pub NamesOnly : WaitResult → Type 0
NamesOnly (wait_object n) = n ≡ 0
NamesOnly (abandoned n) = n ≡ 0
NamesOnly _ = Unit

-- Without the index.
abbrev pub forget_index {ℓ} : {W : Type ℓ} → Run (Error × Option ℕ × W) → Run (Error × W)
forget_index blocked = blocked
forget_index (came_to x) = came_to (x >>= (λ r. ok (r.0, r.2)))

module _ {ℓ} {W : Type ℓ} (system : List ℕ → ℕ → ℕ → WaitResult) (callback : Option ℕ → W → W)
    (handle : ℕ) (names : (ms fuel : ℕ) → NamesOnly (system (handle ∷ []) ms fuel)) where
  abbrev SameWait : ℕ → ℕ → W → Type ℓ
  SameWait fuel ms w =
      forget_index (wait_retry system callback fuel (some handle ∷ []) ms w)
      ≡ wait (system (handle ∷ [])) (callback (some handle)) fuel ms w

  same_answer :
      (fuel ms : ℕ) (w : W) (r : WaitResult)
      → system (handle ∷ []) ms fuel ≡ r
      → NamesOnly r
      → ((taken : ℕ) → SameWait fuel (ms - taken) w)
      → SameWait (suc fuel) ms w
  unfolding wait wait_retry valid_handles idx_to_true_idx
  same_answer fuel ms w (wait_object n) e z h = rw (wait_retry, wait, valid_handles, e, z) refl
  same_answer fuel ms w (abandoned n) e z h = rw (wait_retry, wait, valid_handles, e, z) refl
  same_answer fuel ms w timeout e z h = rw (wait_retry, wait, valid_handles, e) refl
  same_answer fuel ms w failed e z h = rw (wait_retry, wait, valid_handles, e) refl
  same_answer fuel ms w (io_completion taken) e z h =
      rw (wait_retry, wait, valid_handles, e) (h taken)

  retry-SameWait : (fuel ms : ℕ) (w : W) → SameWait fuel ms w
  unfolding wait wait_retry
  retry-SameWait zero ms w = refl
  retry-SameWait (suc fuel) ms w =
      same_answer fuel ms w (system (handle ∷ []) ms fuel) refl (names ms fuel)
        (λ taken. retry-SameWait fuel (ms - taken) w)

  -- `wait` on an item does what `wait_any` does on that item alone: the same status after the same time,
  -- and the callback runs in the same cases. The system names no other handle than the one that it is given.
  pub wait-wait_any :
      (fuel ms : ℕ) (w : W)
      → forget_index (wait_any system callback fuel (some (some handle ∷ [])) ms w)
        ≡ wait (system (handle ∷ [])) (callback (some handle)) fuel ms w
  unfolding wait_any
  wait-wait_any fuel ms w = retry-SameWait fuel ms w
