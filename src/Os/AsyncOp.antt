-- ===== src/Os/AsyncOp.antt =====
-- `os::async_op` (include/async_op.hpp, source/async_op.cpp) with `os::apple::async_request`
-- (source/apple/async_request.cpp): an operation that runs each of its two callbacks at most once
-- between one `set_valid` and the next. `W` is what the callbacks change.
use lib_streamlabs_ipc.Base.{
  ℕ, ◌≡◌, refl, Bool, true, false, ◌&&◌, not, Option, none, some, Outcome, ok, throws,
  if◌then◌else◌,
}
use lib_streamlabs_ipc.Os.{Error}

-- `async_op_cb_t`
abbrev pub AsyncOpCb {ℓ} : Type ℓ → Type ℓ
AsyncOpCb W = Error → ℕ → W → W

-- `F` stands for the callbacks: functions, or names of functions that the code binds.
pub record AsyncOp {ℓ} (F : Type ℓ) : Type ℓ where
  pub valid : Bool
  pub callback : Option F
  pub callback_called : Bool
  pub system_callback : Option F
  pub system_callback_called : Bool

module _ {ℓ} {F : Type ℓ} where
  abbrev pub new_op : AsyncOp F
  new_op = record {
    valid = false;
    callback = none;
    callback_called = false;
    system_callback = none;
    system_callback_called = false;
  }

  -- `make_shared` where the pointer is null.
  abbrev pub op_or_new : Option (AsyncOp F) → AsyncOp F
  op_or_new none = new_op
  op_or_new (some ar) = ar

  unfoldable pub is_valid : AsyncOp F → Bool
  is_valid op = op.valid

  -- A valid request is complete.
  unfoldable pub is_complete : AsyncOp F → Bool
  unfolding is_valid
  is_complete op = if not (is_valid op) then false else true

  unfoldable pub invalidate : AsyncOp F → AsyncOp F
  invalidate op = record op { valid = false; callback_called = true }

  -- The stored semaphore is never read.
  unfoldable pub set_sem : AsyncOp F → AsyncOp F
  set_sem op = record op { valid = false; callback_called = false }

  unfoldable pub set_valid : Bool → AsyncOp F → AsyncOp F
  set_valid valid op = record op { valid = valid; callback_called = false }

  unfoldable pub cancel : AsyncOp F → Bool
  unfolding is_valid
  cancel op = if not (is_valid op) then false else true

  -- `complete` is what the override of `is_complete` returns.
  unfoldable pub set_callback : Bool → Option F → AsyncOp F → Outcome (AsyncOp F)
  unfolding is_valid
  set_callback complete cb op =
      if is_valid op && not complete then throws else ok (record op { callback = cb })

  unfoldable pub set_system_callback : Bool → Option F → AsyncOp F → Outcome (AsyncOp F)
  unfolding is_valid
  set_system_callback complete cb op =
      if is_valid op && not complete then throws else ok (record op { system_callback = cb })

module _ {ℓ} {W : Type ℓ} where
  abbrev pub run_once : Option (AsyncOpCb W) → Bool → Error → ℕ → W → W × Bool
  run_once none called ec length w = (w, called)
  run_once (some cb) true ec length w = (w, true)
  run_once (some cb) false ec length w = (cb ec length w, true)

  -- The system's callback first.
  unfoldable pub call_callback : Error → ℕ → AsyncOp (AsyncOpCb W) → W → AsyncOp (AsyncOpCb W) × W
  call_callback ec length op w =
      let (w1, system_called) = run_once op.system_callback op.system_callback_called ec length w in
      let (w2, called) = run_once op.callback op.callback_called ec length w1 in
      (record op { system_callback_called = system_called; callback_called = called }, w2)

module _ {ℓ} {W : Type ℓ} where
  run_once-twice :
      (cb : Option (AsyncOpCb W)) (called : Bool) (ec ec' : Error) (n n' : ℕ) (w w' : W)
      → run_once cb (run_once cb called ec n w).1 ec' n' w' ≡ (w', (run_once cb called ec n w).1)
  run_once-twice none called ec ec' n n' w w' = refl
  run_once-twice (some cb) true ec ec' n n' w w' = refl
  run_once-twice (some cb) false ec ec' n n' w w' = refl

  -- A second `call_callback` runs nothing and changes nothing, whatever its status and length are.
  pub call_callback-once :
      (ec ec' : Error) (n n' : ℕ) (op : AsyncOp (AsyncOpCb W)) (w : W)
      → call_callback ec' n' (call_callback ec n op w).0 (call_callback ec n op w).1
        ≡ call_callback ec n op w
  unfolding call_callback
  call_callback-once ec ec' n n' op w =
      let w1 = (run_once op.system_callback op.system_callback_called ec n w).0 in
      let w2 = (run_once op.callback op.callback_called ec n w1).0 in
      rw (
        run_once-twice op.system_callback op.system_callback_called ec ec' n n' w w2,
        run_once-twice op.callback op.callback_called ec ec' n n' w1 w2,
      )

  -- After `set_valid` an operation runs its user's callback once more, and not the system's, which
  -- has run before.
  pub set_valid-rearms :
      (ec ec' : Error) (n n' : ℕ) (sys cb : AsyncOpCb W) (op : AsyncOp (AsyncOpCb W)) (w w' : W)
      → op.system_callback ≡ some sys
      → op.callback ≡ some cb
      → (call_callback ec' n' (set_valid true (call_callback ec n op w).0) w').1 ≡ cb ec' n' w'
  unfolding call_callback set_valid
  set_valid-rearms ec ec' n n' sys cb op w w' e f =
      rw (run_once-twice op.system_callback op.system_callback_called ec ec' n n' w w', f)

  -- Of an invalidated operation only the system's callback can still run.
  pub call_callback-invalidate :
      (ec : Error) (n : ℕ) (op : AsyncOp (AsyncOpCb W)) (w : W)
      → (call_callback ec n (invalidate op) w).1
        ≡ (run_once op.system_callback op.system_callback_called ec n w).0
  unfolding call_callback invalidate
  call_callback-invalidate ec n op w =
      let (w1, called) = run_once op.system_callback op.system_callback_called ec n w in
      elim op.callback as (λ cb. (run_once cb true ec n w1).0 ≡ w1) [ none ↦ refl | some cb ↦ refl ]
