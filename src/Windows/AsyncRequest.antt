-- ===== src/Windows/AsyncRequest.antt =====
-- `os::windows::async_request` (source/windows/async_request.cpp), an `os::async_op` over an
-- `OVERLAPPED`. What the system knows of that is a parameter.
use lib_streamlabs_ipc.Base.{
  ℕ, Bool, true, false, not, Option, none, some, Outcome, ok, if◌then◌else◌, ◌>>=◌,
}
use lib_streamlabs_ipc.Os.{Error}
use lib_streamlabs_ipc.Os.AsyncOp.{AsyncOp, op_or_new, set_callback}
use lib_streamlabs_ipc.Windows.Utility.{ErrorCodes, translate_error}

-- `HasOverlappedIoCompleted`, `CancelIoEx`, and the error code and the bytes that
-- `GetOverlappedResult` leaves.
pub record Overlapped {ℓ} (W : Type ℓ) : Type ℓ where
  pub has_completed : W → Bool
  pub cancel_io : W → Bool × W
  pub get_result : W → ℕ × ℕ

module _ {ℓ} {F : Type ℓ} where
  unfoldable pub is_valid : AsyncOp F → Bool
  is_valid op = op.valid

  -- The stored handle is that of the socket.
  unfoldable pub set_handle : AsyncOp F → AsyncOp F
  set_handle op = record op { valid = false; callback_called = false }

  unfoldable pub set_valid : Bool → AsyncOp F → AsyncOp F
  set_valid valid op = record op { valid = valid; callback_called = false }

  unfoldable pub invalidate : AsyncOp F → AsyncOp F
  invalidate op = record op { valid = false; callback_called = true }

  -- `call_callback` of an operation without a system callback: the callback that it runs, and the
  -- operation that this one finds.
  unfoldable pub due : AsyncOp F → Option F × AsyncOp F
  due op = if op.callback_called then (none, op) else elim op.callback [
    | none ↦ (none, op)
    | some cb ↦ (some cb, record op { callback_called = true })
  ]

module _ {ℓ κ} {F : Type ℓ} {W : Type κ} (overlapped : Overlapped W) where
  unfoldable pub is_complete : AsyncOp F → W → Bool
  unfolding is_valid
  is_complete op w = if not (is_valid op) then false else overlapped.has_completed w

  unfoldable pub cancel : AsyncOp F → W → Bool × W
  unfolding is_valid is_complete
  cancel op w =
      if not (is_valid op)
      then (false, w)
      else if not (is_complete op w)
      then overlapped.cancel_io w
      else (true, w)

  -- The destructor.
  unfoldable pub destroy : AsyncOp F → W → W
  unfolding is_valid cancel
  destroy op w = if is_valid op then (cancel op w).1 else w

  -- What `read` and `write` of a socket do to an operation, or to a new one, before the
  -- system call.
  unfoldable pub prepare : Option F → Option (AsyncOp F) → W → Outcome (AsyncOp F)
  unfolding is_complete set_handle
  prepare cb op w = do
    let ar = op_or_new op
    ar' ← set_callback (is_complete ar w) cb ar
    ok (set_handle ar')

-- The status and the length that `call_callback()` hands to the callbacks.
unfoldable pub result {ℓ} : {W : Type ℓ} → Overlapped W → ErrorCodes → W → Error × ℕ
result overlapped codes w =
    let (code, bytes) = overlapped.get_result w in (translate_error codes code, bytes)
