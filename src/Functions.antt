-- ===== src/Functions.antt =====
-- `ipc::function` (include/ipc-function.hpp, source/ipc-function.cpp). `W` is whatever the handlers
-- of the application read and write; a handler is a C function pointer, so it may be null.
use lib_streamlabs_ipc.Base.{ℕ, List, Option, none, some}
use lib_streamlabs_ipc.Bytes.{Bytes}
use lib_streamlabs_ipc.Value.{ValueType, Value}
use lib_streamlabs_ipc.Naming.{make_unique_id}

-- `call_handler_t`: the user's pointer, the client's id, the arguments, and the results to write.
abbrev pub CallHandler {ℓ} : Type ℓ → Type ℓ
CallHandler W = ℕ → ℕ → List Value → List Value → W → List Value × W

pub record Function {ℓ} (W : Type ℓ) : Type ℓ where
  pub name : Bytes
  pub name_unique : Bytes
  pub params : List ValueType
  pub handler : Option (CallHandler W)
  pub user_data : ℕ

module _ {ℓ} {W : Type ℓ} where
  unfoldable pub make_function : Bytes → List ValueType → Option (CallHandler W) → ℕ → Function W
  make_function name params ptr user_data = record {
    name = name;
    name_unique = make_unique_id name params;
    params = params;
    handler = ptr;
    user_data = user_data;
  }

  unfoldable pub get_unique_name : Function W → Bytes
  get_unique_name f = f.name_unique

  unfoldable pub get_name : Function W → Bytes
  get_name f = f.name

  -- A function without a handler leaves the results as they are.
  unfoldable pub call : Function W → ℕ → List Value → List Value → W → List Value × W
  call f id args rval w = elim f.handler [
    | none ↦ (rval, w)
    | some ptr ↦ ptr f.user_data id args rval w
  ]
