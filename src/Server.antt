-- ===== src/Server.antt =====
-- `ipc::server` (include/ipc-server.hpp, source/ipc-server.cpp): the registry of classes and the
-- dispatch of a call. `W` is the state of the application.
pub mod Clients
pub mod Dispatch
use lib_streamlabs_ipc.Base.{
  ℕ, Bool, true, false, Option, none, some, List, [], ◌++◌, String, codes, if◌then◌else◌, not,
}
use lib_streamlabs_ipc.Bytes.{Bytes}
use lib_streamlabs_ipc.Map.{Map, find, contains, insert, bytes_key}
use lib_streamlabs_ipc.Value.{Value}
use lib_streamlabs_ipc.Functions.{Function, call}
use lib_streamlabs_ipc.Collections.{Collection, get_function}

-- `server_pre_callback_t` and `server_post_callback_t`, with the user's pointer put in.
abbrev pub Callback {ℓ} : Type ℓ → Type ℓ
Callback W = Bytes → Bytes → List Value → W → W

-- The part of the server that a call reads.
pub record Registry {ℓ} (W : Type ℓ) : Type ℓ where
  pub classes : Map Bytes (Collection W)
  pub pre_callback : Option (Callback W)
  pub post_callback : Option (Callback W)

-- What `client_call_function` returns and writes through its references.
pub record CallResult {ℓ} (W : Type ℓ) : Type ℓ where
  pub success : Bool
  pub rval : List Value
  pub errormsg : Bytes
  pub world : W

unfoldable pub class_missing : Bytes → Bytes
class_missing cname = codes "Class '" ++ cname ++ codes "' is not registered."

unfoldable pub function_missing : Bytes → Bytes → Bytes
function_missing cname fname =
    codes "Function '" ++ fname ++ codes "' not found in class '" ++ cname ++ codes "'."

module _ {ℓ} {W : Type ℓ} where
  unfoldable pub register_collection : Registry W → Collection W → Registry W × Bool
  register_collection s cls =
      if contains cls.name s.classes
      then (s, false)
      else (record s { classes = insert cls.name cls s.classes }, true)

  unfoldable pub set_pre_callback : Registry W → Option (Callback W) → Registry W
  set_pre_callback s handler = record s { pre_callback = handler }

  unfoldable pub set_post_callback : Registry W → Option (Callback W) → Registry W
  set_post_callback s handler = record s { post_callback = handler }

  abbrev pub run_callback : Option (Callback W) → Bytes → Bytes → List Value → W → W
  run_callback none cname fname vs w = w
  run_callback (some cb) cname fname vs w = cb cname fname vs w

  unfoldable pub run_function :
      Registry W
      → Function W
      → ℕ
      → Bytes
      → Bytes
      → List Value
      → List Value
      → Bytes
      → W
      → CallResult W
  run_function s fnc cid cname fname args rval errormsg w =
      let w1 = run_callback s.pre_callback cname fname args w in
      let (rval', w2) = call fnc cid args rval w1 in
      record {
        success = true;
        rval = rval';
        errormsg = errormsg;
        world = run_callback s.post_callback cname fname rval' w2;
      }

  unfoldable pub client_call_function :
      Registry W → ℕ → Bytes → Bytes → List Value → List Value → Bytes → W → CallResult W
  unfolding class_missing function_missing run_function
  client_call_function s cid cname fname args rval errormsg w = elim (find cname s.classes) [
    | none ↦ record { success = false; rval = rval; errormsg = class_missing cname; world = w }
    | some cls ↦ elim (get_function cls fname) [
      | none ↦ record {
        success = false;
        rval = rval;
        errormsg = function_missing cname fname;
        world = w;
      }
      | some fnc ↦ run_function s fnc cid cname fname args rval errormsg w
    ]
  ]
