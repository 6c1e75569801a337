-- ===== src/Collections.antt =====
-- `ipc::collection` (include/ipc-class.hpp, source/ipc-class.cpp): functions by their names.
use lib_streamlabs_ipc.Base.{
  ℕ, ◌≡◌, refl, sym, ◌∙◌, ap, inl, inr, Bool, true, false, Option, none, some, List, [], ◌∷◌, arith,
  if◌then◌else◌, ◌==◌, Bool-cases,
}
use lib_streamlabs_ipc.Bytes.{Bytes}
use lib_streamlabs_ipc.Map.{
  Map, find, contains, insert, bytes_eq, bytes_key, find-insert, contains-insert,
}
use lib_streamlabs_ipc.Value.{ValueType}
use lib_streamlabs_ipc.Functions.{Function, CallHandler, get_name, make_function}

pub record Collection {ℓ} (W : Type ℓ) : Type ℓ where
  pub name : Bytes
  pub functions : Map Bytes (Function W)

-- The text that a C string function sees: what stands before the first zero byte.
unfoldable pub c_str : Bytes → Bytes
c_str [] = []
c_str (b ∷ bs) = if b == 0 then [] else b ∷ c_str bs

module _ {ℓ} {W : Type ℓ} where
  unfoldable pub make_collection : Bytes → Collection W
  make_collection name = record { name = name; functions = [] }

  unfoldable pub register_function : Collection W → Function W → Collection W × Bool
  register_function c func =
      if contains (get_name func) c.functions
      then (c, false)
      else (record c { functions = insert (get_name func) func c.functions }, true)

  -- The loop over the entries.
  unfoldable pub search : Map Bytes (Function W) → Bytes → Option (Function W)
  search [] name = none
  search ((key, func) ∷ rest) name =
      if bytes_eq key (c_str name) then some func else search rest name

  unfoldable pub get_function : Collection W → Bytes → Option (Function W)
  get_function c name = search c.functions name

module _ {ℓ} {W : Type ℓ} where
  search-find : (m : Map Bytes (Function W)) (name : Bytes) → search m name ≡ find (c_str name) m
  unfolding search find
  search-find [] name = refl
  search-find ((key, func) ∷ rest) name = ground (arith, search-find rest name)

  -- `get_function` is the lookup of the name up to its first zero byte.
  pub get_function-find :
      (c : Collection W) (name : Bytes) → get_function c name ≡ find (c_str name) c.functions
  unfolding get_function
  get_function-find c name = search-find c.functions name

  -- A function whose name is free is registered, and then found under every text that a C string
  -- function reads as its name; what is found under other names stays as it was.
  pub get_function-register_function :
      (c : Collection W) (func : Function W) (name : Bytes)
      → contains (get_name func) c.functions ≡ false
      → ((register_function c func).1 ≡ true)
        × (get_function (register_function c func).0 name
            ≡ (if bytes_eq (get_name func) (c_str name) then some func else get_function c name))
  unfolding register_function
  get_function-register_function c func name free = rw free (
    refl,
    get_function-find _ name
        ∙ find-insert (get_name func) (c_str name) func c.functions free
        ∙ ap (λ r. if bytes_eq (get_name func) (c_str name) then some func else r)
            (sym (get_function-find c name)),
  )

  -- A second function of the same name is refused, whatever its parameters are, and changes nothing.
  pub register_function_overload :
      (c : Collection W) (name : Bytes) (ps qs : List ValueType) (p q : Option (CallHandler W))
      (d e : ℕ)
      → let c' = (register_function c (make_function name ps p d)).0 in
        register_function c' (make_function name qs q e) ≡ (c', false)
  unfolding register_function get_name make_function
  register_function_overload c name ps qs p q d e = elim (Bool-cases (contains name c.functions)) [
    | inl known ↦ rw (known, known)
    | inr free ↦ rw free (rw (contains-insert name _ c.functions free))
  ]
