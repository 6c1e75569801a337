-- ===== src/Naming.antt =====
-- The free functions of source/ipc.cpp: `make_unique_id`, `vectortohex` and
-- `ProcessInfo::getDescription`.
pub mod UniqueId
use lib_streamlabs_ipc.Base.{
  ℕ, zero, suc, ◌+◌, ◌*◌, ◌/◌, ◌%◌, ◌≤◌, ◌≡◌, List, [], ◌∷◌, ◌++◌, String, codes, length, arith,
  ltb, ◌==◌, if◌then◌else◌, refl, ◌↔◌, Option, none, some,
}
use Prim.Native.Nat.{min}
use lib_streamlabs_ipc.Bytes.{Bytes}
use lib_streamlabs_ipc.Map.{Map, find, insert_or_assign, int64_key}
use lib_streamlabs_ipc.Value.{
  ValueType, null, float, double, int32, int64, uint32, uint64, string, binary, unlisted,
}

unfoldable pub type_code : ValueType → Bytes
type_code null = codes "N0"
type_code float = codes "F4"
type_code double = codes "F8"
type_code int32 = codes "I4"
type_code int64 = codes "I8"
type_code uint32 = codes "U4"
type_code uint64 = codes "U8"
type_code string = codes "PS"
type_code binary = codes "PB"
type_code (unlisted n) = []

unfoldable pub type_codes : List ValueType → Bytes
unfolding type_code
type_codes [] = []
type_codes (p ∷ ps) = type_code p ++ type_codes ps

unfoldable pub make_unique_id : Bytes → List ValueType → Bytes
unfolding type_codes
make_unique_id name params = name ++ (codes "_" ++ type_codes params)

unfoldable pub hexchar : ℕ → ℕ
hexchar d = if ltb d 10 then 48 + d else 55 + d

-- From index `idx` on; the loop leaves behind the first index above 100.
unfoldable pub hex_loop : ℕ → Bytes → Bytes
unfolding hexchar
hex_loop idx [] = []
hex_loop idx (ch ∷ rest) =
    let more = hex_loop (idx + 1) rest in
    hexchar (ch / 16 % 16) ∷ hexchar (ch % 16) ∷ b' ' ∷ (if ltb 100 idx then [] else more)

unfoldable pub vectortohex : Bytes → Bytes
unfolding hex_loop
vectortohex buf = hex_loop 0 buf

length-hex_loop :
    (n idx : ℕ) (buf : Bytes)
    → n + idx ≡ 101
    → length (hex_loop idx buf) ≡ 3 * min (n + 1) (length buf)
unfolding hex_loop
length-hex_loop zero idx [] e = omega arith
length-hex_loop (suc n) idx [] e = omega arith
length-hex_loop zero idx (ch ∷ rest) e = ground arith
length-hex_loop (suc n) idx (ch ∷ rest) e =
    ground (arith, length-hex_loop n (idx + 1) rest (omega arith))

-- `vectortohex` writes three characters for each of the first 102 bytes, and nothing for the others.
pub length-vectortohex : (buf : Bytes) → length (vectortohex buf) ≡ 3 * min 102 (length buf)
unfolding vectortohex
length-vectortohex buf = length-hex_loop 101 0 buf refl

-- `ProcessInfo::ExitCode`
pub data ExitCode : Type 0 where
  still_running version_mismatch other_error missing_dependency normal_exit : ExitCode

unfoldable pub exit_code : ExitCode → ℕ
exit_code still_running = 259
exit_code version_mismatch = 252
exit_code other_error = 253
exit_code missing_dependency = 254
exit_code normal_exit = 0

unfoldable pub init_descriptions : Map ℕ Bytes
unfolding insert_or_assign exit_code
init_descriptions =
    let m1 : Map ℕ Bytes = insert_or_assign (exit_code still_running) (codes "Still runnings") [] in
    let m2 : Map ℕ Bytes = insert_or_assign (exit_code normal_exit) (codes "Normal exit") m1 in
    let m3 : Map ℕ Bytes =
      insert_or_assign (exit_code other_error) (codes "Unknown error - check logs") m2 in
    insert_or_assign (exit_code version_mismatch) (codes "Version mismatch") m3

abbrev description_or : Option Bytes → Bytes
description_or (some d) = d
description_or none = codes "Generic Error"

-- `static_cast<ExitCode>(key)` keeps the number.
unfoldable pub get_description : ℕ → Bytes
unfolding init_descriptions find
get_description key = description_or (find key init_descriptions)

-- The enumerator `missing_dependency` is the only one with no description of its own: it is described
-- as a number that no enumerator has.
pub get_description-missing :
    (e : ExitCode)
    → (get_description (exit_code e) ≡ codes "Generic Error") ↔ (e ≡ missing_dependency)
unfolding get_description exit_code
get_description-missing still_running = (λ h. cc, λ h. cc)
get_description-missing version_mismatch = (λ h. cc, λ h. cc)
get_description-missing other_error = (λ h. cc, λ h. cc)
get_description-missing missing_dependency = (λ h. refl, λ h. refl)
get_description-missing normal_exit = (λ h. cc, λ h. cc)
