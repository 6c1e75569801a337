-- ===== src/Server/Dispatch.antt =====
-- What a call of a client comes to, given what has been registered.
use lib_streamlabs_ipc.Base.{
  ℕ, ◌≡◌, ◌≢◌, refl, ◌∙◌, ◌↔◌, inl, inr, true, false, Option, none, some, List, [], ◌∷◌, All, arith,
  Option-cases,
}
use lib_streamlabs_ipc.Bytes.{Bytes}
use lib_streamlabs_ipc.Map.{find, contains, bytes_key, bytes_eq_self, find-insert}
use lib_streamlabs_ipc.Value.{Value}
use lib_streamlabs_ipc.Functions.{Function, get_name}
use lib_streamlabs_ipc.Collections.{
  Collection, register_function, get_function, c_str, get_function-register_function,
}
use lib_streamlabs_ipc.Server.{
  Registry, CallResult, register_collection, run_function, client_call_function,
}

-- The function that a class name and a function name stand for.
unfoldable pub registered {ℓ} : {W : Type ℓ} → Registry W → Bytes → Bytes → Option (Function W)
registered s cname fname = elim (find cname s.classes) [
  | none ↦ none
  | some cls ↦ get_function cls fname
]

-- A name without a zero byte.
abbrev pub IsText : Bytes → Type 0
IsText = All (λ b. b ≢ 0)

pub c_str-IsText : (name : Bytes) → IsText name → c_str name ≡ name
unfolding c_str
c_str-IsText [] h = refl
c_str-IsText (b ∷ bs) (h, hs) = ground (arith, c_str-IsText bs hs)

module _ {ℓ} {W : Type ℓ} (s : Registry W) (cid : ℕ) (cname fname : Bytes) (args rval : List Value)
    (errormsg : Bytes) (w : W) where
  -- A call of a registered function runs it, and succeeds.
  pub client_call_function-registered :
      (fnc : Function W)
      → registered s cname fname ≡ some fnc
      → client_call_function s cid cname fname args rval errormsg w
        ≡ run_function s fnc cid cname fname args rval errormsg w
  unfolding client_call_function registered
  client_call_function-registered fnc e = elim (Option-cases (find cname s.classes)) [
    | inl h ↦ absurd (cc (rw (h, registered) at e))
    | inr (cls, h) ↦ rw (h, client_call_function) (rw (rw (h, registered) at e))
  ]

  -- What the next theorem says of a result `r`, where the names stand for `found`.
  OutcomeOf : Option (Function W) → CallResult W → Type ℓ
  OutcomeOf found r =
      ((r.success ≡ true) ↔ ((fnc : Function W) × (found ≡ some fnc)))
      × (r.success ≡ false → (r.world ≡ w) × (r.rval ≡ rval) × (r.errormsg ≢ []))
      × (r.success ≡ true → r.errormsg ≡ errormsg)

  refused :
      (r : CallResult W)
      → r.success ≡ false
      → r.world ≡ w
      → r.rval ≡ rval
      → r.errormsg ≢ []
      → OutcomeOf none r
  unfolding OutcomeOf
  refused r f ew er em =
      ((λ h. absurd (cc), λ h. absurd (cc (h.1))), λ h. (ew, er, em), λ h. absurd (cc))

  -- A call succeeds just when both names are registered. If it fails, the application's state and
  -- the results are as they were, and there is a message; if it succeeds, the message is as it was.
  pub client_call_function_outcome :
      let r = client_call_function s cid cname fname args rval errormsg w in
      ((r.success ≡ true) ↔ ((fnc : Function W) × (registered s cname fname ≡ some fnc)))
      × (r.success ≡ false → (r.world ≡ w) × (r.rval ≡ rval) × (r.errormsg ≢ []))
      × (r.success ≡ true → r.errormsg ≡ errormsg)
  unfolding client_call_function registered OutcomeOf
  client_call_function_outcome = elim (Option-cases (find cname s.classes)) [
    | inl e ↦ rw (e, client_call_function, registered) (refused _ refl refl refl (λ h. cc))
    | inr (cls, e) ↦
        rw (e, client_call_function, registered)
          (elim (Option-cases (get_function cls fname)) [
            | inl f ↦ rw f (refused _ refl refl refl (λ h. cc))
            | inr (fnc, f) ↦ rw f ((λ h. (fnc, refl), λ h. refl), λ h. absurd (cc), λ h. refl)
          ])
  ]

-- A function whose name is free in its class and has no zero byte, registered in a class whose name
-- is free, which is then registered, is what the two names stand for.
pub registered-register {ℓ} :
    {W : Type ℓ} (s : Registry W) (cls : Collection W) (fnc : Function W)
    → contains (get_name fnc) cls.functions ≡ false
    → IsText (get_name fnc)
    → contains cls.name s.classes ≡ false
    → registered (register_collection s (register_function cls fnc).0).0 cls.name (get_name fnc)
      ≡ some fnc
unfolding registered register_collection
registered-register s cls fnc free text new =
    let cls' = (register_function cls fnc).0 in
    let named : cls'.name ≡ cls.name = unfold register_function in rw free in
    let got = get_function-register_function cls fnc (get_name fnc) free in
    rw
      (
        named,
        new,
        registered,
        find-insert cls.name cls.name cls' s.classes new,
        bytes_eq_self cls.name,
      )
      (got.1 ∙ rw (c_str-IsText (get_name fnc) text, bytes_eq_self (get_name fnc)))
