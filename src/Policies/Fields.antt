-- ===== src/Policies/Fields.antt =====
-- packages/users-backend/src/casl/fields-permission.interceptor.ts. `permittedFieldsOf` is CASL's:
-- its answer for the request's ability is given, `none` where the request has no ability.
use boar_pack.Base.{
  String, ◌≡◌, ◌≢◌, inl, inr, ◌∙◌, ap, sym, member-keep, Bool, true, false, ◌&&◌, ◌||◌, Option,
  none, some, List, [], ◌∷◌, text_eq, if◌then◌else◌, arith, member, keep, Result, ok, err,
  Bool-cases,
}

-- The exceptions; `type_error` is the one of writing to a request that was not parsed.
pub data Refusal : Type 0 where
  no_ability no_readable_fields type_error : Refusal

-- What the interceptor does to the selection of the parsed request.
pub data Selection : Type 0 where
  as_requested : Selection
  only : List String → Selection

-- The fields of the parsed request; it may be missing, or have no fields.
abbrev requested_fields : Option (Option (List String)) → List String
requested_fields (some (some fields)) = fields
requested_fields _ = []

-- `requested && requested.length > 0 ? … : permitted`
abbrev final_fields : List String → List String → List String
final_fields permitted [] = permitted
final_fields permitted (f ∷ fs) = keep (λ g. member g permitted) (f ∷ fs)

abbrev selected : Option (Option (List String)) → List String → Result Refusal Selection
selected crud_req [] = err no_readable_fields
selected none (f ∷ fs) = err type_error
selected (some parsed) (f ∷ fs) = ok (only (f ∷ fs))

abbrev permitted_selection : List String → Option (Option (List String)) → Result Refusal Selection
permitted_selection permitted crud_req =
    if member "*" permitted
    then ok as_requested
    else selected crud_req (final_fields permitted (requested_fields crud_req))

unfoldable pub intercept :
    Option (List String) → Option (Option (List String)) → Result Refusal Selection
intercept none crud_req = err no_ability
intercept (some permitted) crud_req = permitted_selection permitted crud_req

abbrev is_empty : List String → Bool
is_empty [] = true
is_empty (f ∷ fs) = false

selected-only :
    (crud_req : Option (Option (List String))) (fields found : List String)
    → selected crud_req found ≡ ok (only fields)
    → (found ≡ fields) × (fields ≢ [])
selected-only crud_req fields [] h = cc
selected-only none fields (f ∷ fs) h = cc
selected-only (some parsed) fields (f ∷ fs) h = ground arith

member-final_fields :
    (f : String) (permitted fields : List String)
    → member f (final_fields permitted fields)
      ≡ (member f permitted && (is_empty fields || member f fields))
member-final_fields f permitted [] = ground arith
member-final_fields f permitted (g ∷ gs) =
    member-keep (λ h. member h permitted) f (g ∷ gs) ∙ ground arith

-- A selection that the interceptor enforces is not empty, and holds exactly the permitted fields
-- among those that the request names, or all permitted fields where it names none. It enforces
-- none where the permitted fields include the wildcard.
pub intercept-only :
    (permitted : List String) (crud_req : Option (Option (List String))) (fields : List String)
    (f : String)
    → intercept (some permitted) crud_req ≡ ok (only fields)
    → (member "*" permitted ≡ false)
      × (fields ≢ [])
      × (member f fields ≡ (
          member f permitted
          && (is_empty (requested_fields crud_req) || member f (requested_fields crud_req))))
unfolding intercept
intercept-only permitted crud_req fields f h = elim (Bool-cases (member "*" permitted)) [
  | inl all_fields ↦ absurd (ground arith)
  | inr some_fields ↦ (
    some_fields,
    (selected-only crud_req fields (final_fields permitted (requested_fields crud_req))
        (ground arith)).1,
    ap (member f) (
          sym
            (selected-only crud_req fields (final_fields permitted (requested_fields crud_req))
              (ground arith)).0)
        ∙ member-final_fields f permitted (requested_fields crud_req),
  )
]
