-- ===== src/Descriptions/InStep.antt =====
-- The entity that is shown against the one that the server holds.
use boar_pack.Base.{
  refl, none, Option, String, ◌≡◌, sym, ap, ◌∙◌, Bool, true, false, some, List, [], ◌∷◌, text_eq,
  ◌==◌, if◌then◌else◌, all, arith, Bool-cases, inl, inr,
}
use mathlib.Core.Option.{some-injective}
use boar_pack.Dict.{get, set, get-set, get-set_same}
use boar_pack.Tables.Editing.{Cell, Cells, spread}
use boar_pack.Descriptions.Entity.{
  Outcome, Event, requested, request_fails, given, edited, World, request_done, request_failed,
  on_save, edit, step, run,
}

-- No other entity is given.
abbrev pub of_server : Event → Bool
of_server (given entity) = false
of_server _ = true

-- Each key of what is shown has the value that the server holds.
abbrev pub IsCurrent : World → Type 0
IsCurrent w =
    (entity : Cells) (k : String) → w.shown.current ≡ some entity → get k entity ≡ get k w.server

-- The body of an update is the field that was edited.
abbrev pub Sends : (Cells → String → Cells) → (Cells → Cells) → Type 0
Sends pick dto =
    (r : Cells) (prop : String) (value : Cell)
    → get prop r ≡ some value
    → dto (pick r prop) ≡ (prop, value) ∷ []

module _ (pick : Cells → String → Cells) (dto : Cells → Cells) where
  get-set_both :
      (prop k : String) (value : Cell) (r q : Cells)
      → get k r ≡ get k q
      → get k (set prop value r) ≡ get k (set prop value q)
  get-set_both prop k value r q h =
      get-set prop k value r
      ∙ ap (λ o. if prop == k then some value else o) h
      ∙ sym (get-set prop k value q)

  edit-IsCurrent :
      (prop : String) (value : Cell) (outcome : Outcome) (shown : Cells) (w : World)
      → Sends pick dto
      → w.shown.current ≡ some shown
      → IsCurrent w
      → IsCurrent (edit pick dto prop value outcome (some shown) w)
  unfolding on_save
  edit-IsCurrent prop value outcome shown w sends there h = elim (Bool-cases outcome.valid) [
    | inl valid ↦ elim (Bool-cases outcome.updated) [
      | inl updated ↦
          rw (edit, on_save, valid, updated)
            (λ entity k is.
              ap (get k) (sym (some-injective _ _ is))
              ∙ get-set_both prop k value shown w.server (h shown k there)
              ∙ ap (λ body. get k (spread body w.server))
                  (sym (sends (set prop value shown) prop value (get-set_same prop value shown))))
      | inr failed ↦ rw (edit, on_save, valid, failed) h
    ]
    | inr wrong ↦ rw (edit, on_save, wrong) h
  ]

  any_edit-IsCurrent :
      (prop : String) (value : Cell) (outcome : Outcome) (current : Option Cells) (w : World)
      → Sends pick dto
      → w.shown.current ≡ current
      → IsCurrent w
      → IsCurrent (edit pick dto prop value outcome current w)
  any_edit-IsCurrent prop value outcome none w sends is h = h
  any_edit-IsCurrent prop value outcome (some shown) w sends is h =
      edit-IsCurrent prop value outcome shown w sends is h

  either-IsCurrent :
      (b : Bool) (w v : World) → IsCurrent w → IsCurrent v → IsCurrent (if b then w else v)
  either-IsCurrent true w v h k = h
  either-IsCurrent false w v h k = k

  step-IsCurrent :
      (e : Event) (w : World)
      → Sends pick dto
      → of_server e ≡ true
      → IsCurrent w
      → IsCurrent (step pick dto e w)
  unfolding step request_done request_failed on_save
  step-IsCurrent requested w sends own h = λ entity k is. ap (get k) (sym (some-injective _ _ is))
  step-IsCurrent request_fails w sends own h = λ entity k is. ground (arith, is)
  step-IsCurrent (given found) w sends own h = ground (arith, own)
  step-IsCurrent (edited prop value outcome) w sends own h =
      either-IsCurrent w.shown.loading w _ h
        (any_edit-IsCurrent prop value outcome w.shown.current w sends refl h)

  -- If the body of an update is the field that was edited, and what is shown has the values that the
  -- server holds, if anything is shown, then so it is after any history of requests, failed ones,
  -- and edits, whether these are invalid, fail or succeed, as long as no other entity is given.
  pub run-IsCurrent :
      (es : List Event) (w : World)
      → Sends pick dto
      → all of_server es ≡ true
      → IsCurrent w
      → IsCurrent (run pick dto es w)
  unfolding run
  run-IsCurrent [] w sends own h = h
  run-IsCurrent (e ∷ es) w sends own h =
      run-IsCurrent es (step pick dto e w) sends (ground (arith, own))
        (step-IsCurrent e w sends (ground (arith, own)) h)
