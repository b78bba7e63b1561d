-- ===== src/Descriptions/Tests.antt =====
-- Descriptions of concrete columns.
use boar_pack.Base.{arith, text_eq, String, ◌≡◌, refl, true, false, none, some, List, [], ◌∷◌}
use boar_pack.Dict.{get, set}
use boar_pack.Descriptions.Sections.{
  DataIndex, name, leaf, group, Columns, end, next, columns_to_description_item_props,
  errors_per_section, badges, collect,
}
use boar_pack.Descriptions.Badges.{total, invalid_in, badges-errors_per_section}
use boar_pack.Tables.Editing.{num, str, Cells}
use boar_pack.Descriptions.Entity.{
  Event, requested, edited, World, mounted, request_done, on_save, step, run,
}
use boar_pack.Descriptions.InStep.{Sends, IsCurrent, run-IsCurrent}

abbrev is_bad : DataIndex → List String
is_bad (name s) = "required" ∷ []
is_bad _ = []

abbrev columns : Columns
columns = next (leaf (name "id") false) (
    next (group (some "Address") (name "address") false (next (leaf (name "city") false) end))
      (next (leaf (name "actions") true) end))

numbers_add_up :
    total (
      badges
        (columns_to_description_item_props columns none "general")
        (errors_per_section is_bad (columns_to_description_item_props columns none "general")))
    ≡ invalid_in is_bad columns
unfolding columns_to_description_item_props collect
numbers_add_up = badges-errors_per_section is_bad columns none "general" (refl, (refl, tt))

-- Two groups without an index have the same key, and both tabs show the number of the second.
abbrev unnamed : Columns
unnamed =
    next (group (some "A") DataIndex.no_index false (next (leaf (name "a") false) end))
      (next (group (some "B") DataIndex.no_index false end) end)

same_keys :
    badges
      (columns_to_description_item_props unnamed none "general")
      (errors_per_section is_bad (columns_to_description_item_props unnamed none "general"))
    ≡ some 0 ∷ some 0 ∷ some 0 ∷ []
unfolding columns_to_description_item_props collect badges errors_per_section get set
same_keys = refl

-- `pick` of one key that is there.
abbrev field_of : Cells → String → Cells
field_of r key = elim (get key r) [ some c ↦ (key, c) ∷ [] | none ↦ [] ]

abbrev as_it_is : Cells → Cells
as_it_is r = r

field_of-Sends : Sends field_of as_it_is
field_of-Sends r prop value is = rw (as_it_is, field_of, is) refl

abbrev tried : List Event
tried =
    requested
    ∷ edited "name" (str "new") (record { valid = true; updated = false })
    ∷ edited "age" (num 7) (record { valid = true; updated = true })
    ∷ []

abbrev opened : World
opened = record { shown = mounted true none; server = ("name", str "old") ∷ ("age", num 6) ∷ [] }

edits_shown : IsCurrent (run field_of as_it_is tried opened)
unfolding mounted
edits_shown =
    run-IsCurrent field_of as_it_is tried opened field_of-Sends refl
      (λ entity k is. ground (arith, is))

what_is_shown :
    (run field_of as_it_is tried opened).shown.current
    ≡ some (("name", str "old") ∷ ("age", num 7) ∷ [])
unfolding run step request_done on_save mounted get set
what_is_shown = refl
