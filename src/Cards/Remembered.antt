-- ===== src/Cards/Remembered.antt =====
-- What a save sends, whatever happened since the last change of a value.
use boar_pack.Base.{
  ◌++◌, any, ==_refl, none, ℕ, String, ◌≡◌, refl, sym, ap, ◌∙◌, Bool, true, false, not, ◌&&◌, some,
  List, [], ◌∷◌, all, find, text_eq, ◌==◌, if◌then◌else◌, arith, Bool-cases, Option-cases, inl, inr,
}
use boar_pack.Dict.{get, set, has, get-set_at, get-set_apart}
use boar_pack.Tables.Editing.{
  str, creates, updates, calls_after_save, reloads, cell_text, Call, Cell, Cells, spread,
}
use text.Mathlib.TextEquality.{eq_iff}
use boar_pack.Cards.Editing.{
  cell_eq, cell_test_iff, Props, has_id, edited, Event, changed, saved, cancelled, reloaded,
  on_values_change, on_cancel, save, step, run,
}

-- A row has each of its keys once.
abbrev pub unique_keys : Cells → Bool
unique_keys [] = true
unique_keys ((k, c) ∷ cells) = not (has k cells) && unique_keys cells

-- No change of a value and no cancellation of the card; that of another card has its row.
abbrev pub leaves : String → Cell → Event → Bool
leaves id_column_name id (changed rows) = false
leaves id_column_name id (cancelled other origin) =
    not (other == id) && unique_keys origin && has_id id_column_name other origin
leaves id_column_name id _ = true

get-spread_missing :
    (k : String) (more base : Cells) → has k more ≡ false → get k (spread more base) ≡ get k base
unfolding has
get-spread_missing k [] base h = refl
get-spread_missing k ((j, c) ∷ more) base h =
    get-spread_missing k more (set j c base) (ground (arith, h))
    ∙ get-set_apart j k c base (ground (arith, h))

get-spread_known :
    (k : String) (c : Cell) (more base : Cells)
    → unique_keys more ≡ true
    → get k more ≡ some c
    → get k (spread more base) ≡ some c
unfolding get
get-spread_known k c [] base u h = ground (arith, h)
get-spread_known k c ((j, d) ∷ more) base u h = elim (Bool-cases (j == k)) [
  | inl same ↦
      get-spread_missing k more (set j d base)
        (ap (λ x. has x more) (sym ((eq_iff j k).0 same)) ∙ ground (arith, u))
      ∙ get-set_at j k d base same
      ∙ rw same at h
  | inr other ↦ get-spread_known k c more (set j d base) (ground (arith, u)) (rw other at h)
]

-- The one id of a row.
has_id_apart :
    (col : String) (other id : Cell) (entity : Cells)
    → (other == id) ≡ false
    → has_id col other entity ≡ true
    → has_id col id entity ≡ false
has_id_apart col other id entity apart h = elim (Option-cases (get col entity)) [
  | inl missing ↦ rw (has_id, missing) refl
  | inr (c, there) ↦
      rw (has_id, there)
        (ap (λ x. x == id) ((cell_test_iff c other).0 (rw (has_id, there) at h)) ∙ apart)
]

has_id-spread :
    (col : String) (id : Cell) (origin entity : Cells)
    → unique_keys origin ≡ true
    → has_id col id origin ≡ true
    → has_id col id (spread origin entity) ≡ true
has_id-spread col id origin entity u h = elim (Option-cases (get col origin)) [
  | inl missing ↦ ground (arith, rw (has_id, missing) at h)
  | inr (c, there) ↦
      rw (has_id, get-spread_known col c origin entity u there) (rw (has_id, there) at h)
]

find-on_cancel :
    (col : String) (other id : Cell) (origin : Cells) (rows : List Cells)
    → leaves col id (cancelled other origin) ≡ true
    → find (has_id col id) (on_cancel col other origin rows) ≡ find (has_id col id) rows
unfolding on_cancel
find-on_cancel col other id origin [] h = refl
find-on_cancel col other id origin (entity ∷ rows) h = elim (Bool-cases (has_id col other entity)) [
  | inl this ↦
      let apart : (other == id) ≡ false = ground (arith, h) in
      let kept = has_id-spread col other origin entity (ground (arith, h)) (ground (arith, h)) in
      rw
        (
          this,
          has_id_apart col other id entity apart this,
          has_id_apart col other id (spread origin entity) apart kept,
        )
        (find-on_cancel col other id origin rows h)
  | inr another ↦ rw another (
      ap (λ o. if has_id col id entity then some entity else o)
        (find-on_cancel col other id origin rows h))
]

find-run :
    (col : String) (id : Cell) (es : List Event) (rows : List Cells)
    → all (leaves col id) es ≡ true
    → find (has_id col id) (run col es rows) ≡ find (has_id col id) rows
unfolding run step on_values_change
find-run col id [] rows h = refl
find-run col id (changed later ∷ es) rows h = ground (arith, h)
find-run col id (saved other r new_line ∷ es) rows h = find-run col id es rows h
find-run col id (cancelled other origin ∷ es) rows h =
    find-run col id es (on_cancel col other origin rows) (ground (arith, h))
    ∙ find-on_cancel col other id origin rows (ground (arith, h))
find-run col id (reloaded ∷ es) rows h = find-run col id es rows h

-- The calls of a save that sends an entity.
abbrev pub calls_for : (ℕ → String) → Props → Cell → Bool → Cells → List Call
calls_for text p id new_line entity =
    let finish = if p.after_save then calls_after_save entity ∷ reloads ∷ [] else reloads ∷ [] in
    if new_line
    then if p.on_create
      then creates p.path_params (p.entity_to_create_dto entity) ∷ finish
      else finish
    else updates (set p.id_column_name (str (cell_text text (some id))) p.path_params)
        (p.entity_to_update_dto (spread entity p.path_params))
      ∷ finish

calls_for-save :
    (text : ℕ → String) (p : Props) (id : Cell) (r : Cells) (new_line : Bool) (rows : List Cells)
    → save text p id r new_line rows
      ≡ calls_for text p id new_line (edited p.id_column_name id r rows)
unfolding save
calls_for-save text p id r new_line rows = ground arith

find_first :
    (col : String) (id : Cell) (above below : List Cells) (entity : Cells)
    → any (has_id col id) above ≡ false
    → get col entity ≡ some id
    → find (has_id col id) (above ++ entity ∷ below) ≡ some entity
find_first col id [] below entity h is = rw (has_id, is, (==_refl id)) refl
find_first col id (x ∷ above) below entity h is =
    ground (arith, h, find_first col id above below entity (ground (arith, h)) is)

-- Let a change of a value have given rows of which the first with an id is an entity. Until the next
-- change, or a cancellation of that card, a save of the card sends this entity, whatever row it is
-- called with: an old line is updated under its id, beside the path parameters, a new line is created
-- if the list may create, and otherwise not sent; then the entity goes to what follows a save, if
-- there is that, and the list is reloaded. In between anything may be saved or reloaded, and another
-- card be cancelled with a row that has its id and no key twice.
pub save-run :
    (text : ℕ → String) (p : Props) (id : Cell) (r : Cells) (new_line : Bool)
    (above below : List Cells) (entity : Cells) (es : List Event) (before : List Cells)
    → any (has_id p.id_column_name id) above ≡ false
    → get p.id_column_name entity ≡ some id
    → all (leaves p.id_column_name id) es ≡ true
    → save text p id r new_line
        (run p.id_column_name (changed (above ++ entity ∷ below) ∷ es) before)
      ≡ calls_for text p id new_line entity
unfolding run step on_values_change
save-run text p id r new_line above below entity es before first is h =
    let rows = above ++ entity ∷ below in
    let known =
      find-run p.id_column_name id es rows h
      ∙ find_first p.id_column_name id above below entity first is in
    calls_for-save text p id r new_line (run p.id_column_name es rows)
    ∙ ap (calls_for text p id new_line) (rw (edited, known) refl)

-- If the rows of the change have none with the id, a save sends the row that it is called with.
pub save-run_unknown :
    (text : ℕ → String) (p : Props) (id : Cell) (r : Cells) (new_line : Bool) (rows : List Cells)
    (es : List Event) (before : List Cells)
    → find (has_id p.id_column_name id) rows ≡ none
    → all (leaves p.id_column_name id) es ≡ true
    → save text p id r new_line (run p.id_column_name (changed rows ∷ es) before)
      ≡ calls_for text p id new_line r
unfolding run step on_values_change
save-run_unknown text p id r new_line rows es before unknown h =
    calls_for-save text p id r new_line (run p.id_column_name es rows)
    ∙ ap (calls_for text p id new_line)
        (rw (edited, find-run p.id_column_name id es rows h ∙ unknown) refl)
