-- ===== src/Imports/Sent.antt =====
-- What an import sends: the new records, and of the others the columns that changed.
use text.Mathlib.TextEquality.{eq_iff}
use boar_pack.Base.{
  String, ◌≡◌, refl, sym, ◌∙◌, Bool, true, ◌&&◌, ◌||◌, Option, none, some, List, [], ◌∷◌, ◌++◌, map,
  keep, ◌==◌, text_eq, member, all, any, All, All-append, append-nil, append_assoc, arith,
  Bool-cases, inl, inr,
}
use boar_pack.Dict.{get, set}
use boar_pack.Imports.Modal.{Row}
use boar_pack.Imports.Order.{object_entries, All-object_entries}
use boar_pack.Imports.Origin.{
  FromFile, FromExport, Entry, get-All, old_map-FromExport, read_rows-FromFile,
}
use boar_pack.Imports.Diff.{
  Cell, TypedColumn, Differences, DiffResult, is_falsy, normalize_row, old_map, read_rows,
  set_given, add_columns, changed_fields, payload_of, compared, added, compare_known, compare_rows,
  handle_file,
}

-- The keys of a row pass the test.
abbrev pub all_keys : (String → Bool) → Row Cell → Bool
all_keys p row = all (λ e. p e.0) row

all_keys-set :
    (p : String → Bool) (k : String) (v : Cell) (row : Row Cell)
    → p k ≡ true
    → all_keys p row ≡ true
    → all_keys p (set k v row) ≡ true
unfolding set
all_keys-set p k v [] h r = ground (arith, h)
all_keys-set p k v ((j, w) ∷ row) h r = ground (arith, h, r, all_keys-set p k v row h)

all_keys-set_given :
    (p : String → Bool) (k : String) (v : Option Cell) (row : Row Cell)
    → p k ≡ true
    → all_keys p row ≡ true
    → all_keys p (set_given k v row) ≡ true
all_keys-set_given p k none row h r = r
all_keys-set_given p k (some v) row h r = all_keys-set p k v row h r

module _ (number_of : Cell → Cell) (text_of : Cell → String)
    (relations : List (String × (Cell → Option Cell))) (columns : List TypedColumn) where
  -- The keys that a payload may have.
  abbrev pub may_be_sent : Differences → String → Bool
  may_be_sent differences k =
      k == "id"
      || k == "version"
      || (member k (changed_fields differences) && any (λ c. c.data_index == k) columns)

  all_keys-add_columns :
      (p : String → Bool) (names : List String) (row : Row Cell) (cs : List TypedColumn)
      (sent : Row Cell)
      → ((c : TypedColumn)
          → any (λ d. d.data_index == c.data_index) cs ≡ true
          → member c.data_index names ≡ true
          → p c.data_index ≡ true)
      → all_keys p sent ≡ true
      → all_keys p (add_columns names row cs sent) ≡ true
  all_keys-add_columns p names row [] sent h r = r
  all_keys-add_columns p names row (c ∷ cs) sent h r =
      all_keys-add_columns p names row cs _ (λ d there. h d (ground (arith, there)))
        (elim (Bool-cases (member c.data_index names)) [
          | inl in_names ↦ rw in_names (
              all_keys-set_given p c.data_index _ sent
                (h c (ground (arith, eq_iff c.data_index c.data_index)) in_names) r)
          | inr other ↦ rw other r
        ])

  payload_of-may_be_sent :
      (id : String) (row : Row Cell) (differences : Differences)
      → all_keys
          (may_be_sent differences)
          (payload_of number_of text_of relations columns id row differences)
        ≡ true
  unfolding payload_of
  payload_of-may_be_sent id row differences =
      all_keys-add_columns (may_be_sent differences) (changed_fields differences) row columns _
        (λ c there named. ground (arith, there, named))
        (ground (
          arith,
          all_keys-set_given (may_be_sent differences) "version" (get "version" row) [] refl refl,
        ))

  module _ (diff : (String → Cell → Cell → Cell × Cell) → Row Cell → Row Cell → Option Differences)
      (display_fields : List String) where
    -- A record that is sent for a change: it comes from a row of the file, the export has a row of
    -- its id, which differs, and it has no keys but `id`, `version` and columns that changed.
    abbrev pub IsUpdate : List (Row Cell) → List (Row Cell) → Row Cell → Type 0
    IsUpdate before after sent =
        (id : String) × (row : Row Cell) × (old : Row Cell) × (differences : Differences) × FromFile
          number_of text_of relations columns after id row
        × FromExport number_of text_of relations columns before id old
        × (diff (compared number_of text_of relations columns) old row ≡ some differences)
        × (sent ≡ payload_of number_of text_of relations columns id row differences)
        × (all_keys (may_be_sent differences) sent ≡ true)

    abbrev Updates : List (Row Cell) → List (Row Cell) → DiffResult → Type 0
    Updates before after result = All (IsUpdate before after) result.updated

    added-Updates :
        (before after : List (Row Cell)) (id : String) (row old : Row Cell) (result : DiffResult)
        (found : Option Differences)
        → FromFile number_of text_of relations columns after id row
        → FromExport number_of text_of relations columns before id old
        → diff (compared number_of text_of relations columns) old row ≡ found
        → Updates before after result
        → Updates before after
            (added number_of text_of relations columns diff display_fields id row found result)
    added-Updates before after id row old result none f o e h = h
    added-Updates before after id row old result (some ds) f o e h =
        All-append (IsUpdate before after) result.updated _ h
          ((id, row, old, ds, f, o, e, refl, payload_of-may_be_sent id row ds), tt)

    compare_known-Updates :
        (before after : List (Row Cell)) (olds : List (String × Row Cell)) (id : String)
        (row : Row Cell) (result : DiffResult) (known : Option (Row Cell))
        → All (Entry (FromExport number_of text_of relations columns before)) olds
        → FromFile number_of text_of relations columns after id row
        → get id olds ≡ known
        → Updates before after result
        → Updates before after (
            compare_known number_of text_of relations columns diff display_fields id row known
              result)
    compare_known-Updates before after olds id row result none os f o h = h
    compare_known-Updates before after olds id row result (some old) os f o h =
        added-Updates before after id row old result _ f
          (get-All (FromExport number_of text_of relations columns before) id old olds os o) refl h

    compare_rows-Updates :
        (before after : List (Row Cell)) (olds news : List (String × Row Cell))
        (result : DiffResult)
        → All (Entry (FromExport number_of text_of relations columns before)) olds
        → All (Entry (FromFile number_of text_of relations columns after)) news
        → Updates before after result
        → Updates before after
            (compare_rows number_of text_of relations columns diff display_fields olds news result)
    unfolding compare_rows
    compare_rows-Updates before after olds [] result os fs h = h
    compare_rows-Updates before after olds ((id, row) ∷ news) result os (f, fs) h =
        compare_rows-Updates before after olds news _ os fs
          (compare_known-Updates before after olds id row result (get id olds) os f refl h)

    added-created :
        (id : String) (row : Row Cell) (result : DiffResult) (found : Option Differences)
        → (added number_of text_of relations columns diff display_fields id row found
            result).created
          ≡ result.created
    added-created id row result none = refl
    added-created id row result (some ds) = refl

    compare_known-created :
        (id : String) (row : Row Cell) (result : DiffResult) (known : Option (Row Cell))
        → (compare_known number_of text_of relations columns diff display_fields id row known
            result).created
          ≡ result.created
    compare_known-created id row result none = refl
    compare_known-created id row result (some old) = added-created id row result _

    compare_rows-created :
        (olds news : List (String × Row Cell)) (result : DiffResult)
        → (compare_rows number_of text_of relations columns diff display_fields olds news
            result).created
          ≡ result.created
    unfolding compare_rows
    compare_rows-created olds [] result = refl
    compare_rows-created olds ((id, row) ∷ news) result =
        compare_rows-created olds news _ ∙ compare_known-created id row result (get id olds)

    -- The rows without an id.
    abbrev pub new_rows : List (Row Cell) → List (Row Cell)
    new_rows rows =
        keep (λ r. is_falsy (get "id" r))
          (map (normalize_row number_of text_of relations columns) rows)

    read_rows-new_rows :
        (rows created : List (Row Cell)) (m : List (String × Row Cell))
        → (read_rows number_of text_of relations columns rows (created, m)).0
          ≡ created ++ new_rows rows
    unfolding read_rows
    read_rows-new_rows [] created m = sym (append-nil created)
    read_rows-new_rows (row ∷ rows) created m =
        let r = normalize_row number_of text_of relations columns row in
        elim (Bool-cases (is_falsy (get "id" r))) [
          | inl missing ↦
              rw (missing, read_rows)
                (read_rows-new_rows rows (created ++ r ∷ []) m
                  ∙ append_assoc created (r ∷ []) (new_rows rows))
          | inr there ↦ rw (there, read_rows) (read_rows-new_rows rows created _)
        ]

    -- An import creates exactly the normalized rows of the file without an id, in their order. What
    -- it sends besides comes from a normalized row of the file with an id and a normalized row of the
    -- export that had the same id, which differ; it is made of the row of the file, under this id,
    -- and has no keys but `id`, `version` and those of columns that changed.
    pub handle_file-IsUpdate :
        (before after : List (Row Cell))
        → let result =
            handle_file number_of text_of relations columns diff display_fields before after in
          (result.created ≡ new_rows after) × All (IsUpdate before after) result.updated
    unfolding handle_file
    handle_file-IsUpdate before after =
        let olds = old_map number_of text_of relations columns before [] in
        let (created, news) = read_rows number_of text_of relations columns after ([], []) in
        let start : DiffResult = record { created = created; updated = []; table_data = [] } in
        (
          compare_rows-created olds (object_entries news) start ∙ read_rows-new_rows after [] [],
          compare_rows-Updates before after olds (object_entries news) start
              (old_map-FromExport number_of text_of relations columns before)
              (All-object_entries (Entry (FromFile number_of text_of relations columns after)) news
                (read_rows-FromFile number_of text_of relations columns after))
              tt,
        )
