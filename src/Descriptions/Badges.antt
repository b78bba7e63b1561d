-- ===== src/Descriptions/Badges.antt =====
-- The sections hold each column that is shown once, and the counts of errors are those of the sections.
use boar_pack.Base.{
  ℕ, ◌+◌, String, ◌≡◌, refl, ◌∙◌, Bool, true, false, ◌||◌, Option, none, some, List, [], ◌∷◌, ◌++◌,
  map, text_eq, number_eq, ◌==◌, if◌then◌else◌, member, Distinct, arith, ==_refl,
}
use boar_pack.Dict.{get, set, get-set}
use boar_pack.Descriptions.Sections.{
  DataIndex, Column, leaf, group, Columns, end, next, Section, key_of, collect, collect_column,
  columns_to_description_item_props, error_count, has_errors, set_counts, errors_per_section,
  badges,
}

abbrev pub total : List (Option ℕ) → ℕ
total [] = 0
total (none ∷ counts) = total counts
total (some n ∷ counts) = n + total counts

first_false : (a b : Bool) → (a || b) ≡ false → a ≡ false
first_false a b h = ground (arith, h)

module _ (errors_of : DataIndex → List String) where
  -- The columns with an error that are shown: neither they nor a column around them is an option.
  abbrev mutual
    pub invalid_in : Columns → ℕ
    invalid_in end = 0
    invalid_in (next col cols) = invalid_at col + invalid_in cols

    pub invalid_at : Column → ℕ
    invalid_at (leaf index is_option) =
        if is_option then 0 else if has_errors errors_of index then 1 else 0
    invalid_at (group title index is_option children) = if is_option then 0 else invalid_in children

  invalid_sections : List Section → ℕ
  invalid_sections [] = 0
  invalid_sections (s ∷ sections) = error_count errors_of s.columns + invalid_sections sections

  error_count-append :
      (xs ys : List DataIndex)
      → error_count errors_of (xs ++ ys) ≡ error_count errors_of xs + error_count errors_of ys
  error_count-append [] ys = omega arith
  error_count-append (x ∷ xs) ys = omega (arith, error_count-append xs ys)

  invalid_sections-append :
      (xs ys : List Section)
      → invalid_sections (xs ++ ys) ≡ invalid_sections xs + invalid_sections ys
  unfolding invalid_sections
  invalid_sections-append [] ys = omega arith
  invalid_sections-append (x ∷ xs) ys = omega (arith, invalid_sections-append xs ys)

  collected : List DataIndex × List Section → ℕ
  collected c = error_count errors_of c.0 + invalid_sections c.1

  mutual
    unfolding collect collected invalid_sections

    collected-collect :
        (cols : Columns) (columns : List DataIndex) (result : List Section)
        → collected (collect cols columns result) ≡ collected (columns, result) + invalid_in cols
    collected-collect end columns result = omega arith
    collected-collect (next col cols) columns result =
        let (columns', result') = collect_column col columns result in
        omega (
          arith,
          collected-collect cols columns' result',
          collected-collect_column col columns result,
        )

    collected-collect_column :
        (col : Column) (columns : List DataIndex) (result : List Section)
        → collected (collect_column col columns result)
          ≡ collected (columns, result) + invalid_at col
    collected-collect_column (leaf index true) columns result = omega arith
    collected-collect_column (leaf index false) columns result =
        omega (arith, error_count-append columns (index ∷ []))
    collected-collect_column (group title index true children) columns result = omega arith
    collected-collect_column (group title index false children) columns result = omega (
      arith,
      invalid_sections-append result (
          record { title = title; key = key_of index; columns = (collect children [] []).0 }
          ∷ (collect children [] []).1),
      collected-collect children [] [],
    )

  kept_count :
      (k : String) (sections : List Section) (counts : List (String × ℕ))
      → member k (map (λ s. s.key) sections) ≡ false
      → get k (set_counts errors_of sections counts) ≡ get k counts
  kept_count k [] counts h = refl
  kept_count k (s ∷ sections) counts h =
      kept_count k sections (set s.key (error_count errors_of s.columns) counts) (ground (arith, h))
      ∙ get-set s.key k (error_count errors_of s.columns) counts
      ∙ rw (first_false (s.key == k) _ h) refl

  badges_lem :
      (sections : List Section) (counts : List (String × ℕ))
      → Distinct (map (λ s. s.key) sections)
      → total (map (λ s. get s.key (set_counts errors_of sections counts)) sections)
        ≡ invalid_sections sections
  unfolding invalid_sections
  badges_lem [] counts d = refl
  badges_lem (s ∷ sections) counts (new, d) =
      let own = error_count errors_of s.columns in
      let counted : get s.key (set_counts errors_of sections (set s.key own counts)) ≡ some own =
        kept_count s.key sections (set s.key own counts) new
        ∙ get-set s.key s.key own counts
        ∙ rw (==_refl s.key) refl in
      rw counted (omega (arith, badges_lem sections (set s.key own counts) d))

  -- The numbers at the tabs after a submission add up to the number of shown columns with an error, if
  -- the keys of the sections are distinct.
  pub badges-errors_per_section :
      (cols : Columns) (main_title : Option String) (key : String)
      → Distinct (map (λ s. s.key) (columns_to_description_item_props cols main_title key))
      → let sections = columns_to_description_item_props cols main_title key in
        total (badges sections (errors_per_section errors_of sections)) ≡ invalid_in cols
  unfolding badges errors_per_section columns_to_description_item_props collected invalid_sections
  badges-errors_per_section cols main_title key d =
      badges_lem (columns_to_description_item_props cols main_title key) [] d
      ∙ collected-collect cols [] []
      ∙ omega arith
