-- ===== src/Tools/Shared.antt =====
-- What a virtual column does to the other classes.
use boar_pack.Base.{
  ℕ, String, ◌≡◌, refl, sym, ap, ◌∙◌, ◌≢◌, Bool, false, Option, none, some, List, number_eq,
  text_eq, ◌==◌, if◌then◌else◌, Bool-cases, Option-cases, inl, inr,
}
use boar_pack.Dict.{get, set, get-set_same, get-set_at, get-set_apart}
use boar_pack.Tools.VirtualColumns.{Store, or_key, or_empty, columns, virtual_column}

module _ {Class Metadata : Type 0} (get_metadata : Metadata → Class → Option ℕ)
    (define_metadata : ℕ → Metadata → Class → Metadata) where
  -- Two classes find the same object of columns.
  abbrev pub share : Store Metadata → Class → Class → Bool
  share s c p = elim (get_metadata s.metadata c) [
    | none ↦ false
    | some r ↦ elim (get_metadata s.metadata p) [ none ↦ false | some q ↦ r == q ]
  ]

  -- The metadata that was defined on a class is what it finds.
  abbrev pub Defines : Class → Type 0
  Defines c = (r : ℕ) (m : Metadata) → get_metadata (define_metadata r m c) c ≡ some r

  -- A class that does not extend another finds what it did.
  abbrev pub Ignores : Class → Class → Type 0
  Ignores p c = (r : ℕ) (m : Metadata) → get_metadata (define_metadata r m c) p ≡ get_metadata m p

  columns-own :
      (s : Store Metadata) (name : Option String) (c : Class) (key : String)
      → Defines c
      → columns get_metadata define_metadata
          (virtual_column get_metadata define_metadata name c key s)
          c
        ≡ set key (or_key name key) (columns get_metadata define_metadata s c)
  unfolding virtual_column set
  columns-own s name c key defines = elim (Option-cases (get_metadata s.metadata c)) [
    | inl absent ↦
        rw (columns, virtual_column, absent, defines s.fresh s.metadata)
          (rw (virtual_column, absent) (ap or_empty (get-set_same s.fresh _ s.heap)))
    | inr (r, there) ↦
        rw (columns, virtual_column, there, defines r s.metadata)
          (rw (virtual_column, there) (ap or_empty (get-set_same r _ s.heap)))
  ]

  columns-other :
      (s : Store Metadata) (name : Option String) (c p : Class) (key : String)
      → Ignores p c
      → get_metadata s.metadata p ≢ some s.fresh
      → columns get_metadata define_metadata
          (virtual_column get_metadata define_metadata name c key s)
          p
        ≡ (if share s c p
            then set key (or_key name key) (columns get_metadata define_metadata s p)
            else columns get_metadata define_metadata s p)
  unfolding virtual_column
  columns-other s name c p key ignores unused = elim (Option-cases (get_metadata s.metadata c)) [
    | inl absent ↦ elim (Option-cases (get_metadata s.metadata p)) [
      | inl none_found ↦
          rw (columns, virtual_column, share, absent, ignores s.fresh s.metadata, none_found) refl
      | inr (q, found) ↦
          rw (columns, virtual_column, share, absent, ignores s.fresh s.metadata, found)
            (elim (Bool-cases (s.fresh == q)) [
              | inl same ↦
                  elim (unused (found ∙ ap some (sym ((number_eq.decides s.fresh q).0 same)))) [ ]
              | inr other ↦
                  rw (virtual_column, absent) (ap or_empty (get-set_apart s.fresh q _ s.heap other))
            ])
    ]
    | inr (r, there) ↦ elim (Option-cases (get_metadata s.metadata p)) [
      | inl none_found ↦
          rw (columns, virtual_column, share, there, ignores r s.metadata, none_found) refl
      | inr (q, found) ↦
          rw (columns, virtual_column, share, there, ignores r s.metadata, found)
            (elim (Bool-cases (r == q)) [
              | inl same ↦
                  rw (virtual_column, there, same)
                    (ap or_empty (get-set_at r q _ s.heap same)
                      ∙ ap (λ k. set key (or_key name key) (or_empty (get k s.heap)))
                          ((number_eq.decides r q).0 same))
              | inr other ↦
                  rw (virtual_column, there, other) (ap or_empty (get-set_apart r q _ s.heap other))
            ])
    ]
  ]

  -- If what is defined on a class is what it finds, and `p` neither extends the class that is decorated
  -- nor finds the reference that is made next, then the decorated class has the column besides those
  -- that it found, and `p` has it too when the two found the same object, as a class and one that it
  -- extends or that extends the same one do; else `p` has the columns that it had.
  pub columns-virtual_column :
      (s : Store Metadata) (name : Option String) (c p : Class) (key : String)
      → Defines c
      → Ignores p c
      → get_metadata s.metadata p ≢ some s.fresh
      → let before = columns get_metadata define_metadata s in
        let after =
          columns get_metadata define_metadata
            (virtual_column get_metadata define_metadata name c key s) in
        let added : List (String × String) → List (String × String) = set key (or_key name key) in
        (after c ≡ added (before c))
        × (after p ≡ (if share s c p then added (before p) else before p))
  columns-virtual_column s name c p key defines ignores unused =
      (columns-own s name c key defines, columns-other s name c p key ignores unused)
