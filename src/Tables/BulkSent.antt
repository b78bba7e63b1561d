-- ===== src/Tables/BulkSent.antt =====
-- What the deletion and the update of many rows send.
use boar_pack.Base.{
  ℕ, String, ◌≡◌, ◌≢◌, ◌⊎◌, refl, sym, ap, ◌∙◌, Bool, true, false, not, ◌&&◌, Option, none, some,
  List, [], ◌∷◌, text_eq, number_eq, ◌==◌, if◌then◌else◌, length, member, arith, Bool-cases, inl,
  inr,
}
use boar_pack.Dict.{get, has, get-keep_keys, has-keep_keys}
use boar_pack.Tables.Bulk.{
  Answer, Selection, Values, fields_values, records_count, is_enabled, on_delete, on_change,
  on_select, request_done, open_dialog, handle_checkbox_change, close_dialog, spread, handle_update,
  Event, changes, selects_all, opens, closes, checks, arrives, step, run, no_selection, total_of,
  query_of, sent_records, select_answered,
}

counted : {E : Type 0} (xs : List E) → not (length xs == 0) ≡ true → xs ≢ []
counted [] h = ground (arith, h)
counted (x ∷ xs) h = λ e. cc e

found : (n : ℕ) → not (n == 0) ≡ true → n ≢ 0
found n h = ground (arith, h)

is_positive : Option ℕ → Bool
is_positive o = elim o [ some n ↦ not (n == 0) | none ↦ false ]

module _ {E Q : Type 0} where
  -- All rows are selected only once there was a request.
  abbrev IsAnswered : Selection E Q → Type 0
  IsAnswered s =
      (s.all_selected ≡ false) ⊎ ((q : Q) × (a : Answer E) × (s.last_request ≡ some (q, a)))

  select_answered-IsAnswered :
      (last : Option (Q × Answer E)) (s : Selection E Q)
      → s.last_request ≡ last
      → IsAnswered s
      → IsAnswered (select_answered last s)
  select_answered-IsAnswered none s e h = h
  select_answered-IsAnswered (some (q, a)) s e h = inr (q, a, e)

  step-IsAnswered : (e : Event E Q) (s : Selection E Q) → IsAnswered s → IsAnswered (step e s)
  unfolding step on_change on_select open_dialog close_dialog handle_checkbox_change request_done
  step-IsAnswered (changes rows) s h = inl refl
  step-IsAnswered selects_all s h = select_answered-IsAnswered s.last_request s refl h
  step-IsAnswered opens s h = elim (Bool-cases (is_enabled s)) [
    | inl on ↦ rw (on, open_dialog) h
    | inr off ↦ rw (off, open_dialog) h
  ]
  step-IsAnswered closes s h = h
  step-IsAnswered (checks key checked) s h = h
  step-IsAnswered (arrives q a) s h = inr (q, a, refl)

  run-IsAnswered :
      (es : List (Event E Q)) (s : Selection E Q) → IsAnswered s → IsAnswered (run es s)
  unfolding run
  run-IsAnswered [] s h = h
  run-IsAnswered (e ∷ es) s h = run-IsAnswered es (step e s) (step-IsAnswered e s h)

  -- Rows are ticked, and the deletion names them, at least one.
  abbrev pub IsTicked : Selection E Q → Type 0
  IsTicked s =
      (s.all_selected ≡ false)
      × ((on_delete s).records ≡ s.selected_records)
      × ((on_delete s).records ≢ [])

  -- All are selected: it names none beside the query of the last request, which found some.
  abbrev pub IsWhole : Selection E Q → Type 0
  IsWhole s =
      (s.all_selected ≡ true)
      × ((on_delete s).records ≡ [])
      × ((q : Q) × (a : Answer E) × (s.last_request ≡ some (q, a))
          × ((on_delete s).query ≡ some q)
          × (a.total ≢ 0))

  enabled_lem :
      (s : Selection E Q) (o : Option ℕ) → records_count s ≡ o → is_enabled s ≡ is_positive o
  unfolding is_enabled is_positive
  enabled_lem s o e = ap (λ c. elim c [ some n ↦ not (n == 0) | none ↦ false ]) e

  all_sent :
      (s : Selection E Q) → IsAnswered s → s.all_selected ≡ true → is_enabled s ≡ true → IsWhole s
  unfolding is_enabled on_delete is_positive
  all_sent s (inl off) on enabled = ground (arith, off, on)
  all_sent s (inr (q, a, last)) on enabled = (
    on,
    rw on refl,
    (
      q,
      a,
      last,
      ap query_of last,
      found a.total (sym (enabled_lem s (some a.total) (rw on (ap total_of last))) ∙ enabled),
    ),
  )

  chosen_sent : (s : Selection E Q) → s.all_selected ≡ false → is_enabled s ≡ true → IsTicked s
  unfolding is_enabled on_delete is_positive
  chosen_sent s off enabled =
      let same : sent_records s ≡ s.selected_records = rw off refl in
      (
        off,
        same,
        rw same (
            counted s.selected_records
              (sym (enabled_lem s (some (length s.selected_records)) (rw off refl)) ∙ enabled)),
      )

  -- A deletion whose button is enabled, after any history: either rows are ticked, and it names them,
  -- at least one; or all are selected, and it names none beside the query of the last request, which
  -- found some.
  pub run-on_delete :
      (es : List (Event E Q))
      → is_enabled (run es no_selection) ≡ true
      → IsTicked (run es no_selection) ⊎ IsWhole (run es no_selection)
  run-on_delete es enabled = elim (Bool-cases (run es no_selection).all_selected) [
    | inl on ↦ inr (all_sent _ (run-IsAnswered es no_selection (inl refl)) on enabled)
    | inr off ↦ inl (chosen_sent _ off enabled)
  ]

  -- After all rows were selected, new rows arrive: no row is ticked any more, but the deletion is
  -- still offered if there are rows, and it names none beside the new query.
  pub all_outlives_request :
      (s : Selection E Q) (q q' : Q) (a a' : Answer E)
      → s.last_request ≡ some (q, a)
      → a'.total ≢ 0
      → let t = request_done q' a' (on_select s) in
        (t.selected_records ≡ [])
        × (is_enabled t ≡ true)
        × (on_delete t ≡ record { query = some q'; records = [] })
  unfolding request_done on_select is_enabled on_delete
  all_outlives_request s q q' a a' last some_found =
      rw (last, select_answered) (refl, ground (arith, some_found), refl)

module _ {E Q : Type 0} (entity_to_update_dto : Values → Values) (path_params : Values) where
  -- An update changes a field exactly if its column is checked, the form has it, and it is in what the
  -- values of the checked fields make; it changes it to that. What it changes is what a deletion would
  -- take away.
  pub get-handle_update :
      (form : Values) (k : String) (s : Selection E Q)
      → let u = handle_update entity_to_update_dto path_params form s in
        let dto = entity_to_update_dto (spread (fields_values s.editable_keys form) path_params) in
        (get k u.update_values
          ≡ (if member k s.editable_keys && has k form then get k dto else none))
        × (u.records ≡ (on_delete s).records)
        × (u.query ≡ (on_delete s).query)
  unfolding handle_update on_delete
  get-handle_update form k s =
      let values = fields_values s.editable_keys form in
      (
        get-keep_keys (λ j. has j values) k (entity_to_update_dto (spread values path_params))
            ∙ ap (λ b. if b then get k (entity_to_update_dto (spread values path_params)) else none)
                (has-keep_keys (λ j. member j s.editable_keys) k form),
        refl,
        refl,
      )
