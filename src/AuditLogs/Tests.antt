-- ===== src/AuditLogs/Tests.antt =====
-- The service over a table that is a function of the key.
use boar_pack.Base.{
  ℕ, ◌≡◌, refl, true, false, Option, none, some, List, [], ◌∷◌, ◌==◌, number_eq, text_eq,
  if◌then◌else◌,
}
use boar_pack.Dict.{get, set}
use boar_pack.AuditLogs.Service.{Fields, Table, Request, create_one, create_many, update_one}
use boar_pack.AuditLogs.Replay.{Call, creates, updates, replay, run}

abbrev key_of : Fields ℕ → ℕ
key_of row = elim (get "id" row) [ some n ↦ n | none ↦ 0 ]

abbrev put : Fields ℕ → (ℕ → Option (Fields ℕ)) → ℕ → Option (Fields ℕ)
put row s k = if key_of row == k then some row else s k

abbrev take : Fields ℕ → (ℕ → Option (Fields ℕ)) → ℕ → Option (Fields ℕ)
take row s k = if key_of row == k then none else s k

abbrev by_key : Table ℕ
by_key = record {
  Key = ℕ;
  key_eq = number_eq;
  Store = ℕ → Option (Fields ℕ);
  key_of = key_of;
  find = λ k s. s k;
  create_one = λ dto s. (dto, put dto s);
  save = λ fields s. (fields, put fields s);
  remove = take;
  soft_remove = take;
  create_law = λ k dto s. refl;
  save_law = λ k fields s. refl;
  remove_law = λ k row s. refl;
  soft_remove_law = λ k row s. refl;
}

abbrev no_rows : ℕ → Option (Fields ℕ)
no_rows k = none

abbrev request : Request by_key
request = record {
  user_id = some "ann";
  key = 1;
  params_filters = ("id", 1) ∷ [];
  auth_persist = [];
  allow_params_override = false;
  return_shallow = false;
  soft_delete = true;
}

abbrev calls : List (Call by_key)
calls = creates request (("id", 1) ∷ ("price", 5) ∷ []) ∷ updates request (("price", 6) ∷ []) ∷ []

price_is_told :
    replay by_key 1 (run by_key calls (no_rows, [])).1 none ≡ some (("id", 1) ∷ ("price", 6) ∷ [])
unfolding run replay create_one update_one get set
price_is_told = refl

-- Rows that are created together stand in the table and not in the log.
many_untold :
    ((create_many by_key request ((("id", 2) ∷ []) ∷ []) (no_rows, [])).0 2 ≡ some (("id", 2) ∷ []))
    × ((create_many by_key request ((("id", 2) ∷ []) ∷ []) (no_rows, [])).1 ≡ [])
unfolding create_many get
many_untold = (refl, refl)
