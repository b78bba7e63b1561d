-- ===== src/Statistics/Connections.antt =====
-- The counters of
-- packages/liquidity-monitor-backend/src/users-connections-statistic/users-connections-statistic.service.ts.
use boar_pack.Base.{
  ℕ, String, ◌+◌, Bool, true, false, Option, none, some, List, [], ◌∷◌, ◌++◌, text_eq, number_eq,
  if◌then◌else◌, ◌==◌, Eq, ◌≡◌, ◌↔◌, arith,
}
use boar_pack.Dict.{get, set}
use boar_pack.Statistics.Quotes.{Counters, or_zero}

-- `UserConnectionTarget`, and `TComplexTarget` of its first two.
pub data Target : Type 0 where
  fix_server websocket_server token account : Target

pub data ComplexTarget : Type 0 where
  fix websocket : ComplexTarget

abbrev pub as_target : ComplexTarget → Target
as_target fix = fix_server
as_target websocket = websocket_server

abbrev same_target : Target → Target → Bool
same_target fix_server fix_server = true
same_target websocket_server websocket_server = true
same_target token token = true
same_target account account = true
same_target _ _ = false

pub same_target_iff : (a b : Target) → (same_target a b ≡ true) ↔ (a ≡ b)
same_target_iff a b = ground arith

instance abbrev pub target_eq : Eq Target
target_eq = record { test = same_target; decides = same_target_iff }

-- `IUserQuotesNumber`
pub record UserNumbers : Type 0 where
  pub fix_number : ℕ
  pub websocket_number : ℕ

pub record Connections : Type 0 where
  pub by_user : List (String × UserNumbers)
  pub by_target : List (Target × Counters)

-- A row, with the user or the target's identifier.
pub data Row : Type 0 where
  user_row : (user_id : String) → (target : Target) → (quotes_number : ℕ) → Row
  target_row : (target_id : String) → (target : Target) → (quotes_number : ℕ) → Row

abbrev pub or_zeros : Option UserNumbers → UserNumbers
or_zeros none = record { fix_number = 0; websocket_number = 0 }
or_zeros (some u) = u

abbrev pub plus_for : ComplexTarget → ℕ → UserNumbers → UserNumbers
plus_for fix n u = record u { fix_number = u.fix_number + n }
plus_for websocket n u = record u { websocket_number = u.websocket_number + n }

unfoldable pub increment_quotes_number : String → ComplexTarget → ℕ → Connections → Connections
increment_quotes_number user_id target n c = record c {
  by_user = set user_id (plus_for target n (or_zeros (get user_id c.by_user))) c.by_user;
}

abbrev pub or_empty : Option Counters → Counters
or_empty none = []
or_empty (some m) = m

unfoldable pub increment_quotes_number_by_target : Target → String → ℕ → Connections → Connections
increment_quotes_number_by_target target target_id n c =
    let numbers = or_empty (get target c.by_target) in
    record c {
      by_target =
          set target (set target_id (or_zero (get target_id numbers) + n) numbers) c.by_target;
    }

abbrev pub row_unless_zero : String → Target → ℕ → List Row
row_unless_zero user_id target n = if n == 0 then [] else user_row user_id target n ∷ []

abbrev pub user_rows : List (String × UserNumbers) → List Row
user_rows [] = []
user_rows ((user_id, u) ∷ m) =
    row_unless_zero user_id fix_server u.fix_number
    ++ row_unless_zero user_id websocket_server u.websocket_number
    ++ user_rows m

abbrev pub rows_of_target : Target → Counters → List Row
rows_of_target target [] = []
rows_of_target target ((target_id, n) ∷ m) = target_row target_id target n ∷ rows_of_target target m

abbrev pub target_rows : List (Target × Counters) → List Row
target_rows [] = []
target_rows ((target, m) ∷ ms) = rows_of_target target m ++ target_rows ms

-- What is left in the counters, what is in the database, and what was in a save that failed.
pub record Saved : Type 0 where
  pub counters : Connections
  pub saved : List Row
  pub lost : List Row

abbrev pub save_targets : Bool → Connections → Saved
save_targets works c = record {
  counters = record c { by_target = [] };
  saved = if works then target_rows c.by_target else [];
  lost = if works then [] else target_rows c.by_target;
}

-- The users' part: without numbers it does nothing, and `rest`, the targets' part, follows unless
-- its save fails.
abbrev pub save_users :
    Bool → List (String × UserNumbers) → List (Target × Counters) → Saved → Saved
save_users works [] by_target rest = rest
save_users works (u ∷ us) by_target rest =
    if works then record rest { saved = user_rows (u ∷ us) ++ rest.saved } else record {
      counters = record { by_user = []; by_target = by_target };
      saved = [];
      lost = user_rows (u ∷ us);
    }

-- Both maps are cleared before their rows are saved. A save of no rows changes nothing.
unfoldable pub save_accumulated_quotes_number : Bool → Bool → Connections → Saved
save_accumulated_quotes_number users_work targets_work c =
    save_users users_work c.by_user c.by_target
      (save_targets targets_work (record c { by_user = [] }))

pub data Event : Type 0 where
  user_quotes : (user_id : String) → (target : ComplexTarget) → (n : ℕ) → Event
  target_quotes : (target : Target) → (target_id : String) → (n : ℕ) → Event
  tick : (users_work : Bool) → (targets_work : Bool) → Event

unfoldable pub step : Event → Connections → Saved
step (user_quotes user_id target n) c = record {
  counters = increment_quotes_number user_id target n c;
  saved = [];
  lost = [];
}
step (target_quotes target target_id n) c = record {
  counters = increment_quotes_number_by_target target target_id n c;
  saved = [];
  lost = [];
}
step (tick users_work targets_work) c = save_accumulated_quotes_number users_work targets_work c

unfoldable pub run : List Event → Connections → Saved
run [] c = record { counters = c; saved = []; lost = [] }
run (e ∷ es) c =
    let now = step e c in
    let later = run es now.counters in
    record later { saved = now.saved ++ later.saved; lost = now.lost ++ later.lost }
