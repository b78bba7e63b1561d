-- ===== src/Uptime/Service.antt =====
-- ApiStatisticService of packages/liquidity-monitor-backend/src/api-statistic/api-statistic.service.ts:
-- the row that an instance inserts when it starts and whose period it extends every five seconds, and
-- several instances over one table. PostgreSQL's ranges are parameters: `opened t` is `[t,)`,
-- `closed l u` is `tstzrange(l, u, '[)')` or none where that raises, and `lower` is its `lower`.
use boar_pack.Base.{
  ℕ, String, not, ◌||◌, Option, none, some, List, [], ◌∷◌, number_eq, text_eq, ◌==◌, if◌then◌else◌,
  truthy_text,
}
use boar_pack.Dict.{get, set}

-- `ApiStatistic`, without its id, which is the key of the table.
pub record ApiStatistic (Period : Type 0) : Type 0 where
  pub service_name : String
  pub uptime_period : Period

-- An instance: the argument of the constructor and `lastInsertedId`.
pub record Instance : Type 0 where
  pub service_name : Option String
  pub last_inserted_id : Option String

-- The instances by a number, and the table by the ids.
pub record World (Period : Type 0) : Type 0 where
  pub instances : List (ℕ × Instance)
  pub table : List (String × ApiStatistic Period)

-- What happens to an instance: the moment is the clock's, the id the one that the database generates.
-- An update stands where the database runs it, with the moment at which the service made its query.
pub data Event : Type 0 where
  constructed : (n : ℕ) (service_name : Option String) → Event
  initialised : (n : ℕ) (now : ℕ) (id : String) → Event
  ticked destroyed : (n : ℕ) (now : ℕ) → Event

module _ {Period : Type 0} (opened : ℕ → Period) (closed : Option ℕ → ℕ → Option Period)
    (lower : Period → Option ℕ) where
  unfoldable pub on_module_init :
      ℕ
      → String
      → Instance
      → List (String × ApiStatistic Period)
      → Instance × List (String × ApiStatistic Period)
  on_module_init now id s table = elim s.service_name [
    | none ↦ (s, table)
    | some name ↦ if name == "" then (s, table) else (
      record { service_name = some name; last_inserted_id = some id },
      set id (record { service_name = name; uptime_period = opened now }) table,
    )
  ]

  -- No row has the id `undefined`. A query that raises leaves the table.
  unfoldable pub update :
      ℕ → Instance → List (String × ApiStatistic Period) → List (String × ApiStatistic Period)
  update now s table = elim s.last_inserted_id [
    | none ↦ table
    | some id ↦ elim (get id table) [
      | none ↦ table
      | some row ↦ elim (closed (lower row.uptime_period) now) [
        | none ↦ table
        | some period ↦
            set id (record { service_name = row.service_name; uptime_period = period }) table
      ]
    ]
  ]

  unfoldable pub update_uptime_statistic :
      ℕ → Instance → List (String × ApiStatistic Period) → List (String × ApiStatistic Period)
  update_uptime_statistic now s table =
      if not (truthy_text s.service_name) || not (truthy_text s.last_inserted_id)
      then table
      else update now s table

  unfoldable pub on_module_destroy :
      ℕ → Instance → List (String × ApiStatistic Period) → List (String × ApiStatistic Period)
  on_module_destroy now s table =
      if not (truthy_text s.service_name) then table else update now s table

  -- The handlers run for an instance that was constructed.
  unfoldable pub step : Event → World Period → World Period
  step (constructed n name) w = record {
    instances = set n (record { service_name = name; last_inserted_id = none }) w.instances;
    table = w.table;
  }
  step (initialised n now id) w = elim (get n w.instances) [
    | none ↦ w
    | some s ↦
        let (s', table) = on_module_init now id s w.table in
        record { instances = set n s' w.instances; table = table }
  ]
  step (ticked n now) w = elim (get n w.instances) [
    | none ↦ w
    | some s ↦ record { instances = w.instances; table = update_uptime_statistic now s w.table }
  ]
  step (destroyed n now) w = elim (get n w.instances) [
    | none ↦ w
    | some s ↦ record { instances = w.instances; table = on_module_destroy now s w.table }
  ]

  unfoldable pub run : List Event → World Period → World Period
  run [] w = w
  run (e ∷ es) w = run es (step e w)
