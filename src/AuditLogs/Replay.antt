-- ===== src/AuditLogs/Replay.antt =====
-- The audit log tells what the table holds.
use boar_pack.Base.{◌≡◌, Bool, Option, none, some, List, [], ◌∷◌, ◌==◌, if◌then◌else◌}
use boar_pack.AuditLogs.Service.{
  Fields, Table, AuditLog, Request, State, create_one, update_one, delete_one,
}

module _ {V : Type 0} (t : Table V) where
  open t use {Key, Store, key_of, find, save, remove, soft_remove}

  is_of : Key → Fields V → Bool
  is_of k row = ◌==◌ ⦃e = t.key_eq⦄ (key_of row) k

  -- What one row of the log says of a key.
  abbrev pub told :
      Key → Option (Fields V) → Option (Fields V) → Option (Fields V) → Option (Fields V)
  told k old (some row) before = if ◌==◌ ⦃e = t.key_eq⦄ (key_of row) k then some row else before
  told k (some row) none before = if ◌==◌ ⦃e = t.key_eq⦄ (key_of row) k then none else before
  told k none none before = before

  -- What the log says of a key: a row with new values gives them, one with old values alone takes
  -- the entity away.
  unfoldable pub replay : Key → List (AuditLog t) → Option (Fields V) → Option (Fields V)
  replay k [] before = before
  replay k (log ∷ logs) before = replay k logs (told k log.old_values log.new_values before)

  pub data Call : Type 0 where
    creates : Request t → Fields V → Call
    updates : Request t → Fields V → Call
    deletes : Request t → Call

  abbrev pub perform : Call → State t → State t
  perform (creates req dto) state = create_one t req dto state
  perform (updates req dto) state = update_one t req dto state
  perform (deletes req) state = delete_one t req state

  unfoldable pub run : List Call → State t → State t
  run [] state = state
  run (c ∷ cs) state = run cs (perform c state)

  -- The table holds for the key what the log says, from what it held when the log was empty.
  abbrev pub IsTold : Store → Key → State t → Type 0
  IsTold s₀ k state = find k state.0 ≡ replay k state.1 (find k s₀)
