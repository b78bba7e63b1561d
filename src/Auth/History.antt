-- ===== src/Auth/History.antt =====
-- What the requests of the session code do to the table of revoked tokens, one after another.
use boar_pack.Base.{ℕ, ◌≤◌, List, [], ◌∷◌}
use boar_pack.Auth.Payload.{Payload}
use boar_pack.Auth.Revoked.{cleanup_expired_tokens}
use boar_pack.Auth.Runtime.{Runtime}
use boar_pack.Auth.Service.{logout}
use boar_pack.Auth.Strategies.{validate_refresh}

-- Each with its time.
pub data Request : Type 0 where
  log_out use_refresh : Payload → ℕ → Request
  clean : ℕ → Request

-- No cleanup of the list runs after the given time.
abbrev pub CleanedBy : ℕ → List Request → Type 0
CleanedBy until [] = Unit
CleanedBy until (clean now ∷ es) = (now ≤ until) × CleanedBy until es
CleanedBy until (log_out _ _ ∷ es) = CleanedBy until es
CleanedBy until (use_refresh _ _ ∷ es) = CleanedBy until es

module _ (rt : Runtime) where
  open rt use {repo}

  unfoldable pub step : Request → repo.Store → repo.Store
  step (log_out jwt now) s = logout rt jwt now s
  step (use_refresh payload now) s = (validate_refresh rt payload now s).0
  step (clean now) s = cleanup_expired_tokens repo now s

  unfoldable pub run : List Request → repo.Store → repo.Store
  run [] s = s
  run (e ∷ es) s = run es (step e s)
