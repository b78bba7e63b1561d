-- ===== src/Auth/Race.antt =====
-- Two requests to refresh at the same time. Between the answer of `isTokenRevoked` and the end of
-- `revokeRefreshToken` a request waits for the database, and the other may run.
use boar_pack.Base.{◌≡◌, ℕ, String, Result, ok, err, List, [], ◌∷◌, arith, Bool, true, false, not}
use boar_pack.Users.{User}
use boar_pack.Auth.Payload.{Payload}
use boar_pack.Auth.Runtime.{Runtime}
use boar_pack.Auth.Rotation.{check_refresh-consume_refresh}
use boar_pack.Auth.Strategies.{
  Rejection, token_revoked, check_refresh, consume_refresh, user_or_throw,
}

-- Where a request stands: not begun, past the check, or answered.
pub data Phase : Type 0 where
  waiting : Phase
  checked : String → Phase
  answered : Result Rejection User → Phase

module _ (rt : Runtime) (payload : Payload) (now : ℕ) where
  open rt use {repo, find_user}

  pub record System : Type 0 where
    pub store : repo.Store
    pub first : Phase
    pub second : Phase

  abbrev checking : Result Rejection String → Phase
  checking (err e) = answered (err e)
  checking (ok jti) = checked jti

  -- One request runs up to its next wait.
  unfoldable pub advance : repo.Store → Phase → repo.Store × Phase
  advance s waiting = (s, checking (check_refresh rt payload s))
  advance s (checked jti) =
      (consume_refresh rt payload jti now s, answered (user_or_throw rt (find_user payload.sub)))
  advance s (answered r) = (s, answered r)

  -- `false` lets the first request run, `true` the second.
  unfoldable pub schedule : List Bool → System → System
  unfolding advance
  schedule [] y = y
  schedule (false ∷ turns) y =
      let (s, p) = advance y.store y.first in
      schedule turns (record { store = s; first = p; second = y.second })
  schedule (true ∷ turns) y =
      let (s, p) = advance y.store y.second in
      schedule turns (record { store = s; first = y.first; second = p })

  abbrev pub both_waiting : repo.Store → System
  both_waiting s = record { store = s; first = waiting; second = waiting }

  -- The first request, or the second.
  abbrev pub phase_of : Bool → System → Phase
  phase_of false y = y.first
  phase_of true y = y.second

  overlapping :
      (b c : Bool) (jti : String) (u : User) (s : repo.Store)
      → check_refresh rt payload s ≡ ok jti
      → user_or_throw rt (find_user payload.sub) ≡ ok u
      → let y = schedule (b ∷ not b ∷ c ∷ not c ∷ []) (both_waiting s) in
        (y.first ≡ answered (ok u)) × (y.second ≡ answered (ok u))
  unfolding schedule
  overlapping false false jti u s passed found = ground arith
  overlapping false true jti u s passed found = ground arith
  overlapping true false jti u s passed found = ground arith
  overlapping true true jti u s passed found = ground arith

  in_turn :
      (b : Bool) (jti : String) (u : User) (s : repo.Store)
      → check_refresh rt payload s ≡ ok jti
      → user_or_throw rt (find_user payload.sub) ≡ ok u
      → let y = schedule (b ∷ b ∷ not b ∷ not b ∷ []) (both_waiting s) in
        (phase_of b y ≡ answered (ok u)) × (phase_of (not b) y ≡ answered (err token_revoked))
  unfolding schedule
  in_turn false jti u s passed found =
      ground (arith, check_refresh-consume_refresh rt payload jti now s passed)
  in_turn true jti u s passed found =
      ground (arith, check_refresh-consume_refresh rt payload jti now s passed)

  -- Of two requests with a refresh token that passes the check and whose user is found, whichever
  -- begins: if each makes its check before the other has stored the token, whichever stores it first,
  -- both get the user; if one has stored it before the other makes its check, the one gets the user
  -- and the other is refused as revoked.
  pub refresh_race :
      (b c : Bool) (jti : String) (u : User) (s : repo.Store)
      → check_refresh rt payload s ≡ ok jti
      → user_or_throw rt (find_user payload.sub) ≡ ok u
      → let overlapped = schedule (b ∷ not b ∷ c ∷ not c ∷ []) (both_waiting s) in
        let apart = schedule (b ∷ b ∷ not b ∷ not b ∷ []) (both_waiting s) in
        ((overlapped.first ≡ answered (ok u)) × (overlapped.second ≡ answered (ok u)))
        × (phase_of b apart ≡ answered (ok u))
        × (phase_of (not b) apart ≡ answered (err token_revoked))
  refresh_race b c jti u s passed found =
      let (one, other) = in_turn b jti u s passed found in
      (overlapping b c jti u s passed found, one, other)
