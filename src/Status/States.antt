-- ===== src/Status/States.antt =====
-- setState over the life of a version.
use sequins.Prelude.{ℕ, ◌≡◌, List, [], ◌∷◌, Bool, true, false, ◌||◌, if◌then◌else◌, arith}
use sequins.Status.{
  VersionInfo, VersionState, version_available, version_removing, version_building, version_error,
  set_state,
}

-- The calls of setState in their order, each with its time.
set_states : List (VersionState × ℕ) → VersionInfo → VersionInfo
unfolding set_state
set_states [] vs = vs
set_states ((state, now) ∷ calls) vs = set_states calls (set_state state now vs)

abbrev is_error : VersionState → Bool
is_error version_error = true
is_error version_available = false
is_error version_removing = false
is_error version_building = false

last_state : VersionState → List (VersionState × ℕ) → VersionState
last_state state [] = state
last_state state ((next, now) ∷ calls) = last_state next calls

any_error : List (VersionState × ℕ) → Bool
any_error [] = false
any_error ((state, now) ∷ calls) = is_error state || any_error calls

-- After any calls of setState a version's state is that of the last one, unless one of them, or the
-- state before, was an error: then it is an error for good, also if the build is tried again and
-- succeeds.
set_states-last :
    (calls : List (VersionState × ℕ)) (vs : VersionInfo)
    → (set_states calls vs).state
      ≡ (if is_error vs.state || any_error calls then version_error else last_state vs.state calls)
unfolding set_states set_state any_error last_state
set_states-last [] vs = ground arith
set_states-last ((state, now) ∷ calls) vs =
    ground (arith, set_states-last calls (set_state state now vs))
