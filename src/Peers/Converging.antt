-- ===== src/Peers/Converging.antt =====
-- sync and waitToConverge of peers.go. Times are natural numbers.
use sequins.Prelude.{
  ℕ, ◌+◌, ◌≤◌, ◌⊎◌, inl, inr, Text, List, [], ◌∷◌, Option, none, some, if◌then◌else◌, ltb, All,
  arith, Bool-cases, sym, subst, if_true, if_false,
}
use sequins.Peers.{Peers, update_peers}

-- What one turn of sync receives: an update, or a disconnect.
sync : Option (List Text) → Peers → Option Peers
sync none p = some p
sync (some nodes) p = update_peers nodes p

-- When the wait ends: `resets` are the times, from the first to the last, at which sync resets the
-- timer, and `now` the time at which it was set last.
wait_to_converge : ℕ → ℕ → List ℕ → ℕ
wait_to_converge dur now [] = now + dur
wait_to_converge dur now (reset ∷ resets) =
    let later = wait_to_converge dur reset resets in
    if ltb reset (now + dur) then later else now + dur

Ascending : ℕ → List ℕ → Type 0
Ascending now [] = Unit
Ascending now (reset ∷ resets) = (now ≤ reset) × Ascending reset resets

later_resets :
    (e now : ℕ) (resets : List ℕ) → e ≤ now → Ascending now resets → All (λ r. e ≤ r) resets
unfolding Ascending
later_resets e now [] h asc = tt
later_resets e now (reset ∷ resets) h asc =
    (omega (arith, h, asc.0), later_resets e reset resets (omega (arith, h, asc.0)) asc.1)

weaken :
    (dur e : ℕ) (resets : List ℕ)
    → All (λ r. e ≤ r) resets
    → All (λ r. (r + dur ≤ e) ⊎ (e ≤ r)) resets
weaken dur e [] h = tt
weaken dur e (reset ∷ resets) h = (inr h.0, weaken dur e resets h.1)

-- `e` is late enough, and each reset came `dur` before it, or not before it.
Quiet : ℕ → ℕ → List ℕ → ℕ → Type 0
Quiet dur now resets e = (now + dur ≤ e) × All (λ r. (r + dur ≤ e) ⊎ (e ≤ r)) resets

-- The wait lasts at least as long as it is set to, and when it ends the listing of the peers has
-- been quiet for that long, if the resets are given from the first to the last.
wait_to_converge-Quiet :
    (dur now : ℕ) (resets : List ℕ)
    → Ascending now resets
    → Quiet dur now resets (wait_to_converge dur now resets)
unfolding wait_to_converge Ascending Quiet
wait_to_converge-Quiet dur now [] asc = (omega arith, tt)
wait_to_converge-Quiet dur now (reset ∷ resets) asc =
    let (least, quiet) = wait_to_converge-Quiet dur reset resets asc.1 in
    elim (Bool-cases (ltb reset (now + dur))) [
      | inl before ↦
          subst (Quiet dur now (reset ∷ resets))
            (sym (if_true (ltb reset (now + dur)) (now + dur) before))
            (omega (arith, least, asc.0), (inl least, quiet))
      | inr after ↦
          subst (Quiet dur now (reset ∷ resets))
            (sym (if_false (ltb reset (now + dur)) (wait_to_converge dur reset resets) after))
            (
              omega arith,
              (
                inr (ground (arith, after)),
                weaken dur (now + dur) resets
                    (later_resets (now + dur) reset resets (ground (arith, after)) asc.1),
              ),
            )
    ]
