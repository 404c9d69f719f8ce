-- ===== src/Debug/Disk.antt =====
-- The size of the local store.
use sequins.Prelude.{
  ℕ, ◌+◌, ◌≡◌, refl, ap, ◌∙◌, ◌⊎◌, inl, inr, Bool, true, false, List, [], ◌∷◌, none, some,
  if◌then◌else◌, native_keys, arith, Bool-cases,
}
use sequins.Debug.{Histogram, SequinsStats, Visit, size_of, walk, calculate_disk_usage}

total_size : List Visit → ℕ
total_size [] = 0
total_size (v ∷ visits) = size_of v + total_size visits

some_fails : List Visit → Bool
some_fails [] = false
some_fails (v ∷ visits) = if v.fails then true else some_fails visits

walk-total :
    (visits : List Visit) (size : ℕ)
    → ((some_fails visits ≡ false) × (walk visits size ≡ some (size + total_size visits)))
      ⊎ ((some_fails visits ≡ true) × (walk visits size ≡ none))
unfolding walk some_fails total_size
walk-total [] size = inl (refl, ground arith)
walk-total (v ∷ visits) size = elim (Bool-cases v.fails) [
  | inl fails ↦ inr (rw fails refl, rw fails refl)
  | inr passes ↦ elim (walk-total visits (size + size_of v)) [
    | inl (none_fails, total) ↦
        inl (rw passes none_fails, rw passes (total ∙ ap some (ground arith)))
    | inr (one_fails, stops) ↦ inr (rw passes one_fails, rw passes stops)
  ]
]

-- A walk without an error sets the disk usage to the sum of the sizes of all that is not a
-- directory; after one with an error, the statistics are what they were.
calculate_disk_usage-total :
    (h : Histogram) (visits : List Visit) (s : SequinsStats h)
    → ((some_fails visits ≡ false)
        × (calculate_disk_usage h visits s ≡ record s { disk_used = total_size visits }))
      ⊎ ((some_fails visits ≡ true) × (calculate_disk_usage h visits s ≡ s))
unfolding calculate_disk_usage
calculate_disk_usage-total h visits s = elim (walk-total visits 0) [
  | inl (passes, total) ↦
      inl (passes, rw (total ∙ ap some (zero_add (total_size visits)), calculate_disk_usage) refl)
  | inr (fails, stops) ↦ inr (fails, rw (stops, calculate_disk_usage) refl)
]
  where
    zero_add : (n : ℕ) → 0 + n ≡ n
    zero_add n = omega arith
