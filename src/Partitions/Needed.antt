-- ===== src/Partitions/Needed.antt =====
-- What is left to build.
use sequins.Prelude.{
  ℕ, ◌≡◌, refl, sym, subst, Bool, true, false, not, [], ◌∷◌, some, arith, native_keys, nat_eq_iff,
  KeySet, contains, contains-filter, contains-add_all, add_all, filter,
}
use sequins.Partitions.{Partitions, Watcher, needed, update_local_partitions, update_missing}
use sequins.Partitions.Runs.{LocalStep, local_step}

filter-none :
    (f : ℕ → Bool) (xs : KeySet ℕ)
    → ((i : ℕ) → contains xs i ≡ true → f i ≡ false)
    → filter f xs ≡ []
unfolding contains
filter-none f [] h = refl
filter-none f (x ∷ xs) h =
    rw (h x (ground (arith, nat_eq_iff x x))) (filter-none f xs λ i e. h i (ground (arith, e)))

needed-add_all : (p : Partitions) → needed (record p { local = add_all (needed p) p.local }) ≡ []
unfolding needed
needed-add_all p =
    filter-none (λ i. not (contains (add_all (needed p) p.local) i)) p.selected
      λ i e. ground (
        arith,
        e,
        contains-add_all (needed p) p.local i,
        contains-filter (λ j. not (contains p.local j)) p.selected i,
      )

-- Once the partitions that were needed are here, none is needed.
pub needed-update_local_partitions :
    (p q : Partitions) (w v : Watcher)
    → update_local_partitions (needed p) p w ≡ some (q, v)
    → needed q ≡ []
unfolding LocalStep update_missing needed
needed-update_local_partitions p q w v h =
    subst (λ (x : Partitions). needed x ≡ []) (sym (local_step p q w v (needed p) h).0)
      (needed-add_all p)
