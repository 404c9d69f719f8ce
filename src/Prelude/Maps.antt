-- ===== src/Prelude/Maps.antt =====
-- Go's maps. A `map[K]V` is an association list; a `map[K]bool` in which the source only ever
-- stores `true` is the set of its keys. Ranging over a map visits the list in its order.
use mathlib.Core.Path.{◌≡◌, refl, sym, subst, ap}
use mathlib.Core.Logic.{inl, inr}
use mathlib.Core.Bool.{Bool, true, false, not, ◌&&◌, ◌||◌}
use mathlib.Core.List.{List, [], ◌∷◌, ◌++◌, map}
use mathlib.Core.Option.{Option, none, some}
use native.Mathlib.Omega.{arith}
use sequins.Prelude.Lists.{filter}
use sequins.Prelude.Tests.{if◌then◌else◌, Comparable, ◌==◌, Bool-cases}

abbrev pub Map : Type 0 → Type 0 → Type 0
Map K V = List (K × V)

module _ {K V : Type 0} ⦃e : Comparable K⦄ where
  -- The two results of `v, ok := m[k]`.
  unfoldable pub lookup : K → Map K V → Option V
  lookup key ((k, v) ∷ rest) = if k == key then some v else lookup key rest
  lookup key [] = none

  -- m[k] = v
  unfoldable pub insert : K → V → Map K V → Map K V
  insert key value ((k, v) ∷ rest) =
      let after = insert key value rest in if k == key then (key, value) ∷ rest else (k, v) ∷ after
  insert key value [] = (key, value) ∷ []

  unfoldable pub delete : K → Map K V → Map K V
  delete k [] = []
  delete k ((j, w) ∷ m) = if j == k then delete k m else (j, w) ∷ delete k m

  module _ (key other : K) (value : V) where
    pub lookup-insert :
        (entries : Map K V)
        → lookup other (insert key value entries)
          ≡ (if key == other then some value else lookup other entries)
    unfolding insert lookup
    lookup-insert ((k, v) ∷ rest) =
        ground (lookup-insert rest, e.sound k other, e.sound k key, e.sound key other, arith)
    lookup-insert [] = refl

  pub lookup-insert_self : (k : K) (v : V) (m : Map K V) → lookup k (insert k v m) ≡ some v
  lookup-insert_self k v m = rw lookup-insert (rw ((e.sound k k).1 refl) refl)

  pub lookup-insert_other :
      (k j : K) (v : V) (m : Map K V) → (k == j) ≡ false → lookup j (insert k v m) ≡ lookup j m
  lookup-insert_other k j v m h = rw lookup-insert (rw h refl)

  pub lookup-delete :
      (k j : K) (m : Map K V) → lookup j (delete k m) ≡ (if k == j then none else lookup j m)
  unfolding lookup delete
  lookup-delete k j [] = ground arith
  lookup-delete k j ((i, w) ∷ m) =
      ground (arith, e.sound k j, e.sound i k, e.sound i j, lookup-delete k j m)

abbrev pub KeySet : Type 0 → Type 0
KeySet K = List K

module _ {K : Type 0} ⦃e : Comparable K⦄ where
  unfoldable pub contains : KeySet K → K → Bool
  contains [] k = false
  contains (j ∷ s) k = j == k || contains s k

  -- s[k] = true
  unfoldable pub add : K → KeySet K → KeySet K
  unfolding contains
  add k s = if contains s k then s else s ++ k ∷ []

  pub contains-append :
      (s t : KeySet K) (k : K) → contains (s ++ t) k ≡ (contains s k || contains t k)
  unfolding contains
  contains-append [] t k = refl
  contains-append (j ∷ s) t k = ground (arith, contains-append s t k)

  pub contains-add : (j k : K) (s : KeySet K) → contains (add j s) k ≡ (j == k || contains s k)
  unfolding add contains
  contains-add j k s = ground (arith, contains-append s (j ∷ []) k, e.sound j k)

  -- for k := range t { s[k] = true }
  unfoldable pub add_all : KeySet K → KeySet K → KeySet K
  unfolding add
  add_all [] s = s
  add_all (k ∷ t) s = add_all t (add k s)

  pub contains-add_all :
      (t s : KeySet K) (k : K) → contains (add_all t s) k ≡ (contains t k || contains s k)
  unfolding add_all contains
  contains-add_all [] s k = refl
  contains-add_all (j ∷ t) s k = ground (arith, contains-add_all t (add j s) k, contains-add j k s)

  pub contains-filter :
      (f : K → Bool) (s : KeySet K) (k : K) → contains (filter f s) k ≡ (contains s k && f k)
  unfolding contains
  contains-filter f [] k = refl
  contains-filter f (j ∷ s) k = elim (Bool-cases (j == k)) [
    | inl same ↦ ground (arith, contains-filter f s k, same, ap f ((e.sound j k).0 same))
    | inr other ↦ ground (arith, contains-filter f s k, other)
  ]

  -- delete(s, k)
  unfoldable pub remove : K → KeySet K → KeySet K
  remove k [] = []
  remove k (j ∷ s) = let rest = remove k s in if j == k then rest else j ∷ rest

  pub contains-remove :
      (j k : K) (s : KeySet K) → contains (remove j s) k ≡ (not (j == k) && contains s k)
  unfolding remove contains
  contains-remove j k [] = ground arith
  contains-remove j k (i ∷ s) =
      ground (arith, contains-remove j k s, e.sound i j, e.sound i k, e.sound j k)

  unfoldable pub remove_all : KeySet K → KeySet K → KeySet K
  remove_all [] s = s
  remove_all (k ∷ t) s = remove_all t (remove k s)

  pub contains-remove_all :
      (t s : KeySet K) (k : K) → contains (remove_all t s) k ≡ (not (contains t k) && contains s k)
  unfolding remove_all contains
  contains-remove_all [] s k = refl
  contains-remove_all (j ∷ t) s k =
      ground (arith, contains-remove_all t (remove j s) k, contains-remove j k s)

-- The images of a set's keys.
module _ {K L : Type 0} ⦃e : Comparable K⦄ ⦃d : Comparable L⦄ (f : K → L) where
  map-add_self : (k : K) (s : KeySet K) → contains s k ≡ true → contains (map f s) (f k) ≡ true
  unfolding contains
  map-add_self k [] h = ground arith
  map-add_self k (j ∷ s) h = elim (Bool-cases (j == k)) [
    | inl same ↦ rw (sym ((e.sound j k).0 same)) (rw ((d.sound (f j) (f j)).1 refl) refl)
    | inr other ↦ ground (arith, map-add_self k s (ground arith))
  ]

  map-append :
      (s t : List K) (x : L)
      → contains (map f (s ++ t)) x ≡ (contains (map f s) x || contains (map f t) x)
  unfolding contains
  map-append [] t x = refl
  map-append (j ∷ s) t x = ground (arith, map-append s t x)

  map-add :
      (k : K) (s : KeySet K) (x : L)
      → contains (map f (add k s)) x ≡ (f k == x || contains (map f s) x)
  unfolding add contains
  map-add k s x = elim (Bool-cases (contains s k)) [
    | inl old ↦ rw old (
        ground (
          arith,
          map-add_self k s old,
          subst (λ y. contains (map f s) y ≡ contains (map f s) y) refl refl,
          d.sound (f k) x,
        ))
    | inr new ↦ rw new (ground (arith, map-append s (k ∷ []) x))
  ]

  pub contains-map-add_all :
      (t s : KeySet K) (x : L)
      → contains (map f (add_all t s)) x ≡ (contains (map f t) x || contains (map f s) x)
  unfolding add_all contains
  contains-map-add_all [] s x = refl
  contains-map-add_all (k ∷ t) s x =
      ground (arith, contains-map-add_all t (add k s) x, map-add k s x)

-- No key stands twice, as in every Go map.
module _ {K V : Type 0} ⦃e : Comparable K⦄ where
  abbrev pub Distinct : Map K V → Type 0
  Distinct [] = Unit
  Distinct ((k, v) ∷ m) = (lookup k m ≡ none) × Distinct m

  pub insert-Distinct : (k : K) (v : V) (m : Map K V) → Distinct m → Distinct (insert k v m)
  unfolding insert
  insert-Distinct k v [] d = (unfold lookup in refl, tt)
  insert-Distinct k v ((j, w) ∷ m) d = elim (Bool-cases (j == k)) [
    | inl same ↦ rw same (rw (sym ((e.sound j k).0 same)) (d.0, d.1))
    | inr other ↦
        rw other (
          ground (arith, lookup-insert k j v m, e.sound j k, e.sound k j),
          insert-Distinct k v m d.1,
        )
  ]

  -- An entry behind the first is found, since its key is another one.
  pub lookup-tail :
      (k : K) (v : V) (m : Map K V) (j : K) (w : V)
      → Distinct ((k, v) ∷ m)
      → lookup j m ≡ some w
      → lookup j ((k, v) ∷ m) ≡ some w
  unfolding lookup
  lookup-tail k v m j w d h = elim (Bool-cases (k == j)) [
    | inl same ↦ absurd (clash (subst (λ x. lookup x m ≡ none) ((e.sound k j).0 same) d.0))
    | inr other ↦ rw other h
  ]
    where
      clash : lookup j m ≡ none → ⊥
      clash n = cc (n, h)

  pub lookup-head : (k : K) (v : V) (m : Map K V) → lookup k ((k, v) ∷ m) ≡ some v
  unfolding lookup
  lookup-head k v m = rw ((e.sound k k).1 refl)
