-- ===== src/Backend/Sorting.antt =====
-- sort.Strings sorts, and keeps what is in the list.
use sequins.Prelude.{
  ◌≡◌, refl, true, false, ◌||◌, Text, Text_eq, List, [], ◌∷◌, arith, Bool-cases, inl, inr, text_lt,
  text_lt_irrefl, text_lt_trans, not_below, contains, All, ◌==◌,
}
use sequins.Backend.{insert_string, sort_strings}

-- In order, and in order without a repeated text.
unfoldable pub Sorted : List Text → Type 0
Sorted [] = Unit
Sorted (x ∷ xs) = All (λ y. text_lt y x ≡ false) xs × Sorted xs

unfoldable pub Ascending : List Text → Type 0
Ascending [] = Unit
Ascending (x ∷ xs) = All (λ y. text_lt x y ≡ true) xs × Ascending xs

pub contains-insert_string :
    (x a : Text) (xs : List Text) → contains (insert_string x xs) a ≡ (x == a || contains xs a)
unfolding insert_string contains
contains-insert_string x a [] = ground arith
contains-insert_string x a (y ∷ ys) = ground (arith, contains-insert_string x a ys)

pub contains-sort_strings :
    (a : Text) (xs : List Text) → contains (sort_strings xs) a ≡ contains xs a
unfolding sort_strings contains
contains-sort_strings a [] = refl
contains-sort_strings a (x ∷ xs) =
    ground (arith, contains-insert_string x a (sort_strings xs), contains-sort_strings a xs)

All-not_below :
    (x y : Text) (zs : List Text)
    → text_lt y x ≡ false
    → All (λ z. text_lt z y ≡ false) zs
    → All (λ z. text_lt z x ≡ false) zs
All-not_below x y [] k h = tt
All-not_below x y (z ∷ zs) k h = (not_below x y z h.0 k, All-not_below x y zs k h.1)

All-insert_string :
    (y x : Text) (xs : List Text)
    → text_lt x y ≡ false
    → All (λ z. text_lt z y ≡ false) xs
    → All (λ z. text_lt z y ≡ false) (insert_string x xs)
unfolding insert_string
All-insert_string y x [] k h = (k, tt)
All-insert_string y x (z ∷ zs) k h = elim (Bool-cases (text_lt z x)) [
  | inl lt ↦ rw lt (h.0, All-insert_string y x zs k h.1)
  | inr ge ↦ rw ge (k, h)
]

text_lt_asym : (x y : Text) → text_lt x y ≡ true → text_lt y x ≡ false
text_lt_asym x y h = elim (Bool-cases (text_lt y x)) [
  | inr ge ↦ ge
  | inl lt ↦ absurd (clash (text_lt_trans x y x h lt))
]
  where
    clash : text_lt x x ≡ true → ⊥
    clash e = ground (arith, e, text_lt_irrefl x)

insert_string-Sorted : (x : Text) (xs : List Text) → Sorted xs → Sorted (insert_string x xs)
unfolding insert_string Sorted
insert_string-Sorted x [] h = (tt, tt)
insert_string-Sorted x (y ∷ ys) h = elim (Bool-cases (text_lt y x)) [
  | inl lt ↦
      rw lt (All-insert_string y x ys (text_lt_asym y x lt) h.0, insert_string-Sorted x ys h.1)
  | inr ge ↦ rw ge ((ge, All-not_below x y ys ge h.0), h)
]

pub sort_strings-Sorted : (xs : List Text) → Sorted (sort_strings xs)
unfolding sort_strings Sorted
sort_strings-Sorted [] = tt
sort_strings-Sorted (x ∷ xs) = insert_string-Sorted x (sort_strings xs) (sort_strings-Sorted xs)
