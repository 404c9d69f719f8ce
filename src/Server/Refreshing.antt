-- ===== src/Server/Refreshing.antt =====
-- Which dbs a node has after a refresh.
use sequins.Prelude.{
  ◌≡◌, refl, sym, ap, ◌∙◌, inl, inr, Bool, true, false, ◌&&◌, ◌||◌, not, Text, Text_eq, text_eq_iff,
  List, [], ◌∷◌, Option, none, some, if◌then◌else◌, ◌==◌, arith, Map, lookup, insert, lookup-insert,
  contains, Option-cases, Bool-cases,
}
use sequins.Server.{Node, look_at_dbs, close_dbs, refresh_all}

abbrev pub is_some : {A : Type 0} → Option A → Bool
is_some none = false
is_some (some a) = true

module _ {D : Type 0} (make : Text → D) where
  -- The db of a listed name: the one that the node has, or a new one.
  pub kept_or_made : Map Text D → Text → D
  kept_or_made old name = elim (lookup name old) [ none ↦ make name | some db ↦ db ]

  kept_new :
      (old : Map Text D) (name : Text) → lookup name old ≡ none → kept_or_made old name ≡ make name
  unfolding kept_or_made
  kept_new old name e = rw (e, kept_or_made) refl

  kept_old :
      (old : Map Text D) (name : Text) (db : D)
      → lookup name old ≡ some db
      → kept_or_made old name ≡ db
  unfolding kept_or_made
  kept_old old name db e = rw (e, kept_or_made) refl

  -- The rest of the loop found `found`, with the name `n` in the map.
  listed_first :
      (old dbs : Map Text D) (n name : Text) (names : List Text) (db : D) (found : Option D)
      → kept_or_made old n ≡ db
      → found ≡ (
          if contains names name
          then some (kept_or_made old name)
          else lookup name (insert n db dbs))
      → found ≡ (
          if n == name || contains names name
          then some (kept_or_made old name)
          else lookup name dbs)
  listed_first old dbs n name names db found e rest = elim (Bool-cases (n == name)) [
    | inl same ↦
        let at_name : some db ≡ some (kept_or_made old name) =
          ap some (sym e ∙ ap (kept_or_made old) ((text_eq_iff n name).0 same)) in
        ground (arith, rest, lookup-insert n name db dbs, same, at_name)
    | inr other ↦ ground (arith, rest, lookup-insert n name db dbs, other)
  ]

  lookup-look_at_dbs :
      (old : Map Text D) (names : List Text) (dbs : Map Text D) (refreshing : List Text)
      (name : Text)
      → lookup name (look_at_dbs make old names (dbs, refreshing)).0
        ≡ (if contains names name then some (kept_or_made old name) else lookup name dbs)
  unfolding look_at_dbs contains
  lookup-look_at_dbs old [] dbs refreshing name = refl
  lookup-look_at_dbs old (n ∷ names) dbs refreshing name = elim (Option-cases (lookup n old)) [
    | inl e ↦
        rw (e, look_at_dbs)
          (listed_first old dbs n name names (make n) _ (kept_new old n e)
            (lookup-look_at_dbs old names (insert n (make n) dbs) refreshing name))
    | inr (db, e) ↦
        rw (e, look_at_dbs)
          (listed_first old dbs n name names db _ (kept_old old n db e)
            (lookup-look_at_dbs old names (insert n db dbs) (n ∷ refreshing) name))
  ]

  contains-refreshing :
      (old : Map Text D) (names : List Text) (dbs : Map Text D) (refreshing : List Text)
      (name : Text)
      → contains (look_at_dbs make old names (dbs, refreshing)).1 name
        ≡ (contains names name && is_some (lookup name old) || contains refreshing name)
  unfolding look_at_dbs contains
  contains-refreshing old [] dbs refreshing name = refl
  contains-refreshing old (n ∷ names) dbs refreshing name = elim (Option-cases (lookup n old)) [
    | inl e ↦
        rw (e, look_at_dbs)
          (elim (Bool-cases (n == name)) [
            | inl same ↦ ground (
              arith,
              contains-refreshing old names (insert n (make n) dbs) refreshing name,
              same,
              ap (λ x. is_some (lookup x old)) ((text_eq_iff n name).0 same),
              e,
            )
            | inr other ↦ ground (
              arith,
              contains-refreshing old names (insert n (make n) dbs) refreshing name,
              other,
            )
          ])
    | inr (db, e) ↦
        rw (e, look_at_dbs)
          (elim (Bool-cases (n == name)) [
            | inl same ↦ ground (
              arith,
              contains-refreshing old names (insert n db dbs) (n ∷ refreshing) name,
              same,
              ap (λ x. is_some (lookup x old)) ((text_eq_iff n name).0 same),
              e,
            )
            | inr other ↦ ground (
              arith,
              contains-refreshing old names (insert n db dbs) (n ∷ refreshing) name,
              other,
            )
          ])
  ]

  contains-close_dbs :
      (new old : Map Text D) (name : Text)
      → contains (close_dbs make new old) name
        ≡ (is_some (lookup name old) && not (is_some (lookup name new)))
  unfolding close_dbs contains lookup
  contains-close_dbs new [] name = refl
  contains-close_dbs new ((n, db) ∷ old) name = elim (Option-cases (lookup n new)) [
    | inl e ↦
        rw (e, close_dbs)
          (elim (Bool-cases (n == name)) [
            | inl same ↦ ground (
              arith,
              contains-close_dbs new old name,
              same,
              ap (λ x. is_some (lookup x new)) ((text_eq_iff n name).0 same),
              e,
            )
            | inr other ↦ ground (arith, contains-close_dbs new old name, other)
          ])
    | inr (kept, e) ↦
        rw (e, close_dbs)
          (elim (Bool-cases (n == name)) [
            | inl same ↦ ground (
              arith,
              contains-close_dbs new old name,
              same,
              ap (λ x. is_some (lookup x new)) ((text_eq_iff n name).0 same),
              e,
            )
            | inr other ↦ ground (arith, contains-close_dbs new old name, other)
          ])
  ]

  -- After a refresh with the listed names, the node has a db for each of them and for no other: the
  -- db that it had, which is refreshed, or a new one. The dbs that are closed and deleted
  -- are those that it had and that are not listed.
  pub refresh_all-dbs :
      (names : List Text) (node : Node D) (name : Text)
      → (lookup name (refresh_all make (some names) node).dbs
          ≡ (if contains names name then some (kept_or_made node.dbs name) else none))
        × (contains (refresh_all make (some names) node).refreshing name
            ≡ (contains names name && is_some (lookup name node.dbs)))
        × (contains (refresh_all make (some names) node).closed name
            ≡ (is_some (lookup name node.dbs) && not (contains names name)))
  unfolding refresh_all lookup contains
  refresh_all-dbs names node name =
      let dbs : Map Text D = (look_at_dbs make node.dbs names ([], [])).0 in
      let listed : lookup name dbs
          ≡ (if contains names name then some (kept_or_made node.dbs name) else none) =
        lookup-look_at_dbs node.dbs names [] [] name in
      (
        listed,
        ground (arith, contains-refreshing node.dbs names [] [] name),
        ground (arith, contains-close_dbs dbs node.dbs name, listed),
      )
