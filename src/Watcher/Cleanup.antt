-- ===== src/Watcher/Cleanup.antt =====
-- cleanupTree of zk_watcher.go: the walk of the tree below the prefix that deletes what is empty.
-- The fuel is a bound of the height of the tree; to run out of it is `none`. Children and Delete of gozk are
-- the record ZkTree; Delete fails, and changes nothing, where a node has children.
pub mod Tests
use sequins.Prelude.{
  ℕ, zero, suc, ◌≡◌, ◌≢◌, refl, sym, ap, subst, ◌∙◌, Bool, true, false, Text, Text_eq, text_eq_iff,
  List, [], ◌∷◌, Option, none, some, ◌>>=◌, contains, arith,
}
use sequins.Watcher.{Node}

pub record ZkTree : Type 1 where
  pub World : Type 0
  -- The names of the children, and whether the node is ephemeral; `none` is an error.
  pub children : Node → World → Option (List Text × Bool)
  pub delete : Node → World → World

module _ (zk : ZkTree) where
  open zk use {World}

  -- The loop of cleanupTree, with what it calls for each child.
  cleanup_each : (Node → World → Option World) → Node → List Text → World → Option World
  cleanup_each cleanup node [] w = some w
  cleanup_each cleanup node (child ∷ names) w =
      (cleanup (child ∷ node) w >>= λ w'. cleanup_each cleanup node names w')

  pub cleanup_tree : ℕ → Node → World → Option World
  unfolding cleanup_each
  cleanup_tree zero node w = none
  cleanup_tree (suc fuel) node w = elim (zk.children node w) [
    | none ↦ some w
    | some (names, true) ↦ some w
    | some (names, false) ↦
        (cleanup_each (cleanup_tree fuel) node names w >>= λ w'. some (zk.delete node w'))
  ]

abbrev pub IsEphemeral : (zk : ZkTree) → Node → ZkTree.World zk → Type 0
IsEphemeral zk node w = (names : List Text) × (zk.children node w ≡ some (names, true))

-- What Zookeeper promises while nobody else changes the tree.
pub record Alone (zk : ZkTree) : Type 1 where
  pub fewer :
      (node other : Node) (w : ZkTree.World zk) (names : List Text) (b : Bool)
      → zk.children node (zk.delete other w) ≡ some (names, b)
      → (before : List Text) × (zk.children node w ≡ some (before, b))
        × ((n : Text) → contains names n ≡ true → contains before n ≡ true)
  pub kept :
      (node other : Node) (w : ZkTree.World zk)
      → node ≢ other
      → IsEphemeral zk node w
      → IsEphemeral zk node (zk.delete other w)

module _ (zk : ZkTree) where
  open zk use {World}

  -- The tree below the node is less than `n` levels high.
  unfoldable pub Within : ℕ → Node → World → Type 0
  Within zero node w = ⊥
  Within (suc n) node w =
      (names : List Text)
      → zk.children node w ≡ some (names, false)
      → (child : Text) → contains names child ≡ true
      → Within n (child ∷ node) w

  -- The tree did not grow, and the ephemeral nodes are still there.
  pub record After (w w' : World) : Type 0 where
    pub within : (n : ℕ) (node : Node) → Within n node w → Within n node w'
    pub ephemeral : (node : Node) → IsEphemeral zk node w → IsEphemeral zk node w'

  After-refl : (w : World) → After w w
  After-refl w = record { within = λ n node h. h; ephemeral = λ node h. h }

  After-trans : (a b c : World) → After a b → After b c → After a c
  After-trans a b c first second = record {
    within = λ n node h. second.within n node (first.within n node h);
    ephemeral = λ node h. second.ephemeral node (first.ephemeral node h);
  }

contains_first : (child : Text) (names : List Text) → contains (child ∷ names) child ≡ true
unfolding contains
contains_first child names = ground (arith, text_eq_iff child child)

contains_rest :
    (child : Text) (names : List Text) (other : Text)
    → contains names other ≡ true
    → contains (child ∷ names) other ≡ true
unfolding contains
contains_rest child names other h = ground (arith, h)

module _ (zk : ZkTree) (alone : Alone zk) where
  open zk use {World}

  Within-delete :
      (n : ℕ) (node other : Node) (w : World)
      → Within zk n node w
      → Within zk n node (zk.delete other w)
  unfolding Within
  Within-delete zero node other w h = h
  Within-delete (suc n) node other w h = λ names listed child has.
      let (before, was, more) = alone.fewer node other w names false listed in
      Within-delete n (child ∷ node) other w (h before was child (more child has))

  -- The function ends on a tree of the height, and does no harm.
  Ends : ℕ → (Node → World → Option World) → Type 0
  Ends n cleanup =
      (node : Node) (w : World)
      → Within zk n node w
      → (w' : World) × (cleanup node w ≡ some w') × After zk w w'

  cleanup_each-After :
      (n : ℕ) (cleanup : Node → World → Option World) (node : Node) (names : List Text) (w : World)
      → Ends n cleanup
      → ((child : Text) → contains names child ≡ true → Within zk n (child ∷ node) w)
      → (w' : World) × (cleanup_each zk cleanup node names w ≡ some w') × After zk w w'
  unfolding cleanup_each Ends contains
  cleanup_each-After n cleanup node [] w ends below = (w, refl, After-refl zk w)
  cleanup_each-After n cleanup node (child ∷ names) w ends below =
      let (mid, first, after) = ends (child ∷ node) w (below child (contains_first child names)) in
      let (w', rest, later) = cleanup_each-After n cleanup node names mid ends (λ other has.
        after.within n (other ∷ node) (below other (contains_rest child names other has))) in
      (
        w',
        ap (λ o. o >>= λ x. cleanup_each zk cleanup node names x) first ∙ rest,
        After-trans zk w mid w' after later,
      )

  delete-After :
      (node : Node) (names : List Text) (w w' : World)
      → zk.children node w ≡ some (names, false)
      → After zk w w'
      → After zk w (zk.delete node w')
  delete-After node names w w' listed after = record {
    within = λ n other h. Within-delete n other node w' (after.within n other h);
    ephemeral = λ other h.
        alone.kept other node w'
          (λ same.
            ground (arith, sym listed ∙ subst (λ x. zk.children x w ≡ some (h.0, true)) same h.1))
          (after.ephemeral other h);
  }

  -- While nobody else changes the tree, and it is less than `n` levels high: `n` levels of
  -- calls are enough for cleanupTree to come to its end, and each ephemeral node that was there then still is.
  pub cleanup_tree-After :
      (n : ℕ) (node : Node) (w : World)
      → Within zk n node w
      → (w' : World) × (cleanup_tree zk n node w ≡ some w') × After zk w w'
  unfolding cleanup_tree Within Ends
  cleanup_tree-After zero node w h = absurd h
  cleanup_tree-After (suc n) node w h =
      listed (λ node' w' h'. cleanup_tree-After n node' w' h') (zk.children node w) refl
    where
      listed :
          Ends n (cleanup_tree zk n)
          → (o : Option (List Text × Bool)) → zk.children node w ≡ o
          → (w' : World) × ((elim o [
            | none ↦ some w
            | some (names, true) ↦ some w
            | some (names, false) ↦
                (cleanup_each zk (cleanup_tree zk n) node names w >>= λ w'.
                some (zk.delete node w'))
          ])
              ≡ some w')
            × After zk w w'
      listed ih none e = (w, refl, After-refl zk w)
      listed ih (some (names, true)) e = (w, refl, After-refl zk w)
      listed ih (some (names, false)) e =
          let (w', ends, after) =
            cleanup_each-After n (cleanup_tree zk n) node names w ih (h names e) in
          (
            zk.delete node w',
            ap (λ o. o >>= λ x. some (zk.delete node x)) ends,
            delete-After node names w w' e after,
          )
