-- ===== src/Watcher/Cleanup/Tests.antt =====
-- The walk of a small tree.
use mathlib.Core.Option.{some-injective}
use sequins.Prelude.{
  ◌≡◌, ◌≢◌, refl, sym, ap, subst, ◌∙◌, Bool, true, false, Text, Text_eq, codes, List, [], ◌∷◌,
  Option, none, some, if◌then◌else◌, ◌==◌, text_eq, contains, Map, lookup, lookup-delete, delete,
  arith, Bool-cases, inl, inr,
}
use sequins.Watcher.{Node, node_eq, node_eq_iff, Node_eq}
use sequins.Watcher.Cleanup.{
  ZkTree, Alone, Within, After, IsEphemeral, cleanup_tree, cleanup_tree-After,
}

-- A tree as the list of its nodes, each with whether it is ephemeral.
abbrev Nodes : Type 0
Nodes = Map Node Bool

names_of : Node → Nodes → List Text
names_of node [] = []
names_of node (([], b) ∷ w) = names_of node w
names_of node ((n ∷ p, b) ∷ w) =
    let names = names_of node w in if node_eq p node then n ∷ names else names

abbrev listed_at : Option Bool → List Text → Option (List Text × Bool)
listed_at none names = none
listed_at (some b) names = some (names, b)

abbrev delete_empty : List Text → Node → Nodes → Nodes
delete_empty [] node w = delete node w
delete_empty (n ∷ names) node w = w

abbrev nodes : ZkTree
nodes = record {
  World = Nodes;
  children = λ node w. listed_at (lookup node w) (names_of node w);
  delete = λ node w. delete_empty (names_of node w) node w;
}

more_names :
    (m n : Text) (few many : List Text)
    → (contains few n ≡ true → contains many n ≡ true)
    → contains (m ∷ few) n ≡ true
    → contains (m ∷ many) n ≡ true
unfolding contains
more_names m n few many more h = elim (Bool-cases (m == n)) [
  | inl same ↦ rw same refl
  | inr other ↦ rw other (more (rw other at h))
]

names_of-delete :
    (node other : Node) (w : Nodes) (n : Text)
    → contains (names_of node (delete other w)) n ≡ true
    → contains (names_of node w) n ≡ true
unfolding names_of delete contains
names_of-delete node other [] n h = h
names_of-delete node other (([], b) ∷ w) n h = elim (Bool-cases (node_eq [] other)) [
  | inl same ↦ names_of-delete node other w n (rw same at h)
  | inr differs ↦ names_of-delete node other w n (rw differs at h)
]
names_of-delete node other ((m ∷ p, b) ∷ w) n h = elim (Bool-cases (node_eq p node)) [
  | inr elsewhere ↦ elim (Bool-cases (node_eq (m ∷ p) other)) [
    | inl same ↦ rw elsewhere (names_of-delete node other w n (rw same at h))
    | inr differs ↦ rw elsewhere (names_of-delete node other w n (rw (differs, elsewhere) at h))
  ]
  | inl here ↦ elim (Bool-cases (node_eq (m ∷ p) other)) [
    | inl same ↦ rw here (ground (arith, names_of-delete node other w n (rw same at h)))
    | inr differs ↦ rw here (
        more_names m n (names_of node (delete other w)) (names_of node w)
          (names_of-delete node other w n) (rw (differs, here) at h))
  ]
]

nodes-fewer :
    (node other : Node) (w : Nodes) (names : List Text) (b : Bool)
    → nodes.children node (nodes.delete other w) ≡ some (names, b)
    → (before : List Text) × (nodes.children node w ≡ some (before, b))
      × ((n : Text) → contains names n ≡ true → contains before n ≡ true)
nodes-fewer node other w names b h = emptied (names_of other w) h
  where
    found :
        (o : Option Bool)
        → listed_at o (names_of node (delete other w)) ≡ some (names, b)
        → (listed_at o (names_of node w) ≡ some (names_of node w, b))
          × ((n : Text) → contains names n ≡ true → contains (names_of node w) n ≡ true)
    found none e = absurd (ground (arith, e))
    found (some c) e =
        let same = some-injective (names_of node (delete other w), c) (names, b) e in
        (
          ap (λ x. some (names_of node w, x.1)) same,
          λ n has.
              names_of-delete node other w n (subst (λ x. contains x.0 n ≡ true) (sym same) has),
        )

    still_there :
        (gone : Bool)
        → node_eq other node ≡ gone
        → nodes.children node (delete other w) ≡ some (names, b)
        → listed_at (lookup node w) (names_of node (delete other w)) ≡ some (names, b)
    still_there true h e = absurd (
        ground (
          arith,
          sym (
                ap (λ o. listed_at o (names_of node (delete other w)))
                  (lookup-delete other node w ∙ ap (λ b. if b then none else lookup node w) h))
              ∙ e,
        ))
    still_there false h e =
        sym (
          ap (λ o. listed_at o (names_of node (delete other w)))
            (lookup-delete other node w ∙ ap (λ b. if b then none else lookup node w) h))
        ∙ e

    emptied :
        (inside : List Text)
        → nodes.children node (delete_empty inside other w) ≡ some (names, b)
        → (before : List Text) × (nodes.children node w ≡ some (before, b))
          × ((n : Text) → contains names n ≡ true → contains before n ≡ true)
    emptied (n ∷ inside) e = (names, e, λ n has. has)
    emptied [] e =
        let (listed, more) = found (lookup node w) (still_there (node_eq other node) refl e) in
        (names_of node w, listed, more)

nodes-kept :
    (node other : Node) (w : Nodes)
    → node ≢ other
    → IsEphemeral nodes node w
    → IsEphemeral nodes node (nodes.delete other w)
nodes-kept node other w differs (names, h) = emptied (names_of other w)
  where
    flag :
        (o : Option Bool) (here there : List Text)
        → listed_at o here ≡ some (names, true)
        → listed_at o there ≡ some (there, true)
    flag none here there e = absurd (ground (arith, e))
    flag (some b) here there e =
        ap (λ x. some (there, x.1)) (some-injective (here, b) (names, true) e)

    apart : node_eq other node ≡ false
    apart = elim (Bool-cases (node_eq other node)) [
      | inl same ↦ absurd (differs (sym ((node_eq_iff other node).0 same)))
      | inr e ↦ e
    ]

    emptied : (inside : List Text) → IsEphemeral nodes node (delete_empty inside other w)
    emptied (n ∷ inside) = (names, h)
    emptied [] = (
      names_of node (delete other w),
      ap (λ o. listed_at o (names_of node (delete other w)))
            (lookup-delete other node w ∙ rw apart refl)
          ∙ flag (lookup node w) (names_of node w) (names_of node (delete other w)) h,
    )

nodes_alone : Alone nodes
nodes_alone = record { fewer = nodes-fewer; kept = nodes-kept }

abbrev root : Node
root = codes "v1" ∷ []

abbrev held : Node
held = codes "b" ∷ root

-- An empty node and an ephemeral one.
abbrev three : Nodes
three = (root, false) ∷ (codes "a" ∷ root, false) ∷ (held, true) ∷ []

no_grandchild : (child : Text) → names_of (child ∷ root) three ≡ []
unfolding names_of node_eq
no_grandchild child = elim (Bool-cases (text_eq (codes "v1") child)) [
  | inl same ↦ rw same refl
  | inr other ↦ rw other refl
]

no_names : (o : Option Bool) (names : List Text) → listed_at o [] ≡ some (names, false) → names ≡ []
no_names none names e = absurd (ground (arith, e))
no_names (some b) names e = ap (λ x. x.0) (sym (some-injective ([], b) (names, false) e))

three-Within : Within nodes 2 root three
unfolding Within contains
three-Within = λ names e child has names' e' child' has'.
    let none_there : names' ≡ [] =
      no_names (lookup (child ∷ root) three) names'
        (sym (ap (listed_at (lookup (child ∷ root) three)) (no_grandchild child)) ∙ e') in
    absurd (ground (arith, subst (λ x. contains x child' ≡ true) none_there has'))

cleanup_tree-After_example :
    (w' : Nodes) × (cleanup_tree nodes 2 root three ≡ some w') × After nodes three w'
cleanup_tree-After_example = cleanup_tree-After nodes nodes_alone 2 root three three-Within

three_cleaned : cleanup_tree nodes 2 root three ≡ some ((root, false) ∷ (held, true) ∷ [])
unfolding cleanup_tree names_of lookup delete node_eq text_eq
three_cleaned = refl
