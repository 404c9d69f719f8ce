-- ===== src/Watcher/Restoring.antt =====
-- The ephemeral nodes after a reconnect.
use sequins.Prelude.{
  ℕ, zero, suc, ◌≡◌, ◌≢◌, refl, Bool, true, false, Text, [], ◌∷◌, none, some, Option-cases, inl,
  inr, arith,
}
use sequins.Watcher.{
  Node, Zookeeper, World, Created, created, node_exists, no_node, failed, create_one, create_all,
  parent_of, create_loop, ZkError,
}

-- What Zookeeper promises of a world that nobody else changes: `there` tells which nodes it has.
pub record Calm (zk : Zookeeper) : Type 1 where
  pub There : Node → World zk → Type 0
  pub create-There :
      (node : Node) (b : Bool) (w : World zk)
      → (Zookeeper.create zk node b w).0 ≡ created
      → There node (Zookeeper.create zk node b w).1
  pub exists-There :
      (node : Node) (b : Bool) (w : World zk)
      → (Zookeeper.create zk node b w).0 ≡ node_exists
      → There node (Zookeeper.create zk node b w).1
  -- Neither call removes a node.
  pub still-There :
      (node other : Node) (b : Bool) (w : World zk)
      → There other w
      → There other (Zookeeper.create zk node b w).1
  pub children-There :
      (node other : Node) (w : World zk)
      → There other w
      → There other (Zookeeper.children_w zk node w).1
  -- A node whose parent is there can be created.
  pub parent-There :
      (name : Text) (parent : Node) (b : Bool) (w : World zk)
      → There parent w
      → (Zookeeper.create zk (name ∷ parent) b w).0 ≢ no_node

data Ended (c : Created) : Type 0 where
  made : c ≡ created → Ended c
  had : c ≡ node_exists → Ended c
  missed : c ≡ no_node → Ended c
  broke : (n : ℕ) → c ≡ failed n → Ended c

Created-cases : (c : Created) → Ended c
Created-cases created = made refl
Created-cases node_exists = had refl
Created-cases no_node = missed refl
Created-cases (failed n) = broke n refl

pub some-none : (e : ZkError) → some e ≡ none → ⊥
some-none e h = ground (arith, h)

module _ (zk : Zookeeper) (calm : Calm zk) where
  abbrev There : Node → World zk → Type 0
  There = calm.There

  create_one-There :
      (node : Node) (w : World zk)
      → (create_one zk node w).0 ≡ none
      → There node (create_one zk node w).1
  unfolding create_one
  create_one-There node w h = elim (Created-cases (Zookeeper.create zk node false w).0) [
    | made e ↦ rw (e, create_one) (calm.create-There node false w e)
    | had e ↦ rw (e, create_one) (calm.exists-There node false w e)
    | missed e ↦ absurd (some-none _ (rw (e, create_one) at h))
    | broke n e ↦ absurd (some-none _ (rw (e, create_one) at h))
  ]

  create_all-There :
      (node : Node) (w : World zk)
      → (create_all zk node w).0 ≡ none
      → There node (create_all zk node w).1
  unfolding create_all
  create_all-There [] w h = create_one-There [] w h
  create_all-There (n ∷ []) w h = create_one-There (n ∷ []) w h
  create_all-There (n ∷ m ∷ parent) w h = elim (Option-cases (create_all zk (m ∷ parent) w).0) [
    | inl e ↦
        rw (e, create_all)
          (create_one-There (n ∷ m ∷ parent) (create_all zk (m ∷ parent) w).1
            (rw (e, create_all) at h))
    | inr (x, e) ↦ absurd (some-none x (rw (e, create_all) at h))
  ]

  -- The second try finds the parent that was made.
  create_again-There :
      (tries : ℕ) (name : Text) (parent : Node) (w : World zk)
      → There parent w
      → (create_loop zk (suc tries) (name ∷ parent) w).0 ≡ none
      → There (name ∷ parent) (create_loop zk (suc tries) (name ∷ parent) w).1
  unfolding create_loop
  create_again-There tries name parent w p h =
      elim (Created-cases (Zookeeper.create zk (name ∷ parent) true w).0) [
        | made e ↦ rw (e, create_loop) (calm.create-There (name ∷ parent) true w e)
        | had e ↦ absurd (some-none _ (rw (e, create_loop) at h))
        | missed e ↦ absurd (calm.parent-There name parent true w p e)
        | broke n e ↦ absurd (some-none _ (rw (e, create_loop) at h))
      ]

  pub create_loop-There :
      (tries : ℕ) (name : Text) (parent : Node) (w : World zk)
      → (create_loop zk (suc (suc tries)) (name ∷ parent) w).0 ≡ none
      → There (name ∷ parent) (create_loop zk (suc (suc tries)) (name ∷ parent) w).1
  unfolding create_loop
  create_loop-There tries name parent w h =
      elim (Created-cases (Zookeeper.create zk (name ∷ parent) true w).0) [
        | made e ↦ rw (e, create_loop) (calm.create-There (name ∷ parent) true w e)
        | had e ↦ absurd (some-none _ (rw (e, create_loop) at h))
        | broke n e ↦ absurd (some-none _ (rw (e, create_loop) at h))
        | missed e ↦
            let w' : World zk = (Zookeeper.create zk (name ∷ parent) true w).1 in
            elim (Option-cases (create_all zk parent w').0) [
              | inr (x, f) ↦ absurd (some-none x (rw (e, f, create_loop) at h))
              | inl f ↦
                  rw (e, f, create_loop)
                    (create_again-There tries name parent (create_all zk parent w').1
                      (create_all-There parent w' f) (rw (e, f, create_loop) at h))
            ]
      ]

  module _ (other : Node) where
    create_one-keeps :
        (node : Node) (w : World zk) → There other w → There other (create_one zk node w).1
    unfolding create_one
    create_one-keeps node w t = elim (Created-cases (Zookeeper.create zk node false w).0) [
      | made e ↦ rw (e, create_one) (calm.still-There node other false w t)
      | had e ↦ rw (e, create_one) (calm.still-There node other false w t)
      | missed e ↦ rw (e, create_one) (calm.still-There node other false w t)
      | broke n e ↦ rw (e, create_one) (calm.still-There node other false w t)
    ]

    pub create_all-keeps :
        (node : Node) (w : World zk) → There other w → There other (create_all zk node w).1
    unfolding create_all
    create_all-keeps [] w t = create_one-keeps [] w t
    create_all-keeps (n ∷ []) w t = create_one-keeps (n ∷ []) w t
    create_all-keeps (n ∷ m ∷ parent) w t =
        let kept : There other (create_all zk (m ∷ parent) w).1 =
          create_all-keeps (m ∷ parent) w t in
        elim (Option-cases (create_all zk (m ∷ parent) w).0) [
          | inl e ↦
              rw (e, create_all)
                (create_one-keeps (n ∷ m ∷ parent) (create_all zk (m ∷ parent) w).1 kept)
          | inr (x, e) ↦ rw (e, create_all) kept
        ]

    pub create_loop-keeps :
        (tries : ℕ) (node : Node) (w : World zk)
        → There other w
        → There other (create_loop zk tries node w).1
    unfolding create_loop
    create_loop-keeps zero node w t = t
    create_loop-keeps (suc tries) node w t =
        let w' : World zk = (Zookeeper.create zk node true w).1 in
        let still : There other w' = calm.still-There node other true w t in
        elim (Created-cases (Zookeeper.create zk node true w).0) [
          | made e ↦ rw (e, create_loop) still
          | had e ↦ rw (e, create_loop) still
          | broke n e ↦ rw (e, create_loop) still
          | missed e ↦
              let kept : There other (create_all zk (parent_of zk node) w').1 =
                create_all-keeps (parent_of zk node) w' still in
              elim (Option-cases (create_all zk (parent_of zk node) w').0) [
                | inr (x, f) ↦ rw (e, f, create_loop) kept
                | inl f ↦
                    rw (e, f, create_loop)
                      (create_loop-keeps tries node (create_all zk (parent_of zk node) w').1 kept)
              ]
        ]
