-- ===== src/Watcher/Hooks.antt =====
-- runHooks, as a whole.
use sequins.Prelude.{
  ℕ, zero, suc, ◌≡◌, refl, sym, subst, Text, List, [], ◌∷◌, Option, none, Option-cases, inl, inr,
  All,
}
use sequins.Watcher.{
  Node, Zookeeper, World, Watcher, Listed, children, no_parent, not_listed, Watched, watching,
  not_watched, nothing, create_all, hook_create_ephemeral, restore_nodes, restore_watches,
  run_hooks, max_create_retries, children_loop, watch_children, ZkError,
}
use sequins.Watcher.Restoring.{
  Calm, create_loop-There, create_loop-keeps, create_all-keeps, some-none,
}

data Answered (l : Listed) : Type 0 where
  listed : (names : List Text) → l ≡ children names → Answered l
  absent : l ≡ no_parent → Answered l
  broke : (n : ℕ) → l ≡ not_listed n → Answered l

Listed-cases : (l : Listed) → Answered l
Listed-cases (children names) = listed names refl
Listed-cases no_parent = absent refl
Listed-cases (not_listed n) = broke n refl

data Watches (x : Watched) : Type 0 where
  watches : (names : List Text) → x ≡ watching names → Watches x
  stops : (e : ZkError) → x ≡ not_watched e → Watches x
  neither : x ≡ nothing → Watches x

Watched-cases : (x : Watched) → Watches x
Watched-cases (watching names) = watches names refl
Watched-cases (not_watched e) = stops e refl
Watched-cases nothing = neither refl

-- The path has a parent.
pub data IsNamed : Node → Type 0 where
  below : (name : Text) (parent : Node) → IsNamed (name ∷ parent)

module _ (zk : Zookeeper) (calm : Calm zk) where
  hook-There :
      (node : Node) (w : World zk)
      → IsNamed node
      → (hook_create_ephemeral zk node w).0 ≡ none
      → calm.There node (hook_create_ephemeral zk node w).1
  unfolding hook_create_ephemeral
  hook-There _ w (below name parent) h = create_loop-There zk calm 3 name parent w h

  module _ (other : Node) where
    children_loop-keeps :
        (tries : ℕ) (node : Node) (w : World zk)
        → calm.There other w
        → calm.There other (children_loop zk tries node w).1
    unfolding children_loop
    children_loop-keeps zero node w t = t
    children_loop-keeps (suc tries) node w t =
        let w' : World zk = (Zookeeper.children_w zk node w).1 in
        let still : calm.There other w' = calm.children-There node other w t in
        elim (Listed-cases (Zookeeper.children_w zk node w).0) [
          | listed names e ↦ rw (e, children_loop) still
          | broke n e ↦ rw (e, children_loop) still
          | absent e ↦
              let kept : calm.There other (create_all zk node w').1 =
                create_all-keeps zk calm other node w' still in
              elim (Option-cases (create_all zk node w').0) [
                | inr (x, f) ↦ rw (e, f, children_loop) kept
                | inl f ↦
                    rw (e, f, children_loop)
                      (children_loop-keeps tries node (create_all zk node w').1 kept)
              ]
        ]

    restore_nodes-keeps :
        (nodes : List Node) (w : World zk)
        → calm.There other w
        → calm.There other (restore_nodes zk nodes w).1
    unfolding restore_nodes hook_create_ephemeral
    restore_nodes-keeps [] w t = t
    restore_nodes-keeps (node ∷ nodes) w t =
        let kept : calm.There other (hook_create_ephemeral zk node w).1 =
          create_loop-keeps zk calm other max_create_retries node w t in
        elim (Option-cases (hook_create_ephemeral zk node w).0) [
          | inl e ↦
              rw (e, restore_nodes)
                (restore_nodes-keeps nodes (hook_create_ephemeral zk node w).1 kept)
          | inr (x, e) ↦ rw (e, restore_nodes) kept
        ]

    restore_watches-keeps :
        (nodes : List Node) (w : World zk)
        → calm.There other w
        → calm.There other (restore_watches zk nodes w).1
    unfolding restore_watches watch_children
    restore_watches-keeps [] w t = t
    restore_watches-keeps (node ∷ nodes) w t =
        let kept : calm.There other (watch_children zk node w).1 =
          children_loop-keeps max_create_retries node w t in
        let later : calm.There other (restore_watches zk nodes (watch_children zk node w).1).1 =
          restore_watches-keeps nodes (watch_children zk node w).1 kept in
        elim (Watched-cases (watch_children zk node w).0) [
          | watches names e ↦ rw (e, restore_watches) later
          | stops x e ↦ rw (e, restore_watches) kept
          | neither e ↦ rw (e, restore_watches) later
        ]

  restore_nodes-There :
      (nodes : List Node) (w : World zk)
      → All IsNamed nodes
      → (restore_nodes zk nodes w).0 ≡ none
      → All (λ node. calm.There node (restore_nodes zk nodes w).1) nodes
  unfolding restore_nodes
  restore_nodes-There [] w named h = tt
  restore_nodes-There (node ∷ nodes) w named h =
      elim (Option-cases (hook_create_ephemeral zk node w).0) [
        | inr (x, e) ↦ absurd (some-none x (rw (e, restore_nodes) at h))
        | inl e ↦
            let w' : World zk = (hook_create_ephemeral zk node w).1 in
            let goes : restore_nodes zk (node ∷ nodes) w ≡ restore_nodes zk nodes w' =
              rw (e, restore_nodes) refl in
            subst
              (λ (r : Option ZkError × World zk).
                calm.There node r.1 × All (λ x. calm.There x r.1) nodes)
              (sym goes)
              (
                restore_nodes-keeps node nodes w' (hook-There node w named.0 e),
                restore_nodes-There nodes w' named.1 (rw (e, restore_nodes) at h),
              )
      ]

  All-keeps :
      (f : World zk → World zk)
      → ((node : Node) (w : World zk) → calm.There node w → calm.There node (f w))
      → (nodes : List Node) (w : World zk) → All (λ node. calm.There node w) nodes
      → All (λ node. calm.There node (f w)) nodes
  All-keeps f keeps [] w t = tt
  All-keeps f keeps (node ∷ nodes) w t = (keeps node w t.0, All-keeps f keeps nodes w t.1)

  -- If nobody else changes Zookeeper meanwhile, and runHooks reports no error, every ephemeral node of
  -- the watcher is there again, whatever became of it before. Each of them has a parent.
  pub run_hooks-There :
      (s : Watcher zk)
      → All IsNamed s.ephemeral_nodes
      → (run_hooks zk s).0 ≡ none
      → All (λ node. calm.There node (run_hooks zk s).1.world) s.ephemeral_nodes
  unfolding run_hooks
  run_hooks-There s named h = elim (Option-cases (restore_nodes zk s.ephemeral_nodes s.world).0) [
    | inr (x, e) ↦ absurd (some-none x (rw (e, run_hooks) at h))
    | inl e ↦
        let w : World zk = (restore_nodes zk s.ephemeral_nodes s.world).1 in
        let runs : (run_hooks zk s).1
            ≡ record s { world = (restore_watches zk s.watched_nodes w).1 } =
          rw (e, run_hooks) refl in
        subst (λ (r : Watcher zk). All (λ node. calm.There node r.world) s.ephemeral_nodes)
          (sym runs)
          (All-keeps (λ v. (restore_watches zk s.watched_nodes v).1)
            (λ node. restore_watches-keeps node s.watched_nodes) s.ephemeral_nodes w
            (restore_nodes-There s.ephemeral_nodes s.world named e))
  ]
