-- ===== src/Watcher/GivingUp.antt =====
-- What the retries come to when none of them succeeds.
use sequins.Prelude.{ℕ, zero, suc, ◌≡◌, refl, ◌∙◌, true, Option, none, some, contains, contains-add}
use sequins.Watcher.{
  Node, ZkError, Node_eq, node_eq_iff, Zookeeper, World, Watcher, no_node, no_parent, nothing,
  create_all, parent_of, create_loop, hook_create_ephemeral, create_ephemeral, children_loop,
  watch_children, send_err, max_create_retries,
}

module _ (zk : Zookeeper) (node : Node) where
  create_loop-gives_up :
      ((w : World zk) → (Zookeeper.create zk node true w).0 ≡ no_node)
      → ((w : World zk) → (create_all zk (parent_of zk node) w).0 ≡ none)
      → (tries : ℕ) (w : World zk) → (create_loop zk tries node w).0 ≡ none
  unfolding create_loop
  create_loop-gives_up missing made zero w = refl
  create_loop-gives_up missing made (suc tries) w =
      rw (missing w, create_loop) (rw (made _) (create_loop-gives_up missing made tries _))

  -- If Zookeeper never finds the parent of a node, although it never refuses to make it (as
  -- when a peer clears it away each time), createEphemeral reports no error: the node counts as one that
  -- is kept, and the connection is not made anew.
  create_ephemeral-gives_up :
      ((w : World zk) → (Zookeeper.create zk node true w).0 ≡ no_node)
      → ((w : World zk) → (create_all zk (parent_of zk node) w).0 ≡ none)
      → (s : Watcher zk)
      → ((create_ephemeral zk node s).errs ≡ s.errs)
        × (contains (create_ephemeral zk node s).ephemeral_nodes node ≡ true)
  unfolding create_ephemeral hook_create_ephemeral
  create_ephemeral-gives_up missing made s = (
    rw (create_loop-gives_up missing made max_create_retries s.world) (unsent s.errs),
    contains-add node node s.ephemeral_nodes ∙ rw ((node_eq_iff node node).1 refl) refl,
  )
    where
      unsent : (errs : Option ZkError) → send_err zk none errs ≡ errs
      unsent none = refl
      unsent (some e) = refl

  children_loop-gives_up :
      ((w : World zk) → (Zookeeper.children_w zk node w).0 ≡ no_parent)
      → ((w : World zk) → (create_all zk node w).0 ≡ none)
      → (tries : ℕ) (w : World zk) → (children_loop zk tries node w).0 ≡ nothing
  unfolding children_loop
  children_loop-gives_up missing made zero w = refl
  children_loop-gives_up missing made (suc tries) w =
      rw (missing w, children_loop) (rw (made _) (children_loop-gives_up missing made tries _))

  -- If Zookeeper never finds a watched node, although it never refuses to make it, childrenW returns
  -- neither children, nor a channel of events, nor an error.
  watch_children-nothing :
      ((w : World zk) → (Zookeeper.children_w zk node w).0 ≡ no_parent)
      → ((w : World zk) → (create_all zk node w).0 ≡ none)
      → (w : World zk) → (watch_children zk node w).0 ≡ nothing
  unfolding watch_children
  watch_children-nothing missing made w = children_loop-gives_up missing made max_create_retries w
