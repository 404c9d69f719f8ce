-- ===== src/Blocks/Store/Adding.antt =====
-- What `Add` leaves in the new blocks: each holds the added pairs of its partition, in order.
use mathlib.Core.List.{append-nil, append_assoc}
use sequins.Prelude.{
  ℕ, ◌≡◌, refl, sym, ap, subst, ◌∙◌, Bool, false, Text, Result, ok, err, [], ◌∷◌, ◌++◌, Option,
  none, some, ◌==◌, native_keys, nat_eq, nat_eq_iff, arith, Map, lookup, insert, lookup-insert_self,
  lookup-insert_other, insert-Distinct, Distinct, filter, filter-append, Bool-cases, inl, inr,
  continue, continue-eq-ok, Exec,
}
use mathlib.Core.Option.{some-injective}
use sequins.Hash.{key_partition}
use sequins.Blocks.Sparkey.{Sparkey, Error}
use sequins.Blocks.Block.{BlockWriter, new_block, writer_add}
use sequins.Blocks.Block.Writing.{Pairs, Writing, new_block-Writing, writer_add-Writing}
use sequins.Blocks.Manifest.{Files}
use sequins.Blocks.Store.{BlockStore, St, put_block, created_block, add_to, add}

abbrev pub in_partition : ℕ → ℕ → Text × Text → Bool
in_partition n p kv = (key_partition kv.0 n).0 == p

-- The pairs of one partition.
abbrev pub of_partition : ℕ → ℕ → Pairs → Pairs
of_partition n p = filter (in_partition n p)

module _ (sp : Sparkey) where
  open sp use {Log}

  pub record NewBlocks (n : ℕ) (kvs : Pairs) (m : Map ℕ (BlockWriter Log)) : Type 0 where
    pub distinct : Distinct m
    pub writing :
        (p : ℕ) (bw : BlockWriter Log)
        → lookup p m ≡ some bw
        → Writing sp (of_partition n p kvs) bw × (bw.partition ≡ p)
    pub missing : (p : ℕ) → lookup p m ≡ none → of_partition n p kvs ≡ []

  module _ (n : ℕ) (kvs : Pairs) (key value : Text) where
    of_partition-same :
        (p : ℕ)
        → (key_partition key n).0 ≡ p
        → of_partition n p (kvs ++ (key, value) ∷ []) ≡ of_partition n p kvs ++ (key, value) ∷ []
    of_partition-same p e =
        rw (filter-append (in_partition n p) kvs ((key, value) ∷ []))
          (rw ((nat_eq_iff (key_partition key n).0 p).1 e) refl)

    of_partition-other :
        (p : ℕ)
        → nat_eq (key_partition key n).0 p ≡ false
        → of_partition n p (kvs ++ (key, value) ∷ []) ≡ of_partition n p kvs
    of_partition-other p e =
        rw (filter-append (in_partition n p) kvs ((key, value) ∷ []))
          (rw e (append-nil (of_partition n p kvs)))

    -- One more pair in the writer of its partition.
    insert-NewBlocks :
        (m : Map ℕ (BlockWriter Log)) (bw : BlockWriter Log)
        → NewBlocks n kvs m
        → Writing sp (of_partition n (key_partition key n).0 kvs ++ (key, value) ∷ []) bw
        → bw.partition ≡ (key_partition key n).0
        → NewBlocks n (kvs ++ (key, value) ∷ []) (insert (key_partition key n).0 bw m)
    insert-NewBlocks m bw inv wr at = record {
      distinct = insert-Distinct q bw m inv.distinct;
      writing = λ p x h. elim (Bool-cases (nat_eq q p)) [
        | inl same ↦ replaced p x ((nat_eq_iff q p).0 same) h
        | inr other ↦
            rw (of_partition-other p other)
              (inv.writing p x (sym (lookup-insert_other q p bw m other) ∙ h))
      ];
      missing = λ p h. elim (Bool-cases (nat_eq q p)) [
        | inl same ↦ absurd (present p ((nat_eq_iff q p).0 same) h)
        | inr other ↦
            of_partition-other p other
            ∙ inv.missing p (sym (lookup-insert_other q p bw m other) ∙ h)
      ];
    }
      where
        q : ℕ
        q = (key_partition key n).0

        found : (p : ℕ) → q ≡ p → lookup p (insert q bw m) ≡ some bw
        found p e = subst (λ r. lookup r (insert q bw m) ≡ some bw) e (lookup-insert_self q bw m)

        present : (p : ℕ) → q ≡ p → lookup p (insert q bw m) ≡ none → ⊥
        present p e h = cc (found p e, h)

        replaced :
            (p : ℕ) (x : BlockWriter Log)
            → q ≡ p
            → lookup p (insert q bw m) ≡ some x
            → Writing sp (of_partition n p (kvs ++ (key, value) ∷ [])) x × (x.partition ≡ p)
        replaced p x e h =
            subst
              (λ y. Writing sp (of_partition n p (kvs ++ (key, value) ∷ [])) y × (y.partition ≡ p))
              (some-injective bw x (sym (found p e) ∙ h))
              (
                rw (of_partition-same p e)
                    (subst (λ r. Writing sp (of_partition n r kvs ++ (key, value) ∷ []) bw) e wr),
                at ∙ e,
              )

module _ (sp : Sparkey) (fs : Files (Sparkey.World sp)) where
  open sp use {World, Log, Reader}

  -- A pair goes to the writer of its partition, and nothing else of the store changes.
  pub record Added (kvs : Pairs) (s t : St sp fs) : Type 0 where
    pub holds : NewBlocks sp s.store.num_partitions kvs t.store.new_blocks
    pub rest : t.store ≡ record s.store { new_blocks = t.store.new_blocks }

  module _ (kvs : Pairs) (key value : Text) where
    put_block-Added :
        (bw : BlockWriter Log) (s t : St sp fs)
        → NewBlocks sp s.store.num_partitions kvs s.store.new_blocks
        → Writing sp
            (of_partition s.store.num_partitions (key_partition key s.store.num_partitions).0 kvs)
            bw
        → bw.partition ≡ (key_partition key s.store.num_partitions).0
        → put_block sp fs key value (key_partition key s.store.num_partitions).0 bw s ≡ (ok tt, t)
        → Added (kvs ++ (key, value) ∷ []) s t
    unfolding put_block
    put_block-Added bw s t inv wr at h =
        let bw' : BlockWriter Log = (writer_add sp key value bw).1 in
        let kept =
          writer_add-Writing sp
            (of_partition s.store.num_partitions (key_partition key s.store.num_partitions).0 kvs)
            key value bw bw' wr (λ i. ((h i).0, bw')) in
        subst (Added (kvs ++ (key, value) ∷ []) s) (ap (λ r. r.1) h) (record {
          holds =
              insert-NewBlocks sp s.store.num_partitions kvs key value s.store.new_blocks bw' inv
                kept.0 (kept.1 ∙ at);
          rest = refl;
        })

    created_block-Added :
        (s t : St sp fs) (made : Result Error (BlockWriter Log) × World)
        → NewBlocks sp s.store.num_partitions kvs s.store.new_blocks
        → lookup (key_partition key s.store.num_partitions).0 s.store.new_blocks ≡ none
        → new_block sp s.store.path
            (key_partition key s.store.num_partitions).0
            s.store.compression
            s.store.block_size
            s.world
          ≡ made
        → created_block sp fs key value (key_partition key s.store.num_partitions).0 s made
          ≡ (ok tt, t)
        → Added (kvs ++ (key, value) ∷ []) s t
    unfolding created_block
    created_block-Added s t (err e, w) inv new e₁ h = ground arith
    created_block-Added s t (ok bw, w) inv new e₁ h =
        let fresh =
          new_block-Writing sp s.store.path (key_partition key s.store.num_partitions).0
            s.store.compression s.store.block_size s.world w bw e₁ in
        let filled =
          put_block-Added bw (record s { world = w }) t inv
            (subst (λ l. Writing sp l bw) (sym (inv.missing _ new)) fresh.0) fresh.1 h in
        record { holds = filled.holds; rest = filled.rest }

    add_to-Added :
        (s t : St sp fs) (old : Option (BlockWriter Log))
        → NewBlocks sp s.store.num_partitions kvs s.store.new_blocks
        → lookup (key_partition key s.store.num_partitions).0 s.store.new_blocks ≡ old
        → add_to sp fs key value (key_partition key s.store.num_partitions).0 old s ≡ (ok tt, t)
        → Added (kvs ++ (key, value) ∷ []) s t
    unfolding add_to
    add_to-Added s t (some bw) inv e h =
        let wr = inv.writing _ bw e in put_block-Added bw s t inv wr.0 wr.1 h
    add_to-Added s t none inv e h = created_block-Added s t _ inv e refl h

    -- `Add` appends one pair to what the new blocks hold.
    pub add-Added :
        (s t : St sp fs)
        → NewBlocks sp s.store.num_partitions kvs s.store.new_blocks
        → add sp fs key value s ≡ (ok tt, t)
        → Added (kvs ++ (key, value) ∷ []) s t
    unfolding add
    add-Added s t inv h = add_to-Added s t _ inv refl h

  put_block-num_partitions :
      (key value : Text) (p : ℕ) (bw : BlockWriter Log) (s : St sp fs)
      → (put_block sp fs key value p bw s).1.store.num_partitions ≡ s.store.num_partitions
  unfolding put_block
  put_block-num_partitions key value p bw s = refl

  pub add-num_partitions :
      (key value : Text) (s : St sp fs)
      → (add sp fs key value s).1.store.num_partitions ≡ s.store.num_partitions
  unfolding add add_to created_block put_block
  add-num_partitions key value s = cases (lookup p s.store.new_blocks)
    where
      p : ℕ
      p = (key_partition key s.store.num_partitions).0

      made :
          (r : Result Error (BlockWriter Log) × World)
          → (created_block sp fs key value p s r).1.store.num_partitions ≡ s.store.num_partitions
      made (err e, w) = refl
      made (ok bw, w) = refl

      cases :
          (o : Option (BlockWriter Log))
          → (add_to sp fs key value p o s).1.store.num_partitions ≡ s.store.num_partitions
      cases (some bw) = refl
      cases none = made (new_block sp s.store.path p s.store.compression s.store.block_size s.world)

  -- `Add` for each pair in turn, as a build does.
  unfoldable pub add_pairs : Pairs → Exec (St sp fs) Error Unit
  add_pairs [] s = (ok tt, s)
  add_pairs ((key, value) ∷ kvs) s = continue (add sp fs key value s) λ _ t. add_pairs kvs t

  pub add_pairs-Added :
      (before kvs : Pairs) (s t : St sp fs)
      → NewBlocks sp s.store.num_partitions before s.store.new_blocks
      → add_pairs kvs s ≡ (ok tt, t)
      → Added (before ++ kvs) s t
  unfolding add_pairs
  add_pairs-Added before [] s t inv h =
      subst (Added (before ++ []) s) (ap (λ r. r.1) h)
        (record { holds = rw (append-nil before) inv; rest = refl })
  add_pairs-Added before ((key, value) ∷ kvs) s t inv h =
      let (_, u, added, later) =
        continue-eq-ok (add sp fs key value s) (λ _ v. add_pairs kvs v) h in
      let first = add-Added before key value s u inv added in
      let same = ap (λ x. x.num_partitions) first.rest in
      let with_new = λ (x : BlockStore Log Reader). record x { new_blocks = t.store.new_blocks } in
      let last =
        add_pairs-Added (before ++ (key, value) ∷ []) kvs u t
          (subst (λ n. NewBlocks sp n (before ++ (key, value) ∷ []) u.store.new_blocks) (sym same)
            first.holds)
          later in
      record {
        holds =
            subst (λ n. NewBlocks sp n (before ++ (key, value) ∷ kvs) t.store.new_blocks) same
              (subst (λ l. NewBlocks sp u.store.num_partitions l t.store.new_blocks)
                (append_assoc before ((key, value) ∷ []) kvs) last.holds);
        rest = last.rest ∙ ap with_new first.rest;
      }
