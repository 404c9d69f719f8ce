-- ===== src/Blocks/Store/Contents.antt =====
-- What a store answers after a build: `Save` turns the new blocks into blocks that hold the added
-- pairs of their partition, and `Get` finds the value that was added last.
use sequins.Prelude.{
  ℕ, ◌≡◌, ◌≢◌, refl, sym, ap, subst, ◌∙◌, true, false, Text, Result, ok, err, List, [], ◌∷◌, ◌++◌,
  Option, none, some, if◌then◌else◌, native_keys, nat_eq, nat_eq_iff, arith, Map, lookup, insert,
  lookup-insert_self, lookup-insert_other, Distinct, lookup-tail, lookup-head, Bool-cases, inl, inr,
  continue-eq-ok, All, All-append, KeySet, text_eq, text_eq_iff, ◌⊎◌, ◌&&◌,
}
use sequins.Hash.{key_partition}
use sequins.Blocks.Sparkey.{Sparkey, Error, last_value, partition_not_found}
use sequins.Blocks.Block.{Block, BlockWriter, writer_save, block_get}
use sequins.Blocks.Block.Writing.{Pairs, Writing, writer_save-answers}
use sequins.Blocks.Manifest.{Files}
use sequins.Blocks.Store.{
  BlockStore, St, or_empty, blocks_at, append_block, with_block, flush, save, scan, get, after_save,
  save_manifest, next_block, absent, new,
}
use sequins.Blocks.Store.Adding.{of_partition, NewBlocks, Added, add_pairs, add_pairs-Added}

same_partition :
    (n : ℕ) (j key : Text) → text_eq j key ≡ true → key_partition j n ≡ key_partition key n
same_partition n j key h = ap (λ k. key_partition k n) ((text_eq_iff j key).0 h)

last_value-of_partition :
    (n p : ℕ) (key : Text) (kvs : Pairs)
    → (key_partition key n).0 ≡ p
    → last_value key (of_partition n p kvs) ≡ last_value key kvs
unfolding last_value
last_value-of_partition n p key [] e = refl
last_value-of_partition n p key ((j, v) ∷ kvs) e =
    ground (arith, same_partition n j key, last_value-of_partition n p key kvs e)

last_value-elsewhere :
    (n p : ℕ) (key : Text) (kvs : Pairs)
    → (key_partition key n).0 ≢ p
    → last_value key (of_partition n p kvs) ≡ none
unfolding last_value
last_value-elsewhere n p key [] e = refl
last_value-elsewhere n p key ((j, v) ∷ kvs) e =
    ground (arith, same_partition n j key, last_value-elsewhere n p key kvs e)

module _ (sp : Sparkey) where
  open sp use {World, Log, Reader}

  -- The block answers every key as these pairs do.
  abbrev pub Answers : Pairs → Block Reader → Type 0
  Answers kvs b = (key : Text) → block_get sp b key ≡ ok (last_value key kvs)

  abbrev pub AllAnswer : (ℕ → Pairs) → Map ℕ (List (Block Reader)) → Type 0
  AllAnswer pairs m = (p : ℕ) → All (Answers (pairs p)) (blocks_at p m)

  append_block-AllAnswer :
      (pairs : ℕ → Pairs) (p : ℕ) (b : Block Reader) (m : Map ℕ (List (Block Reader)))
      → Answers (pairs p) b
      → AllAnswer pairs m
      → AllAnswer pairs (append_block p b m)
  unfolding append_block blocks_at
  append_block-AllAnswer pairs p b m a all q = elim (Bool-cases (nat_eq p q)) [
    | inl same ↦
        subst (λ r. All (Answers (pairs r)) (blocks_at r (append_block p b m)))
          ((nat_eq_iff p q).0 same)
          (rw (lookup-insert_self p (or_empty (lookup p m) ++ b ∷ []) m)
            (All-append (Answers (pairs p)) (or_empty (lookup p m)) (b ∷ []) (all p) (a, tt)))
    | inr other ↦ rw (lookup-insert_other p q (or_empty (lookup p m) ++ b ∷ []) m other) (all q)
  ]

module _ (sp : Sparkey) (fs : Files (Sparkey.World sp)) where
  open sp use {World, Log, Reader}

  next_block-same :
      (o : Option Text) (rest : Result Error (Option Text))
      → rest ≡ ok none ⊎ (rest ≡ ok o)
      → next_block sp fs (ok o) rest ≡ ok o
  next_block-same none rest h = ground arith
  next_block-same (some v) rest h = refl

  scan-Answers :
      (kvs : Pairs) (key : Text) (bs : List (Block Reader))
      → All (Answers sp kvs) bs
      → ((bs ≡ []) × (scan sp fs bs key ≡ ok none)) ⊎ (scan sp fs bs key ≡ ok (last_value key kvs))
  unfolding scan
  scan-Answers kvs key [] all = inl (refl, refl)
  scan-Answers kvs key (b ∷ bs) all = inr (
      rw (all.0 key) (
        next_block-same (last_value key kvs) (scan sp fs bs key)
          (tail (scan-Answers kvs key bs all.1))))
    where
      tail :
          ((bs ≡ []) × (scan sp fs bs key ≡ ok none))
            ⊎ (scan sp fs bs key ≡ ok (last_value key kvs))
          → (scan sp fs bs key ≡ ok none) ⊎ (scan sp fs bs key ≡ ok (last_value key kvs))
      tail (inl h) = inl h.1
      tail (inr h) = inr h

  -- What the flush reached: every block answers, and each writer's partition is there.
  absent-blocks :
      (p q : ℕ) (m : Map ℕ (List (Block Reader)))
      → (absent (lookup p m) && absent (lookup q m)) ≡ true
      → blocks_at p m ≡ []
  unfolding blocks_at
  absent-blocks p q m h = ground arith

  record Flushed (pairs : ℕ → Pairs) (m : Map ℕ (BlockWriter Log)) (s t : St sp fs) : Type 0 where
    answers : AllAnswer sp pairs t.store.block_map
    there :
        (p : ℕ)
        → blocks_at p t.store.block_map ≡ []
        → (lookup p m ≡ none) × (blocks_at p s.store.block_map ≡ [])
    same : t.store.num_partitions ≡ s.store.num_partitions

  append-ne-nil : (bs : List (Block Reader)) (b : Block Reader) → bs ++ b ∷ [] ≢ []
  append-ne-nil [] b e = cc
  append-ne-nil (c ∷ bs) b e = cc

  block_map-there :
      (p q : ℕ) (b : Block Reader) (m : Map ℕ (List (Block Reader)))
      → blocks_at q (append_block p b m) ≡ []
      → (nat_eq p q ≡ false) × (blocks_at q m ≡ [])
  unfolding append_block blocks_at
  block_map-there p q b m n = elim (Bool-cases (nat_eq p q)) [
    | inl same ↦ absurd (
        append-ne-nil (or_empty (lookup p m)) b (
          sym (ap (or_empty {R = Reader}) (lookup-insert_self p bs m))
          ∙ subst (λ r. or_empty (lookup r (insert p bs m)) ≡ []) (sym ((nat_eq_iff p q).0 same))
              n))
    | inr other ↦ (other, sym (ap (or_empty {R = Reader}) (lookup-insert_other p q bs m other)) ∙ n)
  ]
    where
      bs : List (Block Reader)
      bs = or_empty (lookup p m) ++ b ∷ []

  Flushed-cons :
      (pairs : ℕ → Pairs) (p : ℕ) (bw : BlockWriter Log) (b : Block Reader)
      (m : Map ℕ (BlockWriter Log)) (s t : St sp fs) (w : World)
      → Flushed pairs m (record { store = with_block p b s.store; world = w }) t
      → Flushed pairs ((p, bw) ∷ m) s t
  unfolding with_block
  Flushed-cons pairs p bw b m s t w f = record {
    answers = f.answers;
    there = λ q n.
        let gone = f.there q n in
        let other = block_map-there p q b s.store.block_map gone.1 in
        (unfold lookup in rw (other.0) gone.0, other.1);
    same = f.same;
  }

  saved-Flushed :
      (pairs : ℕ → Pairs) (p : ℕ) (bw : BlockWriter Log) (m : Map ℕ (BlockWriter Log))
      (s t : St sp fs) (res : Result Error (Block Reader) × World)
      → Writing sp (pairs p) bw
      → AllAnswer sp pairs s.store.block_map
      → ((s' : St sp fs)
          → AllAnswer sp pairs s'.store.block_map
          → flush sp fs m s' ≡ (ok tt, t)
          → Flushed pairs m s' t)
      → writer_save sp bw s.world ≡ res
      → after_save sp fs s res
          (λ b w. flush sp fs m (record { store = with_block p b s.store; world = w }))
        ≡ (ok tt, t)
      → Flushed pairs ((p, bw) ∷ m) s t
  saved-Flushed pairs p bw m s t (err e, w) wr all rest made q = ground arith
  saved-Flushed pairs p bw m s t (ok b, w) wr all rest made q = Flushed-cons pairs p bw b m s t w (
      rest (record { store = with_block p b s.store; world = w })
        (unfold with_block in
          append_block-AllAnswer sp pairs p b s.store.block_map
            (writer_save-answers sp (pairs p) bw b s.world w wr made) all)
        q)

  flush-Flushed :
      (pairs : ℕ → Pairs) (m : Map ℕ (BlockWriter Log)) (s t : St sp fs)
      → Distinct m
      → ((p : ℕ) (bw : BlockWriter Log) → lookup p m ≡ some bw → Writing sp (pairs p) bw)
      → AllAnswer sp pairs s.store.block_map
      → flush sp fs m s ≡ (ok tt, t)
      → Flushed pairs m s t
  unfolding flush
  flush-Flushed pairs [] s t d wr all h =
      subst (Flushed pairs [] s) (ap (λ r. r.1) h)
        (record { answers = all; there = λ p n. (unfold lookup in refl, n); same = refl })
  flush-Flushed pairs ((p, bw) ∷ m) s t d wr all h =
      saved-Flushed pairs p bw m s t (writer_save sp bw s.world) (wr p bw (lookup-head p bw m)) all
        (λ s'. flush-Flushed pairs m s' t d.1 (λ q x e. wr q x (lookup-tail p bw m q x d e))) refl h

  -- The answer of `Get` after a build: the value added last, or none; it refuses a key of a
  -- partition for which there is no block.
  abbrev pub AnswersBuild : Pairs → BlockStore Log Reader → Type 0
  AnswersBuild kvs store =
      (key : Text)
      → (get sp fs key store ≡ ok (last_value key kvs))
        ⊎ ((get sp fs key store ≡ err partition_not_found) × (last_value key kvs ≡ none))

  module _ (kvs : Pairs) (m : Map ℕ (BlockWriter Log)) (s t : St sp fs) (key : Text)
      (inv : NewBlocks sp t.store.num_partitions kvs m)
      (f : Flushed (λ p. of_partition t.store.num_partitions p kvs) m s t) where
    no_blocks :
        blocks_at (key_partition key t.store.num_partitions).0 t.store.block_map ≡ []
        → last_value key kvs ≡ none
    no_blocks e =
        sym (last_value-of_partition t.store.num_partitions _ key kvs refl)
        ∙ ap (last_value key) (inv.missing _ (f.there _ e).0)
        ∙ (unfold last_value in refl)

    scan-own :
        scan sp fs (blocks_at (key_partition key t.store.num_partitions).0 t.store.block_map) key
        ≡ ok (last_value key kvs)
    scan-own = own (
        scan-Answers
          (of_partition t.store.num_partitions (key_partition key t.store.num_partitions).0 kvs) key
          _ (f.answers (key_partition key t.store.num_partitions).0))
      where
        bs : List (Block Reader)
        bs = blocks_at (key_partition key t.store.num_partitions).0 t.store.block_map

        own :
            ((bs ≡ []) × (scan sp fs bs key ≡ ok none))
              ⊎ (scan sp fs bs key
                  ≡ ok (
                      last_value key (
                        of_partition t.store.num_partitions
                          (key_partition key t.store.num_partitions).0
                          kvs)))
            → scan sp fs bs key ≡ ok (last_value key kvs)
        own (inl (e, none_found)) = none_found ∙ ap ok (sym (no_blocks e))
        own (inr found) =
            found ∙ ap ok (last_value-of_partition t.store.num_partitions _ key kvs refl)

    scan-other :
        (q : ℕ)
        → (key_partition key t.store.num_partitions).0 ≢ q
        → scan sp fs (blocks_at q t.store.block_map) key ≡ ok none
    scan-other q ne = other (
        scan-Answers (of_partition t.store.num_partitions q kvs) key (blocks_at q t.store.block_map)
          (f.answers q))
      where
        other :
            ((blocks_at q t.store.block_map ≡ [])
                × (scan sp fs (blocks_at q t.store.block_map) key ≡ ok none))
              ⊎ (scan sp fs (blocks_at q t.store.block_map) key
                  ≡ ok (last_value key (of_partition t.store.num_partitions q kvs)))
            → scan sp fs (blocks_at q t.store.block_map) key ≡ ok none
        other (inl h) = h.1
        other (inr h) = h ∙ ap ok (last_value-elsewhere t.store.num_partitions q key kvs ne)

    get-Flushed :
        (get sp fs key t.store ≡ ok (last_value key kvs))
        ⊎ ((get sp fs key t.store ≡ err partition_not_found) × (last_value key kvs ≡ none))
    unfolding get
    get-Flushed = elim (Bool-cases (absent (lookup p bm) && absent (lookup q bm))) [
      | inl neither ↦ rw neither (inr (refl, no_blocks (absent-blocks p q bm neither)))
      | inr some_block ↦
          rw some_block
            (inl (rw scan-own (next_block-same (last_value key kvs) rest (inl nothing_else))))
    ]
      where
        bm : Map ℕ (List (Block Reader))
        bm = t.store.block_map

        p : ℕ
        p = (key_partition key t.store.num_partitions).0

        q : ℕ
        q = (key_partition key t.store.num_partitions).1

        rest : Result Error (Option Text)
        rest = if nat_eq q p then ok none else scan sp fs (blocks_at q bm) key

        nothing_else : rest ≡ ok none
        nothing_else = elim (Bool-cases (nat_eq q p)) [
          | inl same ↦ rw same refl
          | inr other ↦ rw other (scan-other q (λ e. cc (other, (nat_eq_iff q p).1 (sym e))))
        ]

  -- A new store holds nothing yet.
  NewBlocks-nil : (n : ℕ) → NewBlocks sp n [] []
  NewBlocks-nil n = record {
    distinct = tt;
    writing = λ p bw h. absurd (unfold lookup in cc h);
    missing = λ p h. refl;
  }

  save-Flushed :
      (pairs : ℕ → Pairs) (selected : KeySet ℕ) (s t : St sp fs)
      → Distinct s.store.new_blocks
      → ((p : ℕ) (bw : BlockWriter Log)
          → lookup p s.store.new_blocks ≡ some bw
          → Writing sp (pairs p) bw)
      → AllAnswer sp pairs s.store.block_map
      → save sp fs selected s ≡ (ok tt, t)
      → Flushed pairs s.store.new_blocks s t
  unfolding save save_manifest
  save-Flushed pairs selected s t d wr all h =
      let (_, u, flushed, written) =
        continue-eq-ok (flush sp fs s.store.new_blocks s)
          (λ _ v.
            save_manifest sp fs selected (record v { store = record v.store { new_blocks = [] } }))
          h in
      let f = flush-Flushed pairs s.store.new_blocks s u d wr all flushed in
      subst (Flushed pairs s.store.new_blocks s) (ap (λ r. r.1) written)
        (record { answers = f.answers; there = f.there; same = f.same })

  -- A build from an empty store: the pairs are added, then saved. What `Get` answers afterwards is
  -- the last value added under the key, or none if there is none; or it refuses a key of a
  -- partition of which nothing was added.
  pub get-add_pairs-save :
      (kvs : Pairs) (selected : KeySet ℕ) (path c : Text) (n size : ℕ) (w : World) (s t : St sp fs)
      → add_pairs sp fs kvs (record { store = new path n c size; world = w }) ≡ (ok tt, s)
      → save sp fs selected s ≡ (ok tt, t)
      → (key : Text)
      → (get sp fs key t.store ≡ ok (last_value key kvs))
        ⊎ ((get sp fs key t.store ≡ err partition_not_found) × (last_value key kvs ≡ none))
  unfolding new
  get-add_pairs-save kvs selected path c n size w s t added saved key =
      get-Flushed kvs s.store.new_blocks s t key
        (subst (λ k. NewBlocks sp k kvs s.store.new_blocks) (sym total) a.holds)
        (subst (λ k. Flushed (λ p. of_partition k p kvs) s.store.new_blocks s t) (sym total) f)
    where
      a : Added sp fs kvs (record { store = new path n c size; world = w }) s
      a = add_pairs-Added sp fs [] kvs _ s (NewBlocks-nil n) added

      f : Flushed (λ p. of_partition n p kvs) s.store.new_blocks s t
      f =
          save-Flushed (λ p. of_partition n p kvs) selected s t a.holds.distinct
            (λ p bw h. (a.holds.writing p bw h).0)
            (λ p.
              subst (λ m. All (Answers sp (of_partition n p kvs)) (blocks_at p m))
                (sym (ap (λ x. x.block_map) a.rest)) (unfold blocks_at lookup in tt))
            saved

      total : t.store.num_partitions ≡ n
      total = f.same ∙ ap (λ x. x.num_partitions) a.rest
