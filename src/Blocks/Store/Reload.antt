-- ===== src/Blocks/Store/Reload.antt =====
-- A store that was saved and is loaded again from its manifest.
use mathlib.Core.List.{append-nil, append_assoc}
use sequins.Prelude.{
  ℕ, ◌≡◌, refl, sym, ap, subst, ◌∙◌, Text, codes, Result, ok, err, List, [], ◌∷◌, ◌++◌, arith, Map,
  map, continue-eq-ok, All, KeySet, join, text_eq,
}
use sequins.Blocks.Sparkey.{Sparkey, Error}
use sequins.Blocks.Block.{Block, BlockWriter, writer_save, snappy_compression}
use sequins.Blocks.Block.Writing.{writer_save-partition}
use sequins.Blocks.Manifest.{Files, with_defaults, write_manifest, read-write_manifest}
use sequins.Blocks.Store.{
  BlockStore, St, append_block, block_manifest, with_block, saved_manifest, flush, save,
  save_manifest, after_save, load_blocks, new_from_manifest, new,
}

-- The blocks by partition, in the order of the list.
unfoldable pub grouped :
    {R : Type 0} → Map ℕ (List (Block R)) → List (Block R) → Map ℕ (List (Block R))
grouped m [] = m
grouped m (b ∷ bs) = grouped (append_block b.partition b m) bs

grouped-append :
    {R : Type 0} (m : Map ℕ (List (Block R))) (bs : List (Block R)) (b : Block R)
    → grouped m (bs ++ b ∷ []) ≡ append_block b.partition b (grouped m bs)
unfolding grouped
grouped-append m [] b = refl
grouped-append m (c ∷ bs) b = grouped-append (append_block c.partition c m) bs b

module _ (sp : Sparkey) (fs : Files (Sparkey.World sp)) where
  open sp use {World, Log, Reader, open_hash}

  -- `BlockMap` holds what `Blocks` holds, by partition.
  abbrev pub Agrees : BlockStore Log Reader → Type 0
  Agrees s = s.block_map ≡ grouped [] s.blocks

  pub new-Agrees : (path c : Text) (n size : ℕ) → Agrees (new path n c size)
  unfolding new grouped
  new-Agrees path c n size = refl

  with_block-Agrees :
      (s : BlockStore Log Reader) (b : Block Reader)
      → Agrees s
      → Agrees (with_block b.partition b s)
  unfolding with_block
  with_block-Agrees s b h = ap (append_block b.partition b) h ∙ sym (grouped-append [] s.blocks b)

  -- Every block's file can be opened again, with the same content.
  abbrev pub Readable : Text → World → List (Block Reader) → Type 0
  Readable path w bs = All (λ b. open_hash (join path b.name) w ≡ ok b.reader) bs

  load_blocks-saved :
      (path : Text) (bs : List (Block Reader)) (w : World) (s : BlockStore Log Reader)
      → Readable path w bs
      → load_blocks sp fs path (map block_manifest bs) w s
        ≡ ok (record s { blocks = s.blocks ++ bs; block_map = grouped s.block_map bs })
  unfolding load_blocks grouped with_block block_manifest
  load_blocks-saved path [] w s r =
      ap (λ l. ok (record s { blocks = l })) (sym (append-nil s.blocks))
  load_blocks-saved path (b ∷ bs) w s r = rw (r.0) (
      load_blocks-saved path bs w (with_block b.partition b s) r.1
      ∙ ap {B = Result Error (BlockStore Log Reader)}
          (λ l. ok (record s {
            blocks = l;
            block_map = grouped (append_block b.partition b s.block_map) bs;
          }))
          (append_assoc s.blocks (b ∷ []) bs))

  -- Each writer stands under its own partition.
  abbrev pub Filed : Map ℕ (BlockWriter Log) → Type 0
  Filed m = All (λ e. e.1.partition ≡ e.0) m

  flush-Agrees :
      (m : Map ℕ (BlockWriter Log)) (s t : St sp fs)
      → Filed m
      → Agrees s.store
      → flush sp fs m s ≡ (ok tt, t)
      → Agrees t.store
  unfolding flush
  flush-Agrees [] s t filed a h = subst (λ x. Agrees x.store) (ap (λ r. r.1) h) a
  flush-Agrees ((p, bw) ∷ m) s t filed a h =
      next (writer_save sp bw s.world) refl h (λ s'. flush-Agrees m s' t filed.1)
    where
      next :
          (res : Result Error (Block Reader) × World)
          → writer_save sp bw s.world ≡ res
          → after_save sp fs s res
              (λ b w. flush sp fs m (record { store = with_block p b s.store; world = w }))
            ≡ (ok tt, t)
          → ((s' : St sp fs) → Agrees s'.store → flush sp fs m s' ≡ (ok tt, t) → Agrees t.store)
          → Agrees t.store
      next (err e, w) made q rest = ground arith
      next (ok b, w) made q rest =
          rest (record { store = with_block p b s.store; world = w })
            (subst (λ k. Agrees (with_block k b s.store))
              (writer_save-partition sp bw b s.world w made ∙ filed.0)
              (with_block-Agrees s.store b a))
            q

  -- The store as it comes back: the manifest says nothing of the compression and the block size.
  abbrev pub reloaded : BlockStore Log Reader → BlockStore Log Reader
  reloaded s = record s { compression = snappy_compression; block_size = 0 }

  written-reload :
      (selected : KeySet ℕ) (s : St sp fs) (w : World)
      → Agrees s.store
      → s.store.new_blocks ≡ []
      → write_manifest fs
          (join s.store.path (codes ".manifest"))
          (saved_manifest s.store selected)
          s.world
        ≡ (ok tt, w)
      → Readable s.store.path w s.store.blocks
      → new_from_manifest sp fs s.store.path w
        ≡ ok (reloaded s.store, with_defaults (saved_manifest s.store selected))
  unfolding new_from_manifest saved_manifest text_eq
  written-reload selected s w a none_new written r =
      rw (read-write_manifest fs (join s.store.path (codes ".manifest")) _ s.world w written) (
        unfold with_defaults new in
        rw (load_blocks-saved s.store.path s.store.blocks w _ r) (λ i. ok (
          record s.store {
            compression = snappy_compression;
            block_size = 0;
            new_blocks = sym none_new i;
            block_map = sym a i;
          },
          with_defaults (saved_manifest s.store selected),
        )))

  -- After a save, loading the directory gives the store back, block for block and partition for
  -- partition, if the blocks' files are still readable; but its compression is snappy and its block
  -- size 0, whatever they were.
  pub reload-save :
      (selected : KeySet ℕ) (s t : St sp fs)
      → Agrees s.store
      → Filed s.store.new_blocks
      → save sp fs selected s ≡ (ok tt, t)
      → Readable t.store.path t.world t.store.blocks
      → new_from_manifest sp fs t.store.path t.world
        ≡ ok (reloaded t.store, with_defaults (saved_manifest t.store selected))
  unfolding save save_manifest
  reload-save selected s t a filed h readable =
      let (_, u, flushed, written) =
        continue-eq-ok (flush sp fs s.store.new_blocks s)
          (λ _ v.
            save_manifest sp fs selected (record v { store = record v.store { new_blocks = [] } }))
          h in
      let u' : St sp fs = record u { store = record u.store { new_blocks = [] } } in
      let same : u'.store ≡ t.store = ap (λ r. r.1.store) written in
      subst
        (λ x.
          Readable x.path t.world x.blocks
          → new_from_manifest sp fs x.path t.world
            ≡ ok (reloaded x, with_defaults (saved_manifest x selected)))
        same
        (written-reload selected u' t.world (flush-Agrees s.store.new_blocks s u filed a flushed)
          refl (λ i. ((written i).0, (written i).1.world)))
        readable
