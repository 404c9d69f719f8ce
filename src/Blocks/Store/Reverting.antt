-- ===== src/Blocks/Store/Reverting.antt =====
-- Revert closes and deletes what Add has made since the last Save.
use sequins.Prelude.{ℕ, Text, [], ◌∷◌, Map, All}
use sequins.Blocks.Sparkey.{Sparkey}
use sequins.Blocks.Block.{BlockWriter, writer_close, writer_delete}
use sequins.Blocks.Manifest.{Files}
use sequins.Blocks.Store.{St, revert, revert_blocks}

-- What is promised of the files on the disk: one that is removed is not there, and neither a removal
-- nor the closing of a log makes a file.
pub record Disposal (sp : Sparkey) : Type 1 where
  pub There : Text → Sparkey.World sp → Type 0
  pub removed :
      (path : Text) (w : Sparkey.World sp) → There path (Sparkey.remove_file sp path w) → ⊥
  pub removes_only :
      (other path : Text) (w : Sparkey.World sp)
      → There path (Sparkey.remove_file sp other w)
      → There path w
  pub closes_only :
      (log : Sparkey.Log sp) (path : Text) (w : Sparkey.World sp)
      → There path (Sparkey.close_log sp log w).1
      → There path w

module _ (sp : Sparkey) (d : Disposal sp) where
  -- The files of none of the writers are there.
  unfoldable pub AllGone : Map ℕ (BlockWriter (Sparkey.Log sp)) → Sparkey.World sp → Type 0
  AllGone writers w = All (λ b. Disposal.There d b.1.path w → ⊥) writers

  module _ (fs : Files (Sparkey.World sp)) where
    revert_blocks-There :
        (writers : Map ℕ (BlockWriter (Sparkey.Log sp))) (w : Sparkey.World sp) (path : Text)
        → Disposal.There d path (revert_blocks sp fs writers w)
        → Disposal.There d path w
    unfolding revert_blocks writer_close writer_delete
    revert_blocks-There [] w path h = h
    revert_blocks-There ((partition, bw) ∷ rest) w path h = d.closes_only bw.log path w (
        d.removes_only bw.path path (writer_close sp bw w)
          (revert_blocks-There rest (writer_delete sp bw (writer_close sp bw w)) path h))

    revert_blocks-AllGone :
        (writers : Map ℕ (BlockWriter (Sparkey.Log sp))) (w : Sparkey.World sp)
        → AllGone writers (revert_blocks sp fs writers w)
    unfolding AllGone revert_blocks writer_close writer_delete
    revert_blocks-AllGone [] w = tt
    revert_blocks-AllGone ((partition, bw) ∷ rest) w =
        let after : Sparkey.World sp = writer_delete sp bw (writer_close sp bw w) in
        (
          λ there.
              d.removed bw.path (writer_close sp bw w)
                (revert_blocks-There rest after bw.path there),
          revert_blocks-AllGone rest after,
        )

    pub revert-AllGone : (s : St sp fs) → AllGone s.store.new_blocks (revert sp fs s).world
    unfolding revert
    revert-AllGone s = revert_blocks-AllGone s.store.new_blocks s.world
