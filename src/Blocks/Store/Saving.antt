-- ===== src/Blocks/Store/Saving.antt =====
-- After Save, and after Revert, no block is being written.
use sequins.Prelude.{◌≡◌, refl, sym, ap, Result, ok, [], KeySet, ℕ, continue-eq-ok}
use sequins.Blocks.Sparkey.{Sparkey, Error}
use sequins.Blocks.Manifest.{Files}
use sequins.Blocks.Store.{St, flush, save, save_manifest, revert}

module _ (sp : Sparkey) (fs : Files (Sparkey.World sp)) where
  pub save-new_blocks :
      (selected : KeySet ℕ) (s t : St sp fs)
      → save sp fs selected s ≡ (ok tt, t)
      → t.store.new_blocks ≡ []
  unfolding save save_manifest
  save-new_blocks selected s t h =
      let (_, u, _, written) =
        continue-eq-ok (flush sp fs s.store.new_blocks s)
          (λ _ v.
            save_manifest sp fs selected (record v { store = record v.store { new_blocks = [] } }))
          h in
      ap (λ (x : Result Error Unit × St sp fs). x.1.store.new_blocks) (sym written)

  pub revert-new_blocks : (s : St sp fs) → (revert sp fs s).store.new_blocks ≡ []
  unfolding revert
  revert-new_blocks s = refl

  pub revert-blocks : (s : St sp fs) → (revert sp fs s).store.blocks ≡ s.store.blocks
  unfolding revert
  revert-blocks s = refl
