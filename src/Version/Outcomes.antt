-- ===== src/Version/Outcomes.antt =====
-- How a build ends.
use sequins.Prelude.{
  if_true, if_false, ◌≡◌, refl, sym, ap, subst, ◌∙◌, ◌⊎◌, inl, inr, Bool, true, false, List, [],
  ◌∷◌, Option, some, >>=_some, Result, ok, err, ℕ, KeySet, length, nat_eq, arith, Bool-cases,
  continue-eq-ok,
}
use mathlib.Core.Option.{some-injective}
use sequins.Blocks.Sparkey.{Sparkey}
use sequins.Blocks.Manifest.{Files}
use sequins.Blocks.Store.{St, save, revert}
use sequins.Blocks.Store.Reverting.{Disposal, AllGone, revert-AllGone}
use sequins.Blocks.Store.Saving.{save-new_blocks, revert-new_blocks, revert-blocks}
use sequins.Build.{
  BuildError, canceled, wrong_partition, corrupted, stream_error, store_error, Unwrap, SequenceFile,
  add_files, add_each, as_build,
}
use sequins.Build.Kept.{as_build_ok}
use sequins.Partitions.{needed, update_local_partitions}
use sequins.Partitions.Needed.{needed-update_local_partitions}
use sequins.Status.{version_error, set_state}
use sequins.Version.{Version, build, build_needed, finish_build}

module _ (sp : Sparkey) (fs : Files (Sparkey.World sp)) where
  -- Between two builds: a version that is built needs nothing, and no block is being written.
  pub record IsSettled (v : Version sp fs) : Type 0 where
    pub complete : v.built ≡ true → needed v.partitions ≡ []
    pub closed : v.stored.store.new_blocks ≡ []

  module _ (u : Unwrap) (stopped : ℕ → Bool) (selected wanted : KeySet ℕ) where
    add_files-new_blocks :
        (files : List (Option SequenceFile)) (s t : St sp fs)
        → s.store.new_blocks ≡ []
        → add_files sp fs u stopped files selected wanted s ≡ (ok tt, t)
        → t.store.new_blocks ≡ []
    unfolding add_files
    add_files-new_blocks [] s t none_new h =
        ap (λ (x : Result BuildError Unit × St sp fs). x.1.store.new_blocks) (sym h) ∙ none_new
    add_files-new_blocks (file ∷ files) s t none_new h =
        let (_, mid, _, saved) =
          continue-eq-ok (add_each sp fs u stopped (file ∷ files) wanted s)
            (λ _ v. as_build sp fs (save sp fs selected v)) h in
        save-new_blocks sp fs selected mid t (as_build_ok sp fs (save sp fs selected mid) t saved)

  module _ (d : Disposal sp) (u : Unwrap) (stopped : ℕ → Bool) (files : List (Option SequenceFile))
      (made : Bool) (v : Version sp fs) where
    -- Where the adding of the files stood when it failed; it did not begin if there is no directory.
    unfoldable pub FailedAt : St sp fs → Type 0
    FailedAt t =
        ((made ≡ false) × (t ≡ v.stored))
        ⊎ ((made ≡ true)
            × (e : BuildError) × (add_files sp fs u stopped files v.partitions.selected
                  (needed v.partitions) v.stored
                ≡ (err e, t)))

    -- What a failed build leaves: the blocks that were saved before, and no file of the others; the version
    -- has the partitions that it had, and advertises those that it did.
    pub record Undone (w : Version sp fs) : Type 0 where
      pub unbuilt : w.built ≡ false
      pub same_partitions : w.partitions ≡ v.partitions
      pub same_watcher : w.watcher ≡ v.watcher
      failed_in : St sp fs
      pub failed_at : FailedAt failed_in
      pub same_blocks : w.stored.store.blocks ≡ failed_in.store.blocks
      pub all_gone : AllGone sp d failed_in.store.new_blocks w.stored.world

    unfoldable Ending : Version sp fs → Type 0
    Ending w = IsSettled w × ((w.built ≡ true) ⊎ Undone w)

    reverted :
        (x w : Version sp fs) (t : St sp fs)
        → x.built ≡ false
        → x.partitions ≡ v.partitions
        → x.watcher ≡ v.watcher
        → x.stored ≡ revert sp fs t
        → FailedAt t
        → some x ≡ some w
        → Ending w
    unfolding Ending
    reverted x w t unbuilt same_p same_w undone failed e = subst Ending (some-injective x w e) (
      record {
        complete = λ b. absurd (ground (arith, b, unbuilt));
        closed = ap (λ (s : St sp fs). s.store.new_blocks) undone ∙ revert-new_blocks sp fs t;
      },
      inr (record {
        unbuilt = unbuilt;
        same_partitions = same_p;
        same_watcher = same_w;
        failed_in = t;
        failed_at = failed;
        same_blocks = ap (λ (s : St sp fs). s.store.blocks) undone ∙ revert-blocks sp fs t;
        all_gone =
            subst (λ (s : St sp fs). AllGone sp d t.store.new_blocks s.world) (sym undone)
              (revert-AllGone sp d fs t);
      }),
    )

    -- The directory of the version was not made.
    not_begun :
        (x w : Version sp fs)
        → made ≡ false
        → IsSettled v
        → x.built ≡ false
        → x.partitions ≡ v.partitions
        → x.watcher ≡ v.watcher
        → x.stored ≡ v.stored
        → some x ≡ some w
        → Ending w
    unfolding Ending FailedAt AllGone
    not_begun x w refused h unbuilt same_p same_w same e = subst Ending (some-injective x w e) (
      record {
        complete = λ b. absurd (ground (arith, b, unbuilt));
        closed = ap (λ (s : St sp fs). s.store.new_blocks) same ∙ h.closed;
      },
      inr (record {
        unbuilt = unbuilt;
        same_partitions = same_p;
        same_watcher = same_w;
        failed_in = v.stored;
        failed_at = inl (refused, refl);
        same_blocks = ap (λ (s : St sp fs). s.store.blocks) same;
        all_gone = subst (λ bs. AllGone sp d bs x.stored.world) (sym h.closed) tt;
      }),
    )

    done :
        (x w : Version sp fs)
        → x.built ≡ true
        → needed x.partitions ≡ []
        → x.stored.store.new_blocks ≡ []
        → some x ≡ some w
        → Ending w
    unfolding Ending
    done x w built complete closed e =
        subst Ending (some-injective x w e)
          (record { complete = λ b. complete; closed = closed }, inl built)

    finished :
        (w : Version sp fs) (now : ℕ) (r : Result BuildError Unit × St sp fs)
        → v.built ≡ false
        → ((t : St sp fs) → r ≡ (ok tt, t) → t.store.new_blocks ≡ [])
        → ((e : BuildError) (t : St sp fs) → r ≡ (err e, t) → FailedAt t)
        → finish_build sp fs (needed v.partitions) now v r ≡ some w
        → Ending w
    unfolding finish_build
    finished w now (ok tt, t) unbuilt closed fails e =
        let (next, local, ends) =
          >>=_some (update_local_partitions (needed v.partitions) v.partitions v.watcher) _ e in
        done _ w refl (needed-update_local_partitions v.partitions next.0 v.watcher next.1 local)
          (closed t refl) ends
    finished w now (err canceled, t) unbuilt closed fails e =
        reverted _ w t unbuilt refl refl refl (fails canceled t refl) e
    finished w now (err wrong_partition, t) unbuilt closed fails e =
        reverted _ w t unbuilt refl refl refl (fails wrong_partition t refl) e
    finished w now (err corrupted, t) unbuilt closed fails e =
        reverted _ w t unbuilt refl refl refl (fails corrupted t refl) e
    finished w now (err stream_error, t) unbuilt closed fails e =
        reverted _ w t unbuilt refl refl refl (fails stream_error t refl) e
    finished w now (err (store_error x), t) unbuilt closed fails e =
        reverted _ w t unbuilt refl refl refl (fails (store_error x) t refl) e

    length-nil : (xs : KeySet ℕ) → nat_eq (length xs) 0 ≡ true → xs ≡ []
    length-nil [] h = refl
    length-nil (x ∷ xs) h = ground (arith, h)

    open_build :
        (now : ℕ) (w : Version sp fs)
        → IsSettled v
        → v.built ≡ false
        → build_needed sp fs u stopped files made now v ≡ some w
        → Ending w
    unfolding build_needed FailedAt
    open_build now w h unbuilt e = elim (Bool-cases (nat_eq (length (needed v.partitions)) 0)) [
      | inl nothing ↦
          done (record v { built = true }) w refl (length-nil (needed v.partitions) nothing)
            h.closed (rw nothing at e)
      | inr some_left ↦ elim (Bool-cases made) [
        | inr refused ↦
            not_begun (record v { info = set_state version_error now v.info }) w refused h unbuilt
              refl refl refl (rw (some_left, refused) at e)
        | inl there ↦
            finished w now
              (add_files sp fs u stopped files v.partitions.selected (needed v.partitions) v.stored)
              unbuilt
              (λ t.
                add_files-new_blocks u stopped v.partitions.selected (needed v.partitions) files
                  v.stored t h.closed)
              (λ x t failed. inr (there, x, failed)) (rw (some_left, there) at e)
      ]
    ]

    -- A build that ends without a panic is done, or it failed and is undone: the version has the
    -- partitions that it had and advertises those that it did, its store has the blocks that were saved
    -- before the failure, and of each block that was being written at the failure the file is not there.
    -- After either, a version that counts as built needs no partition and its store lists no
    -- block that is being written; if this held before the build. (A removed file is not
    -- there, and neither a removal nor the closing of a log makes a file.)
    pub build-IsSettled :
        (now : ℕ) (w : Version sp fs)
        → IsSettled v
        → build sp fs u stopped files made now v ≡ some w
        → IsSettled w × ((w.built ≡ true) ⊎ Undone w)
    unfolding build Ending
    build-IsSettled now w h e = elim (Bool-cases v.built) [
      | inl built ↦ done v w built (h.complete built) h.closed (sym (if_true v.built _ built) ∙ e)
      | inr unbuilt ↦ open_build now w h unbuilt (sym (if_false v.built _ unbuilt) ∙ e)
    ]
