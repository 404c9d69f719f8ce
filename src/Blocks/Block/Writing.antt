-- ===== src/Blocks/Block/Writing.antt =====
-- What a block writer has taken, and that the block it saves answers with it: the range of keys
-- that `Block.Get` tests first loses no key.
use sequins.Prelude.{
  ℕ, ◌≡◌, ◌≢◌, refl, sym, ap, subst, ◌∙◌, false, Text, text_lt_trans, text_lt_irrefl, Result, ok,
  err, continue, continue-eq-ok, List, [], ◌∷◌, ◌++◌, Option, none, some, ◌==◌, Text_eq, join,
  text_eq_iff, text_eq, arith, All, All-append, length, length-append, Bool-cases, inl, inr,
}
use sequins.Blocks.Sparkey.{Sparkey, Error, last_value}
use sequins.Blocks.Block.{
  Block, BlockWriter, below_min, above_max, raise_max, lower_min, block_get, new_block, writer_add,
  writer_save, opened, fresh_writer, block_name, snappy_compression,
}

abbrev pub Pairs : Type 0
Pairs = List (Text × Text)

-- No key of the pairs is turned away by the two tests of `Block.Get`.
abbrev pub InRange : Option Text → Option Text → Text × Text → Type 0
InRange min max kv = (below_min min kv.0 ≡ false) × (above_max max kv.0 ≡ false)

lower_min-keeps :
    (m : Option Text) (key j : Text)
    → m ≢ none
    → below_min m j ≡ false
    → below_min (lower_min m key) j ≡ false
unfolding lower_min
lower_min-keeps none key j h b = absurd (h refl)
lower_min-keeps (some m) key j h b = ground (arith, text_lt_trans j key m)

raise_max-keeps :
    (m : Option Text) (key j : Text)
    → m ≢ none
    → above_max m j ≡ false
    → above_max (raise_max m key) j ≡ false
unfolding raise_max
raise_max-keeps none key j h b = absurd (h refl)
raise_max-keeps (some m) key j h b = ground (arith, text_lt_trans m key j)

lower_min_self : (m : Option Text) (key : Text) → below_min (lower_min m key) key ≡ false
unfolding lower_min
lower_min_self none key = text_lt_irrefl key
lower_min_self (some m) key = ground (arith, text_lt_irrefl key)

raise_max_self : (m : Option Text) (key : Text) → above_max (raise_max m key) key ≡ false
unfolding raise_max
raise_max_self none key = text_lt_irrefl key
raise_max_self (some m) key = ground (arith, text_lt_irrefl key)

-- The bounds cover the pairs, and stand as soon as there is one.
pub record Covers (min max : Option Text) (kvs : Pairs) : Type 0 where
  pub within : All (InRange min max) kvs
  pub has_min : min ≡ none → kvs ≡ []
  pub has_max : max ≡ none → kvs ≡ []

InRange-widen :
    (min max : Option Text) (key : Text) (kvs : Pairs)
    → min ≢ none
    → max ≢ none
    → All (InRange min max) kvs
    → All (InRange (lower_min min key) (raise_max max key)) kvs
InRange-widen min max key [] hm hx a = tt
InRange-widen min max key (kv ∷ kvs) hm hx a = (
  (lower_min-keeps min key kv.0 hm a.0.0, raise_max-keeps max key kv.0 hx a.0.1),
  InRange-widen min max key kvs hm hx a.1,
)

lower_min-ne-none : (m : Option Text) (key : Text) → lower_min m key ≢ none
unfolding lower_min
lower_min-ne-none m key = ground arith

raise_max-ne-none : (m : Option Text) (key : Text) → raise_max m key ≢ none
unfolding raise_max
raise_max-ne-none m key = ground arith

Covers-add :
    (min max : Option Text) (kvs : Pairs) (key value : Text)
    → Covers min max kvs
    → Covers (lower_min min key) (raise_max max key) (kvs ++ (key, value) ∷ [])
Covers-add min max [] key value c = record {
  within = ((lower_min_self min key, raise_max_self max key), tt);
  has_min = λ e. absurd (lower_min-ne-none min key e);
  has_max = λ e. absurd (raise_max-ne-none max key e);
}
Covers-add min max (kv ∷ kvs) key value c = record {
  within =
      All-append (InRange (lower_min min key) (raise_max max key)) (kv ∷ kvs) ((key, value) ∷ [])
        (InRange-widen min max key (kv ∷ kvs) (λ e. cc (c.has_min e)) (λ e. cc (c.has_max e))
          c.within)
        ((lower_min_self min key, raise_max_self max key), tt);
  has_min = λ e. absurd (lower_min-ne-none min key e);
  has_max = λ e. absurd (raise_max-ne-none max key e);
}

-- A key that `Block.Get` turns away was never added.
last_value-out_of_range :
    (min max : Option Text) (kvs : Pairs) (key : Text)
    → All (InRange min max) kvs
    → (InRange min max (key, []) → ⊥)
    → last_value key kvs ≡ none
unfolding last_value
last_value-out_of_range min max [] key a out = refl
last_value-out_of_range min max ((j, v) ∷ kvs) key a out =
    rw (last_value-out_of_range min max kvs key a.1 out) (elim (Bool-cases (text_eq j key)) [
      | inl same ↦
          absurd
            (out (subst (λ k. InRange min max (k, [])) ((text_eq_iff j key).0 same) (a.0.0, a.0.1)))
      | inr other ↦ rw other
    ])

ok-injective : {E A : Type 0} {a b : A} → ◌≡◌ {A = Result E A} (ok a) (ok b) → a ≡ b
ok-injective e = cc

module _ (sp : Sparkey) where
  open sp use {World, Log, Reader, logged, log_path}

  -- The writer has taken these pairs, in this order.
  pub record Writing (kvs : Pairs) (bw : BlockWriter Log) : Type 0 where
    pub holds : logged bw.log ≡ kvs
    pub stands : log_path bw.log ≡ bw.path
    pub covers : Covers bw.min_key bw.max_key kvs
    pub counted : bw.count ≡ length kvs

  pub new_block-Writing :
      (store_path : Text) (p : ℕ) (c : Text) (n : ℕ) (w w' : World) (bw : BlockWriter Log)
      → new_block sp store_path p c n w ≡ (ok bw, w')
      → Writing [] bw × (bw.partition ≡ p)
  unfolding new_block
  new_block-Writing store_path p c n w w' bw h =
      let (id, w₁) = sp.new_uuid w in
      let path : Text = join store_path (block_name p id) in
      let (log, w₂, made, e) =
        continue-eq-ok (sp.create_log path (c == snappy_compression) n w₁)
          (λ l w₃. (ok (fresh_writer p path id l), w₃)) h in
      let law = sp.logged-create path (c == snappy_compression) n w₁ w₂ log made in
      subst (λ x. Writing [] x × (x.partition ≡ p)) (ok-injective (ap (λ t. t.0) e))
        (
          record {
            holds = law.0;
            stands = law.1;
            covers = record { within = tt; has_min = λ _. refl; has_max = λ _. refl };
            counted = refl;
          },
          refl,
        )

  pub writer_add-Writing :
      (kvs : Pairs) (key value : Text) (bw bw' : BlockWriter Log)
      → Writing kvs bw
      → writer_add sp key value bw ≡ (ok tt, bw')
      → Writing (kvs ++ (key, value) ∷ []) bw' × (bw'.partition ≡ bw.partition)
  unfolding writer_add
  writer_add-Writing kvs key value bw bw' wr h =
      let log : Log = (sp.put key value bw.log).1 in
      let law = sp.logged-put key value bw.log log (λ i. ((h i).0, log)) in
      subst (λ x. Writing (kvs ++ (key, value) ∷ []) x × (x.partition ≡ bw.partition))
        (ap (λ t. t.1) h)
        (
          record {
            holds = law.0 ∙ ap (λ x. x ++ (key, value) ∷ []) wr.holds;
            stands = law.1 ∙ wr.stands;
            covers = Covers-add bw.min_key bw.max_key kvs key value wr.covers;
            counted = omega (arith, wr.counted, length-append {0} kvs ((key, value) ∷ []));
          },
          refl,
        )

  -- The block that a writer saves answers every key with the value put last under it.
  answers :
      (kvs : Pairs) (bw : BlockWriter Log) (b : Block Reader) (r : Reader)
      → Covers bw.min_key bw.max_key kvs
      → opened sp bw (ok r) ≡ ok b
      → (key : Text) → sp.seek r key ≡ ok (last_value key kvs)
      → block_get sp b key ≡ ok (last_value key kvs)
  unfolding opened block_get
  answers kvs bw b r c e key found =
      subst (λ x. block_get sp x key ≡ ok (last_value key kvs)) (ok-injective e)
        (elim (Bool-cases (below_min bw.min_key key)) [
          | inl low ↦ rw low (ap ok (sym (absent (λ inside. cc (low, inside.0)))))
          | inr low ↦ elim (Bool-cases (above_max bw.max_key key)) [
            | inl high ↦ rw (low, high) (ap ok (sym (absent (λ inside. cc (high, inside.1)))))
            | inr fits ↦ rw (low, fits) found
          ]
        ])
    where
      absent : (InRange bw.min_key bw.max_key (key, []) → ⊥) → last_value key kvs ≡ none
      absent = last_value-out_of_range bw.min_key bw.max_key kvs key c.within

  pub writer_save-answers :
      (kvs : Pairs) (bw : BlockWriter Log) (b : Block Reader) (w w' : World)
      → Writing kvs bw
      → writer_save sp bw w ≡ (ok b, w')
      → (key : Text) → block_get sp b key ≡ ok (last_value key kvs)
  unfolding writer_save
  writer_save-answers kvs bw b w w' wr h key =
      let (_, w₁, hashed, h₁) =
        continue-eq-ok (sp.write_hash_file bw.log w)
          (λ _ v.
            continue (sp.close_log bw.log v) λ _ u. (opened sp bw (sp.open_hash bw.path u), u))
          h in
      let (_, w₂, closed, h₂) =
        continue-eq-ok (sp.close_log bw.log w₁) (λ _ u. (opened sp bw (sp.open_hash bw.path u), u))
          h₁ in
      reopened w₁ w₂ hashed closed (ap (λ t. t.0) h₂) (sp.open_hash bw.path w₂) refl
    where
      reopened :
          (w₁ w₂ : World)
          → sp.write_hash_file bw.log w ≡ (ok tt, w₁)
          → sp.close_log bw.log w₁ ≡ (ok tt, w₂)
          → opened sp bw (sp.open_hash bw.path w₂) ≡ ok b
          → (res : Result Error Reader) → sp.open_hash bw.path w₂ ≡ res
          → block_get sp b key ≡ ok (last_value key kvs)
      reopened w₁ w₂ hashed closed o (ok r) e =
          answers kvs bw b r wr.covers (subst (λ x. opened sp bw x ≡ ok b) e o) key (
            subst (λ x. sp.seek r key ≡ ok (last_value key x)) wr.holds
              (sp.seek-written bw.log w w₁ w₂ r key hashed closed (rw wr.stands e)))
      reopened w₁ w₂ hashed closed o (err x) e =
          absurd (refused (subst (λ y. opened sp bw y ≡ ok b) e o))
        where
          refused : opened sp bw (err x) ≡ ok b → ⊥
          refused q = unfold opened in ground arith

  opened-partition :
      (bw : BlockWriter Log) (b : Block Reader) (res : Result Error Reader)
      → opened sp bw res ≡ ok b
      → b.partition ≡ bw.partition
  unfolding opened
  opened-partition bw b (ok r) h = ap (λ x. x.partition) (sym (ok-injective h))
  opened-partition bw b (err e) h = ground arith

  pub writer_save-partition :
      (bw : BlockWriter Log) (b : Block Reader) (w w' : World)
      → writer_save sp bw w ≡ (ok b, w')
      → b.partition ≡ bw.partition
  unfolding writer_save
  writer_save-partition bw b w w' h =
      let (_, w₁, _, h₁) =
        continue-eq-ok (sp.write_hash_file bw.log w)
          (λ _ v.
            continue (sp.close_log bw.log v) λ _ u. (opened sp bw (sp.open_hash bw.path u), u))
          h in
      let (_, w₂, _, h₂) =
        continue-eq-ok (sp.close_log bw.log w₁) (λ _ u. (opened sp bw (sp.open_hash bw.path u), u))
          h₁ in
      opened-partition bw b (sp.open_hash bw.path w₂) (ap (λ t. t.0) h₂)
