-- ===== src/Blocks/Record/Exclusive.antt =====
-- No two open records read from one iterator.
use mathlib.Core.Option.{some-injective}
use sequins.Prelude.{
  ℕ, ◌+◌, ◌≤◌, ◌<◌, ◌≡◌, refl, sym, ap, subst, ◌∙◌, inl, inr, true, false, Text, List, [], ◌∷◌,
  Option, none, some, Result, ok, err, if◌then◌else◌, nat_eq, nat_eq_iff, ltb, arith, Bool-cases,
}
use sequins.Blocks.Sparkey.{Error}
use sequins.Blocks.Record.{
  HashIterators, SyncPool, occurs, count_of, Record, Pool, with_iter, get_iter, put_iter, sought,
  got_iter, get_record, close_record,
}

unfoldable pub drop_iter : ℕ → List ℕ → List ℕ
drop_iter i [] = []
drop_iter i (j ∷ xs) = let rest = drop_iter i xs in if nat_eq j i then xs else j ∷ rest

occurs-drop_iter :
    (i j : ℕ) (xs : List ℕ)
    → 0 < occurs i xs
    → occurs j xs ≡ (if nat_eq i j then 1 else 0) + occurs j (drop_iter i xs)
unfolding occurs drop_iter
occurs-drop_iter i j [] h = absurd (ground (arith, h))
occurs-drop_iter i j (k ∷ xs) h = elim (Bool-cases (nat_eq k i)) [
  | inl same ↦ rw same (ground (arith, same, nat_eq_iff k i))
  | inr other ↦ rw other (ground (arith, other, occurs-drop_iter i j xs, h))
]

positive : (n : ℕ) → ltb 0 n ≡ true → 0 < n
positive n h = ground (arith, h)

module _ (hs : HashIterators) (sp : SyncPool) where
  -- The pool, and the iterators of the records that are open.
  pub record Readers : Type 0 where
    pub pool : Pool hs sp
    pub open_iters : List ℕ

  -- Every iterator is in one place at most, the pool or one open record, and was made.
  pub record IsExclusive (s : Readers) : Type 0 where
    pub once : (j : ℕ) → occurs j s.pool.free + occurs j s.open_iters ≤ 1
    pub known :
        (j : ℕ) → 0 < occurs j s.pool.free + occurs j s.open_iters → hs.made j s.pool.heap ≡ true

  -- Block.get and Record.Close, of a record that is open.
  pub data Step : Readers → Readers → Type 0 where
    gets :
        (key : Text) (s : Readers) (r : Record) (p : Pool hs sp) (i : ℕ)
        → get_record hs sp key s.pool ≡ (ok (some r), p)
        → r.iter ≡ some i
        → Step s (record { pool = p; open_iters = i ∷ s.open_iters })
    misses :
        (key : Text) (s : Readers) (p : Pool hs sp)
        → get_record hs sp key s.pool ≡ (ok none, p)
        → Step s (record s { pool = p })
    fails :
        (key : Text) (s : Readers) (p : Pool hs sp) (e : Error)
        → get_record hs sp key s.pool ≡ (err e, p)
        → Step s (record s { pool = p })
    closes :
        (s : Readers) (r : Record) (i : ℕ)
        → r.iter ≡ some i
        → 0 < occurs i s.open_iters
        → Step s
            (record { pool = close_record hs sp r s.pool; open_iters = drop_iter i s.open_iters })

  abbrev at_pool : Pool hs sp → List ℕ → Readers
  at_pool p iters = record { pool = p; open_iters = iters }

  -- What a call of get leaves behind; a record that it gives out counts as open.
  Kept : List ℕ → Result Error (Option Record) × Pool hs sp → Type 0
  Kept iters (err e, p) = IsExclusive (at_pool p iters)
  Kept iters (ok none, p) = IsExclusive (at_pool p iters)
  Kept iters (ok (some r), p) = (i : ℕ) × (r.iter ≡ some i) × IsExclusive (at_pool p (i ∷ iters))

  Taken : List ℕ → Result Error ℕ × Pool hs sp → Type 0
  Taken iters (err e, p) = IsExclusive (at_pool p iters)
  Taken iters (ok i, p) = IsExclusive (at_pool p (i ∷ iters))

  put_iter-IsExclusive :
      (i : ℕ) (p : Pool hs sp) (iters : List ℕ)
      → IsExclusive (at_pool p (i ∷ iters))
      → IsExclusive (at_pool (put_iter hs sp i p) iters)
  unfolding put_iter occurs
  put_iter-IsExclusive i p iters h = record {
    once = λ j. ground (arith, h.once j);
    known = λ j pos. h.known j (ground (arith, pos));
  }

  dropped-IsExclusive :
      (i : ℕ) (p : Pool hs sp) (iters : List ℕ)
      → IsExclusive (at_pool p (i ∷ iters))
      → IsExclusive (at_pool p iters)
  unfolding occurs
  dropped-IsExclusive i p iters h = record {
    once = λ j. ground (arith, h.once j);
    known = λ j pos. h.known j (ground (arith, pos));
  }

  seek-IsExclusive :
      (i : ℕ) (key : Text) (p : Pool hs sp) (iters : List ℕ)
      → IsExclusive (at_pool p iters)
      → IsExclusive (at_pool (record p { heap = (hs.seek i key p.heap).1 }) iters)
  seek-IsExclusive i key p iters h = record {
    once = h.once;
    known = λ j pos. hs.seek_keeps i key p.heap j (h.known j pos);
  }

  with_iter-Taken :
      (found : Option ℕ) (free iters : List ℕ) (p : Pool hs sp)
      → ((j : ℕ) → count_of j found + occurs j free ≤ occurs j p.free)
      → IsExclusive (at_pool p iters)
      → Taken iters (with_iter hs sp found free p.heap)
  unfolding with_iter Taken occurs
  with_iter-Taken (some i) free iters p less h = record {
    once = λ j. ground (arith, less j, h.once j);
    known = λ j pos. h.known j (ground (arith, less j, pos));
  }
  with_iter-Taken none free iters p less h = made (hs.iterator p.heap) refl
    where
      fresh_once : (j : ℕ) → hs.made j p.heap ≡ false → occurs j free + (1 + occurs j iters) ≤ 1
      fresh_once j unmade = elim (Bool-cases (ltb 0 (occurs j p.free + occurs j iters))) [
        | inl some_there ↦ absurd (
            ground
              (arith, unmade, h.known j (positive (occurs j p.free + occurs j iters) some_there)))
        | inr none_there ↦ ground (arith, less j, none_there)
      ]

      made :
          (r : Result Error ℕ × hs.Heap)
          → hs.iterator p.heap ≡ r
          → Taken iters (r.0, record { free = free; heap = r.1 })
      made (err e, w) same = record {
        once = λ j. ground (arith, less j, h.once j);
        known = λ j pos.
            subst (λ x. hs.made j x.1 ≡ true) same
              (hs.iterator_keeps p.heap j (h.known j (ground (arith, less j, pos))));
      }
      made (ok i, w) same =
          let (unmade, has) = hs.iterator_new p.heap w i same in
          record {
            once = λ j. elim (Bool-cases (nat_eq i j)) [
              | inl here ↦ rw here (
                  fresh_once j
                    (subst (λ n. hs.made n p.heap ≡ false) ((nat_eq_iff i j).0 here) unmade))
              | inr other ↦ rw other (ground (arith, less j, h.once j))
            ];
            known = λ j pos. elim (Bool-cases (nat_eq i j)) [
              | inl here ↦ subst (λ n. hs.made n w ≡ true) ((nat_eq_iff i j).0 here) has
              | inr other ↦
                  subst (λ x. hs.made j x.1 ≡ true) same
                    (hs.iterator_keeps p.heap j
                      (h.known j (ground (arith, less j, rw other at pos))))
            ];
          }

  get_iter-Taken :
      (p : Pool hs sp) (iters : List ℕ)
      → IsExclusive (at_pool p iters)
      → Taken iters (get_iter hs sp p)
  unfolding get_iter
  get_iter-Taken p iters h =
      with_iter-Taken (sp.take p.free).0 (sp.take p.free).1 iters p (λ j. sp.taken j p.free) h

  sought-Kept :
      (i : ℕ) (key : Text) (p : Pool hs sp) (iters : List ℕ)
      → IsExclusive (at_pool p (i ∷ iters))
      → Kept iters (sought hs sp i (hs.seek i key p.heap) p)
  sought-Kept i key p iters h = found (hs.seek i key p.heap) refl
    where
      at_heap :
          (w : hs.Heap)
          → (hs.seek i key p.heap).1 ≡ w
          → IsExclusive (at_pool (record p { heap = w }) (i ∷ iters))
      at_heap w same =
          subst (λ x. IsExclusive (at_pool (record p { heap = x }) (i ∷ iters))) same
            (seek-IsExclusive i key p (i ∷ iters) h)

      found :
          (r : Result Error Unit × hs.Heap)
          → hs.seek i key p.heap ≡ r
          → Kept iters (sought hs sp i r p)
      found (err e, w) same =
          unfold sought Kept in
          dropped-IsExclusive i (record p { heap = w }) iters (at_heap w (ap (λ x. x.1) same))
      found (ok u, w) same = elim (Bool-cases (hs.active i w)) [
        | inl active ↦ unfold sought Kept in rw active (i, refl, at_heap w (ap (λ x. x.1) same))
        | inr gone ↦
            unfold sought Kept in
            rw gone (
              put_iter-IsExclusive i (record p { heap = w }) iters (at_heap w (ap (λ x. x.1) same)))
      ]

  get_record-Kept :
      (key : Text) (p : Pool hs sp) (iters : List ℕ)
      → IsExclusive (at_pool p iters)
      → Kept iters (get_record hs sp key p)
  unfolding get_record
  get_record-Kept key p iters h = got (get_iter hs sp p) (get_iter-Taken p iters h)
    where
      got : (r : Result Error ℕ × Pool hs sp) → Taken iters r → Kept iters (got_iter hs sp key r)
      got (err e, q) taken = unfold got_iter Kept Taken in taken
      got (ok i, q) taken = unfold got_iter in sought-Kept i key q iters (unfold Taken in taken)

  closed-IsExclusive :
      (r : Record) (i : ℕ) (s : Readers)
      → r.iter ≡ some i
      → 0 < occurs i s.open_iters
      → IsExclusive s
      → IsExclusive (at_pool (close_record hs sp r s.pool) (drop_iter i s.open_iters))
  unfolding close_record
  closed-IsExclusive r i s same has h =
      subst
        (λ o. IsExclusive (
          at_pool (elim o [ none ↦ s.pool | some k ↦ put_iter hs sp k s.pool ])
            (drop_iter i s.open_iters)))
        (sym same)
        (put_iter-IsExclusive i s.pool (drop_iter i s.open_iters) (record {
          once = λ j. subst (λ n. occurs j s.pool.free + n ≤ 1) (moved j) (h.once j);
          known =
              λ j pos. h.known j (subst (λ n. 0 < occurs j s.pool.free + n) (sym (moved j)) pos);
        }))
    where
      moved : (j : ℕ) → occurs j s.open_iters ≡ occurs j (i ∷ drop_iter i s.open_iters)
      moved j = unfold occurs in occurs-drop_iter i j s.open_iters has

  Step-IsExclusive : (s t : Readers) → Step s t → IsExclusive s → IsExclusive t
  unfolding Kept
  Step-IsExclusive s t (gets key _ r p i got reads) h =
      let (k, reads', exclusive) =
        subst (Kept s.open_iters) got (get_record-Kept key s.pool s.open_iters h) in
      subst (λ n. IsExclusive (at_pool p (n ∷ s.open_iters)))
        (some-injective k i (sym reads' ∙ reads)) exclusive
  Step-IsExclusive s t (misses key _ p got) h =
      subst (Kept s.open_iters) got (get_record-Kept key s.pool s.open_iters h)
  Step-IsExclusive s t (fails key _ p e got) h =
      subst (Kept s.open_iters) got (get_record-Kept key s.pool s.open_iters h)
  Step-IsExclusive s t (closes _ r i reads has) h = closed-IsExclusive r i s reads has h

  pub data Reached : Readers → Type 0 where
    starts :
        (w : hs.Heap) → Reached (record { pool = record { free = []; heap = w }; open_iters = [] })
    steps : (s t : Readers) → Reached s → Step s t → Reached t

  Reached-IsExclusive : (s : Readers) → Reached s → IsExclusive s
  unfolding occurs
  Reached-IsExclusive s (starts w) = record {
    once = λ j. ground arith;
    known = λ j pos. absurd (ground (arith, pos));
  }
  Reached-IsExclusive t (steps s _ reached step) =
      Step-IsExclusive s t step (Reached-IsExclusive s reached)

  -- After calls of get, and of Close on records that are open, in any order: an iterator is in the
  -- pool, or in one open record, or in neither, and at most once.
  pub Reached-once :
      (s : Readers) → Reached s → (j : ℕ) → occurs j s.pool.free + occurs j s.open_iters ≤ 1
  Reached-once s reached = (Reached-IsExclusive s reached).once
