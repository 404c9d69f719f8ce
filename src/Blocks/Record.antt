-- ===== src/Blocks/Record.antt =====
-- record.go and iterpool.go: the records that a block gives out, and the pool of the iterators they
-- read from. An iterator is a pointer, its identity. go-sparkey's iterators are the record
-- HashIterators, sync.Pool is the record SyncPool: `take` is Get on what was put into the pool and
-- is still there, of which the pool may drop anything at any time.
pub mod Exclusive
pub mod Tests
use sequins.Prelude.{
  ℕ, ◌+◌, ◌≤◌, ◌≡◌, Bool, true, false, Text, List, [], ◌∷◌, Option, none, some, Result, ok, err,
  if◌then◌else◌, nat_eq,
}
use sequins.Blocks.Sparkey.{Error}

pub record HashIterators : Type 1 where
  pub Heap : Type 0
  pub iterator : Heap → Result Error ℕ × Heap
  pub seek : ℕ → Text → Heap → Result Error Unit × Heap
  -- whether the state is ITERATOR_ACTIVE, and the value there
  pub active : ℕ → Heap → Bool
  pub value_len : ℕ → Heap → ℕ
  pub made : ℕ → Heap → Bool
  -- An iterator that is made is not one of those that were made before.
  pub iterator_new :
      (w w' : Heap) (i : ℕ) → iterator w ≡ (ok i, w') → (made i w ≡ false) × (made i w' ≡ true)
  pub iterator_keeps : (w : Heap) (j : ℕ) → made j w ≡ true → made j (iterator w).1 ≡ true
  pub seek_keeps :
      (i : ℕ) (key : Text) (w : Heap) (j : ℕ) → made j w ≡ true → made j (seek i key w).1 ≡ true

unfoldable pub occurs : ℕ → List ℕ → ℕ
occurs j [] = 0
occurs j (i ∷ xs) = (if nat_eq i j then 1 else 0) + occurs j xs

abbrev pub count_of : ℕ → Option ℕ → ℕ
count_of j none = 0
count_of j (some i) = if nat_eq i j then 1 else 0

pub record SyncPool : Type 0 where
  pub take : List ℕ → Option ℕ × List ℕ
  -- What is taken was put there, and is not there any more.
  pub taken : (j : ℕ) (xs : List ℕ) → count_of j (take xs).0 + occurs j (take xs).1 ≤ occurs j xs

pub record Record : Type 0 where
  pub value_len : ℕ
  pub iter : Option ℕ
  pub closed : Bool

module _ (hs : HashIterators) (sp : SyncPool) where
  pub record Pool : Type 0 where
    pub free : List ℕ
    pub heap : hs.Heap

  with_iter : Option ℕ → List ℕ → hs.Heap → Result Error ℕ × Pool
  with_iter (some i) free w = (ok i, record { free = free; heap = w })
  with_iter none free w =
      let (result, w') = hs.iterator w in (result, record { free = free; heap = w' })

  pub get_iter : Pool → Result Error ℕ × Pool
  unfolding with_iter
  get_iter p = let (found, free) = sp.take p.free in with_iter found free p.heap

  pub put_iter : ℕ → Pool → Pool
  put_iter i p = record p { free = i ∷ p.free }

  -- The rest of Block.get, once the iterator stands where the key would be.
  sought : ℕ → Result Error Unit × hs.Heap → Pool → Result Error (Option Record) × Pool
  unfolding put_iter
  sought i (err e, w) p = (err e, record p { heap = w })
  sought i (ok u, w) p =
      if hs.active i w
      then (
        ok (some (record { value_len = hs.value_len i w; iter = some i; closed = false })),
        record p { heap = w },
      )
      else (ok none, put_iter i (record p { heap = w }))

  got_iter : Text → Result Error ℕ × Pool → Result Error (Option Record) × Pool
  unfolding sought
  got_iter key (err e, p) = (err e, p)
  got_iter key (ok i, p) = sought i (hs.seek i key p.heap) p

  -- Block.get
  unfoldable pub get_record : Text → Pool → Result Error (Option Record) × Pool
  unfolding got_iter get_iter
  get_record key p = got_iter key (get_iter p)

  unfoldable pub close_record : Record → Pool → Pool
  unfolding put_iter
  close_record r p = elim r.iter [ none ↦ p | some i ↦ put_iter i p ]
