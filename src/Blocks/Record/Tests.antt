-- ===== src/Blocks/Record/Tests.antt =====
-- Iterators that are numbered as they are made, and a pool that gives back what was put last.
use sequins.Prelude.{
  ℕ, ◌+◌, ◌≤◌, ◌≡◌, refl, true, false, codes, List, [], ◌∷◌, Option, none, some, Result, ok, ltb,
  arith,
}
use sequins.Blocks.Sparkey.{Error}
use sequins.Blocks.Record.{
  HashIterators, SyncPool, occurs, count_of, Record, get_record, close_record,
}
use sequins.Blocks.Record.Exclusive.{
  Readers, gets, closes, Reached, starts, steps, Reached-once, drop_iter,
}

new_number :
    (w w' i : ℕ)
    → ◌≡◌ {A = Result Error ℕ × ℕ} (ok w, w + 1) (ok i, w')
    → (ltb i w ≡ false) × (ltb i w' ≡ true)
new_number w w' i h = ground (arith, h)

still_made : (w j : ℕ) → ltb j w ≡ true → ltb j (w + 1) ≡ true
still_made w j h = ground (arith, h)

abbrev numbered : HashIterators
numbered = record {
  Heap = ℕ;
  iterator = λ w. (ok w, w + 1);
  seek = λ i key w. (ok tt, w);
  active = λ i w. true;
  value_len = λ i w. 3;
  made = λ i w. ltb i w;
  iterator_new = new_number;
  iterator_keeps = λ w j h. still_made w j h;
  seek_keeps = λ i key w j h. h;
}

take_first : List ℕ → Option ℕ × List ℕ
take_first [] = (none, [])
take_first (i ∷ xs) = (some i, xs)

first_taken :
    (j : ℕ) (xs : List ℕ) → count_of j (take_first xs).0 + occurs j (take_first xs).1 ≤ occurs j xs
unfolding take_first occurs
first_taken j [] = ground arith
first_taken j (i ∷ xs) = ground arith

abbrev stack : SyncPool
stack = record { take = take_first; taken = first_taken }

abbrev record_of : ℕ → Record
record_of i = record { value_len = 3; iter = some i; closed = false }

abbrev readers : List ℕ → List ℕ → ℕ → Readers numbered stack
readers free iters w = record { pool = record { free = free; heap = w }; open_iters = iters }

one_open : Reached numbered stack (readers [] (0 ∷ []) 1)
one_open = steps (readers [] [] 0) (readers [] (0 ∷ []) 1) (starts 0) (
    gets (codes "a") (readers [] [] 0) (record_of 0) (record { free = []; heap = 1 }) 0
      (unfold get_record take_first in refl) refl)

closed_again : Reached numbered stack (readers (0 ∷ []) [] 1)
closed_again = steps (readers [] (0 ∷ []) 1) (readers (0 ∷ []) [] 1) one_open (
    unfold close_record drop_iter in
    closes (readers [] (0 ∷ []) 1) (record_of 0) 0 refl (unfold occurs in ground arith))

-- The iterator that was put back is given out again, and then a second one is made.
two_open : Reached numbered stack (readers [] (1 ∷ 0 ∷ []) 2)
two_open =
    steps (readers [] (0 ∷ []) 1) (readers [] (1 ∷ 0 ∷ []) 2)
      (steps (readers (0 ∷ []) [] 1) (readers [] (0 ∷ []) 1) closed_again (
        gets (codes "b") (readers (0 ∷ []) [] 1) (record_of 0) (record { free = []; heap = 1 }) 0
          (unfold get_record take_first in refl) refl))
      (gets (codes "c") (readers [] (0 ∷ []) 1) (record_of 1) (record { free = []; heap = 2 }) 1
        (unfold get_record take_first in refl) refl)

Reached-once_example :
    occurs 0 (readers [] (1 ∷ 0 ∷ []) 2).pool.free + occurs 0 (readers [] (1 ∷ 0 ∷ []) 2).open_iters
    ≤ 1
Reached-once_example = Reached-once numbered stack (readers [] (1 ∷ 0 ∷ []) 2) two_open 0
