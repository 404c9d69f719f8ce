-- ===== src/Multilock/Holding.antt =====
-- How many clients hold the lock. A run is the calls that return, in their order.
use sequins.Prelude.{ℕ, zero, suc, ◌+◌, ◌≤◌, ◌<◌, ◌≡◌, ◌≢◌, ◌↔◌, none, some, arith}
use sequins.Multilock.{Multilock, new, lock, unlock, receive, send, fill}

-- `Holds m h`: h clients hold the lock m. A client unlocks only what it has locked.
pub data Holds (n : ℕ) : Multilock → ℕ → Type 0 where
  made : {m : Multilock} → new n ≡ some m → Holds n m zero
  locked : {m next : Multilock} {h : ℕ} → Holds n m h → lock m ≡ some next → Holds n next (suc h)
  unlocked :
      {m next : Multilock} {h : ℕ} → Holds n m (suc h) → unlock m ≡ some next → Holds n next h

fill_total :
    (k c s : ℕ)
    → s + k ≤ c
    → fill k (record { capacity = c; slots = s }) ≡ some (record { capacity = c; slots = s + k })
unfolding fill send
fill_total zero c s h = ground arith
fill_total (suc k) c s h = ground (arith, fill_total k c (s + 1) (omega arith))

new_total : (n : ℕ) → new n ≡ some (record { capacity = n; slots = n })
unfolding new
new_total n = ground (arith, fill_total n n 0 (omega arith))

Counted : ℕ → Multilock → ℕ → Type 0
Counted n m h = (m.capacity ≡ n) × (m.slots + h ≡ n)

receive-Counted :
    (n : ℕ) (m next : Multilock) (h : ℕ)
    → Counted n m h
    → lock m ≡ some next
    → Counted n next (suc h)
unfolding lock receive Counted
receive-Counted n m next h k e = ground (arith, k.0, k.1)

send-Counted :
    (n : ℕ) (m next : Multilock) (h : ℕ)
    → Counted n m (suc h)
    → unlock m ≡ some next
    → Counted n next h
unfolding unlock send Counted
send-Counted n m next h k e = ground (arith, k.0, k.1)

new-Counted : (n : ℕ) (m : Multilock) → new n ≡ some m → Counted n m zero
unfolding Counted
new-Counted n m e = ground (arith, new_total n)

Holds-Counted : (n : ℕ) (m : Multilock) (h : ℕ) → Holds n m h → Counted n m h
Holds-Counted n m h (made e) = new-Counted n m e
Holds-Counted n m h (locked {m = m0} {h = h0} r e) =
    receive-Counted n m0 m h0 (Holds-Counted n m0 h0 r) e
Holds-Counted n m h (unlocked {m = m0} r e) = send-Counted n m0 m h (Holds-Counted n m0 (suc h) r) e

lock-returns : (n : ℕ) (m : Multilock) (h : ℕ) → m.slots + h ≡ n → (lock m ≢ none) ↔ (h < n)
unfolding lock receive
lock-returns n m h k = ground arith

unlock-returns :
    (n : ℕ) (m : Multilock) (h : ℕ) → m.capacity ≡ n → m.slots + h ≡ n → 0 < h → unlock m ≢ none
unfolding unlock send
unlock-returns n m h c k pos e = ground arith

-- In every run of a lock for n clients, at most n of them hold it; the next Lock returns exactly if
-- fewer than n hold it, and an Unlock of one that holds it never blocks.
pub Holds-bounded :
    (n : ℕ) (m : Multilock) (h : ℕ)
    → Holds n m h
    → (h ≤ n) × ((lock m ≢ none) ↔ (h < n)) × ((0 < h) → unlock m ≢ none)
unfolding Counted
Holds-bounded n m h r = (omega (arith, k.1), lock-returns n m h k.1, unlock-returns n m h k.0 k.1)
  where
    k : Counted n m h
    k = Holds-Counted n m h r
