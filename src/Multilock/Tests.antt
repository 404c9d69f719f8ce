-- ===== src/Multilock/Tests.antt =====
-- A run of the lock.
use sequins.Prelude.{ℕ, refl, none, ◌≡◌, ◌≢◌, ◌↔◌, ◌≤◌, ◌<◌}
use sequins.Multilock.{Multilock, new, lock, unlock, receive, send, fill}
use sequins.Multilock.Holding.{Holds, made, locked, unlocked, Holds-bounded}

abbrev free : ℕ → Multilock
free n = record { capacity = 2; slots = n }

-- Two clients of two hold the lock, after one of them gave it back and took it again.
two_hold : Holds 2 (free 0) 2
unfolding new lock unlock receive send fill
two_hold =
    locked {m = free 1}
      (unlocked {m = free 0} (locked {m = free 1} (locked {m = free 2} (made refl) refl) refl) refl)
      refl

third_waits : lock (free 0) ≡ none
unfolding lock receive
third_waits = refl

Holds-bounded_example :
    (2 ≤ 2) × ((lock (free 0) ≢ none) ↔ (2 < 2)) × ((0 < 2) → unlock (free 0) ≢ none)
Holds-bounded_example = Holds-bounded 2 (free 0) 2 two_hold
