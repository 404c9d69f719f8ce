-- ===== src/Multilock.antt =====
-- multilock/multilock.go: a lock that N clients may hold at once. The buffered channel of slots is
-- its capacity and the number of values in it; a receive from an empty channel and a send to a full
-- one block, which is `none`.
pub mod Holding
pub mod Tests
use sequins.Prelude.{ℕ, zero, suc, ◌+◌, Option, ◌>>=◌, ◌-◌, none, some, ltb, if◌then◌else◌}

pub record Multilock : Type 0 where
  pub capacity : ℕ
  pub slots : ℕ

receive : Multilock → Option Multilock
receive m = if ltb 0 m.slots then some (record m { slots = m.slots - 1 }) else none

send : Multilock → Option Multilock
send m = if ltb m.slots m.capacity then some (record m { slots = m.slots + 1 }) else none

-- The loop that fills the channel, over the number of sends left.
fill : ℕ → Multilock → Option Multilock
unfolding send
fill zero m = some m
fill (suc n) m = do next ← send m; fill n next

pub new : ℕ → Option Multilock
unfolding fill
new n = fill n (record { capacity = n; slots = 0 })

pub lock : Multilock → Option Multilock
unfolding receive
lock m = receive m

pub unlock : Multilock → Option Multilock
unfolding send
unlock m = send m
