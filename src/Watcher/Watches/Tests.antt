-- ===== src/Watcher/Watches/Tests.antt =====
-- Two watched nodes, and reconnects that go well or not.
use sequins.Prelude.{◌≡◌, refl, true, false, codes, [], ◌∷◌, none, some, lookup, text_eq, insert}
use sequins.Watcher.{Node, Node_eq, node_eq}
use sequins.Watcher.Watches.{
  Running, errored, waited, shut_down, watches, step, run, Calm, IsWatched, step-IsWatched,
}

abbrev a : Node
a = codes "a" ∷ []

abbrev b : Node
b = codes "b" ∷ []

abbrev two_lost : Running
two_lost = record {
  watched_nodes = (a, 0) ∷ (b, 0) ∷ [];
  connected = false;
  ended = false;
  abandoned = 0;
}

two_lost-IsWatched : IsWatched two_lost
unfolding IsWatched
two_lost-IsWatched = ((refl, (refl, tt)), refl)

goes_well : Calm (waited true (λ node. false)) two_lost
unfolding Calm
goes_well node = refl

step-IsWatched_example :
    (t : Running) × (step (waited true (λ node. false)) two_lost ≡ some t) × IsWatched t
step-IsWatched_example =
    step-IsWatched (waited true (λ node. false)) two_lost goes_well two_lost-IsWatched

-- The hook of the second node fails once: the first one then has two goroutines, of which the
-- next error of the connection ends one only.
left_over :
    run (waited true (λ node. node_eq node b) ∷ waited true (λ node. false) ∷ errored ∷ []) two_lost
    ≡ some (record {
      watched_nodes = (a, 1) ∷ (b, 0) ∷ [];
      connected = false;
      ended = false;
      abandoned = 0;
    })
unfolding run step node_eq text_eq
left_over = refl

-- So it is for a node that is watched while there is no connection.
watched_meanwhile :
    run
      (watches a ∷ waited true (λ node. false) ∷ errored ∷ [])
      (record { watched_nodes = []; connected = false; ended = false; abandoned = 0 })
    ≡ some (record { watched_nodes = (a, 1) ∷ []; connected = false; ended = false; abandoned = 0 })
unfolding run step insert lookup
watched_meanwhile = refl

-- A node that is watched twice has a goroutine that no error of the connection ends.
watched_twice :
    run
      (watches a ∷ watches a ∷ errored ∷ [])
      (record { watched_nodes = []; connected = true; ended = false; abandoned = 0 })
    ≡ some (record { watched_nodes = (a, 0) ∷ []; connected = false; ended = false; abandoned = 1 })
unfolding run step insert lookup node_eq text_eq
watched_twice = refl

-- A watcher that is closed while it waits before a reconnect blocks for ever.
closed_meanwhile : run (shut_down ∷ []) two_lost ≡ none
unfolding run step
closed_meanwhile = refl

closed_in_time :
    run
      (watches a ∷ shut_down ∷ waited true (λ node. false) ∷ [])
      (record { watched_nodes = []; connected = true; ended = false; abandoned = 0 })
    ≡ some (record { watched_nodes = (a, 0) ∷ []; connected = false; ended = true; abandoned = 0 })
unfolding run step insert lookup
closed_in_time = refl
