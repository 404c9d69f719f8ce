-- ===== src/Watcher/Watches.antt =====
-- The watched nodes of zk_watcher.go, and run. Each watched node has the number of goroutines that
-- wait for its channel `cancel`; a send on it ends one of them, and blocks for ever, which is `none`,
-- if there is none. A turn of run is a step, as is a call of watchChildren or removeWatch; close is the step
-- that run takes on its send. The tries to create ephemeral nodes are in run_hooks of the parent, and
-- here only whether they went well.
pub mod Tests
use sequins.Prelude.{
  if_true, if_false, ℕ, zero, suc, ◌+◌, ◌≡◌, refl, sym, ap, subst, ◌∙◌, inl, inr, Bool, true, false,
  not, ◌||◌, List, [], ◌∷◌, Option, none, some, ◌>>=◌, >>=_some, if◌then◌else◌, Map, insert, delete,
  lookup, All, arith, Bool-cases,
}
use mathlib.Core.Option.{some-injective}
use sequins.Watcher.{Node, Node_eq, node_eq}

pub record Running : Type 0 where
  pub watched_nodes : Map Node ℕ
  pub connected : Bool
  -- run has returned
  pub ended : Bool
  -- the goroutines that wait for a channel which watchChildren has replaced: nothing ends them
  pub abandoned : ℕ

pub data RunEvent : Type 0 where
  -- an error from the channel `errs`
  errored : RunEvent
  -- the wait before a reconnect is over: whether the reconnect and the ephemeral nodes went well, and for
  -- which watched nodes the hook fails
  waited : (reconnects : Bool) → (fails : Node → Bool) → RunEvent
  -- close, while run waits before a reconnect or for an error
  shut_down : RunEvent
  -- watchChildren and removeWatch
  watches removes : Node → RunEvent

-- notifyDisconnected leaves nothing behind; then the loop of cancelWatches.
cancel_watches : Map Node ℕ → Option (Map Node ℕ)
cancel_watches [] = some []
cancel_watches ((node, zero) ∷ rest) = none
cancel_watches ((node, suc n) ∷ rest) =
    (cancel_watches rest >>= λ others. some ((node, n) ∷ others))

-- The loop of runHooks over the watched nodes, which ends at the first hook that fails.
start_watches : (Node → Bool) → Map Node ℕ → Bool × Map Node ℕ
start_watches fails [] = (true, [])
start_watches fails ((node, n) ∷ rest) =
    let later = start_watches fails rest in
    if fails node then (false, (node, n) ∷ rest) else (later.0, (node, n + 1) ∷ later.1)

goroutines_of : Option ℕ → ℕ
goroutines_of none = 0
goroutines_of (some n) = n

-- A node that is watched already gets a new channel.
start_watch : Node → Running → Running
unfolding goroutines_of
start_watch node s = record s {
  watched_nodes = insert node 1 s.watched_nodes;
  abandoned = s.abandoned + goroutines_of (lookup node s.watched_nodes);
}

disconnected : Running → Map Node ℕ → Running
disconnected s nodes = record s { watched_nodes = nodes; connected = false }

ends : Running → Map Node ℕ → Running
ends s nodes = record s { watched_nodes = nodes; connected = false; ended = true }

-- The send of close blocks once run has returned.
pub step : RunEvent → Running → Option Running
unfolding cancel_watches start_watches start_watch disconnected ends
step errored s =
    if s.connected
    then (cancel_watches s.watched_nodes >>= λ nodes. some (disconnected s nodes))
    else some s
step (waited reconnects fails) s =
    if s.ended || s.connected || not reconnects
    then some s
    else (let later = start_watches fails s.watched_nodes in
        some (record s { watched_nodes = later.1; connected = later.0 }))
step shut_down s =
    if s.ended then none else (cancel_watches s.watched_nodes >>= λ nodes. some (ends s nodes))
step (watches node) s = some (start_watch node s)
step (removes node) s = some (record s { watched_nodes = delete node s.watched_nodes })

pub run : List RunEvent → Running → Option Running
unfolding step
run [] s = some s
run (event ∷ events) s = (step event s >>= λ next. run events next)

-- No hook of a watched node fails once the reconnect went well, a node is watched only while there is
-- a connection and while it is not watched, and the watcher is closed once, and only while there
-- is a connection.
unfoldable pub Calm : RunEvent → Running → Type 0
Calm errored s = Unit
Calm (waited reconnects fails) s = (node : Node) → fails node ≡ false
Calm shut_down s = (s.ended ≡ false) × (s.connected ≡ true)
Calm (watches node) s = (s.connected ≡ true) × (lookup node s.watched_nodes ≡ none)
Calm (removes node) s = Unit

-- Each watched node has one goroutine while there is a connection, and none otherwise, and there are
-- no others.
unfoldable pub IsWatched : Running → Type 0
IsWatched s = All (λ w. w.1 ≡ (if s.connected then 1 else 0)) s.watched_nodes × (s.abandoned ≡ 0)

abbrev AllAt : ℕ → Map Node ℕ → Type 0
AllAt n nodes = All (λ w. w.1 ≡ n) nodes

cancel_watches-All :
    (nodes : Map Node ℕ)
    → AllAt 1 nodes
    → (next : Map Node ℕ) × (cancel_watches nodes ≡ some next) × AllAt 0 next
unfolding cancel_watches
cancel_watches-All [] h = ([], refl, tt)
cancel_watches-All ((node, zero) ∷ rest) h = absurd (ground (arith, h.0))
cancel_watches-All ((node, suc n) ∷ rest) h =
    let (next, ends, none_left) = cancel_watches-All rest h.1 in
    (
      (node, n) ∷ next,
      ap (λ o. o >>= λ others. some ((node, n) ∷ others)) ends,
      (ground (arith, h.0), none_left),
    )

start_watches-All :
    (fails : Node → Bool) (nodes : Map Node ℕ)
    → ((node : Node) → fails node ≡ false)
    → AllAt 0 nodes
    → ((start_watches fails nodes).0 ≡ true) × AllAt 1 (start_watches fails nodes).1
unfolding start_watches
start_watches-All fails [] works h = (refl, tt)
start_watches-All fails ((node, n) ∷ rest) works h =
    let (passes, started) = start_watches-All fails rest works h.1 in
    rw (works node) (passes, (ground (arith, h.0), started))

insert-AllAt :
    (node : Node) (n : ℕ) (nodes : Map Node ℕ) → AllAt n nodes → AllAt n (insert node n nodes)
unfolding insert
insert-AllAt node n [] h = (refl, tt)
insert-AllAt node n ((other, m) ∷ rest) h = elim (Bool-cases (node_eq other node)) [
  | inl same ↦ rw same (refl, h.1)
  | inr differs ↦ rw differs (h.0, insert-AllAt node n rest h.1)
]

delete-AllAt :
    (node : Node) (n : ℕ) (nodes : Map Node ℕ) → AllAt n nodes → AllAt n (delete node nodes)
unfolding delete
delete-AllAt node n [] h = tt
delete-AllAt node n ((other, m) ∷ rest) h = elim (Bool-cases (node_eq other node)) [
  | inl same ↦ rw same (delete-AllAt node n rest h.1)
  | inr differs ↦ rw differs (h.0, delete-AllAt node n rest h.1)
]

module _ (s : Running) where
  Each : Type 0
  Each = AllAt (if s.connected then 1 else 0) s.watched_nodes

  all_1 : s.connected ≡ true → Each → AllAt 1 s.watched_nodes
  unfolding Each
  all_1 there h = subst (λ b. AllAt (if b then 1 else 0) s.watched_nodes) there h

  all_0 : s.connected ≡ false → Each → AllAt 0 s.watched_nodes
  unfolding Each
  all_0 gone h = subst (λ b. AllAt (if b then 1 else 0) s.watched_nodes) gone h

-- An event does not block, and then again each watched node has exactly one goroutine while there is a
-- connection, and none otherwise, and no goroutine waits for a channel that was replaced; if this
-- held before, and if: no hook of a watched node fails once the reconnect went well; a node is
-- watched only while there is a connection, and only if it is not watched already; and the
-- watcher is closed only while there is a connection, and once.
pub step-IsWatched :
    (event : RunEvent) (s : Running)
    → Calm event s
    → IsWatched s
    → (t : Running) × (step event s ≡ some t) × IsWatched t
unfolding step Calm IsWatched Each
step-IsWatched (removes node) s calm (h, none_lost) =
    (_, refl, (delete-AllAt node (if s.connected then 1 else 0) s.watched_nodes h, none_lost))
step-IsWatched (watches node) s (there, new) (h, none_lost) = (
  _,
  refl,
  (
    subst (λ b. AllAt (if b then 1 else 0) (insert node 1 s.watched_nodes)) (sym there)
        (insert-AllAt node 1 s.watched_nodes (all_1 s there h)),
    rw (new, none_lost) refl,
  ),
)
step-IsWatched shut_down s (running, there) (h, none_lost) =
    let (next, stops, none_left) = cancel_watches-All s.watched_nodes (all_1 s there h) in
    (
      ends s next,
      if_false s.ended none running ∙ ap (λ o. o >>= λ nodes. some (ends s nodes)) stops,
      (none_left, none_lost),
    )
step-IsWatched errored s calm (h, none_lost) = elim (Bool-cases s.connected) [
  | inl there ↦
      let (next, stops, none_left) = cancel_watches-All s.watched_nodes (all_1 s there h) in
      (
        disconnected s next,
        if_true s.connected (some s) there
            ∙ ap (λ o. o >>= λ nodes. some (disconnected s nodes)) stops,
        (none_left, none_lost),
      )
  | inr gone ↦ (s, if_false s.connected _ gone, (h, none_lost))
]
step-IsWatched (waited reconnects fails) s calm (h, none_lost) =
    elim (Bool-cases (s.ended || s.connected || not reconnects)) [
      | inl stays ↦ (s, if_true (s.ended || s.connected || not reconnects) _ stays, (h, none_lost))
      | inr restarts ↦
          let gone : s.connected ≡ false = ground (arith, restarts) in
          let (passes, started) = start_watches-All fails s.watched_nodes calm (all_0 s gone h) in
          (
            record s {
              watched_nodes = (start_watches fails s.watched_nodes).1;
              connected = (start_watches fails s.watched_nodes).0;
            },
            if_false (s.ended || s.connected || not reconnects) (some s) restarts,
            (
              subst (λ b. AllAt (if b then 1 else 0) (start_watches fails s.watched_nodes).1)
                  (sym passes) started,
              none_lost,
            ),
          )
    ]
