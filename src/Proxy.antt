-- ===== src/Proxy.antt =====
-- proxy.go: a request is sent on to the peers that have its partition, one after another. What the
-- `select` receives is an event; contexts and requests are the peers they belong to. The log of the
-- requests (`sent`, `failed`, `cancelled`) is what the peers see.
pub mod Outcomes
pub mod Tests
use sequins.Prelude.{
  ℕ, ◌+◌, ◌-◌, Bool, true, false, not, ◌||◌, Text, Text_eq, List, [], ◌∷◌, ◌++◌, Option, none, some,
  ◌>>=◌, if◌then◌else◌, ◌==◌, nat_eq, KeySet, add, filter,
}

-- The status and what the caller copies of a peer's response.
pub record Response : Type 0 where
  pub status : ℕ
  pub version_header : Text
  pub body : Text

pub record Proxying : Type 0 where
  -- the attempts that will still answer
  pub in_flight : List Text
  pub outstanding : ℕ
  pub cancels : KeySet Text
  pub sent : List Text
  pub failed : List Text
  pub cancelled : List Text

pub data ProxyResult : Type 0 where
  answered : Response → Text → ProxyResult
  no_available_peers : ProxyResult
  proxy_timeout : ProxyResult
  request_canceled : ProxyResult

-- What an attempt's goroutine writes: nothing but an error if the request failed or the peer's
-- status is neither 200 nor 404. `none` is an error of http.Client.Do.
pub proxy_attempt : Option Response → Option Response
proxy_attempt none = none
proxy_attempt (some resp) =
    if nat_eq resp.status 200 || nat_eq resp.status 404 then some resp else none

pub data Event : Type 0 where
  response : Text → Option Response → Event
  total_timeout : Event
  done : Event
  stage_timeout : Event

-- The branch of a request that was made.
pub start_attempt : Text → Proxying → Proxying
start_attempt peer st = record st {
  in_flight = st.in_flight ++ peer ∷ [];
  outstanding = st.outstanding + 1;
  cancels = add peer st.cancels;
  sent = st.sent ++ peer ∷ [];
}

-- An iteration up to its `select`: the peers left to try, or `none` for errNoAvailablePeers.
-- `request` tells of which peers newProxyRequest makes a request.
pub attempt : (Text → Bool) → List Text → Proxying → Option (List Text × Proxying)
unfolding start_attempt
attempt request (peer ∷ peers) st = some (peers, if request peer then start_attempt peer st else st)
attempt request [] st = if nat_eq st.outstanding 0 then none else some ([], st)

-- An attempt answers once. `none` if none of that peer is left.
pub take_out : Text → List Text → Option (List Text)
take_out peer [] = none
take_out peer (x ∷ xs) =
    let rest = take_out peer xs in if x == peer then some xs else (rest >>= λ ys. some (x ∷ ys))

pub data Selected : Type 0 where
  going_on : Proxying → Selected
  returned : ProxyResult → Proxying → Selected

pub others : Text → KeySet Text → List Text
others peer = filter (λ x. not (x == peer))

pub received : Text → Option Response → Proxying → Selected
unfolding others
received peer none st = going_on (record st {
  outstanding = st.outstanding - 1;
  failed = st.failed ++ peer ∷ [];
  cancelled = st.cancelled ++ peer ∷ [];
})
received peer (some resp) st =
    returned (answered resp peer) (record st { cancelled = st.cancelled ++ others peer st.cancels })

-- `none` if the event cannot happen.
pub select : Event → Proxying → Option Selected
unfolding received proxy_attempt take_out
select (response peer answer) st =
    (take_out peer st.in_flight >>= λ rest.
    some (received peer (proxy_attempt answer) (record st { in_flight = rest })))
select total_timeout st =
    some (returned proxy_timeout (record st { cancelled = st.cancelled ++ st.in_flight }))
select done st = some (returned request_canceled st)
select stage_timeout st = some (going_on st)

-- The loop, over the events; after the last of them it waits for another.
pub proxy_loop : (Text → Bool) → List Text → Proxying → List Event → Option Selected
unfolding attempt select
proxy_loop request peers st [] = elim (attempt request peers st) [
  | none ↦ some (returned no_available_peers st)
  | some (rest, asked) ↦ some (going_on asked)
]
proxy_loop request peers st (event ∷ events) = elim (attempt request peers st) [
  | none ↦ some (returned no_available_peers st)
  | some (rest, asked) ↦ elim (select event asked) [
    | none ↦ none
    | some (returned result final) ↦ some (returned result final)
    | some (going_on next) ↦ proxy_loop request rest next events
  ]
]

abbrev pub nothing_sent : Proxying
nothing_sent = record {
  in_flight = [];
  outstanding = 0;
  cancels = [];
  sent = [];
  failed = [];
  cancelled = [];
}

pub proxy : (Text → Bool) → List Text → List Event → Option Selected
unfolding proxy_loop
proxy request peers events = proxy_loop request peers nothing_sent events
