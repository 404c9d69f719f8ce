-- ===== src/Proxy/Outcomes.antt =====
-- What proxy returns, and what the peers saw then.
use sequins.Prelude.{
  ℕ, ◌+◌, ◌-◌, ◌≡◌, refl, sym, subst, ◌∙◌, Bool, true, false, not, ◌&&◌, ◌||◌, Text, Text_eq,
  text_eq_iff, List, [], ◌∷◌, ◌++◌, Option, none, some, arith, Bool-cases, Option-cases, inl, inr,
  contains, contains-add, contains-append, ◌==◌, if◌then◌else◌, nat_eq, ltb, length, length-append,
  filter, ◌>>=◌, >>=_some, append-nil, append_assoc,
}
use sequins.Proxy.{
  Proxying, Response, ProxyResult, answered, no_available_peers, Event, Selected, going_on,
  returned, attempt, start_attempt, take_out, others, received, select, proxy_loop, proxy,
  nothing_sent, proxy_attempt, response, total_timeout, done, stage_timeout,
}

pub count : Text → List Text → ℕ
count x [] = 0
count x (y ∷ ys) = let rest = count x ys in if y == x then rest + 1 else rest

count-append : (x : Text) (xs ys : List Text) → count x (xs ++ ys) ≡ count x xs + count x ys
unfolding count
count-append x [] ys = omega arith
count-append x (y ∷ xs) ys = ground (arith, count-append x xs ys)

-- What is left when one answer of the peer is taken out.
Taken : Text → List Text → List Text → Type 0
Taken p xs rest =
    (length xs ≡ length rest + 1)
    × ((x : Text) → count x xs ≡ count x (p ∷ []) + count x rest)
    × (contains xs p ≡ true)

take_out-Taken : (p : Text) (xs rest : List Text) → take_out p xs ≡ some rest → Taken p xs rest
unfolding take_out Taken count contains
take_out-Taken p [] rest h = ground (arith, h)
take_out-Taken p (y ∷ ys) rest h = elim (Bool-cases (y == p)) [
  | inl same ↦
      (ground (arith, h, same), λ x. ground (arith, h, same, text_eq_iff y p), ground (arith, same))
  | inr other ↦
      let inner : (take_out p ys >>= λ zs. some (y ∷ zs)) ≡ some rest = ground (arith, h, other) in
      let (left, took, all) = >>=_some (take_out p ys) (λ zs. some (y ∷ zs)) inner in
      let (lengths, counts, found) = take_out-Taken p ys left took in
      (ground (arith, lengths, all), λ x. ground (arith, counts x, all), ground (arith, found))
]

-- The invariant of the loop, at the peers that are left.
Tracked : (Text → Bool) → List Text → List Text → Proxying → Type 0
Tracked request peers left st =
    (st.sent ++ filter request left ≡ filter request peers)
    × ((x : Text) → count x st.failed + count x st.in_flight ≡ count x st.sent)
    × (st.outstanding ≡ length st.in_flight)
    × ((x : Text) → contains st.cancels x ≡ contains st.sent x)

module _ (request : Text → Bool) (peers : List Text) (st : Proxying) where
  start_attempt-Tracked :
      (p : Text) (left : List Text)
      → request p ≡ true
      → Tracked request peers (p ∷ left) st
      → Tracked request peers left (start_attempt p st)
  unfolding Tracked start_attempt count contains
  start_attempt-Tracked p left can (order, counts, size, cancels) = (
    append_assoc st.sent (p ∷ []) (filter request left) ∙ ground (arith, order, can),
    λ x.
        ground
          (arith, counts x, count-append x st.in_flight (p ∷ []), count-append x st.sent (p ∷ [])),
    omega (arith, size, length-append st.in_flight (p ∷ [])),
    λ x. ground (arith, cancels x, contains-add p x st.cancels, contains-append st.sent (p ∷ []) x),
  )

  skip-Tracked :
      (p : Text) (left : List Text)
      → request p ≡ false
      → Tracked request peers (p ∷ left) st
      → Tracked request peers left st
  unfolding Tracked
  skip-Tracked p left cannot t = (ground (arith, t.0, cannot), t.1, t.2, t.3)

module _ (request : Text → Bool) (peers : List Text) where
  attempt-Tracked :
      (left rest : List Text) (st next : Proxying)
      → Tracked request peers left st
      → attempt request left st ≡ some (rest, next)
      → Tracked request peers rest next
  unfolding attempt
  attempt-Tracked [] rest st next t h = elim (Bool-cases (nat_eq st.outstanding 0)) [
    | inl idle ↦ absurd (ground (arith, h, idle))
    | inr busy ↦
        subst (λ (r : List Text × Proxying). Tracked request peers r.0 r.1)
          (ground (arith, h, busy)) t
  ]
  attempt-Tracked (p ∷ left) rest st next t h = elim (Bool-cases (request p)) [
    | inl can ↦
        subst (λ (r : List Text × Proxying). Tracked request peers r.0 r.1)
          {x = (left, start_attempt p st)} (ground (arith, h, can))
          (start_attempt-Tracked request peers st p left can t)
    | inr cannot ↦
        subst (λ (r : List Text × Proxying). Tracked request peers r.0 r.1) {x = (left, st)}
          (ground (arith, h, cannot)) (skip-Tracked request peers st p left cannot t)
  ]

  -- A failed attempt.
  failed-Tracked :
      (left rest : List Text) (p : Text) (st : Proxying)
      → Tracked request peers left st
      → Taken p st.in_flight rest
      → Tracked request peers left (record st {
        in_flight = rest;
        outstanding = st.outstanding - 1;
        failed = st.failed ++ p ∷ [];
        cancelled = st.cancelled ++ p ∷ [];
      })
  unfolding Tracked Taken count
  failed-Tracked left rest p st (order, counts, size, cancels) (lengths, taken, found) = (
    order,
    λ x. ground (arith, counts x, taken x, count-append x st.failed (p ∷ [])),
    omega (arith, size, lengths),
    cancels,
  )

  select-Tracked :
      (left : List Text) (event : Event) (st next : Proxying)
      → Tracked request peers left st
      → select event st ≡ some (going_on next)
      → Tracked request peers left next
  unfolding select received
  select-Tracked left (response p answer) st next t h =
      let (rest, took, sel) =
        >>=_some (take_out p st.in_flight)
          (λ rest. some (received p (proxy_attempt answer) (record st { in_flight = rest }))) h in
      cases (proxy_attempt answer) rest took sel
    where
      cases :
          (a : Option Response) (rest : List Text)
          → take_out p st.in_flight ≡ some rest
          → some (received p a (record st { in_flight = rest })) ≡ some (going_on next)
          → Tracked request peers left next
      cases none rest took sel =
          subst (Tracked request peers left) (ground (arith, sel))
            (failed-Tracked left rest p st t (take_out-Taken p st.in_flight rest took))
      cases (some resp) rest took sel = absurd (ground (arith, sel))
  select-Tracked left total_timeout st next t h = absurd (ground (arith, h))
  select-Tracked left done st next t h = absurd (ground (arith, h))
  select-Tracked left stage_timeout st next t h =
      subst (Tracked request peers left) (ground (arith, h)) t

-- What holds of the peers' view when the loop returns.
Settled : (Text → Bool) → List Text → ProxyResult → Proxying → Type 0
Settled request peers no_available_peers st =
    (st.sent ≡ filter request peers) × ((x : Text) → count x st.failed ≡ count x st.sent)
Settled request peers (answered resp peer) st =
    ((nat_eq resp.status 200 || nat_eq resp.status 404) ≡ true)
    × (contains st.sent peer ≡ true)
    × ((rest : List Text) × (st.sent ++ rest ≡ filter request peers))
    × ((x : Text)
        → (contains st.sent x && not (x == peer) && not (contains st.cancelled x)) ≡ false)
Settled request peers other st = Unit

-- A text is in a list if it is counted there.
contains-count : (x : Text) (xs : List Text) → contains xs x ≡ ltb 0 (count x xs)
unfolding count contains
contains-count x [] = refl
contains-count x (y ∷ ys) = ground (arith, contains-count x ys)

contains-others :
    (peer : Text) (xs : List Text) (x : Text)
    → contains (others peer xs) x ≡ (contains xs x && not (x == peer))
unfolding others contains
contains-others peer [] x = refl
contains-others peer (y ∷ ys) x =
    ground
      (arith, contains-others peer ys x, text_eq_iff y x, text_eq_iff y peer, text_eq_iff x peer)

count-length_zero : (x : Text) (xs : List Text) → length xs ≡ 0 → count x xs ≡ 0
unfolding count
count-length_zero x [] h = refl
count-length_zero x (y ∷ ys) h = absurd (omega (arith, h))

module _ (request : Text → Bool) (peers : List Text) where
  settle :
      {r r' : ProxyResult} {s s' : Proxying}
      → ◌≡◌ {A = Option Selected} (some (returned r s)) (some (returned r' s'))
      → Settled request peers r s
      → Settled request peers r' s'
  settle {r} {r'} {s} {s'} h =
      let same : ◌≡◌ {A = ProxyResult × Proxying} (r, s) (r', s') = ground (arith, h) in
      subst (λ (x : ProxyResult × Proxying). Settled request peers x.0 x.1) same

  received-Settled :
      (left rest : List Text) (p : Text) (resp : Response) (st : Proxying)
      → Tracked request peers left st
      → Taken p st.in_flight rest
      → (nat_eq resp.status 200 || nat_eq resp.status 404) ≡ true
      → Settled request peers
          (answered resp p)
          (record st { in_flight = rest; cancelled = st.cancelled ++ others p st.cancels })
  unfolding Tracked Taken Settled
  received-Settled left rest p resp st (order, counts, size, cancels) (lengths, taken, found) good =
      (
        good,
        ground (arith, contains-count p st.in_flight, contains-count p st.sent, found, counts p),
        (filter request left, order),
        λ x. ground (
          arith,
          contains-append st.cancelled (others p st.cancels) x,
          contains-others p st.cancels x,
          cancels x,
        ),
      )

  proxy_attempt_good :
      (answer : Option Response) (resp : Response)
      → proxy_attempt answer ≡ some resp
      → (nat_eq resp.status 200 || nat_eq resp.status 404) ≡ true
  unfolding proxy_attempt
  proxy_attempt_good none resp h = absurd (ground (arith, h))
  proxy_attempt_good (some r) resp h =
      elim (Bool-cases (nat_eq r.status 200 || nat_eq r.status 404)) [
        | inl good ↦
            let same : r ≡ resp = ground (arith, h, good) in
            subst (λ (x : Response). (nat_eq x.status 200 || nat_eq x.status 404) ≡ true) same good
        | inr bad ↦ absurd (ground (arith, h, bad))
      ]

  attempt-eq-none :
      (left : List Text) (st : Proxying)
      → Tracked request peers left st
      → attempt request left st ≡ none
      → Settled request peers no_available_peers st
  unfolding attempt Tracked Settled
  attempt-eq-none (p ∷ left) st t h = absurd (ground (arith, h))
  attempt-eq-none [] st (order, counts, size, cancels) h = (
    sym (append-nil st.sent) ∙ order,
    λ x. ground (arith, counts x, size, count-length_zero x st.in_flight, h),
  )

  select-Settled :
      (left : List Text) (event : Event) (st final : Proxying) (result : ProxyResult)
      → Tracked request peers left st
      → select event st ≡ some (returned result final)
      → Settled request peers result final
  unfolding select received Settled
  select-Settled left (response p answer) st final result t h =
      let (rest, took, sel) =
        >>=_some (take_out p st.in_flight)
          (λ rest. some (received p (proxy_attempt answer) (record st { in_flight = rest }))) h in
      cases (proxy_attempt answer) refl rest took sel
    where
      cases :
          (a : Option Response)
          → proxy_attempt answer ≡ a
          → (rest : List Text) → take_out p st.in_flight ≡ some rest
          → some (received p a (record st { in_flight = rest })) ≡ some (returned result final)
          → Settled request peers result final
      cases none e rest took sel = absurd (ground (arith, sel))
      cases (some resp) e rest took sel = settle sel (
          received-Settled left rest p resp st t (take_out-Taken p st.in_flight rest took)
            (proxy_attempt_good answer resp e))
  select-Settled left total_timeout st final result t h = settle h tt
  select-Settled left done st final result t h = settle h tt
  select-Settled left stage_timeout st final result t h = absurd (ground (arith, h))

  proxy_loop-Settled :
      (left : List Text) (st final : Proxying) (events : List Event) (result : ProxyResult)
      → Tracked request peers left st
      → proxy_loop request left st events ≡ some (returned result final)
      → Settled request peers result final
  unfolding proxy_loop
  proxy_loop-Settled left st final [] result t h = elim (Option-cases (attempt request left st)) [
    | inl none_left ↦ settle (ground (arith, h, none_left)) (attempt-eq-none left st t none_left)
    | inr ((rest, asked), e) ↦ absurd (ground (arith, h, e))
  ]
  proxy_loop-Settled left st final (event ∷ events) result t h =
      elim (Option-cases (attempt request left st)) [
        | inl none_left ↦
            settle (ground (arith, h, none_left)) (attempt-eq-none left st t none_left)
        | inr ((rest, asked), e) ↦
            let still : Tracked request peers rest asked =
              attempt-Tracked request peers left rest st asked t e in
            elim (Option-cases (select event asked)) [
              | inl stuck ↦ absurd (ground (arith, h, e, stuck))
              | inr (returned r f, s) ↦
                  select-Settled rest event asked final result still (ground (arith, h, e, s))
              | inr (going_on next, s) ↦
                  proxy_loop-Settled rest next final events result
                    (select-Tracked request peers rest event asked next still s)
                    (ground (arith, h, e, s))
            ]
      ]

  nothing_sent-Tracked : Tracked request peers peers nothing_sent
  unfolding Tracked count contains
  nothing_sent-Tracked = (refl, λ x. refl, refl, λ x. refl)

module _ (request : Text → Bool) (peers : List Text) (events : List Event) (final : Proxying) where
  -- If proxy returns errNoAvailablePeers, then each peer that a request can be made for was sent one,
  -- in the given order, and each of those requests failed.
  pub proxy-no_available_peers :
      proxy request peers events ≡ some (returned no_available_peers final)
      → (final.sent ≡ filter request peers)
        × ((x : Text) → count x final.failed ≡ count x final.sent)
  unfolding proxy Settled
  proxy-no_available_peers h =
      proxy_loop-Settled request peers peers nothing_sent final events no_available_peers
        (nothing_sent-Tracked request peers) h

  -- If proxy returns a peer's response, then its status is 200 or 404 and the peer was sent a request;
  -- the peers that were sent one are the first of the given ones that a request can be made for, in
  -- their order; and each request but that peer's is cancelled.
  pub proxy-answered :
      (resp : Response) (peer : Text)
      → proxy request peers events ≡ some (returned (answered resp peer) final)
      → ((nat_eq resp.status 200 || nat_eq resp.status 404) ≡ true)
        × (contains final.sent peer ≡ true)
        × ((rest : List Text) × (final.sent ++ rest ≡ filter request peers))
        × ((x : Text)
            → (contains final.sent x && not (x == peer) && not (contains final.cancelled x))
              ≡ false)
  unfolding proxy Settled
  proxy-answered resp peer h =
      proxy_loop-Settled request peers peers nothing_sent final events (answered resp peer)
        (nothing_sent-Tracked request peers) h
