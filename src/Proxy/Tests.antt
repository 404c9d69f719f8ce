-- ===== src/Proxy/Tests.antt =====
-- Two peers, the second of which answers.
use sequins.Prelude.{
  ◌≡◌, refl, Bool, true, false, not, ◌&&◌, ◌||◌, Text, Text_eq, text_eq, codes, List, [], ◌∷◌, ◌++◌,
  none, some, contains, add, ◌==◌, nat_eq, filter,
}
use sequins.Proxy.{
  Proxying, Response, answered, no_available_peers, Event, response, stage_timeout, returned, proxy,
}
use sequins.Proxy.Outcomes.{count, proxy-no_available_peers, proxy-answered}

abbrev a : Text
a = codes "a:80"

abbrev b : Text
b = codes "b:80"

abbrev any : Text → Bool
any peer = true

abbrev found : Response
found = record { status = 200; version_header = codes "v1"; body = codes "x" }

abbrev second_answers : Proxying
second_answers = record {
  in_flight = a ∷ [];
  outstanding = 2;
  cancels = a ∷ b ∷ [];
  sent = a ∷ b ∷ [];
  failed = [];
  cancelled = a ∷ [];
}

abbrev answer_events : List Event
answer_events = stage_timeout ∷ response b (some found) ∷ []

second_run :
    proxy any (a ∷ b ∷ []) answer_events ≡ some (returned (answered found b) second_answers)
unfolding proxy text_eq add contains
second_run = refl

proxy-answered_example :
    ((nat_eq 200 200 || nat_eq 200 404) ≡ true)
    × (contains (a ∷ b ∷ []) b ≡ true)
    × ((rest : List Text) × ((a ∷ b ∷ []) ++ rest ≡ filter any (a ∷ b ∷ [])))
    × ((x : Text) → (contains (a ∷ b ∷ []) x && not (x == b) && not (contains (a ∷ []) x)) ≡ false)
proxy-answered_example =
    proxy-answered any (a ∷ b ∷ []) answer_events second_answers found b second_run

-- The first request fails at once, the second after the stage timeout.
abbrev fail_events : List Event
fail_events =
    response a none ∷ stage_timeout ∷ response b (some (record found { status = 500 })) ∷ []

abbrev both_failed : Proxying
both_failed = record {
  in_flight = [];
  outstanding = 0;
  cancels = a ∷ b ∷ [];
  sent = a ∷ b ∷ [];
  failed = a ∷ b ∷ [];
  cancelled = a ∷ b ∷ [];
}

failed_run : proxy any (a ∷ b ∷ []) fail_events ≡ some (returned no_available_peers both_failed)
unfolding proxy text_eq add contains
failed_run = refl

proxy-no_available_peers_example :
    (a ∷ b ∷ [] ≡ filter any (a ∷ b ∷ []))
    × ((x : Text) → count x (a ∷ b ∷ []) ≡ count x (a ∷ b ∷ []))
proxy-no_available_peers_example =
    proxy-no_available_peers any (a ∷ b ∷ []) fail_events both_failed failed_run
