-- ===== src/Debug/Seconds.antt =====
-- What a tick shows of the requests since the last one.
use sequins.Prelude.{
  ℕ, ◌+◌, ◌≡◌, refl, sym, ap, ◌∙◌, subst, Text_eq, codes, List, [], ◌∷◌, ◌++◌, some, if◌then◌else◌,
  ◌==◌, native_keys, lookup, insert, length, arith, map, text_eq,
}
use sequins.Debug.{
  Histogram, QueryStats, Counters, no_counts, count_status, by_status_of, StatsEvent, ticked,
  queried, SequinsStats, snapshot_request_stats, count_query, update_request_stats,
  run_request_stats,
}

-- How many of the queries have the status.
pub counted : ℕ → List QueryStats → ℕ
counted status [] = 0
counted status (q ∷ qs) = (if q.status == status then 1 else 0) + counted status qs

-- The counters went from `c` to `d` with the queries.
record Counts (qs : List QueryStats) (c d : Counters) : Type 0 where
  total : d.total ≡ c.total + length qs
  status200 : d.status200 ≡ c.status200 + counted 0 qs + counted 200 qs
  status400 : d.status400 ≡ c.status400 + counted 400 qs
  status404 : d.status404 ≡ c.status404 + counted 404 qs
  status500 : d.status500 ≡ c.status500 + counted 500 qs
  status501 : d.status501 ≡ c.status501 + counted 501 qs
  status502 : d.status502 ≡ c.status502 + counted 502 qs
  status504 : d.status504 ≡ c.status504 + counted 504 qs

module _ (h : Histogram) where
  abbrev pub all_queried : List QueryStats → List StatsEvent
  all_queried qs = map (λ q. queried q) qs

  run_queried-Counts :
      (qs : List QueryStats) (s : SequinsStats h)
      → Counts qs s.qps (run_request_stats h (all_queried qs) s).qps
  unfolding run_request_stats update_request_stats count_query count_status counted
  run_queried-Counts [] s = record {
    total = ground arith;
    status200 = ground arith;
    status400 = ground arith;
    status404 = ground arith;
    status500 = ground arith;
    status501 = ground arith;
    status502 = ground arith;
    status504 = ground arith;
  }
  run_queried-Counts (q ∷ qs) s =
      let rest = run_queried-Counts qs (update_request_stats h (queried q) s) in
      record {
        total = ground (arith, rest.total);
        status200 = ground (arith, rest.status200);
        status400 = ground (arith, rest.status400);
        status404 = ground (arith, rest.status404);
        status500 = ground (arith, rest.status500);
        status501 = ground (arith, rest.status501);
        status502 = ground (arith, rest.status502);
        status504 = ground (arith, rest.status504);
      }

from_zero : (a b : ℕ) → a ≡ 0 + b → a ≡ b
from_zero a b h = ground (arith, h)

from_zero2 : (a b c : ℕ) → a ≡ 0 + b + c → a ≡ b + c
from_zero2 a b c h = ground (arith, h)

-- What the statistics show is of the queries.
pub record Shows (h : Histogram) (qs : List QueryStats) (s : SequinsStats h) : Type 0 where
  pub total : s.shown_total ≡ length qs
  pub status200 : lookup (codes "200") s.shown_by_status ≡ some (counted 0 qs + counted 200 qs)
  pub status400 : lookup (codes "400") s.shown_by_status ≡ some (counted 400 qs)
  pub status404 : lookup (codes "404") s.shown_by_status ≡ some (counted 404 qs)
  pub status500 : lookup (codes "500") s.shown_by_status ≡ some (counted 500 qs)
  pub status501 : lookup (codes "501") s.shown_by_status ≡ some (counted 501 qs)
  pub status502 : lookup (codes "502") s.shown_by_status ≡ some (counted 502 qs)
  pub status504 : lookup (codes "504") s.shown_by_status ≡ some (counted 504 qs)

module _ (h : Histogram) where
  snapshot-Shows :
      (qs : List QueryStats) (s : SequinsStats h)
      → Counts qs no_counts s.qps
      → Shows h qs (snapshot_request_stats h s)
  unfolding snapshot_request_stats by_status_of lookup insert text_eq
  snapshot-Shows qs s c = record {
    total = ground (arith, c.total);
    status200 = ap some (from_zero2 _ _ _ c.status200);
    status400 = ap some (from_zero _ _ c.status400);
    status404 = ap some (from_zero _ _ c.status404);
    status500 = ap some (from_zero _ _ c.status500);
    status501 = ap some (from_zero _ _ c.status501);
    status502 = ap some (from_zero _ _ c.status502);
    status504 = ap some (from_zero _ _ c.status504);
  }

  run_request_stats-append :
      (front back : List StatsEvent) (s : SequinsStats h)
      → run_request_stats h (front ++ back) s
        ≡ run_request_stats h back (run_request_stats h front s)
  unfolding run_request_stats
  run_request_stats-append [] back s = refl
  run_request_stats-append (event ∷ front) back s =
      run_request_stats-append front back (update_request_stats h event s)

  ticked-Shows :
      (qs : List QueryStats) (s : SequinsStats h)
      → Shows h qs (snapshot_request_stats h s)
      → Shows h qs (update_request_stats h ticked s)
  unfolding update_request_stats
  ticked-Shows qs s shows = record {
    total = shows.total;
    status200 = shows.status200;
    status400 = shows.status400;
    status404 = shows.status404;
    status500 = shows.status500;
    status501 = shows.status501;
    status502 = shows.status502;
    status504 = shows.status504;
  }

  -- After two ticks between which queries came, and whatever was before them: the total that is
  -- shown is the number of these queries, and under each of the seven statuses that are tracked stands
  -- the number of those that had it, where a query without a status counts as one of status 200.
  pub run_request_stats-Shows :
      (before : List StatsEvent) (qs : List QueryStats) (s : SequinsStats h)
      → Shows h qs (run_request_stats h (before ++ ticked ∷ (all_queried h qs ++ ticked ∷ [])) s)
  unfolding run_request_stats update_request_stats
  run_request_stats-Shows before qs s =
      let opened : SequinsStats h = update_request_stats h ticked (run_request_stats h before s) in
      subst (Shows h qs)
        (sym (
          run_request_stats-append before (ticked ∷ (all_queried h qs ++ ticked ∷ [])) s
          ∙ run_request_stats-append (all_queried h qs) (ticked ∷ []) opened))
        (ticked-Shows qs (run_request_stats h (all_queried h qs) opened) (
          snapshot-Shows qs (run_request_stats h (all_queried h qs) opened)
            (run_queried-Counts h qs opened)))
