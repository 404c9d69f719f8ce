-- ===== src/Debug/Tests.antt =====
-- A second with four queries, and a walk of three files.
use sequins.Prelude.{
  ℕ, ◌+◌, ◌≡◌, refl, true, false, codes, List, [], ◌∷◌, ◌++◌, none, some, Text_eq, text_eq,
  split_at, drop_slash,
}
use sequins.Debug.{
  Histogram, QueryStats, Visit, SequinsStats, ticked, queried, no_counts, run_request_stats,
  calculate_disk_usage, track_http,
}
use sequins.Debug.Seconds.{Shows, all_queried, run_request_stats-Shows}

-- It keeps the sum of the values.
abbrev sums : Histogram
sums = record {
  State = ℕ;
  Float = ℕ;
  fresh = 0;
  record_value = λ v s. v + s;
  reset = λ s. 0;
  max = λ s. s;
  mean = λ s. s;
  value_at_quantile = λ q s. s;
  in_ms = λ f. f;
}

abbrev start : SequinsStats sums
start = record {
  shown_total = 0;
  shown_by_status = [];
  latency = none;
  qps = no_counts;
  latency_hist = 0;
  disk_used = 0;
}

abbrev of_status : ℕ → QueryStats
of_status status = record { duration = 5000; status = status }

abbrev four : List QueryStats
four = of_status 0 ∷ of_status 404 ∷ of_status 200 ∷ of_status 418 ∷ []

run_request_stats-Shows_example : Shows sums four (
    run_request_stats sums
      (queried (of_status 500) ∷ [] ++ ticked ∷ (all_queried sums four ++ ticked ∷ []))
      start)
run_request_stats-Shows_example =
    run_request_stats-Shows sums (queried (of_status 500) ∷ []) four start

-- The status page of a db is tracked if its path ends with a slash.
db_page_tracked :
    track_http (codes "/db/") [] 7 (200 ∷ []) (some [])
    ≡ some (record { duration = 7; status = 200 } ∷ [])
unfolding track_http split_at drop_slash text_eq
db_page_tracked = refl

abbrev files : List Visit
files =
    record { size = some 4096; is_dir = true; fails = false }
    ∷ record { size = some 10; is_dir = false; fails = false }
    ∷ record { size = none; is_dir = false; fails = false }
    ∷ []

disk_counted : calculate_disk_usage sums files start ≡ record start { disk_used = 10 }
unfolding calculate_disk_usage
disk_counted = refl
