-- ===== src/Debug.antt =====
-- debug.go: the statistics of the requests of the last second, the size of the local store, and
-- which requests are counted. hdrhistogram is the record Histogram, floating-point numbers are its
-- type `Float`. The channel `queries` is a list, the oldest query first.
pub mod Seconds
pub mod Disk
pub mod Tests
use sequins.Prelude.{
  ℕ, zero, suc, ◌+◌, ◌/◌, native_keys, Bool, true, false, not, ◌&&◌, Text, Text_eq, codes, List, [],
  ◌∷◌, ◌++◌, Option, none, some, if◌then◌else◌, ◌==◌, Map, insert, length, ltb, drop_slash,
  split_at,
}

pub record Histogram : Type 1 where
  pub State : Type 0
  pub Float : Type 0
  -- New(0, 10 seconds in microseconds, 5)
  pub fresh : State
  pub record_value : ℕ → State → State
  pub reset : State → State
  pub max : State → Float
  pub mean : State → Float
  -- the quantile in hundredths of a percent
  pub value_at_quantile : ℕ → State → Float
  -- the division by 1000
  pub in_ms : Float → Float

pub record QueryStats : Type 0 where
  pub duration : ℕ
  pub status : ℕ

-- The fields of Qps that count.
pub record Counters : Type 0 where
  pub total : ℕ
  pub status200 : ℕ
  pub status400 : ℕ
  pub status404 : ℕ
  pub status500 : ℕ
  pub status501 : ℕ
  pub status502 : ℕ
  pub status504 : ℕ

abbrev pub no_counts : Counters
no_counts = record {
  total = 0;
  status200 = 0;
  status400 = 0;
  status404 = 0;
  status500 = 0;
  status501 = 0;
  status502 = 0;
  status504 = 0;
}

pub record Latency (F : Type 0) : Type 0 where
  pub max : F
  pub mean : F
  pub p9999 : F
  pub p99 : F
  pub p95 : F
  pub p90 : F
  pub p75 : F
  pub p50 : F
  pub p25 : F

-- The switch of updateRequestStats; an untrackable status is logged only.
pub count_status : ℕ → Counters → Counters
count_status status c =
    if status == 0
    then record c { status200 = c.status200 + 1 }
    else if status == 200
    then record c { status200 = c.status200 + 1 }
    else if status == 400
    then record c { status400 = c.status400 + 1 }
    else if status == 404
    then record c { status404 = c.status404 + 1 }
    else if status == 500
    then record c { status500 = c.status500 + 1 }
    else if status == 501
    then record c { status501 = c.status501 + 1 }
    else if status == 502
    then record c { status502 = c.status502 + 1 }
    else if status == 504
    then record c { status504 = c.status504 + 1 }
    else c

pub by_status_of : Counters → Map Text ℕ
by_status_of c = insert (codes "504") c.status504 (
    insert (codes "502") c.status502 (
      insert (codes "501") c.status501 (
        insert (codes "500") c.status500 (
          insert (codes "404") c.status404
            (insert (codes "400") c.status400 (insert (codes "200") c.status200 []))))))

-- What updateRequestStats receives from its select.
pub data StatsEvent : Type 0 where
  ticked : StatsEvent
  queried : QueryStats → StatsEvent

module _ (h : Histogram) where
  pub record SequinsStats : Type 0 where
    pub shown_total : ℕ
    pub shown_by_status : Map Text ℕ
    pub latency : Option (Latency h.Float)
    pub qps : Counters
    pub latency_hist : h.State
    pub disk_used : ℕ

  pub snapshot_request_stats : SequinsStats → SequinsStats
  unfolding by_status_of
  snapshot_request_stats s = record s {
    shown_total = s.qps.total;
    shown_by_status = by_status_of s.qps;
    latency = some (record {
      max = h.in_ms (h.max s.latency_hist);
      mean = h.in_ms (h.mean s.latency_hist);
      p9999 = h.in_ms (h.value_at_quantile 9999 s.latency_hist);
      p99 = h.in_ms (h.value_at_quantile 9900 s.latency_hist);
      p95 = h.in_ms (h.value_at_quantile 9500 s.latency_hist);
      p90 = h.in_ms (h.value_at_quantile 9000 s.latency_hist);
      p75 = h.in_ms (h.value_at_quantile 7500 s.latency_hist);
      p50 = h.in_ms (h.value_at_quantile 5000 s.latency_hist);
      p25 = h.in_ms (h.value_at_quantile 2500 s.latency_hist);
    });
  }

  pub count_query : QueryStats → SequinsStats → SequinsStats
  unfolding count_status
  count_query q s = record s {
    latency_hist = h.record_value (q.duration / 1000) s.latency_hist;
    qps = count_status q.status (record s.qps { total = s.qps.total + 1 });
  }

  -- One turn of the loop of updateRequestStats.
  pub update_request_stats : StatsEvent → SequinsStats → SequinsStats
  unfolding snapshot_request_stats count_query
  update_request_stats ticked s = record (snapshot_request_stats s) {
    latency_hist = h.reset s.latency_hist;
    qps = no_counts;
  }
  update_request_stats (queried q) s = count_query q s

  pub run_request_stats : List StatsEvent → SequinsStats → SequinsStats
  unfolding update_request_stats
  run_request_stats [] s = s
  run_request_stats (event ∷ events) s = run_request_stats events (update_request_stats event s)

-- A call that filepath.Walk makes: the size of a file, or a directory, or nothing known of it, and
-- whether there is an error, with which the walk ends.
pub record Visit : Type 0 where
  pub size : Option ℕ
  pub is_dir : Bool
  pub fails : Bool

-- The size that one call adds.
abbrev pub size_of : Visit → ℕ
size_of v = elim v.size [ none ↦ 0 | some size ↦ (if v.is_dir then 0 else size) ]

pub walk : List Visit → ℕ → Option ℕ
walk [] size = some size
walk (v ∷ visits) size = let rest = walk visits (size + size_of v) in if v.fails then none else rest

pub calculate_disk_usage : (h : Histogram) → List Visit → SequinsStats h → SequinsStats h
unfolding walk
calculate_disk_usage h visits s = elim (walk visits 0) [
  | none ↦ s
  | some size ↦ record s { disk_used = size }
]

-- Whether the path has a slash behind a name, and the request does not come from a peer.
is_tracked : Text → Text → Bool
is_tracked url_path proxied =
    let split = split_at b'/' (drop_slash url_path) in
    (elim split.1 [ none ↦ false | some key ↦ not (split.0 == []) ]) && proxied == []

abbrev queue_size : ℕ
queue_size = 1024

-- done: a full channel drops the query, and without statistics there is no channel.
finish_query : QueryStats → Option (List QueryStats) → Option (List QueryStats)
finish_query q none = none
finish_query q (some queries) =
    some (if ltb (length queries) queue_size then queries ++ q ∷ [] else queries)

-- WriteHeader, of the tracker: the last status is kept.
write_header : ℕ → QueryStats → QueryStats
write_header status t = record t { status = status }

write_headers : List ℕ → QueryStats → QueryStats
unfolding write_header
write_headers [] t = t
write_headers (status ∷ statuses) t = write_headers statuses (write_header status t)

-- ServeHTTP of trackingHandler, where the handler calls WriteHeader with `headers` in `duration`.
pub track_http : Text → Text → ℕ → List ℕ → Option (List QueryStats) → Option (List QueryStats)
unfolding is_tracked finish_query write_headers
track_http url_path proxied duration headers queries =
    if is_tracked url_path proxied
    then finish_query (write_headers headers (record { duration = duration; status = 0 })) queries
    else queries
