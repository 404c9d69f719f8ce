-- ===== src/Serve.antt =====
-- serve.go: how a version answers a request for a key. What a version is made of is in the record
-- Serving; the results of its two calls of `proxy` are functions of the peers they are given, and
-- `perm` is rand.Perm. Headers that hold times and lengths are left out.
pub mod Routing
pub mod Here
pub mod Tests
use sequins.Prelude.{
  ℕ, zero, Bool, true, false, not, ◌||◌, ◌&&◌, Text, Text_eq, codes, List, [], ◌∷◌, Option, none,
  some, Result, ok, err, if◌then◌else◌, nat_eq, ◌-◌, length, map,
}
use sequins.Hash.{key_partition}
use sequins.Blocks.Sparkey.{Error}
use sequins.Proxy.{
  Response, ProxyResult, answered, no_available_peers, proxy_timeout, request_canceled,
}

pub record Serving : Type 0 where
  pub name : Text
  pub num_partitions : ℕ
  pub have : ℕ → Bool
  pub get_peers : ℕ → List Text
  pub get : Text → Result Error (Option Text)
  pub perm : ℕ → List ℕ
  pub proxy : List Text → ProxyResult
  pub proxy_again : List Text → ProxyResult

-- What is written to the client.
pub record Written : Type 0 where
  pub status : ℕ
  pub version_header : Option Text
  pub proxy_header : Option Text
  pub body : Text

abbrev pub only_status : ℕ → Written
only_status n = record { status = n; version_header = none; proxy_header = none; body = [] }

pub serve_not_found : Serving → Written
serve_not_found vs = record (only_status 404) { version_header = some vs.name }

pub serve_error : Written
serve_error = only_status 500

pub serve_local : Serving → Option Text → Written
unfolding serve_not_found
serve_local vs none = serve_not_found vs
serve_local vs (some value) = record {
  status = 200;
  version_header = some vs.name;
  proxy_header = none;
  body = value;
}

-- shuffled[v] = x
pub set_at : ℕ → Text → List Text → List Text
set_at n x [] = []
set_at n x (y ∷ ys) = let rest = set_at (n - 1) x ys in if nat_eq n 0 then x ∷ ys else y ∷ rest

pub shuffle_loop : List ℕ → List Text → List Text → List Text
unfolding set_at
shuffle_loop (v ∷ perm) (x ∷ xs) shuffled = shuffle_loop perm xs (set_at v x shuffled)
shuffle_loop perm [] shuffled = shuffled
shuffle_loop [] (x ∷ xs) shuffled = shuffled

pub shuffle : (ℕ → List ℕ) → List Text → List Text
unfolding shuffle_loop
shuffle perm vs = shuffle_loop (perm (length vs)) vs (map (λ x. []) vs)

-- The second call, if the first peer did not find the key.
pub try_alternate : Serving → ℕ → ℕ → ProxyResult → ProxyResult
unfolding shuffle
try_alternate vs partition alternate (answered resp peer) =
    if nat_eq resp.status 404 && not (nat_eq alternate partition)
    then vs.proxy_again (shuffle vs.perm (vs.get_peers alternate))
    else answered resp peer
try_alternate vs partition alternate other = other

pub write_proxied : ProxyResult → Written
write_proxied no_available_peers = only_status 502
write_proxied proxy_timeout = only_status 504
write_proxied request_canceled = serve_error
write_proxied (answered resp peer) = record {
  status = resp.status;
  version_header = some resp.version_header;
  proxy_header = some peer;
  body = resp.body;
}

pub serve_proxied : Serving → ℕ → ℕ → Written
unfolding try_alternate write_proxied
serve_proxied vs partition alternate =
    let peers = shuffle vs.perm (vs.get_peers partition) in
    if nat_eq (length peers) 0
    then only_status 502
    else write_proxied (try_alternate vs partition alternate (vs.proxy peers))

pub is_local : Serving → Text → Bool
is_local vs key =
    let (partition, alternate) = key_partition key vs.num_partitions in
    vs.have partition || vs.have alternate

pub write_got : Serving → Result Error (Option Text) → Written
unfolding serve_local serve_error
write_got vs (err e) = serve_error
write_got vs (ok found) = serve_local vs found

-- `proxied` is the query's `proxy`, empty if it has none.
pub serve_key : Serving → Text → Text → Written
unfolding serve_proxied is_local write_got
serve_key vs proxied key =
    let (partition, alternate) = key_partition key vs.num_partitions in
    if nat_eq vs.num_partitions 0
    then serve_not_found vs
    else if is_local vs key
    then write_got vs (vs.get key)
    else if nat_eq (length proxied) 0
    then serve_proxied vs partition alternate
    else serve_error
