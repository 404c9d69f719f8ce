-- ===== src/Serve/Tests.antt =====
-- Two nodes of a version of two partitions; the key "a" has partition 1.
use sequins.Prelude.{
  ℕ, ◌≡◌, ◌≢◌, refl, true, false, Text, codes, List, [], ◌∷◌, none, some, ok, arith, nat_eq,
}
use sequins.Hash.{key_partition}
use sequins.Proxy.{ProxyResult, answered, no_available_peers}
use sequins.Serve.{Serving, serve_key, is_local}
use sequins.Serve.Routing.{serve_key-proxied, serve_key-forwarded, response_of}

abbrev nowhere : List Text → ProxyResult
nowhere peers = no_available_peers

abbrev owner : Serving
owner = record {
  name = codes "v1";
  num_partitions = 2;
  have = λ i. nat_eq i 1;
  get_peers = λ i. [];
  get = λ key. ok (some (codes "x"));
  perm = λ n. 0 ∷ [];
  proxy = nowhere;
  proxy_again = nowhere;
}

abbrev from_owner : List Text → ProxyResult
from_owner peers =
    answered (record { status = 200; version_header = codes "v1"; body = codes "x" }) (codes "b:80")

abbrev asker : Serving
asker = record owner { have = λ i. false; get_peers = λ i. codes "b:80" ∷ []; proxy = from_owner }

abbrev lonely : Serving
lonely = record owner { have = λ i. false }

two_partitions : ◌≢◌ {A = ℕ} 2 0
two_partitions = ground arith

has_peers : ◌≢◌ {A = List Text} (codes "b:80" ∷ []) []
has_peers = ground arith

not_at_asker : is_local asker (codes "a") ≡ false
unfolding is_local
not_at_asker = refl

at_owner : is_local owner (codes "a") ≡ true
unfolding is_local key_partition
at_owner = refl

not_at_lonely : is_local lonely (codes "a") ≡ false
unfolding is_local
not_at_lonely = refl

owner_serves :
    from_owner (codes "b:80" ∷ [])
    ≡ answered (response_of (serve_key owner (codes "v1") (codes "a"))) (codes "b:80")
unfolding serve_key key_partition
owner_serves = refl

serve_key-proxied_example :
    (serve_key asker (codes "v1") (codes "a")
      ≡ serve_key
          (record asker { proxy = nowhere; proxy_again = from_owner })
          (codes "v1")
          (codes "a"))
    × ((serve_key asker (codes "v1") (codes "a")).proxy_header ≡ none)
serve_key-proxied_example = serve_key-proxied asker b'v' (codes "1") (codes "a") nowhere from_owner

serve_key-forwarded_example : serve_key asker [] (codes "a") ≡ record {
  status = 200;
  version_header = some (codes "v1");
  proxy_header = some (codes "b:80");
  body = codes "x";
}
serve_key-forwarded_example =
    serve_key-forwarded asker (codes "a") two_partitions not_at_asker owner (codes "b:80")
      (codes "x") b'v' (codes "1") has_peers owner_serves two_partitions at_owner refl
