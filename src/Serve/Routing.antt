-- ===== src/Serve/Routing.antt =====
-- Where the answer for a key comes from.
use sequins.Prelude.{
  ℕ, ◌≡◌, ◌≢◌, refl, true, false, Text, List, [], ◌∷◌, Option, none, some, Result, ok, err, arith,
  nat_eq, length, map, inl, inr, suc, ◌-◌, ◌∙◌, ap, Bool-cases,
}
use sequins.Blocks.Sparkey.{Error}
use sequins.Hash.{key_partition}
use sequins.Proxy.{Response, ProxyResult, answered}
use sequins.Serve.{
  Serving, Written, serve_key, serve_proxied, is_local, write_got, try_alternate, write_proxied,
  serve_error, serve_local, serve_not_found, shuffle, shuffle_loop, set_at,
}

length-set_at : (n : ℕ) (x : Text) (xs : List Text) → length (set_at n x xs) ≡ length xs
unfolding set_at
length-set_at n x [] = refl
length-set_at n x (y ∷ ys) = ground (arith, length-set_at (n - 1) x ys)

length-shuffle_loop :
    (perm : List ℕ) (xs shuffled : List Text)
    → length (shuffle_loop perm xs shuffled) ≡ length shuffled
unfolding shuffle_loop
length-shuffle_loop (v ∷ perm) (x ∷ xs) shuffled =
    length-shuffle_loop perm xs (set_at v x shuffled) ∙ length-set_at v x shuffled
length-shuffle_loop [] [] shuffled = refl
length-shuffle_loop (v ∷ perm) [] shuffled = refl
length-shuffle_loop [] (x ∷ xs) shuffled = refl

blank : Text → Text
blank x = []

length-blanks : (xs : List Text) → length (map blank xs) ≡ length xs
length-blanks [] = refl
length-blanks (x ∷ xs) = ap suc (length-blanks xs)

length-shuffle : (perm : ℕ → List ℕ) (xs : List Text) → length (shuffle perm xs) ≡ length xs
unfolding shuffle blank
length-shuffle perm xs = length-shuffle_loop (perm (length xs)) xs (map blank xs) ∙ length-blanks xs

write_got_same :
    (vs : Serving) (first second : List Text → ProxyResult) (got : Result Error (Option Text))
    → (write_got vs got ≡ write_got (record vs { proxy = first; proxy_again = second }) got)
      × ((write_got vs got).proxy_header ≡ none)
unfolding write_got serve_local serve_not_found serve_error
write_got_same vs first second (ok none) = (refl, refl)
write_got_same vs first second (ok (some value)) = (refl, refl)
write_got_same vs first second (err e) = (refl, refl)

positive : (n : ℕ) → n ≢ 0 → nat_eq n 0 ≡ false
positive n h = ground arith

pub serve_key_local :
    (vs : Serving) (proxied key : Text)
    → vs.num_partitions ≢ 0
    → is_local vs key ≡ true
    → serve_key vs proxied key ≡ write_got vs (vs.get key)
unfolding serve_key
serve_key_local vs proxied key parts here = rw (positive vs.num_partitions parts) (rw here refl)

serve_key_remote :
    (vs : Serving) (key : Text)
    → vs.num_partitions ≢ 0
    → is_local vs key ≡ false
    → serve_key vs [] key
      ≡ serve_proxied vs
          (key_partition key vs.num_partitions).0
          (key_partition key vs.num_partitions).1
unfolding serve_key
serve_key_remote vs key parts away = rw (positive vs.num_partitions parts) (rw away refl)

some_peers :
    (perm : ℕ → List ℕ) (xs : List Text) → xs ≢ [] → nat_eq (length (shuffle perm xs)) 0 ≡ false
some_peers perm [] h = absurd (h refl)
some_peers perm (x ∷ xs) h = ground (arith, length-shuffle perm (x ∷ xs))

serve_proxied_asked :
    (vs : Serving) (partition alternate : ℕ) (resp : Response) (peer : Text)
    → vs.get_peers partition ≢ []
    → vs.proxy (shuffle vs.perm (vs.get_peers partition)) ≡ answered resp peer
    → nat_eq resp.status 404 ≡ false
    → serve_proxied vs partition alternate ≡ write_proxied (answered resp peer)
unfolding serve_proxied try_alternate
serve_proxied_asked vs partition alternate resp peer peers asked found =
    rw (some_peers vs.perm (vs.get_peers partition) peers) (rw asked (rw found refl))

-- A request that a peer sent on, with the version's name as the query's `proxy`, is answered without
-- asking a peer: whatever the peers would say, the answer is the same, and no peer is named in it.
pub serve_key-proxied :
    (vs : Serving) (name_byte : ℕ) (name key : Text) (first second : List Text → ProxyResult)
    → (serve_key vs (name_byte ∷ name) key
        ≡ serve_key (record vs { proxy = first; proxy_again = second }) (name_byte ∷ name) key)
      × ((serve_key vs (name_byte ∷ name) key).proxy_header ≡ none)
unfolding serve_key is_local serve_error serve_not_found
serve_key-proxied vs name_byte name key first second =
    elim (Bool-cases (nat_eq vs.num_partitions 0)) [
      | inl empty ↦ rw empty (refl, refl)
      | inr full ↦ elim (Bool-cases (is_local vs key)) [
        | inl here ↦ rw full (rw here (write_got_same vs first second (vs.get key)))
        | inr away ↦
            rw full (rw away (rw (positive (suc (length name)) (ground arith)) (refl, refl)))
      ]
    ]

-- What a peer's answer becomes in net/http.
abbrev pub response_of : Written → Response
response_of w = record {
  status = w.status;
  body = w.body;
  version_header = elim w.version_header [ none ↦ [] | some name ↦ name ];
}

module _ (vs : Serving) (key : Text) (some_partitions : vs.num_partitions ≢ 0)
    (remote : is_local vs key ≡ false) where
  -- A request that was not sent on, for a key that is not here: if no peer has the key's partition,
  -- the answer is 502, also where peers have the key's alternate partition.
  serve_key-no_peers :
      vs.get_peers (key_partition key vs.num_partitions).0 ≡ [] → (serve_key vs [] key).status ≡ 502
  unfolding serve_key serve_proxied
  serve_key-no_peers h = rw (serve_key_remote vs key some_partitions remote) (
      ground
        (arith, length-shuffle vs.perm (vs.get_peers (key_partition key vs.num_partitions).0), h))

  -- A request for a key that is not here but on the peer that is asked: if that peer's store has a
  -- value for the key, the client gets it with status 200, the peer's version, and the peer's name.
  pub serve_key-forwarded :
      (other : Serving) (peer value : Text) (name_byte : ℕ) (name : Text)
      → vs.get_peers (key_partition key vs.num_partitions).0 ≢ []
      → vs.proxy (shuffle vs.perm (vs.get_peers (key_partition key vs.num_partitions).0))
        ≡ answered (response_of (serve_key other (name_byte ∷ name) key)) peer
      → other.num_partitions ≢ 0
      → is_local other key ≡ true
      → other.get key ≡ ok (some value)
      → serve_key vs [] key ≡ record {
        status = 200;
        version_header = some other.name;
        proxy_header = some peer;
        body = value;
      }
  unfolding write_proxied write_got serve_local
  serve_key-forwarded other peer value name_byte name peers asked parts here got =
      serve_key_remote vs key some_partitions remote
      ∙ serve_proxied_asked vs (key_partition key vs.num_partitions).0
          (key_partition key vs.num_partitions).1
          (record { status = 200; version_header = other.name; body = value }) peer peers
          (asked ∙ ap (λ (w : Written). answered (response_of w) peer) given) (ground arith)
    where
      given : serve_key other (name_byte ∷ name) key ≡ write_got other (ok (some value))
      given = serve_key_local other (name_byte ∷ name) key parts here ∙ ap (write_got other) got
