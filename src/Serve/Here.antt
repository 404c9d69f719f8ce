-- ===== src/Serve/Here.antt =====
-- A request for a key that is here.
use sequins.Prelude.{
  ◌≡◌, ◌≢◌, refl, sym, subst, ◌⊎◌, inl, inr, true, [], Text, Option, none, some, ok, err, arith,
}
use sequins.Hash.{key_partition}
use sequins.Blocks.Sparkey.{partition_not_found}
use sequins.Serve.{
  Serving, Written, serve_key, is_local, write_got, serve_local, serve_not_found, serve_error,
}
use sequins.Serve.Routing.{serve_key_local}

-- The value with status 200, or status 404, or status 500 if the store refuses the key.
unfoldable pub Served : Serving → Option Text → Written → Type 0
Served vs (some value) w =
    w ≡ record { status = 200; version_header = some vs.name; proxy_header = none; body = value }
Served vs none w =
    (w ≡ record { status = 404; version_header = some vs.name; proxy_header = none; body = [] })
    ⊎ (w ≡ record { status = 500; version_header = none; proxy_header = none; body = [] })

pub serve_key-Served :
    (vs : Serving) (proxied key : Text) (o : Option Text)
    → vs.num_partitions ≢ 0
    → vs.have (key_partition key vs.num_partitions).0 ≡ true
    → (vs.get key ≡ ok o) ⊎ ((vs.get key ≡ err partition_not_found) × (o ≡ none))
    → Served vs o (serve_key vs proxied key)
unfolding Served is_local write_got serve_local serve_not_found serve_error
serve_key-Served vs proxied key o parts here got =
    subst (Served vs o) (sym (serve_key_local vs proxied key parts local)) (written o got)
  where
    local : is_local vs key ≡ true
    local = rw here refl

    written :
        (o : Option Text)
        → (vs.get key ≡ ok o) ⊎ ((vs.get key ≡ err partition_not_found) × (o ≡ none))
        → Served vs o (write_got vs (vs.get key))
    written (some value) (inl e) = rw e refl
    written none (inl e) = rw e (inl refl)
    written (some value) (inr (e, n)) = absurd (ground (arith, n))
    written none (inr (e, n)) = rw e (inr refl)
