-- ===== src/Server/Routing.antt =====
-- Which db and which key a request is for.
use sequins.Prelude.{
  ◌≡◌, refl, ap, ◌∙◌, Bool, true, ◌&&◌, not, Text, Text_eq, text_eq, codes, [], ◌∷◌, ◌++◌, Option,
  none, some, if◌then◌else◌, ◌==◌, arith, Map, lookup, ℕ, split_at, drop_slash, nat_eq,
}
use sequins.Server.{
  Request, Answer, just_status, db_status, for_key, serve_db_key, serve_parts, serve_http, serve_db,
  split_path, or_empty,
}

-- The name of a db: no slash in it.
unfoldable pub no_slash : Text → Bool
no_slash [] = true
no_slash (c ∷ s) = not (nat_eq c b'/') && no_slash s

split_at-no_slash :
    (name key : Text) → no_slash name ≡ true → split_at b'/' (name ++ b'/' ∷ key) ≡ (name, some key)
unfolding split_at no_slash
split_at-no_slash [] key h = refl
split_at-no_slash (c ∷ name) key h = ground (arith, split_at-no_slash name key (ground (arith, h)))

split_at-no_separator : (name : Text) → no_slash name ≡ true → split_at b'/' name ≡ (name, none)
unfolding split_at no_slash
split_at-no_separator [] h = refl
split_at-no_separator (c ∷ name) h = ground (arith, split_at-no_separator name (ground (arith, h)))

abbrev pub get_of : Text → Text → Request
get_of path proxy = record { method = codes "GET"; path = path; proxy = proxy }

module _ {D : Type 0} where
  -- The answer when the db that is asked for is `found`: a peer that asks for a db that is not here
  -- is told so with 501, a client with 404.
  pub routed : Text → Text → Option D → Answer D
  routed proxy key none = just_status (if proxy == [] then 404 else 501)
  routed proxy [] (some db) = db_status db
  routed proxy (c ∷ key) (some db) = for_key db (c ∷ key)

  serve_db-routed :
      (path proxy key : Text) (o : Option D)
      → serve_db (get_of path proxy) o key ≡ routed proxy key o
  unfolding serve_db serve_db_key routed text_eq
  serve_db-routed path proxy key none = ground arith
  serve_db-routed path proxy [] (some db) = refl
  serve_db-routed path proxy (c ∷ key) (some db) = refl

  same_path :
      (dbs : Map Text D) (c : ℕ) (name rest proxy key : Text)
      → split_path (b'/' ∷ c ∷ rest) ≡ (c ∷ name, key)
      → serve_http dbs (get_of (b'/' ∷ c ∷ rest) proxy) ≡ routed proxy key (lookup (c ∷ name) dbs)
  unfolding serve_http text_eq
  same_path dbs c name rest proxy key e =
      ap (serve_parts dbs (get_of (b'/' ∷ c ∷ rest) proxy)) e
      ∙ serve_db-routed (b'/' ∷ c ∷ rest) proxy key (lookup (c ∷ name) dbs)

  -- A GET of /name/key goes to the db of that name, with all that stands behind the second slash
  -- as the key, slashes included; a GET of /name or /name/ is for the status of the db. A name is
  -- not empty and has no slash.
  pub serve_http-routed :
      (dbs : Map Text D) (c : ℕ) (name key proxy : Text)
      → no_slash (c ∷ name) ≡ true
      → (serve_http dbs (get_of (b'/' ∷ c ∷ name ++ b'/' ∷ key) proxy)
          ≡ routed proxy key (lookup (c ∷ name) dbs))
        × (serve_http dbs (get_of (b'/' ∷ c ∷ name) proxy)
            ≡ routed proxy [] (lookup (c ∷ name) dbs))
  unfolding split_path drop_slash
  serve_http-routed dbs c name key proxy h = (
    same_path dbs c name (name ++ b'/' ∷ key) proxy key
        (ap (λ p. (p.0, or_empty p.1)) (split_at-no_slash (c ∷ name) key h)),
    same_path dbs c name name proxy []
        (ap (λ p. (p.0, or_empty p.1)) (split_at-no_separator (c ∷ name) h)),
  )
