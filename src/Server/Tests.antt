-- ===== src/Server/Tests.antt =====
-- The theorems about the dbs of a node, at a node with two of them.
use sequins.Prelude.{
  ◌≡◌, refl, ◌&&◌, not, Text, Text_eq, codes, List, [], ◌∷◌, none, some, ℕ, Map, lookup, contains,
  if◌then◌else◌,
}
use sequins.Server.{Node, serve_http, refresh_all}
use sequins.Server.Routing.{no_slash, get_of, routed, serve_http-routed}
use sequins.Server.Refreshing.{kept_or_made, is_some, refresh_all-dbs}

abbrev two_dbs : Map Text ℕ
two_dbs = (codes "a", 1) ∷ (codes "b", 2) ∷ []

serve_http-routed_example :
    (serve_http two_dbs (get_of (codes "/b/x/y") [])
      ≡ routed [] (codes "x/y") (lookup (codes "b") two_dbs))
    × (serve_http two_dbs (get_of (codes "/b") []) ≡ routed [] [] (lookup (codes "b") two_dbs))
serve_http-routed_example =
    serve_http-routed two_dbs b'b' [] (codes "x/y") [] (unfold no_slash in refl)

abbrev node : Node ℕ
node = record { dbs = two_dbs; refreshing = []; closed = [] }

abbrev make_third : Text → ℕ
make_third name = 3

abbrev listed : List Text
listed = codes "b" ∷ codes "c" ∷ []

refresh_all-dbs_example :
    (lookup (codes "a") (refresh_all make_third (some listed) node).dbs ≡ (
      if contains listed (codes "a")
      then some (kept_or_made make_third node.dbs (codes "a"))
      else none))
    × (contains (refresh_all make_third (some listed) node).refreshing (codes "a")
        ≡ (contains listed (codes "a") && is_some (lookup (codes "a") node.dbs)))
    × (contains (refresh_all make_third (some listed) node).closed (codes "a")
        ≡ (is_some (lookup (codes "a") node.dbs) && not (contains listed (codes "a"))))
refresh_all-dbs_example = refresh_all-dbs make_third listed node (codes "a")
