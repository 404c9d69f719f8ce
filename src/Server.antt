-- ===== src/Server.antt =====
-- sequins.go: the dbs of a node, how a request finds its db, and the refresh of the dbs. A db is an
-- element of `D`, a pointer; `make` is newDB with its backfill, and what a refresh starts in the
-- background or closes is put down in a list.
pub mod Routing
pub mod Refreshing
pub mod Tests
use sequins.Prelude.{
  native_keys, ℕ, zero, suc, ◌/◌, Bool, true, false, not, Text, Text_eq, text_eq, codes, List, [],
  ◌∷◌, Option, none, some, if◌then◌else◌, ◌==◌, Map, lookup, insert, drop_slash, split_at,
}

pub record Request : Type 0 where
  pub method : Text
  pub path : Text
  -- the value of `proxy` in the query
  pub proxy : Text

-- What is answered: a status without a body, the status page of the node or of a db, or what the
-- db's mux answers for a key.
pub data Answer (D : Type 0) : Type 0 where
  just_status : ℕ → Answer D
  node_status : Answer D
  db_status : D → Answer D
  for_key : D → Text → Answer D

abbrev pub or_empty : Option Text → Text
or_empty none = []
or_empty (some t) = t

-- The name of the db, and the key.
pub split_path : Text → Text × Text
split_path url_path = let split = split_at b'/' (drop_slash url_path) in (split.0, or_empty split.1)

module _ {D : Type 0} where
  -- db.serveKey
  unfoldable pub serve_db_key : D → Text → Answer D
  serve_db_key db key = if key == [] then db_status db else for_key db key

  -- `db` is s.dbs[dbName].
  unfoldable pub serve_db : Request → Option D → Text → Answer D
  unfolding serve_db_key
  serve_db r none key = if r.proxy == [] then just_status 404 else just_status 501
  serve_db r (some db) key = serve_db_key db key

  -- The rest of ServeHTTP, for the two parts of the path.
  unfoldable pub serve_parts : Map Text D → Request → Text × Text → Answer D
  unfolding serve_db
  serve_parts dbs r (name, key) =
      if name == [] then just_status 400 else serve_db r (lookup name dbs) key

  pub serve_http : Map Text D → Request → Answer D
  unfolding split_path serve_parts
  serve_http dbs r =
      if not (text_eq r.method (codes "GET"))
      then just_status 400
      else if text_eq r.path (codes "/")
      then node_status
      else serve_parts dbs r (split_path r.path)

-- The dbs, and what was done to them: those that were told to refresh, and those that were closed
-- and deleted.
pub record Node (D : Type 0) : Type 0 where
  pub dbs : Map Text D
  pub refreshing : List Text
  pub closed : List Text

module _ {D : Type 0} (make : Text → D) where
  -- The first loop of refreshAll: the new map, and the dbs that are refreshed.
  pub look_at_dbs : Map Text D → List Text → Map Text D × List Text → Map Text D × List Text
  look_at_dbs old [] seen = seen
  look_at_dbs old (name ∷ names) (dbs, refreshing) = elim (lookup name old) [
    | none ↦ look_at_dbs old names (insert name (make name) dbs, refreshing)
    | some db ↦ look_at_dbs old names (insert name db dbs, name ∷ refreshing)
  ]

  -- The last loop: the names of the old dbs that are not among the new ones.
  pub close_dbs : Map Text D → Map Text D → List Text
  close_dbs new [] = []
  close_dbs new ((name, db) ∷ old) = elim (lookup name new) [
    | none ↦ name ∷ close_dbs new old
    | some kept ↦ close_dbs new old
  ]

  -- `listed` is the backend's ListDBs.
  pub refresh_all : Option (List Text) → Node D → Node D
  unfolding look_at_dbs close_dbs
  refresh_all none node = node
  refresh_all (some names) node =
      let seen = look_at_dbs node.dbs names ([], []) in
      record { dbs = seen.0; refreshing = seen.1; closed = close_dbs seen.0 node.dbs }

-- The identity that a node's peers know it by.
pub shard_id_of : Text → Text → Text
shard_id_of set address = if set == [] then address else set
