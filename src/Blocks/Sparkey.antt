-- ===== src/Blocks/Sparkey.antt =====
-- What the package `blocks` uses of go-sparkey, of the uuid generator and of the file system. None
-- of these stands in the repository's own code: they are the operations of an interface, with the
-- documented behaviour that the block store relies on as its laws.
use sequins.Prelude.{
  ℕ, ◌≡◌, Bool, Text, Result, ok, List, [], ◌∷◌, ◌++◌, Option, none, some, if◌then◌else◌, ◌==◌,
  Text_eq,
}

pub data Error : Type 0 where
  no_manifest wrong_version partition_not_found io_error : Error

-- The value put last under a key.
unfoldable pub last_value : Text → List (Text × Text) → Option Text
last_value k [] = none
last_value k ((j, v) ∷ kvs) =
    let later = last_value k kvs in
    elim later [ some x ↦ some x | none ↦ if j == k then some v else none ]

pub record Sparkey : Type 1 where
  -- the disk and the source of randomness
  pub World : Type 0
  -- *sparkey.LogWriter and *sparkey.HashReader
  pub Log : Type 0
  pub Reader : Type 0
  pub new_uuid : World → Text × World
  -- CreateLogWriter(path, {compress with snappy?, block size})
  pub create_log : Text → Bool → ℕ → World → Result Error Log × World
  pub put : Text → Text → Log → Result Error (Unit {0}) × Log
  pub write_hash_file : Log → World → Result Error (Unit {0}) × World
  pub close_log : Log → World → Result Error (Unit {0}) × World
  pub open_hash : Text → World → Result Error Reader
  -- an iterator's Seek: `none` if it is not active behind it, otherwise the value
  pub seek : Reader → Text → Result Error (Option Text)
  pub remove_file : Text → World → World
  -- what a log writer holds, and where
  pub logged : Log → List (Text × Text)
  pub log_path : Log → Text
  pub logged-create :
      (path : Text) (c : Bool) (n : ℕ) (w w' : World) (l : Log)
      → create_log path c n w ≡ (ok l, w')
      → (logged l ≡ []) × (log_path l ≡ path)
  pub logged-put :
      (k v : Text) (l l' : Log)
      → put k v l ≡ (ok tt, l')
      → (logged l' ≡ logged l ++ (k, v) ∷ []) × (log_path l' ≡ log_path l)
  -- a log that was hashed and closed can be opened, and answers with what was put last
  pub seek-written :
      (l : Log) (w₁ w₂ w₃ : World) (r : Reader) (k : Text)
      → write_hash_file l w₁ ≡ (ok tt, w₂)
      → close_log l w₂ ≡ (ok tt, w₃)
      → open_hash (log_path l) w₃ ≡ ok r
      → seek r k ≡ ok (last_value k (logged l))
