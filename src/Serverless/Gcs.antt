-- ===== src/Serverless/Gcs.antt =====
-- The log in a bucket of Google Cloud Storage
-- (serverless/experimental/gcp-log/internal/storage/storage.go). The calls of the bucket are those
-- of a `Bucket`; a writer's `Write` and `Close` are one call. Other sequencers may change the
-- bucket in a call.
pub mod Laws
pub mod Progress
mod Tests
use trillian_serverless.Base.{
  ℕ, zero, suc, ◌+◌, ◌-◌, ◌%◌, String, Bool, true, false, ◌||◌, List, [], ◌∷◌, Bytes, Option, none,
  some, Result, ok, err, or_fail, expect, if◌then◌else◌, ltb, ◌==◌,
}
use trillian_serverless.Base.Exec.{Exec, pure, raise, lift, guard, ◌>>=◌, ◌>>◌}
use trillian_serverless.Base.Dict.{Dict, lookup, insert}
use trillian_serverless.Std.Numbers.{format_uint, parse_uint}
use trillian_serverless.Std.Paths.{ascii, join_path}
use trillian_serverless.Serverless.Api.{Tile, marshal_text, unmarshal_text}
use trillian_serverless.Serverless.Layout.Tile.{partial_tile_size}
use trillian_serverless.Serverless.Layout.Paths.{leaf_path, tile_path}
use trillian_serverless.Serverless.Storage.{
  StorageError, dupe_leaf, missing, failed, seq_file, path_error, tile_error,
}

-- `ErrObjectNotExist`, the code for a precondition that failed, or any other error.
pub data GcsError : Type 0 where
  object_not_exist precondition_failed : GcsError
  other : String → GcsError

-- The calls: reading an object, asking for its attributes, writing it if it does not exist, and
-- writing it.
pub record Bucket : Type 1 where
  pub State : Type 0
  pub read : Bytes → Exec State GcsError Bytes
  pub attrs : Bytes → Exec State GcsError (Unit {0})
  pub write_new : Bytes → Bytes → Exec State GcsError (Unit {0})
  pub write : Bytes → Bytes → Exec State GcsError (Unit {0})

module _ (B : Bucket) where
  -- `Client`: the bucket and the hint.
  pub record Client : Type 0 where
    pub bucket : B.State
    pub next_seq : ℕ

  -- A call of the bucket, with its error.
  abbrev pub on_bucket : {A : Type 0} → Exec B.State GcsError A → Exec Client GcsError A
  on_bucket m s = let (r, t) = m s.bucket in (r, record s { bucket = t })

  -- A call whose errors are all reported in the same way.
  abbrev pub or_error : {A : Type 0} → Exec B.State GcsError A → String → Exec Client StorageError A
  or_error m e s = let (r, t) = m s.bucket in (or_fail r (λ _. failed e), record s { bucket = t })

  unfoldable pub set_next_seq : ℕ → Client → Client
  set_next_seq num s = record s { next_seq = num }

  unfoldable pub write_checkpoint : Bytes → Exec Client GcsError (Unit {0})
  write_checkpoint new_cp_raw = on_bucket (B.write (ascii "checkpoint") new_cp_raw)

  unfoldable pub read_checkpoint : Exec Client GcsError Bytes
  read_checkpoint = on_bucket (B.read (ascii "checkpoint"))

  unfoldable pub get_object_data : Bytes → Exec Client GcsError Bytes
  get_object_data obj = on_bucket (B.read obj)

  abbrev parsed : Result GcsError Bytes → Result StorageError Tile
  parsed (err object_not_exist) = err missing
  parsed (err _) = err (failed "failed to read tile object")
  parsed (ok t) = or_fail (unmarshal_text t) tile_error

  unfoldable pub get_tile : ℕ → ℕ → ℕ → Exec Client StorageError Tile
  get_tile level index log_size s =
      let (dir, name) = tile_path [] level index (partial_tile_size level index log_size) in
      let (r, t) = B.read (join_path (dir ∷ name ∷ [])) s.bucket in
      (parsed r, record s { bucket = t })

  -- `ScanSequenced`, at most `fuel` entries; `f` has a state of its own.
  unfoldable pub scan_from {ℓ} :
      {V : Type ℓ}
      → ℕ
      → ℕ
      → (ℕ → Bytes → Exec V StorageError (Unit {0}))
      → ℕ
      → Client
      → V
      → (Result StorageError ℕ × V) × Client
  scan_from zero begin f end s v = ((err (failed "out of fuel"), v), s)
  scan_from (suc fuel) begin f end s v =
      let (r, t) = B.read (seq_file [] end) s.bucket in
      let u = record s { bucket = t } in
      elim r [
        | err object_not_exist ↦ ((ok (end - begin), v), u)
        | err _ ↦ ((err (failed "ScanSequenced: failed to create reader"), v), u)
        | ok entry ↦
            let (called, w) = f end entry v in
            elim called [ err e ↦ ((err e, w), u) | ok _ ↦ scan_from fuel begin f (end + 1) u w ]
      ]

  unfoldable pub scan_sequenced {ℓ} :
      {V : Type ℓ}
      → ℕ
      → ℕ
      → (ℕ → Bytes → Exec V StorageError (Unit {0}))
      → Client
      → V
      → (Result StorageError ℕ × V) × Client
  scan_sequenced fuel begin f s v = scan_from fuel begin f begin s v

  -- The end of `Sequence`: the object of the leaf hash.
  unfoldable pub record_hash : Bytes → ℕ → Exec Client StorageError ℕ
  record_hash leaf_object seq = do
    or_error (B.write leaf_object (format_uint 16 seq)) "couldn't create leafhash object"
    pure seq

  abbrev pub next_number : Client → Client
  next_number s = record s { next_seq = s.next_seq + 1 }

  -- The loop of `Sequence`: `fuel` bounds the numbers that are tried.
  unfoldable pub take_number : ℕ → Bytes → Bytes → Exec Client StorageError ℕ
  take_number zero leaf_object leaf s = (err (failed "out of fuel"), s)
  take_number (suc fuel) leaf_object leaf s =
      let seq = s.next_seq in
      let (found, b) = B.attrs (seq_file [] seq) s.bucket in
      let s1 = record s { bucket = b } in
      let (written, d) = B.write_new (seq_file [] seq) leaf b in
      let s2 = record s { bucket = d } in
      elim found [
        | ok _ ↦ take_number fuel leaf_object leaf (next_number s1)
        | err object_not_exist ↦ elim written [
          | ok _ ↦ record_hash leaf_object seq s2
          | err precondition_failed ↦ take_number fuel leaf_object leaf (next_number s2)
          | err _ ↦ (err (failed "couldn't close writer for object"), s2)
        ]
        | err _ ↦ (err (failed "couldn't get attr of object"), s1)
      ]

  abbrev original : Bytes → Result StorageError ℕ
  original seq_string = elim (parse_uint 16 64 seq_string) [
    | none ↦ err (failed "parsing \"\": invalid syntax")
    | some orig ↦ err (dupe_leaf orig)
  ]

  unfoldable pub sequence_object : ℕ → Bytes → Bytes → Exec Client StorageError ℕ
  sequence_object fuel leaf_object leaf s =
      let (r, b) = B.read leaf_object s.bucket in
      let t = record s { bucket = b } in
      elim r [
        | ok seq_string ↦ (original seq_string, t)
        | err object_not_exist ↦ take_number fuel leaf_object leaf t
        | err _ ↦ (err (failed "failed to read"), t)
      ]

  unfoldable pub sequence : ℕ → Bytes → Bytes → Exec Client StorageError ℕ
  sequence fuel leafhash leaf = do
    path ← lift (or_fail (leaf_path [] leafhash) path_error)
    sequence_object fuel (join_path (path.0 ∷ path.1 ∷ [])) leaf

  -- The links to a full tile come after a `return`, and are never made.
  unfoldable pub store_tile : ℕ → ℕ → Tile → Exec Client StorageError (Unit {0})
  store_tile level index tile =
      let tile_size = tile.num_leaves in
      let (dir, name) = tile_path [] level index (tile_size % 256) in
      do
        guard (tile_size == 0 || ltb 256 tile_size) (failed "tileSize must be > 0 and <= 256")
        or_error (B.write (join_path (dir ∷ name ∷ [])) (marshal_text tile))
            "failed to write tile object"
