-- ===== src/Serverless/Storage.antt =====
-- The log in a file system (serverless/internal/storage/fs/fs.go). The calls of `os` are those of a
-- `Files`; the state is theirs, with the hint that the storage keeps.
pub mod Names
pub mod Steps
pub mod Sequenced
pub mod Laws
pub mod TileFiles
pub mod Tests
use trillian_serverless.Base.{
  ℕ, zero, suc, ◌+◌, ◌%◌, ◌-◌, String, Bool, true, false, not, ◌||◌, List, [], ◌∷◌, ◌++◌, Bytes,
  Option, none, some, Result, ok, err, expect, or_fail, if◌then◌else◌, ltb, ◌==◌, length,
}
use trillian_serverless.Base.Exec.{Exec, pure, raise, lift, recast, guard, ◌>>=◌, ◌>>◌}
use trillian_serverless.Std.Files.{Files, FileError, exist, not_exist, io}
use trillian_serverless.Std.Numbers.{format_uint, parse_uint}
use trillian_serverless.Std.Paths.{ascii, join_path}
use trillian_serverless.Serverless.Api.{Tile, TextError, marshal_text, unmarshal_text}
use trillian_serverless.Serverless.Layout.Tile.{partial_tile_size}
use trillian_serverless.Serverless.Layout.Paths.{
  PathError, seq_path, leaf_path, hex_bytes, tile_path,
}

-- How a call ends without a result: `ErrDupeLeaf` with the number of the first instance, an error
-- that is `os.ErrNotExist`, an index out of range, or any other error.
pub data StorageError : Type 0 where
  dupe_leaf : ℕ → StorageError
  missing panic : StorageError
  failed : String → StorageError

abbrev pub file_error : String → FileError → StorageError
file_error m not_exist = missing
file_error m _ = failed m

abbrev pub path_error : PathError → StorageError
path_error _ = panic

abbrev pub tile_error : TextError → StorageError
tile_error TextError.panic = panic
tile_error _ = failed "failed to parse tile"

-- `defer`: the call `last` is made after `m`, however that ends, and its own result is dropped.
abbrev pub finally {ℓ ε δ κ μ} :
    {S : Type ℓ} {E : Type ε} {D : Type δ} {A : Type κ} {B : Type μ}
    → Exec S E A
    → Exec S D B
    → Exec S E A
finally m last s = let (r, t) = m s in (r, (last t).1)

-- The files of an entry and of a leaf hash, and the temporary file of a leaf.
abbrev pub seq_file : Bytes → ℕ → Bytes
seq_file root seq = let (dir, name) = seq_path root seq in join_path (dir ∷ name ∷ [])

abbrev pub pending_file : Bytes → Bytes → Bytes
pending_file root leafhash = join_path (root ∷ (ascii "leaves/pending/" ++ hex_bytes leafhash) ∷ [])

module _ (F : Files) where
  -- `Storage`, with the files that it works on.
  pub record Store : Type 0 where
    pub files : F.State
    pub root_dir : Bytes
    pub next_seq : ℕ

  -- A call of `os`.
  abbrev pub on_files {κ} :
      {A : Type κ} → Exec F.State FileError A → String → Exec Store StorageError A
  on_files m e s = let (r, t) = m s.files in (or_fail r (file_error e), record s { files = t })

  unfoldable pub load : Bytes → ℕ → F.State → Result StorageError Store
  load root cp_size files = elim (F.stat_dir root files) [
    | err not_exist ↦ err missing
    | err _ ↦ err (failed "failed to stat")
    | ok false ↦ err (failed "not a directory")
    | ok true ↦ ok (record { files = files; root_dir = root; next_seq = cp_size })
  ]

  unfoldable pub create : Bytes → Exec F.State StorageError Store
  create root files = elim (F.stat_dir root files) [
    | ok _ ↦ (err (failed "file exists"), files)
    | err _ ↦
        let s : Store = record { files = files; root_dir = root; next_seq = 0 } in
        let (r, t) =
          (do
            on_files (F.mkdir_all root) "failed to create directory"
            on_files (F.mkdir_all (join_path (root ∷ ascii "leaves/pending" ∷ [])))
                "failed to create directory"
            on_files (F.mkdir_all (join_path (root ∷ ascii "seq" ∷ [])))
                "failed to create directory"
            on_files (F.mkdir_all (join_path (root ∷ ascii "tile" ∷ [])))
                "failed to create directory")
            s in
        (elim r [ err e ↦ err e | ok _ ↦ ok t ], t.files)
  ]

  unfoldable pub create_exclusive : Bytes → Bytes → Exec Store StorageError (Unit {0})
  create_exclusive f d = do
    on_files (F.open_exclusive f) "unable to create temporary file"
    n ← on_files (F.write f d) "unable to write leafdata to temporary file"
    guard (not (n == length d)) (failed "short write on leaf")
    on_files (F.close f) "close"

  -- The temporary file of a leaf hash is linked in place; one that is there already is left.
  unfoldable pub link_hash : Bytes → Bytes → ℕ → Exec Store StorageError ℕ
  link_hash leaf_tmp leaf_fq seq s =
      let (r, t) = F.link leaf_tmp leaf_fq s.files in
      (
        elim r [
          | err exist ↦ ok seq
          | err _ ↦ err (failed "couldn't link temporary leafhash file in place")
          | ok _ ↦ ok seq
        ],
        record s { files = t },
      )

  -- `Sequence` once the sequence number is taken: the leaf hash's file, by way of a temporary one.
  unfoldable pub record_hash : Bytes → ℕ → Exec Store StorageError ℕ
  record_hash leaf_fq seq =
      let leaf_tmp = leaf_fq ++ ascii ".tmp" in
      do
        create_exclusive leaf_tmp (format_uint 16 seq)
        finally (link_hash leaf_tmp leaf_fq seq) (on_files (F.remove leaf_tmp) "remove")

  -- The loop of `Sequence`: `fuel` bounds the numbers that are tried.
  unfoldable pub take_number : ℕ → Bytes → Bytes → Exec Store StorageError ℕ
  take_number zero tmp leaf_fq s = (err (failed "out of fuel"), s)
  take_number (suc fuel) tmp leaf_fq s =
      let dir = (seq_path s.root_dir s.next_seq).0 in
      let (made, t) = on_files (F.mkdir_all dir) "failed to make seq directory structure" s in
      let (linked, u) = F.link tmp (seq_file s.root_dir s.next_seq) t.files in
      let again =
        take_number fuel tmp leaf_fq (record t { files = u; next_seq = t.next_seq + 1 }) in
      elim made [
        | err e ↦ (err e, t)
        | ok _ ↦ elim linked [
          | err exist ↦ again
          | err _ ↦ (err (failed "failed to link seq file"), record t { files = u })
          | ok _ ↦ record_hash leaf_fq t.next_seq (record t { files = u })
        ]
      ]

  -- `Sequence` for a leaf hash that has no file.
  unfoldable pub sequence_new : ℕ → Bytes → Bytes → Bytes → Exec Store StorageError ℕ
  sequence_new fuel leaf_fq leafhash leaf s =
      let tmp = pending_file s.root_dir leafhash in
      (do
        create_exclusive tmp leaf
        finally (take_number fuel tmp leaf_fq) (on_files (F.remove tmp) "remove"))
        s

  -- `Sequence` from the check for a duplicate on.
  unfoldable pub sequence_hashed : ℕ → Bytes → Bytes → Bytes → Exec Store StorageError ℕ
  sequence_hashed fuel leaf_fq leafhash leaf s = elim (F.read_file leaf_fq s.files) [
    | err not_exist ↦ sequence_new fuel leaf_fq leafhash leaf s
    | err _ ↦ (err (failed "parsing \"\": invalid syntax"), s)
    | ok seq_string ↦ elim (parse_uint 16 64 seq_string) [
      | none ↦ (err (failed "invalid sequence number"), s)
      | some orig ↦ (err (dupe_leaf orig), s)
    ]
  ]

  unfoldable pub sequence : ℕ → Bytes → Bytes → Exec Store StorageError ℕ
  sequence fuel leafhash leaf s =
      (do
        path ← lift (or_fail (leaf_path s.root_dir leafhash) path_error)
        on_files (F.mkdir_all path.0) "failed to make leaf directory structure"
        sequence_hashed fuel (join_path (path.0 ∷ path.1 ∷ [])) leafhash leaf)
        s

  -- `ScanSequenced`: `f` is called with each entry and may fail; it has a state of its own. `fuel`
  -- bounds the entries.
  unfoldable pub scan_from {ℓ} :
      {V : Type ℓ}
      → ℕ
      → ℕ
      → (ℕ → Bytes → Exec V StorageError (Unit {0}))
      → Store
      → ℕ
      → Exec V StorageError ℕ
  scan_from zero begin f s end v = (err (failed "out of fuel"), v)
  scan_from (suc fuel) begin f s end v = elim (F.read_file (seq_file s.root_dir end) s.files) [
    | err not_exist ↦ (ok (end - begin), v)
    | err _ ↦ (err (failed "failed to read leafdata"), v)
    | ok entry ↦ (f end entry >>= λ _. scan_from fuel begin f s (end + 1)) v
  ]

  unfoldable pub scan_sequenced {ℓ} :
      {V : Type ℓ}
      → ℕ
      → ℕ
      → (ℕ → Bytes → Exec V StorageError (Unit {0}))
      → Store
      → Exec V StorageError ℕ
  scan_sequenced fuel begin f s = scan_from fuel begin f s begin

  unfoldable pub get_tile : ℕ → ℕ → ℕ → Store → Result StorageError Tile
  get_tile level index log_size s =
      let tile_size = partial_tile_size level index log_size in
      let (dir, name) = tile_path s.root_dir level index tile_size in
      elim (F.read_file (join_path (dir ∷ name ∷ [])) s.files) [
        | err not_exist ↦ err missing
        | err _ ↦ err (failed "failed to read tile")
        | ok t ↦ or_fail (unmarshal_text t) tile_error
      ]

  -- The loop that puts links to the full tile in the place of the partial ones.
  unfoldable pub relink : Bytes → List Bytes → Exec Store StorageError (Unit {0})
  relink t_path [] = pure tt
  relink t_path (p ∷ ps) =
      let tmp = t_path ++ ascii ".link" in
      do
        on_files (F.symlink t_path tmp) "failed to create temp link to full tile"
        on_files (F.rename tmp p) "failed to rename temp link over partial tile"
        relink t_path ps

  unfoldable pub relink_partials : Bytes → Exec Store StorageError (Unit {0})
  relink_partials t_path s = elim (F.glob (t_path ++ ascii ".") s.files) [
    | err _ ↦ (err (failed "failed to list partial tiles for clean up"), s)
    | ok partials ↦ relink t_path partials s
  ]

  unfoldable pub store_tile : ℕ → ℕ → Tile → Exec Store StorageError (Unit {0})
  store_tile level index tile s =
      let tile_size = tile.num_leaves in
      let (dir, name) = tile_path s.root_dir level index (tile_size % 256) in
      let t_path = join_path (dir ∷ name ∷ []) in
      let temp = t_path ++ ascii ".temp" in
      (do
        guard (tile_size == 0 || ltb 256 tile_size) (failed "tileSize must be > 0 and <= 256")
        on_files (F.mkdir_all dir) "failed to create directory"
        on_files (F.write_file temp (marshal_text tile)) "failed to write temporary tile file"
        on_files (F.rename temp t_path) "failed to rename temporary tile file"
        if tile_size == 256 then relink_partials t_path else pure tt)
        s

  unfoldable pub write_checkpoint : Bytes → Exec Store StorageError (Unit {0})
  write_checkpoint new_cp_raw s =
      let o_path = join_path (s.root_dir ∷ ascii "checkpoint" ∷ []) in
      let tmp = o_path ++ ascii ".tmp" in
      (do create_exclusive tmp new_cp_raw; on_files (F.rename tmp o_path) "rename") s

  unfoldable pub read_checkpoint : Bytes → F.State → Result FileError Bytes
  read_checkpoint root files = F.read_file (join_path (root ∷ ascii "checkpoint" ∷ [])) files
