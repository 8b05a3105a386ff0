-- ===== src/Serverless/Storage/TileFiles.antt =====
-- `StoreTile` and `GetTile` on files in memory.
use trillian_serverless.Base.{
  ℕ, suc, ◌+◌, ◌%◌, ◌^◌, ◌≤◌, ◌<◌, ◌≡◌, ◌≢◌, refl, ◌∙◌, ap, inl, inr, false, ◌||◌, List, [], ◌∷◌,
  ◌++◌, Bytes, Option, none, some, ok, arith, length, length-append, bytes_eq, if◌then◌else◌, ltb,
  ◌==◌, Option-cases, Bool-cases,
}
use trillian_serverless.Base.Dict.{lookup, insert, delete, keys}
use trillian_serverless.Std.Files.{
  Entry, file, symlink, Disk, memory, move, contents, with_prefix, has_slash,
}
use trillian_serverless.Std.Base64.{AreBytes}
use trillian_serverless.Std.Paths.{ascii, join_path, strip_prefix}
use trillian_serverless.Serverless.Api.{Tile, marshal_text}
use trillian_serverless.Serverless.Api.TileText.{AreNodes, refill, unmarshal_text-marshal_text}
use trillian_serverless.Serverless.Layout.Paths.{tile_path}
use trillian_serverless.Serverless.Layout.Tile.{partial_tile_size}
use trillian_serverless.Serverless.Storage.{Store, relink, relink_partials, store_tile, get_tile}
use trillian_serverless.Serverless.Storage.Steps.{
  lookup_other, lookup_self, put_new_free, put_new_taken,
}
use trillian_serverless.Serverless.Storage.Sequenced.{lookup_kept}

-- None of the paths is this one.
unfoldable pub Others : Bytes → List Bytes → Type 0
Others t [] = Unit {0}
Others t (p ∷ ps) = (t ≢ p) × Others t ps

longer : (t x : Bytes) (c : ℕ) → t ≢ t ++ c ∷ x
longer t x c h =
    let e : length t ≡ length t + suc (length x) = ap length h ∙ length-append t (c ∷ x) in
    omega (arith, e)

strip_prefix-longer : (t : Bytes) (c : ℕ) (x : Bytes) → strip_prefix (t ++ c ∷ x) t ≡ none
unfolding strip_prefix
strip_prefix-longer [] c x = refl
strip_prefix-longer (a ∷ t) c x = ground (arith, strip_prefix-longer t c x)

with_prefix-Others :
    (t : Bytes) (c : ℕ) (x : Bytes) (qs : List Bytes) → Others t (with_prefix (t ++ c ∷ x) qs)
unfolding with_prefix Others
with_prefix-Others t c x [] = tt
with_prefix-Others t c x (q ∷ qs) =
    let rest = with_prefix-Others t c x qs in
    elim (Option-cases (strip_prefix (t ++ c ∷ x) q)) [
      | inl h ↦ rw (h, with_prefix) rest
      | inr (name, h) ↦
          let ne : t ≢ q = λ e. cc (strip_prefix-longer t c x, h, e) in
          elim (Bool-cases (has_slash name)) [
            | inl y ↦ rw (h, with_prefix) (rw (y) rest)
            | inr n ↦ rw (h, with_prefix) (rw n (ne, rest))
          ]
    ]

move_lem :
    (p q : Bytes) (e : Entry) (d : Disk)
    → lookup p d ≡ some e
    → move p q d ≡ (ok tt, insert q e (delete p d))
unfolding move
move_lem p q e d h = rw (h, move)

-- Links in the place of the partial tiles leave the full tile as it is, also where one fails.
relink-keeps :
    (t : Bytes) (ps : List Bytes) (s : Store memory)
    → Others t ps
    → lookup t (relink memory t ps s).1.files ≡ lookup t s.files
unfolding relink Others
relink-keeps t [] s h = refl
relink-keeps t (p ∷ ps) s (ne, h) =
    let tmp = t ++ ascii ".link" in
    let made = insert tmp (symlink t) s.files in
    elim (Option-cases (lookup tmp s.files)) [
      | inl free ↦
          rw (put_new_free tmp (symlink t) s.files free, relink)
            (rw (move_lem tmp p (symlink t) made (lookup_self tmp (symlink t) s.files)) (
              relink-keeps t ps (record s { files = insert p (symlink t) (delete tmp made) }) h
              ∙ (lookup_other t p (symlink t) (delete tmp made) ne
                  ∙ (lookup_kept t tmp made (longer t _ 46)
                      ∙ lookup_other t tmp (symlink t) s.files (longer t _ 46)))))
      | inr (e, taken) ↦ rw (put_new_taken tmp (symlink t) e s.files taken, relink) refl
    ]

relink-root :
    (t : Bytes) (ps : List Bytes) (s : Store memory)
    → (relink memory t ps s).1.root_dir ≡ s.root_dir
unfolding relink
relink-root t [] s = refl
relink-root t (p ∷ ps) s =
    let tmp = t ++ ascii ".link" in
    let made = insert tmp (symlink t) s.files in
    elim (Option-cases (lookup tmp s.files)) [
      | inl free ↦
          rw (put_new_free tmp (symlink t) s.files free, relink)
            (rw (move_lem tmp p (symlink t) made (lookup_self tmp (symlink t) s.files))
              (relink-root t ps (record s { files = insert p (symlink t) (delete tmp made) })))
      | inr (e, taken) ↦ rw (put_new_taken tmp (symlink t) e s.files taken, relink) refl
    ]

module _ (level index n : ℕ) (ns : List (Option Bytes)) (b : ℕ) (bs : Bytes) where
  abbrev tile : Tile
  tile = record { num_leaves = n; nodes = ns ++ some (b ∷ bs) ∷ [] }

  abbrev tile_file : Bytes → Bytes
  tile_file root =
      let (dir, name) = tile_path root level index (n % 256) in join_path (dir ∷ name ∷ [])

  abbrev temp_file : Bytes → Bytes
  temp_file root = tile_file root ++ ascii ".temp"

  abbrev stored : Store memory → Store memory
  stored s =
      let made = insert (temp_file s.root_dir) (file (marshal_text tile)) s.files in
      record s {
        files =
            insert (tile_file s.root_dir) (file (marshal_text tile))
              (delete (temp_file s.root_dir) made);
      }

  store_tile_lem :
      (s : Store memory)
      → 0 < n
      → n ≤ 256
      → store_tile memory level index tile s ≡ (
          if n == 256
          then relink_partials memory (tile_file s.root_dir) (stored s)
          else (ok tt, stored s))
  store_tile_lem s pos le =
      let size : (n == 0 || ltb 256 n) ≡ false = ground arith in
      let made = insert (temp_file s.root_dir) (file (marshal_text tile)) s.files in
      unfold store_tile in
      rw size (
        rw
          (move_lem (temp_file s.root_dir) (tile_file s.root_dir) (file (marshal_text tile)) made
            (lookup_self (temp_file s.root_dir) (file (marshal_text tile)) s.files))
          (elim (Bool-cases (n == 256)) [ inl full ↦ rw full refl | inr part ↦ rw part refl ]))

  tile_file-kept :
      (s : Store memory)
      → lookup
          (tile_file s.root_dir)
          (relink_partials memory (tile_file s.root_dir) (stored s)).1.files
        ≡ some (file (marshal_text tile))
  unfolding relink_partials
  tile_file-kept s =
      let t = tile_file s.root_dir in
      relink-keeps t (with_prefix (t ++ ascii ".") (keys (stored s).files)) (stored s)
        (with_prefix-Others t 46 [] (keys (stored s).files))
      ∙ lookup_self t (file (marshal_text tile)) _

  relink_partials-root :
      (s : Store memory)
      → (relink_partials memory (tile_file s.root_dir) (stored s)).1.root_dir ≡ s.root_dir
  unfolding relink_partials
  relink_partials-root s =
      let t = tile_file s.root_dir in
      relink-root t (with_prefix (t ++ ascii ".") (keys (stored s).files)) (stored s)

  tile_file-read :
      (s : Store memory) (log_size : ℕ) (root : Bytes)
      → s.root_dir ≡ root
      → partial_tile_size level index log_size ≡ n % 256
      → n < 2 ^ 16
      → AreNodes ns
      → AreBytes (b ∷ bs)
      → lookup (tile_file root) s.files ≡ some (file (marshal_text tile))
      → get_tile memory level index log_size s
        ≡ ok (record { num_leaves = n; nodes = refill ns ++ some (b ∷ bs) ∷ [] })
  unfolding get_tile contents
  tile_file-read s log_size root at size small h k found =
      rw (at, get_tile)
        (rw (size) (rw (found, contents) (rw (unmarshal_text-marshal_text n ns b bs small h k))))

  -- A tile with 1 to 256 leaves, nodes of bytes and a last node that is not empty, whatever the
  -- files hold: after `StoreTile`, even if a link over a partial tile failed, `GetTile` reads the
  -- tile for every log size at which the tile has that many leaves, with nil nodes turned into
  -- empty ones. For a partial tile `StoreTile` does not fail.
  pub store_tile-get_tile :
      (s : Store memory) (log_size : ℕ)
      → 0 < n
      → n ≤ 256
      → partial_tile_size level index log_size ≡ n % 256
      → AreNodes ns
      → AreBytes (b ∷ bs)
      → let (result, after) = store_tile memory level index tile s in
        (get_tile memory level index log_size after
          ≡ ok (record { num_leaves = n; nodes = refill ns ++ some (b ∷ bs) ∷ [] }))
        × (n < 256 → result ≡ ok tt)
  store_tile-get_tile s log_size pos le size h k =
      rw (store_tile_lem s pos le) (elim (Bool-cases (n == 256)) [
        | inl full ↦ rw full (
          tile_file-read (relink_partials memory (tile_file s.root_dir) (stored s)).1 log_size
              s.root_dir (relink_partials-root s) size (omega arith) h k (tile_file-kept s),
          λ lt. absurd (ground arith),
        )
        | inr part ↦ rw part (
          tile_file-read (stored s) log_size s.root_dir refl size (omega arith) h k
              (lookup_self (tile_file s.root_dir) (file (marshal_text tile)) _),
          λ lt. refl,
        )
      ])
