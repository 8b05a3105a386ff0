-- ===== src/SumDb/Client.antt =====
-- The client of the checksum database (sumdbaudit/client/sumdb.go). The fetcher, the note format
-- and the parser of trees are parameters; a negative offset does not occur.
pub mod Leaves
use trillian_serverless.Base.{
  ℕ, zero, suc, ◌+◌, ◌-◌, ◌*◌, ◌/◌, ◌%◌, ◌^◌, String, Bool, true, false, not, ◌&&◌, List, [], ◌∷◌,
  ◌++◌, Bytes, Option, none, some, Result, ok, err, ◌>>=◌, ◌>>◌, fail_if, or_fail, if◌then◌else◌,
  ltb, leb, ◌==◌, length, take, drop, replicate,
}
use trillian_serverless.Std.Numbers.{format_uint}
use trillian_serverless.Std.Paths.{ascii}
use trillian_serverless.Std.Lines.{newline}

-- `Checkpoint`: the size and the hash of its tree, and the raw text.
pub record Checkpoint : Type 0 where
  pub size : ℕ
  pub hash : Bytes
  pub raw : Bytes

-- `ErrNoDataFound`, `CheckpointTooFresh` with the size that is asked for and the one held,
-- `InconsistentCheckpoints`, an index out of range, a goroutine that waits for ever, or any other
-- error.
pub data AuditError : Type 0 where
  no_data : AuditError
  too_fresh : ℕ → ℕ → AuditError
  inconsistent : Checkpoint → Checkpoint → AuditError
  panic blocked : AuditError
  failed : String → AuditError

-- `SumDBClient`, with what it calls: `GetData`, and the opening of a note with the client's key and
-- the parsing of its tree.
pub record Client : Type 0 where
  pub height : ℕ
  pub get_data : Bytes → Result String Bytes
  pub open_note : Bytes → Result String Bytes
  pub parse_tree : Bytes → Result String (ℕ × Bytes)

abbrev pub path_base : ℕ
path_base = 1000

abbrev pub hash_len_bytes : ℕ
hash_len_bytes = 32

-- `%03d`
unfoldable pub three_digits : ℕ → Bytes
three_digits n = let ds = format_uint 10 n in replicate (3 - length ds) 48 ++ ds

-- The loop of `tilePath`; an offset below 2^64 takes no more than 7 rounds.
unfoldable pub tile_path_onto : ℕ → ℕ → Bytes → Bytes
tile_path_onto zero offset text = text
tile_path_onto (suc fuel) offset text =
    let offset' = offset / path_base in
    let rest =
      tile_path_onto fuel offset'
        (ascii "x" ++ three_digits (offset' % path_base) ++ ascii "/" ++ text) in
    if leb path_base offset then rest else text

unfoldable pub tile_path : ℕ → Bytes
tile_path offset = tile_path_onto 7 offset (three_digits (offset % path_base))

-- `dataToLeaves`: `leaf` is the part that is read since `start`, and `last` says whether a byte of
-- it was read and the last one was a newline.
unfoldable pub leaves_from : Bytes → Bool → Bytes → List Bytes
leaves_from leaf last [] = leaf ∷ []
leaves_from leaf last (b ∷ bs) =
    let ended = leaf ∷ leaves_from [] false bs in
    let more = leaves_from (leaf ++ b ∷ []) (b == newline) bs in
    if b == newline && last then ended else more

unfoldable pub data_to_leaves : Bytes → List Bytes
data_to_leaves bs = leaves_from [] false bs

-- The hashes of a tile, one after the other.
unfoldable pub split_hashes : ℕ → Bytes → List Bytes
split_hashes zero bs = []
split_hashes (suc n) bs = take hash_len_bytes bs ∷ split_hashes n (drop hash_len_bytes bs)

module _ (c : Client) where
  unfoldable pub get : Bytes → Result AuditError Bytes
  get path = or_fail (c.get_data path) failed

  unfoldable pub parse_checkpoint_note : Bytes → Result AuditError Checkpoint
  parse_checkpoint_note checkpoint = do
    text ← or_fail (c.open_note checkpoint) failed
    tree ← or_fail (c.parse_tree text) failed
    ok (record { size = tree.0; hash = tree.1; raw = checkpoint })

  unfoldable pub latest_checkpoint : Result AuditError Checkpoint
  latest_checkpoint = do checkpoint ← get (ascii "/latest"); parse_checkpoint_note checkpoint

  unfoldable pub full_leaves_at_offset : ℕ → Result AuditError (List Bytes)
  full_leaves_at_offset offset = do
    bs ← get (ascii "/tile/" ++ format_uint 10 c.height ++ ascii "/data/" ++ tile_path offset)
    ok (data_to_leaves bs)

  unfoldable pub partial_leaves_at_offset : ℕ → ℕ → Result AuditError (List Bytes)
  partial_leaves_at_offset offset count = do
    bs ← get (
        ascii "/tile/"
        ++ format_uint 10 c.height
        ++ ascii "/data/"
        ++ tile_path offset
        ++ ascii ".p/"
        ++ format_uint 10 count)
    ok (data_to_leaves bs)

  unfoldable pub tile_hashes : ℕ → ℕ → ℕ → Result AuditError (List Bytes)
  tile_hashes level offset partial =
      let url =
        ascii "/tile/"
        ++ format_uint 10 c.height
        ++ ascii "/"
        ++ format_uint 10 level
        ++ ascii "/"
        ++ tile_path offset in
      let expected = if ltb 0 partial then partial else 2 ^ c.height in
      (do
        bs ← get (if ltb 0 partial then url ++ ascii ".p/" ++ format_uint 10 partial else url)
        fail_if (not (length bs == hash_len_bytes * expected)) (failed "unexpected number of bytes")
        ok (split_hashes expected bs))
