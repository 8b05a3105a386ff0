-- ===== src/Serverless/Layout/Paths.antt =====
-- Paths of entries, leaf hashes and tiles (serverless/api/layout/paths.go). A path is a list of
-- bytes; a root is a clean path.
pub mod Laws
use trillian_serverless.Base.{
  ℕ, ◌*◌, ◌-◌, ◌/◌, ◌%◌, ◌^◌, ◌<◌, Bool, String, List, [], ◌∷◌, ◌++◌, Option, none, some, Result,
  ok, err, ltb, ◌==◌, if◌then◌else◌, Bytes, get_elem?, take, drop, expect, ◌>>=◌, ◌>>◌,
}
use trillian_serverless.Std.Numbers.{format_padded, parse_uint}
use trillian_serverless.Std.Paths.{ascii, slash, join_path, strip_prefix}

-- How a call ends without a result; `panic` is an index out of range.
pub data PathError : Type 0 where
  wrong_prefix wrong_format not_a_number panic : PathError

-- `(x >> (8 * k)) & 0xff`
abbrev pub byte_at : ℕ → ℕ → ℕ
byte_at x k = x / 2 ^ (8 * k) % 256

unfoldable pub seq_path : Bytes → ℕ → Bytes × Bytes
seq_path root seq = (
  join_path (
      root
      ∷ ascii "seq"
      ∷ format_padded 2 (seq / 2 ^ 32)
      ∷ format_padded 2 (byte_at seq 3)
      ∷ format_padded 2 (byte_at seq 2)
      ∷ format_padded 2 (byte_at seq 1)
      ∷ []),
  format_padded 2 (byte_at seq 0),
)

-- The tests that `s` has a separator at each of these places, in this order.
unfoldable pub check_separators : Bytes → List ℕ → Result PathError (Unit {0})
check_separators s [] = ok tt
check_separators s (i ∷ is) = elim (get_elem? s i) [
  | none ↦ err panic
  | some c ↦ let rest = check_separators s is in if c == slash then rest else err wrong_format
]

-- `s[a:b]` within the bounds of `s`.
abbrev slice : Bytes → ℕ → ℕ → Bytes
slice s a b = take (b - a) (drop a s)

unfoldable pub seq_from_path : Bytes → Bytes → Result PathError ℕ
seq_from_path root path = do
  s ← expect (strip_prefix (join_path (root ∷ ascii "seq" ∷ [])) path) wrong_prefix
  check_separators s (0 ∷ 3 ∷ 6 ∷ 9 ∷ 12 ∷ [])
  expect
      (parse_uint 16 64
        (slice s 1 3 ++ (slice s 4 6 ++ (slice s 7 9 ++ (slice s 10 12 ++ drop 13 s)))))
      not_a_number

-- `%0x` of a byte slice.
unfoldable pub hex_bytes : Bytes → Bytes
hex_bytes [] = []
hex_bytes (b ∷ bs) = format_padded 2 b ++ hex_bytes bs

-- A leaf hash of fewer than three bytes panics.
unfoldable pub leaf_path : Bytes → Bytes → Result PathError (Bytes × Bytes)
leaf_path root (a ∷ b ∷ c ∷ rest) = ok (
  join_path
      (root ∷ ascii "leaves" ∷ format_padded 2 a ∷ format_padded 2 b ∷ format_padded 2 c ∷ []),
  hex_bytes rest,
)
leaf_path root _ = err panic

unfoldable pub tile_path : Bytes → ℕ → ℕ → ℕ → Bytes × Bytes
tile_path root level index partial_tile_size =
    let suffix =
      if ltb 0 partial_tile_size then ascii "." ++ format_padded 2 partial_tile_size else [] in
    (
      join_path (
          root
          ∷ ascii "tile"
          ∷ format_padded 2 level
          ∷ format_padded 4 (index / 2 ^ 24)
          ∷ format_padded 2 (byte_at index 2)
          ∷ format_padded 2 (byte_at index 1)
          ∷ []),
      format_padded 2 (byte_at index 0) ++ suffix,
    )
