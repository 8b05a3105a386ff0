-- ===== src/SumDb/Service/Slices.antt =====
-- Tiles of leaves, and their blobs, on tables in memory.
use native.Mathlib.Nat.{mul-le-mul_right, mul_comm}
use trillian_serverless.Base.{
  ℕ, zero, suc, ◌+◌, ◌-◌, ◌*◌, ◌^◌, ◌≤◌, ◌<◌, ◌≡◌, refl, sym, ◌∙◌, ap, false, ltb, inl, inr,
  Bool-cases, take, drop, List, [], ◌∷◌, ◌++◌, Bytes, ok, length, length-append, arith, not, ◌==◌,
  replicate,
}
use trillian_serverless.Base.Dict.{Dict}
use trillian_serverless.Clone.Database.{nat_eq, rows_from}
use trillian_serverless.Clone.Database.Rows.{Numbered, rows_from-Numbered}
use trillian_serverless.SumDb.Client.{hash_len_bytes}
use trillian_serverless.SumDb.Database.{Metadata, Duplicate, Sql, Tables, tables, get_leaves}
use trillian_serverless.SumDb.Database.Tiles.{blob, AreHashes, take-append}
use trillian_serverless.SumDb.Service.{to_hash, tile_blob}

-- The leaves of the first tiles.
abbrev pub tiles_of : (ℕ → List Bytes) → ℕ → List Bytes
tiles_of tile zero = []
tiles_of tile (suc n) = tiles_of tile n ++ tile n

pub length-tiles_of :
    (tile : ℕ → List Bytes) (w n : ℕ)
    → ((o : ℕ) → length (tile o) ≡ w)
    → length (tiles_of tile n) ≡ n * w
length-tiles_of tile w zero h = omega arith
length-tiles_of tile w (suc n) h =
    grind (arith, length-append (tiles_of tile n) (tile n), length-tiles_of tile w n h, h n)

take-drop-append :
    (i n : ℕ) (a b : List Bytes) → i + n ≤ length a → take n (drop i (a ++ b)) ≡ take n (drop i a)
take-drop-append zero zero a b h = refl
take-drop-append zero (suc n) [] b h = absurd (omega (arith, h))
take-drop-append zero (suc n) (x ∷ a) b h =
    ap (λ l. x ∷ l) (take-drop-append zero n a b (omega (arith, h)))
take-drop-append (suc i) n [] b h = absurd (omega (arith, h))
take-drop-append (suc i) n (x ∷ a) b h = take-drop-append i n a b (omega (arith, h))

drop-length-append : (a b : List Bytes) → drop (length a) (a ++ b) ≡ b
drop-length-append [] b = refl
drop-length-append (x ∷ a) b = drop-length-append a b

take-length : (b : List Bytes) → take (length b) b ≡ b
take-length [] = refl
take-length (x ∷ b) = ap (λ l. x ∷ l) (take-length b)

-- A tile of the leaves.
pub tiles_of-slice :
    (tile : ℕ → List Bytes) (w m o : ℕ)
    → ((j : ℕ) → length (tile j) ≡ w)
    → o < m
    → take w (drop (o * w) (tiles_of tile m)) ≡ tile o
tiles_of-slice tile w zero o h lt = absurd (omega (arith, lt))
tiles_of-slice tile w (suc m) o h lt =
    let len = length-tiles_of tile w m h in
    elim (Bool-cases (ltb o m)) [
      | inl below ↦
          let less : o < m = ground (arith, below) in
          let fits : o * w + w ≤ length (tiles_of tile m) =
            grind (arith, len, mul-le-mul_right w less) in
          take-drop-append (o * w) w (tiles_of tile m) (tile m) fits
          ∙ tiles_of-slice tile w m o h less
      | inr last ↦
          let same : o ≡ m = ground (arith, last, lt) in
          let at : o * w ≡ length (tiles_of tile m) = grind (arith, len, same) in
          ap (λ i. take w (drop i (tiles_of tile (suc m)))) at
          ∙ ap (take w) (drop-length-append (tiles_of tile m) (tile m))
          ∙ ap (λ n. take n (tile m)) (sym (h m))
          ∙ take-length (tile m)
          ∙ ap tile (sym same)
    ]

pub tile_blob-blob : (hs : List Bytes) → AreHashes hs → tile_blob hs ≡ blob hs
unfolding tile_blob blob to_hash
tile_blob-blob [] h = refl
tile_blob-blob (x ∷ xs) (h, k) =
    rw (take-append hash_len_bytes x (replicate hash_len_bytes 0) h)
      (ap (λ l. x ++ l) (tile_blob-blob xs k))

module _ (grouped : Dict ℕ Metadata → List Duplicate) (height : ℕ) (tile : ℕ → List Bytes)
    (wide : (o : ℕ) → length (tile o) ≡ 2 ^ height) where
  abbrev db : Sql
  db = tables grouped

  pub get_leaves-tile :
      (m o : ℕ) (s : Tables)
      → o < m
      → Numbered (tiles_of tile m) s.leaves
      → get_leaves db (2 ^ height * o) (2 ^ height) s ≡ (ok (tile o), s)
  unfolding get_leaves
  get_leaves-tile m o s lt held =
      let w = 2 ^ height in
      let len = length-tiles_of tile w m wide in
      let fits : w + o * w ≤ length (tiles_of tile m) = grind (arith, len, mul-le-mul_right w lt) in
      let rows =
        rows_from-Numbered (tiles_of tile m) s.leaves w (o * w) held fits
        ∙ tiles_of-slice tile w m o wide lt in
      let span : w * o + w - w * o ≡ w = omega arith in
      let read : rows_from (w * o + w - w * o) (w * o) s.leaves ≡ tile o =
        ap (λ n. rows_from n (w * o) s.leaves) span
        ∙ ap (λ i. rows_from w i s.leaves) (mul_comm w o)
        ∙ rows in
      let whole : not (length (tile o) == w) ≡ false = ground (arith, wide o) in
      rw (read, get_leaves) (rw whole refl)
