-- ===== src/Clone/Verify/Laws.antt =====
-- The root of a cloned log does not depend on where the computation starts.
use trillian_serverless.Base.{
  ℕ, zero, suc, ◌+◌, ◌-◌, ◌≤◌, ◌≡◌, ◌≢◌, refl, sym, ◌∙◌, ap, String, false, not, ◌==◌, List, [],
  ◌∷◌, ◌++◌, Bytes, Result, ok, err, Result-cases, leb, length, take, drop, arith, Bool-cases, inl,
  inr,
}
use trillian_serverless.Formats.{Hashes}
use trillian_serverless.Clone.Cloner.{no_data, other}
use trillian_serverless.Clone.Database.{Sql, Tables, tables, get_latest_checkpoint}
use trillian_serverless.Clone.Database.Rows.{Numbered, stream_leaves_lem}
use trillian_serverless.Clone.Verify.{
  Ranges, LeafHashFn, append_leaves, root_from, root_and_hashes, merkle_root,
}

length-take-drop : (l : List Bytes) (i n : ℕ) → n + i ≤ length l → length (take n (drop i l)) ≡ n
length-take-drop l i zero h = refl
length-take-drop [] i (suc n) h = absurd (omega (arith, h))
length-take-drop (x ∷ xs) zero (suc n) h = ap suc (length-take-drop xs zero n (omega (arith, h)))
length-take-drop (x ∷ xs) (suc i) (suc n) h = length-take-drop xs i (suc n) (omega (arith, h))

take_nil : (n : ℕ) → take {A = Bytes} n [] ≡ []
take_nil zero = refl
take_nil (suc n) = refl

take_split : (l : List Bytes) (i n : ℕ) → i ≤ n → take n l ≡ take i l ++ take (n - i) (drop i l)
take_split l zero n h = ap (λ k. take k l) (omega arith)
take_split l (suc i) zero h = absurd (omega (arith, h))
take_split [] (suc i) (suc n) h = sym (take_nil (suc n - suc i))
take_split (x ∷ xs) (suc i) (suc n) h =
    let e : n - i ≡ suc n - suc i = omega arith in
    ap (λ l. x ∷ l)
      (take_split xs i n (omega (arith, h)) ∙ ap (λ k. take i xs ++ take k (drop i xs)) e)

module _ (encode : Hashes → Result String Bytes) (decode : Bytes → Result String Hashes)
    {Range : Type 0} (lh : LeafHashFn) (m : Ranges Range) where
  abbrev db : Sql
  db = tables encode decode

  append_leaves-append :
      (i : ℕ) (xs ys : List Bytes) (cr : Range)
      → append_leaves db lh m i (xs ++ ys) cr
        ≡ append_leaves db lh m (i + length xs) ys (append_leaves db lh m i xs cr)
  unfolding append_leaves
  append_leaves-append i [] ys cr = ap (λ k. append_leaves db lh m k ys cr) (omega arith)
  append_leaves-append i (x ∷ xs) ys cr =
      append_leaves-append (i + 1) xs ys (m.append cr (lh i x))
      ∙ ap
          (λ k.
            append_leaves db lh m k ys (append_leaves db lh m (i + 1) xs (m.append cr (lh i x))))
          (omega arith)

  -- The range over the first leaves, appended one by one.
  abbrev pub range_of : List Bytes → ℕ → Range
  range_of leaves n = append_leaves db lh m 0 (take n leaves) (m.new_empty_range 0)

  -- The root and the hashes of the range over the first leaves.
  abbrev pub root_of : List Bytes → ℕ → Result String (Bytes × Hashes)
  root_of leaves n = root_and_hashes db lh m (range_of leaves n)

  root_from_lem :
      (leaves : List Bytes) (s : Tables) (start size : ℕ)
      → Numbered leaves s.leaves
      → start ≤ size
      → size ≤ length leaves
      → root_from db lh m start (range_of leaves start) size s ≡ root_of leaves size
  unfolding root_from
  root_from_lem leaves s start size h le within =
      let chunk = take (size - start) (drop start leaves) in
      let before = take start leaves in
      let empty = m.new_empty_range 0 in
      let n = length-take-drop leaves start (size - start) (omega (arith, le, within)) in
      let k : length before ≡ start = length-take-drop leaves 0 start (omega (arith, le, within)) in
      let at : start ≡ 0 + length before = omega (arith, k) in
      let complete : not (start + length chunk == size) ≡ false = ground (arith, n, le) in
      let grown : append_leaves db lh m start chunk (range_of leaves start) ≡ range_of leaves size =
        ap (λ i. append_leaves db lh m i chunk (append_leaves db lh m 0 before empty)) at
        ∙ (sym (append_leaves-append 0 before chunk empty)
            ∙ ap (λ l. append_leaves db lh m 0 l empty) (sym (take_split leaves start size le))) in
      rw (stream_leaves_lem encode decode leaves s start size h le within)
        (rw complete (ap (root_and_hashes db lh m) grown))

  -- On tables in memory that hold the leaves, where the library reloads a range from its hashes: if
  -- the latest checkpoint can be read, or there is none, and its range is that over the first
  -- leaves, then the root of a size is that of the range that all the leaves up to it are appended
  -- to, one by one from the first, and the hashes are that range's.
  pub merkle_root-root_of :
      (leaves : List Bytes) (s : Tables) (size : ℕ)
      → Numbered leaves s.leaves
      → size ≤ length leaves
      → ((n : ℕ)
          → m.compact.new_range 0 n (m.compact.hashes (range_of leaves n)) ≡ ok (range_of leaves n))
      → ((e : String) → get_latest_checkpoint db s ≢ err (other e))
      → ((n : ℕ) (cp : Bytes) (range : Hashes)
          → get_latest_checkpoint db s ≡ ok (n, cp, range)
          → range ≡ m.compact.hashes (range_of leaves n))
      → merkle_root db lh m size s ≡ root_of leaves size
  unfolding merkle_root append_leaves
  merkle_root-root_of leaves s size h within reload readable stored =
      elim (Result-cases (get_latest_checkpoint db s)) [
        | inl ((n, cp, range), found) ↦ elim (Bool-cases (leb n size)) [
          | inl le ↦
              rw (found, merkle_root)
                (rw le (
                  rw (stored n cp range found)
                    (rw (reload n) (root_from_lem leaves s n size h (ground (arith, le)) within))))
          | inr more ↦
              rw (found, merkle_root)
                (rw more (root_from_lem leaves s 0 size h (omega arith) within))
        ]
        | inr (no_data, none_yet) ↦
            rw (none_yet, merkle_root) (root_from_lem leaves s 0 size h (omega arith) within)
        | inr (other e, failed) ↦ absurd (readable e failed)
      ]
