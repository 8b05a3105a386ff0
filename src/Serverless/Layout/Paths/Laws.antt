-- ===== src/Serverless/Layout/Paths/Laws.antt =====
-- Reading a sequence number back from its path.
use trillian_serverless.Base.{
  ℕ, ◌*◌, ◌+◌, ◌/◌, ◌%◌, ◌^◌, ◌<◌, ◌≡◌, refl, ◌∙◌, ap, [], ◌∷◌, ◌++◌, append_assoc, some, ok, Bytes,
  arith,
}
use trillian_serverless.Std.Numbers.{
  digit, format_padded-byte, parse_uint, parse_digits, parse_digits-digit,
}
use trillian_serverless.Std.Paths.{ascii, slash, join_path, strip_prefix, strip_prefix-append}
use trillian_serverless.Serverless.Layout.Paths.{seq_path, seq_from_path, byte_at, check_separators}

-- Two hexadecimal digits.
abbrev two : ℕ → Bytes
two n = digit (n / 16) ∷ digit (n % 16) ∷ []

-- What follows the directory `seq` in the path of an entry.
abbrev tail_of : ℕ → ℕ → ℕ → ℕ → ℕ → Bytes
tail_of a b c d e =
    slash ∷ two a ++ slash ∷ two b ++ slash ∷ two c ++ slash ∷ two d ++ slash ∷ two e

abbrev dirs : ℕ → ℕ → ℕ → ℕ → Bytes
dirs a b c d = slash ∷ two a ++ slash ∷ two b ++ slash ∷ two c ++ slash ∷ two d

parse_two :
    (acc n : ℕ) (cs : Bytes)
    → n < 256
    → parse_digits 16 acc (two n ++ cs) ≡ parse_digits 16 (acc * 256 + n) cs
parse_two acc n cs h =
    parse_digits-digit 16 acc (n / 16) (digit (n % 16) ∷ cs) (omega arith) (omega arith)
    ∙ (parse_digits-digit 16 (acc * 16 + n / 16) (n % 16) cs (omega arith) (omega arith)
        ∙ ap (λ x. parse_digits 16 x cs) (omega arith))

-- The number whose bytes these are.
abbrev number : ℕ → ℕ → ℕ → ℕ → ℕ → ℕ
number a b c d e = (((a * 256 + b) * 256 + c) * 256 + d) * 256 + e

-- Five bytes.
abbrev AreFive : ℕ → ℕ → ℕ → ℕ → ℕ → Type 0
AreFive a b c d e = (a < 256) × (b < 256) × (c < 256) × (d < 256) × (e < 256)

parse_nil : (acc : ℕ) → parse_digits 16 acc [] ≡ some acc
unfolding parse_digits
parse_nil acc = refl

parse_five :
    (a b c d e : ℕ)
    → AreFive a b c d e
    → parse_digits 16 0 (two a ++ two b ++ two c ++ two d ++ two e) ≡ some (number a b c d e)
parse_five a b c d e (ha, hb, hc, hd, he) =
    parse_two 0 a (two b ++ two c ++ two d ++ two e) ha
    ∙ (parse_two _ b (two c ++ two d ++ two e) hb
        ∙ (parse_two _ c (two d ++ two e) hc
            ∙ (parse_two _ d (two e) hd
                ∙ (parse_two _ e [] he ∙ (parse_nil _ ∙ ap some (omega arith))))))

parse_uint_five :
    (a b c d e : ℕ)
    → AreFive a b c d e
    → parse_uint 16 64 (two a ++ two b ++ two c ++ two d ++ two e) ≡ some (number a b c d e)
parse_uint_five a b c d e h = unfold parse_uint in rw (parse_five a b c d e h) (ground arith)

read_tail :
    (root path : Bytes) (a b c d e : ℕ)
    → AreFive a b c d e
    → strip_prefix (join_path (root ∷ ascii "seq" ∷ [])) path ≡ some (tail_of a b c d e)
    → seq_from_path root path ≡ ok (number a b c d e)
unfolding seq_from_path
read_tail root path a b c d e h p =
    rw p (unfold check_separators in rw (parse_uint_five a b c d e h))

strip_dir : (r d t f : Bytes) → strip_prefix (r ++ d) ((r ++ (d ++ t)) ++ f) ≡ some (t ++ f)
strip_dir r d t f =
    let e : (r ++ (d ++ t)) ++ f ≡ (r ++ d) ++ (t ++ f) = simp append_assoc in
    rw e (strip_prefix-append (r ++ d) (t ++ f))

-- The five bytes of a sequence number of at most 40 bits.
seq_bytes :
    (seq : ℕ)
    → seq < 2 ^ 40
    → AreFive (seq / 2 ^ 32) (byte_at seq 3) (byte_at seq 2) (byte_at seq 1) (byte_at seq 0)
      × (number (seq / 2 ^ 32) (byte_at seq 3) (byte_at seq 2) (byte_at seq 1) (byte_at seq 0)
          ≡ seq)
seq_bytes seq h = omega arith

-- The path of an entry, as `filepath.Join` puts it together from what `SeqPath` returns.
abbrev pub full_path : Bytes × Bytes → Bytes
full_path (dir, file) = join_path (dir ∷ file ∷ [])

strip_seq_path :
    (root : Bytes) (seq : ℕ)
    → seq < 2 ^ 40
    → strip_prefix (join_path (root ∷ ascii "seq" ∷ [])) (full_path (seq_path root seq))
      ≡ some
          (tail_of (seq / 2 ^ 32) (byte_at seq 3) (byte_at seq 2) (byte_at seq 1) (byte_at seq 0))
unfolding seq_path join_path
strip_seq_path [] seq h = rw (format_padded-byte (seq / 2 ^ 32) (omega arith)) (
    rw (format_padded-byte (byte_at seq 3) (omega arith)) (
      rw (format_padded-byte (byte_at seq 2) (omega arith)) (
        rw (format_padded-byte (byte_at seq 1) (omega arith)) (
          rw (format_padded-byte (byte_at seq 0) (omega arith)) (
            strip_dir [] (ascii "seq")
              (dirs (seq / 2 ^ 32) (byte_at seq 3) (byte_at seq 2) (byte_at seq 1))
              (slash ∷ two (byte_at seq 0)))))))
strip_seq_path (c ∷ p) seq h = rw (format_padded-byte (seq / 2 ^ 32) (omega arith)) (
    rw (format_padded-byte (byte_at seq 3) (omega arith)) (
      rw (format_padded-byte (byte_at seq 2) (omega arith)) (
        rw (format_padded-byte (byte_at seq 1) (omega arith)) (
          rw (format_padded-byte (byte_at seq 0) (omega arith)) (
            strip_dir (c ∷ p) (slash ∷ ascii "seq")
              (dirs (seq / 2 ^ 32) (byte_at seq 3) (byte_at seq 2) (byte_at seq 1))
              (slash ∷ two (byte_at seq 0)))))))

-- A sequence number of at most 40 bits comes back from its path, for any root.
pub seq_from_path-seq_path :
    (root : Bytes) (seq : ℕ)
    → seq < 2 ^ 40
    → seq_from_path root (full_path (seq_path root seq)) ≡ ok seq
seq_from_path-seq_path root seq h =
    let (five, whole) = seq_bytes seq h in
    read_tail root _ (seq / 2 ^ 32) (byte_at seq 3) (byte_at seq 2) (byte_at seq 1) (byte_at seq 0)
      five (strip_seq_path root seq h)
    ∙ ap ok whole
