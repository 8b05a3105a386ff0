-- ===== src/Serverless/Gcs/Tests.antt =====
-- A leaf that is sequenced while another sequencer takes the first number.
use trillian_serverless.Base.{
  ℕ, ◌≤◌, ◌=?◌, false, ◌≡◌, refl, ℕ_discrete, bytes_eq, bytes_dec, [], ◌∷◌, Bytes, none, some, ok,
  inl, inr, Option-cases, arith,
}
use trillian_serverless.Base.Dict.{lookup, insert, lookup-insert}
use trillian_serverless.Std.Numbers.{format_uint, format_padded, digits_onto, digit}
use trillian_serverless.Std.Paths.{ascii, join_path, join_rest}
use trillian_serverless.Serverless.Layout.Paths.{seq_path, leaf_path, hex_bytes}
use trillian_serverless.Serverless.Storage.{seq_file}
use trillian_serverless.Serverless.Gcs.{Client, sequence, sequence_object, take_number, record_hash}
use trillian_serverless.Serverless.Gcs.Progress.{sequence-Returns}
use trillian_serverless.Serverless.Gcs.Laws.{Objects, in_memory, Kept, Entered, sequence-Entered}

abbrev take_first : Objects → Objects
take_first d = elim (lookup (seq_file [] 0) d) [
  | none ↦ insert (seq_file [] 0) (7 ∷ []) d
  | some _ ↦ d
]

take_first-Kept : (p : Bytes) (d : Objects) → Kept p d (take_first d)
take_first-Kept p d q b ne there = elim (Option-cases (lookup (seq_file [] 0) d)) [
  | inl free ↦
      rw (free, take_first)
        (rw (lookup-insert q (seq_file [] 0) (7 ∷ []) d) (ground (arith, there, free)))
  | inr (x, taken) ↦ rw (taken, take_first) there
]

abbrev leafhash : Bytes
leafhash = 1 ∷ 2 ∷ 3 ∷ 4 ∷ []

abbrev empty : Client (in_memory take_first)
empty = record { bucket = []; next_seq = 0 }

abbrev path : Bytes × Bytes
path = (ascii "leaves/01/02/03", ascii "04")

path_lem : leaf_path [] leafhash ≡ ok path
unfolding leaf_path join_path join_rest hex_bytes format_padded format_uint digits_onto digit
path_lem = refl

sequence-Entered_example :
    let leaf_object = join_path (path.0 ∷ path.1 ∷ []) in
    let (r, t) = sequence (in_memory take_first) 5 leafhash (9 ∷ []) empty in
    Kept leaf_object [] t.bucket × Entered leaf_object (9 ∷ []) [] t.bucket r
sequence-Entered_example =
    sequence-Entered take_first 5 leafhash (9 ∷ []) path empty path_lem
      (take_first-Kept (join_path (path.0 ∷ path.1 ∷ [])))

second_number : (sequence (in_memory take_first) 5 leafhash (9 ∷ []) empty).0 ≡ ok 1
unfolding sequence sequence_object take_number record_hash lookup insert seq_path leaf_path
    join_path join_rest hex_bytes format_padded format_uint digits_onto digit bytes_eq bytes_dec
    ℕ_discrete
second_number = refl

different_files : seq_file [] 1 =? seq_file [] 0 ≡ false
unfolding seq_path join_path join_rest format_padded format_uint digits_onto digit bytes_eq
    bytes_dec ℕ_discrete
different_files = refl

take_first-free :
    (d : Objects) → lookup (seq_file [] 1) d ≡ none → lookup (seq_file [] 1) (take_first d) ≡ none
take_first-free d h = elim (Option-cases (lookup (seq_file [] 0) d)) [
  | inl free ↦
      rw (free, take_first)
        (rw (lookup-insert (seq_file [] 1) (seq_file [] 0) (7 ∷ []) d) (rw different_files h))
  | inr (x, taken) ↦ rw (taken, take_first) h
]

sequence-Returns_example :
    (m : ℕ) × (0 ≤ m)
    × (m ≤ 1)
    × ((sequence (in_memory take_first) 5 leafhash (9 ∷ []) empty).0 ≡ ok m)
unfolding lookup
sequence-Returns_example =
    sequence-Returns take_first 1 5 leafhash (9 ∷ []) path empty path_lem take_first-free
      (omega arith) (omega arith) refl refl
