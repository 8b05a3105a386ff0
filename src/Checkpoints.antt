-- ===== src/Checkpoints.antt =====
-- Combining the signatures of several checkpoints
-- (formats/checkpoints/combine_signatures.go). The functions of the note format are parameters.
use trillian_serverless.Base.{
  ℕ, Bool, true, false, List, [], ◌∷◌, ◌++◌, map, Bytes, Option, none, some, Result, ok, err, ◌>>=◌,
  or_fail, expect, String, Eq, ◌=?◌, bytes_eq, ℕ_discrete, if◌then◌else◌, ltb, ◌==◌,
}
use trillian_serverless.Base.Dict.{Dict, insert}
use trillian_serverless.Formats.{Note, Signature, Verifier}

-- The errors of `note.Open`: no signature could be verified, with the note; or any other.
pub data OpenError : Type 0 where
  unverified_note : Note → OpenError
  other : String → OpenError

-- `note.Open` with a list of verifiers, of which one may be nil, and `note.Sign` without signers.
pub record Notes : Type 0 where
  pub open_note : Bytes → List (Option Verifier) → Result OpenError Note
  pub sign_note : Note → Result String Bytes

-- `panic` is an index out of range, or the use of a nil note.
pub data CombineError : Type 0 where
  failed : String → CombineError
  panic : CombineError

instance unfoldable pub hash_eq : Eq ℕ
unfolding ℕ_discrete
hash_eq = record { dec = ℕ_discrete }

-- The note without the other signatures: the log's is first.
unfoldable pub first_note : Note → Result CombineError Note
first_note n = elim n.sigs [
  | [] ↦ err panic
  | s ∷ _ ↦ ok (record { text = n.text; sigs = s ∷ []; unverified = [] })
]

-- The signatures of a checkpoint by the known witnesses, by their key hash.
unfoldable pub gather : List Signature → Dict ℕ Signature → Dict ℕ Signature
gather [] sigs = sigs
gather (s ∷ ss) sigs = gather ss (insert s.key_hash s sigs)

-- What `note.Open` with the witnesses gives: a note that nobody signed is one too.
unfoldable pub open_witnessed : Notes → Bytes → List (Option Verifier) → Result CombineError Note
open_witnessed notes cp vs = elim (notes.open_note cp vs) [
  | err (unverified_note n) ↦ ok n
  | err (other _) ↦ err (failed "failed to open checkpoint")
  | ok n ↦ ok n
]

-- The loop over the checkpoints. `ret` is nil before the first.
unfoldable pub combine_loop :
    Notes
    → Verifier
    → List (Option Verifier)
    → List Bytes
    → Option Note
    → Dict ℕ Signature
    → Result CombineError (Option Note × Dict ℕ Signature)
combine_loop notes log_v wit_vs [] ret sigs = ok (ret, sigs)
combine_loop notes log_v wit_vs (cp ∷ cps) ret sigs = do
  by_log ←
      or_fail (notes.open_note cp (some log_v ∷ [])) (λ _. failed "checkpoint is not signed by log")
  kept ← elim ret [ none ↦ first_note by_log | some r ↦ ok r ]
  by_wits ← open_witnessed notes cp wit_vs
  if by_wits.text =? kept.text
      then combine_loop notes log_v wit_vs cps (some kept) (gather by_wits.sigs sigs)
      else err (failed "checkpoint has differing content")

-- The order of `sort.Slice`: the log's key first, then by key hash.
unfoldable pub comes_first : ℕ → Signature → Signature → Bool
comes_first log_hash a b =
    if a.key_hash == log_hash
    then true
    else if b.key_hash == log_hash
    then false
    else ltb a.key_hash b.key_hash

unfoldable pub insert_signature : ℕ → Signature → List Signature → List Signature
insert_signature log_hash s [] = s ∷ []
insert_signature log_hash s (t ∷ ts) =
    if comes_first log_hash s t then s ∷ t ∷ ts else t ∷ insert_signature log_hash s ts

unfoldable pub sort_signatures : ℕ → List Signature → List Signature
unfolding insert_signature
sort_signatures log_hash [] = []
sort_signatures log_hash (s ∷ ss) = insert_signature log_hash s (sort_signatures log_hash ss)

abbrev signatures : Dict ℕ Signature → List Signature
signatures sigs = map (λ p. p.1) sigs

unfoldable pub combine :
    Notes → List Bytes → Verifier → List (Option Verifier) → Result CombineError Bytes
combine notes cps log_v wit_vs = do
  done ← combine_loop notes log_v wit_vs cps none []
  ret ← expect done.0 panic
  let sigs = sort_signatures log_v.key_hash (ret.sigs ++ signatures done.1)
  or_fail (notes.sign_note (record { text = ret.text; sigs = sigs; unverified = ret.unverified }))
      failed
