-- ===== src/Serverless/Tests.antt =====
-- The serverless log at concrete data: layouts, tiles, and clients with a toy Merkle library.
use trillian_serverless.Base.{
  ℕ, ◌*◌, ◌/◌, ◌^◌, ◌≤◌, ◌≡◌, ◌⊎◌, refl, arith, String, List, [], ◌∷◌, ◌++◌, Bytes, none, some, ok,
  err, if◌then◌else◌, ◌==◌, replicate, bytes_eq,
}
use trillian_serverless.Formats.{Checkpoint, Signature, Verifier, Hashes, ParseCheckpoint}
use trillian_serverless.Serverless.Layout.Tile.{
  partial_tile_size, partial_tile_size_lem, tile_width, tile_address-injective,
}
use trillian_serverless.Serverless.Layout.Paths.{seq_path, seq_from_path}
use trillian_serverless.Serverless.Layout.Paths.Laws.{full_path, seq_from_path-seq_path}
use trillian_serverless.Serverless.Api.{marshal_text, unmarshal_text}
use trillian_serverless.Serverless.Api.TileText.{unmarshal_text-marshal_text, refill}
use trillian_serverless.Serverless.Client.{
  ClientError, Fetcher, Merkle, ProofBuilder, new_proof_builder, new_node_cache,
  set_ephemeral_nodes, fetch_range_nodes, get_nodes, consistency_proof, fetch_nodes,
}
use trillian_serverless.Serverless.Client.Tracker.{
  Found, ConsensusFunc, Tracker, update, prove_growth,
}
use trillian_serverless.Serverless.Client.Tracker.Laws.{
  moved, Proven, Unproven, update-moved, update_not_larger,
}
use trillian_serverless.Serverless.Client.Consistency.{check_sorted, check_loop}
use trillian_serverless.Serverless.Client.Consistency.Laws.{check_sorted_ignores_last}
use trillian_serverless.Serverless.Consensus.{
  answers, sent, best_of, get_checkpoint_n, checkpoint_n_consensus,
}
use trillian_serverless.Serverless.Consensus.Laws.{Qualified, checkpoint_n_consensus-best}

-- The second tile of the lowest level, in a log of 260 leaves, has 4 of them.
partial_tile_size_lem_example :
    let p = partial_tile_size 0 1 260 in
    (if p == 0 then 256 else p) ≡ tile_width (260 / 2 ^ (0 * 8)) 1
partial_tile_size_lem_example = partial_tile_size_lem 0 1 260 (omega arith) (omega arith)

four : partial_tile_size 0 1 260 ≡ 4
unfolding partial_tile_size
four = refl

tile_address-injective_example : let l : ℕ = 9 in let i : ℕ = 5 in (l ≡ 9) × (i ≡ 5)
tile_address-injective_example = tile_address-injective 9 9 5 5 refl refl refl

seq_from_path-seq_path_example :
    seq_from_path (1 ∷ []) (full_path (seq_path (1 ∷ []) 4660)) ≡ ok 4660
seq_from_path-seq_path_example = seq_from_path-seq_path (1 ∷ []) 4660 (omega arith)

unmarshal_text-marshal_text_example :
    unmarshal_text (
      marshal_text
        (record { num_leaves = 2; nodes = (some (1 ∷ []) ∷ none ∷ []) ++ some (7 ∷ []) ∷ [] }))
    ≡ ok (record {
      num_leaves = 2;
      nodes = refill (some (1 ∷ []) ∷ none ∷ []) ++ some (7 ∷ []) ∷ [];
    })
unmarshal_text-marshal_text_example =
    unmarshal_text-marshal_text 2 (some (1 ∷ []) ∷ none ∷ []) 7 [] (omega arith)
      (((omega arith), tt), (tt, tt)) (omega arith, tt)

-- A Merkle library in which every tree has the empty root, and every proof holds.
abbrev toy : Merkle Hashes
toy = record {
  compact = record {
    new_range = λ b e hs. ok hs;
    get_root_hash = λ r. ok [];
    append_range = λ r d. (d, ok tt);
    hashes = λ r. r;
  };
  range_nodes = λ b e. [];
  root_nodes = λ r. ok ([], []);
  inclusion = λ i n. err "none";
  consistency = λ a b. ok (record { ids = []; rehash = λ hs. ok hs });
  verify_consistency = λ a b p r s. ok tt;
}

abbrev no_files : Fetcher
no_files p = err ClientError.not_found

abbrev cp : ℕ → Bytes → Checkpoint
cp n h = record { origin = "log"; size = n; hash = h }

abbrev signature : Signature
signature = record { name = "s"; key_hash = 0; base64 = [] }

abbrev found : ℕ → Found
found n = record {
  cp = cp n [];
  raw = n ∷ [];
  note = record { text = []; sigs = []; unverified = [] };
}

abbrev verifier : Verifier
verifier = record { name = "log"; key_hash = 1; key = [] }

abbrev tracker : Tracker
tracker = record {
  cp_sig_verifier = verifier;
  origin = "log";
  latest_consistent_raw = 9 ∷ [];
  latest_consistent = cp 9 [];
  checkpoint_note = none;
}

abbrev consensus : ℕ → ConsensusFunc
consensus n v origin = ok (found n)

grows : update toy no_files (consensus 12) tracker ≡ (
  ok (record { old_raw = 9 ∷ []; proof = []; new_raw = 12 ∷ [] }),
  moved toy no_files tracker (found 12),
)
unfolding update prove_growth new_proof_builder fetch_range_nodes get_nodes consistency_proof
    fetch_nodes bytes_eq
grows = refl

update-moved_example :
    let t = tracker in
    let (r, t') = update toy no_files (consensus 12) t in
    ((e : ClientError) × (r ≡ err e) × (t' ≡ t))
    ⊎ ((c : Found) × (p : Hashes) × (consensus 12 t.cp_sig_verifier t.origin ≡ ok c)
        × (r ≡ ok (record { old_raw = t.latest_consistent_raw; proof = p; new_raw = c.raw }))
        × (t' ≡ moved toy no_files t c)
        × (Proven toy no_files t c p ⊎ Unproven toy no_files t c p))
update-moved_example = update-moved toy no_files (consensus 12) tracker

-- From size 9 back to size 3.
update_not_larger_example : update toy no_files (consensus 3) tracker ≡ (
  ok (record { old_raw = 9 ∷ []; proof = []; new_raw = 3 ∷ [] }),
  moved toy no_files tracker (found 3),
)
update_not_larger_example =
    update_not_larger toy no_files (consensus 3) tracker (found 3) refl (omega arith)

abbrev builder : ProofBuilder
builder = record { cp = cp 8 []; node_cache = new_node_cache 8 }

builds : new_proof_builder toy (cp 8 []) no_files ≡ ok builder
unfolding new_proof_builder fetch_range_nodes get_nodes set_ephemeral_nodes bytes_eq
builds = refl

-- Whatever hash stands at the size that the last two share.
check_sorted_ignores_last_example :
    check_sorted toy no_files (cp 2 [] ∷ cp 8 (1 ∷ []) ∷ [] ++ cp 8 [] ∷ [])
    ≡ check_loop toy no_files 2 0
        (cp 2 [])
        (cp 8 (1 ∷ []))
        (cp 2 [] ∷ cp 8 (1 ∷ []) ∷ cp 9 [] ∷ [])
        builder
check_sorted_ignores_last_example =
    check_sorted_ignores_last toy no_files (cp 2 []) (cp 8 (1 ∷ [])) [] (cp 8 []) (cp 9 []) builder
      builds

-- A parser by which a file is a size, a hash and a number of signatures.
abbrev parse_toy : ParseCheckpoint
parse_toy (size ∷ n ∷ []) origin v vs = ok (
  record { origin = origin; size = size; hash = [] },
  record { text = size ∷ []; sigs = replicate n signature; unverified = [] },
)
parse_toy _ origin v vs = err "malformed"

abbrev file : Bytes → Fetcher
file b p = ok b

checkpoint_n_consensus-best_example :
    (k : List Fetcher → ConsensusFunc) × (checkpoint_n_consensus parse_toy
        (1 ∷ [])
        (verifier ∷ verifier ∷ [])
        1
      ≡ ok k)
    × ((fs : List Fetcher) (v : Verifier) (origin : String)
        → let all = sent (answers parse_toy (1 ∷ []) (verifier ∷ verifier ∷ []) 1 fs v origin) in
          ((c : Found) × (k fs v origin ≡ ok c)
            × Qualified 1 c all
            × ((d : Found) → Qualified 1 d all → d.cp.size ≤ c.cp.size))
          ⊎ ((e : ClientError) × (k fs v origin ≡ err e) × ((d : Found) → Qualified 1 d all → ⊥)))
checkpoint_n_consensus-best_example =
    checkpoint_n_consensus-best parse_toy (1 ∷ []) (verifier ∷ verifier ∷ []) 1 (omega arith)

-- The larger of the two that have enough signatures, not the largest.
picks :
    best_of 1
      (sent (
        answers parse_toy [] [] 1
          (file (5 ∷ 2 ∷ []) ∷ no_files ∷ file (9 ∷ 1 ∷ []) ∷ file (7 ∷ 2 ∷ []) ∷ [])
          verifier
          "log"))
      none
    ≡ some (record {
      cp = record { origin = "log"; size = 7; hash = [] };
      raw = 7 ∷ 2 ∷ [];
      note = record { text = 7 ∷ []; sigs = replicate 2 signature; unverified = [] };
    })
unfolding best_of sent answers get_checkpoint_n
picks = refl
