-- ===== src/Lib.antt =====
-- The checked model of the transparency tools of this repository: witnesses, serverless logs and
-- their clients, the cloner, the distributor, the feeder, the firmware bundles and the SumDB auditor.
--
-- The parts, and how they work together. A log publishes signed checkpoints (its size and root
-- hash). A feeder fetches a checkpoint and offers it to a witness with a proof that it extends what
-- the witness holds; the witness checks the proof, stores the checkpoint and signs it. A distributor
-- gathers the signed checkpoints, by log and witness. A client of a serverless log reads checkpoints,
-- from the log or by the consensus of distributors, and tiles of the tree, from which it builds
-- proofs. Its log is written by sequencing leaves into files and integrating them into the
-- tiles and the next root. The cloner downloads the leaves of a log into a database.
-- The auditor of the Go checksum database keeps its leaves and tiles, and checks each new checkpoint
-- against them. The firmware witness follows a log of firmware statements, stores each checkpoint that
-- it finds consistent and serves it.
--
-- The files. Names are those of the code, in snake case; a record stands for a struct, and the state
-- that a call changes is passed in and out.
--   Base: shared names, lists, results (a Go `value, error` is a `Result`; a call that
--     also changes a state is an `Exec`), equality, dictionaries.
--   Std: what the code uses of Go's standard library, as far as the properties need its text:
--     base64, lines, numbers and paths, and the calls of `os`.
--   Formats: checkpoints, notes and keys, and the Merkle functions, which are parameters.
--   Witness: witness/golang/internal/witness and witness/golang/internal/persistence. Status are the
--     status errors, Proof is proof.go, Persistence the interface and inmemory.go, Update is
--     witness.go. Update.prepare is `Witness.Update` up to the point where it holds a write handle,
--     Update.finish_prepared the rest; between the two, other updates may run. Http is the handlers of
--     witness/golang/internal/http/server.go and the client in witness/golang/client/http.
--   Serverless.Layout: serverless/api/layout. Serverless.Api: serverless/api/state.go.
--   Serverless.Client: serverless/client/client.go: the proof builder and the node cache, in Tracker
--     `LogStateTracker`, in Consistency `CheckConsistency` and the reads of leaves.
--   Serverless.Consensus: serverless/client/witness/consensus.go.
--   Clone: clone/internal/download/batch.go (Bulk) and clone/internal/cloner/clone.go (Cloner),
--     clone/logdb/database.go (Database; Rows, Checkpoints and Cloned hold its proofs)
--     and clone/internal/verify/verify.go (Verify).
--   Serverless.Storage: serverless/internal/storage/fs/fs.go, over the calls of `os` in Std.Files; Names,
--     Steps, Sequenced and TileFiles hold proofs on files in memory.
--   Serverless.Gcs: serverless/experimental/gcp-log/internal/storage/storage.go, over the calls of a
--     bucket; Laws and Progress hold proofs on a bucket in memory that others write to.
--   Serverless.Integrate: serverless/pkg/log/integrate.go; Cache and Bounds hold proofs on its tiles.
--   Serverless.Slots: serverless/deploy/github/distributor/combine_witness_signatures, its
--     internal/distributor/state.go; Order holds proofs on its sort.
--   Checkpoints: formats/checkpoints/combine_signatures.go.
--   Distributor: distributor/cmd/internal/distributor/distributor.go; Witnessed is its
--     `GetCheckpointN`.
--   Feeder: internal/feeder/feeder.go; Feeder.SumDb is internal/feeder/sumdb/sumdb_feeder.go, with
--     proofs in Laws and Partial.
--   Firmware: binary_transparency/firmware/internal/verify/bundle.go, with the signature check.
--     Firmware.Log is the checkpoints of binary_transparency/firmware/api/http.go and the calls of
--     internal/client/client.go below the same folder, Firmware.Follower is internal/client/follower.go
--     (Entries holds proofs), Firmware.Store and Firmware.Witness are cmd/ft_witness, its
--     internal/ws/store.go and internal/http/witness.go (Restart and Progress hold proofs, on a file in memory).
--   MapVerifier: experimental/batchmap/sumdb/verification/inclusion.go; Complete holds
--     proofs.
--   NoteVerifier: internal/note/note_verifier.go.
--   SumDb: sumdbaudit/client/sumdb.go (Client), sumdbaudit/audit/database.go (Database) and
--     sumdbaudit/audit/service.go (Service: the checks of a checkpoint; Service.Sync: `Sync` with the
--     cloning and hashing, and `VerifyTiles`; Service.Leaf and Service.Process: `ProcessMetadata`).
--     Levels, Frame, Records, Reads, Outcome, Slices, Cloned, Hashed, Accepts and Verified hold proofs.
-- The files Laws, Outcomes, Growth and History hold proofs; the files Tests hold examples.
--
-- Parameters: the checkpoint parser and the signer, the Merkle tree functions, the fetchers, the SQL
-- databases, the witness that a feeder talks to, and the cryptography of keys and maps. What a property needs of them is a hypothesis.
--
-- Bounds and fuel. uint64 wraps where the layout shifts; sizes and indices that the code only
-- counts up stay far below 2^64 and are plain numbers. The round robin of the download runs on
-- fuel, one more than the leaves that are missing: every turn but the last sends at least one. The
-- retries of the feeder run on a number of attempts, after which the context is done. Sequence and
-- ScanSequenced of the file storage and of the bucket run on a number of tries and of entries. The auditor's count of
-- levels has 64 rounds, enough for sizes below 2^64 where a tile has more than one leaf, its tile
-- paths 7, enough for offsets below 2^64, the broker of the feeder 8, and `VerifyTiles` a number of tiles. All other loops follow
-- a list.
--
-- Not modelled: command lines, the routing and the transport of HTTP, SQL statements, logging,
-- progress reports and the cancelling of contexts; the text of an error beyond its constant part;
-- the browser's storage, the feeders for single logs but SumDB's, the distribution to GitHub but for its slots,
-- the rest of the firmware demonstration and the building of maps, which have little or no
-- part in the above.
pub mod Base
pub mod Std
pub mod Formats
pub mod Checkpoints
pub mod Witness
pub mod Serverless
pub mod Clone
pub mod Distributor
pub mod Feeder
pub mod Firmware
pub mod MapVerifier
pub mod NoteVerifier
pub mod SumDb
