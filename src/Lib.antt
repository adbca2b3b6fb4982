-- ===== src/Lib.antt =====
-- A model of the core of Private Cloud, a self-hosted file server written in Go, with the theorems
-- that make it correct.
--
-- The parts, and the file of each:
--
-- * Jobs (server/internal/jobs/store.go): the queue of deferred work in the table `jobs`. Each SQL
--   statement is a function of the table and of now(). Jobs/Table.antt has the row, the states and
--   the partial unique index on pending jobs (server/internal/db/migrations/00011_jobs.sql),
--   Jobs.antt the operations of Store: enqueue, claim, complete, fail, reap_stale, delete_finished,
--   delete_stale_queued and retry_failed; Jobs/Bulk.antt has the bulk enqueues over the live files,
--   list_failed and stats, Jobs/Taking.antt what a claim takes. Jobs/Steps.antt has the relation of
--   one statement after another, by any workers.
-- * Cas (server/internal/cas): content-addressed storage. Cas/Codec.antt has the per-chunk
--   compression and the keys (chunker.go), Cas/Store.antt the tables chunks, manifests and
--   manifest_chunks, the blob store's PutKeyed (server/internal/blob/blob.go) and the delta
--   protocol (delta.go), Cas/Write.antt the upload that the server cuts itself (store.go),
--   Cas/Reader.antt the seekable reader (reader.go), and Cas/Collect.antt the garbage collector
--   (gc.go, with its loops in server/internal/files/service.go). The upload and the delta protocol
--   fill the tables that the reader reads and that the collector empties; a file version
--   (`versions`) is what keeps a manifest.
-- * Shares (server/internal/shares): public links. Shares.antt has the rows and the operations of
--   store.go and service.go, Shares/Downloads.antt any interleaving of charges and revocations.
-- * Media (server/internal/media/mkv.go): the EBML framing that a Matroska file is made of.
-- * Tiering (server/internal/jobs/tiering/tiering.go): the sweep that moves cold content away;
--   Tiering/Restoring.antt has Restore and Touch, Tiering/Touching.antt the calls of Touch in a
--   row.
-- * Blob (server/internal/blob/blob.go and tiered.go): the stores of bytes under keys.
--   Blob/Keys.antt has the keys and their paths, Blob/Disk.antt the local store with the staging
--   files of uploads, and Blob/Tiered.antt the store with an object store behind it;
--   Blob/Tiered/Runs.antt has the runs in which operations and promotions interleave, and Open
--   takes several steps (`Pauses`).
-- * Files (server/internal/files): Files/Names.antt and Files/Paths.antt have the names and the
--   paths (models.go, and the statements of store.go that match and cut paths), Files/Tree.antt the
--   operations on the table `nodes` (store.go; server/internal/db/migrations/00003_files.sql),
--   Files/Tree/Steps.antt the runs of them, Files/Versions.antt the usage of an owner, its quota
--   and PutFile, Files/Versions/History.antt what happens to versions afterwards and
--   Files/Versions/Listings.antt the lists of them (versions.go), and Files/Uploads.antt the
--   resumable uploads (uploads.go), whose bytes are in the staging files of Blob.
--
-- Prelude has what they share: Boolean tests on numbers, lists, bytes and results. The modules
-- named Examples run the theorems on small inputs.
--
-- How the code is read. A uuid and a time are numbers, a time in the table of jobs in microseconds;
-- `string` and `[]byte` are lists of bytes; a pointer that may be nil is an Option; an error is a
-- value of the component's type Err. A transaction is one function, and what runs between two
-- statements of one call that are in no transaction (Enqueue, CreateFolder, Open of the tiered
-- store) is a separate argument or step. Failures of the connection to the database are not
-- modelled, except where a call's error changes what the code does next.
--
-- Libraries are parameters: BLAKE3 and zstd (`Libraries` of Cas.Codec, with the round trip of zstd
-- as its one law), the cutter of uploads (an argument of `write`), SHA-256, HMAC, argon2 and the
-- file service under the shares (`Services` of Shares), and the tiered blob store's Demote and
-- whether the database carries out MarkCold (`Services` of Tiering) and Warm (an argument of
-- `restore`). That a digest meets no other content (`IsUncollided`) is a named hypothesis. The
-- object store behind TieredStore is an interface (`Cold`), with what its documentation promises of
-- its contents as the record `Honest`; a failure of a system call is an argument (`Faults`), and so
-- is what a client's request body brings (`Copied`). strings.ToLower is the argument `fold`.
--
-- Fuel. The loop over EBML elements runs on as much fuel as there are bytes, since each round
-- consumes two at least; more fuel gives the same. findEBML's recursion is bounded by the source's
-- own depth of 8. io.ReadAll's loop over the reader has one round more than bytes are left.
--
-- Not modelled: the client (client/internal); of the file service the deletes from the trash, the
-- finishing of an upload and fsck; the requests to S3, billing, the HTTP handlers and their rate
-- limit, search and embeddings, and the remaining media formats; of the components above, the
-- remaining listings, the walks over directories, and what mkv.go does with floating-point values.
mod Prelude
pub mod Jobs
pub mod Cas
pub mod Shares
pub mod Media
pub mod Tiering
pub mod Blob
pub mod Files
