-- ===== src/Cas/Write.antt =====
-- server/internal/cas/store.go, Store.Write: an upload that the server cuts into chunks itself. The
-- cutter (a splitter of a library, under chunker.go's Split) is an argument: it gives the pieces that
-- it handed to the callback, each with its offset, and whether it ended without an error.
pub mod Stored
pub mod Recorded
pub mod Upload
use private_cloud.Prelude.{
  ℕ, ◌+◌, Bool, true, false, Option, none, some, List, [], ◌∷◌, ◌++◌, map, Text, length,
  if◌then◌else◌, Result, ok, err,
}
use private_cloud.Cas.Codec.{Libraries, Err, split_failed, compress_chunk, storage_key}
use private_cloud.Cas.Store.{
  Store, ChunkRow, Manifest, put_keyed, insert_chunk, row_of, find_manifest, entries_of,
}

-- WriteResult
pub record WriteResult : Type 0 where
  pub manifest : Manifest
  pub logical_size : ℕ
  pub new_chunks : ℕ
  pub deduped_chunks : ℕ
  pub new_bytes : ℕ
  pub reused_manifest : Bool

pub record Counts : Type 0 where
  pub created : ℕ
  pub deduped : ℕ
  pub bytes : ℕ

abbrev pub Piece : Type 0
Piece = ℕ × Text

abbrev pub hash_of : Libraries → Piece → Text
hash_of l (offset, plain) = l.sum plain

abbrev pub count_piece : Bool → ℕ → Counts → Counts
count_piece true n c = record c { deduped = c.deduped + 1 }
count_piece false n c = record c { created = c.created + 1; bytes = c.bytes + n }

-- The callback of Split: the bytes of each piece land on disk.
unfoldable pub place :
    Libraries → List Piece → Counts × List (Text × Text) → Counts × List (Text × Text)
unfolding put_keyed
place l [] (c, bs) = (c, bs)
place l ((offset, plain) ∷ ps) (c, bs) =
    let stored = (compress_chunk l plain).0 in
    let put = put_keyed (storage_key (l.sum plain)) stored bs in
    place l ps (count_piece put.0 (length stored) c, put.1)

-- totalSize
pub total_size_of : List Piece → ℕ
total_size_of [] = 0
total_size_of ((offset, plain) ∷ ps) = length plain + total_size_of ps

-- The upsert of the chunk rows.
unfoldable pub insert_rows : Libraries → List Piece → List ChunkRow → List ChunkRow
unfolding insert_chunk
insert_rows l [] cs = cs
insert_rows l ((offset, plain) ∷ ps) cs =
    insert_rows l ps (insert_chunk (row_of l (l.sum plain) plain) cs).1

abbrev pub entry_of : Libraries → Piece → Text × ℕ
entry_of l (offset, plain) = (l.sum plain, offset)

-- The transaction: the chunk rows, the manifest and its entries. `m` has the id of the new row.
pub record_pieces : Libraries → List Piece → Manifest → Store → Store
unfolding insert_rows entries_of
record_pieces l ps m st = record st {
  chunks = insert_rows l ps st.chunks;
  manifests = m ∷ st.manifests;
  entries = st.entries ++ entries_of m.id 0 (map (entry_of l) ps);
}

-- What Write does with the pieces once Split has ended; `st` has their bytes.
pub settle_write : Libraries → ℕ → Text → List Piece → Counts → Store → WriteResult × Store
unfolding find_manifest record_pieces total_size_of
settle_write l id content ps c st =
    let total = total_size_of ps in
    let m : Manifest = record {
      id = id;
      total_size = total;
      chunk_count = length ps;
      content_hash = l.sum content;
    } in
    let res : WriteResult = record {
      manifest = m;
      logical_size = total;
      new_chunks = c.created;
      deduped_chunks = c.deduped;
      new_bytes = c.bytes;
      reused_manifest = false;
    } in
    elim (find_manifest st (l.sum content) total (length ps) st.manifests) [
      | some old ↦ (record res { manifest = record m { id = old.id }; reused_manifest = true }, st)
      | none ↦ (res, record_pieces l ps m st)
    ]

abbrev pub no_counts : Counts
no_counts = record { created = 0; deduped = 0; bytes = 0 }

-- Write, with what it leaves: the bytes of the pieces stay also where Split fails.
pub write :
    Libraries → (Text → List Piece × Bool) → ℕ → Text → Store → Result Err WriteResult × Store
unfolding place settle_write
write l split id content st =
    let (ps, ended) = split content in
    let (c, bs) = place l ps (no_counts, st.blobs) in
    let st' = record st { blobs = bs } in
    if ended
    then (let (res, out) = settle_write l id content ps c st' in (ok res, out))
    else (err split_failed, st')
