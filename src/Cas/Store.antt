-- ===== src/Cas/Store.antt =====
-- server/internal/cas/store.go, delta.go and blob/blob.go's PutKeyed: the blob store and the tables
-- chunks, manifests, manifest_chunks and file_versions, and the delta protocol over them.
use private_cloud.Prelude.{
  ℕ, ◌+◌, Bool, true, false, not, ◌&&◌, ◌||◌, Option, none, some, List, [], ◌∷◌, ◌++◌, Text,
  text_eq, any, length, ltb, ◌==◌, if◌then◌else◌, Result, ok, err, ◌>>=◌, or_fail,
}
use private_cloud.Cas.Codec.{
  Libraries, Compression, Err, hash_mismatch, chunk_too_large, empty_manifest, missing_chunk,
  chunk_not_found, content_hash_mismatch, corrupt_chunk, max_chunk_size, compress_chunk, decompress,
  storage_key,
}

pub record ChunkRow : Type 0 where
  pub hash : Text
  pub size : ℕ
  pub stored_size : ℕ
  pub compression : Compression
  pub key : Text

pub record Manifest : Type 0 where
  pub id : ℕ
  pub total_size : ℕ
  pub chunk_count : ℕ
  pub content_hash : Text

-- A row of manifest_chunks.
pub record ManifestChunk : Type 0 where
  pub manifest_id : ℕ
  pub seq : ℕ
  pub chunk_hash : Text
  pub byte_offset : ℕ

-- `versions` has the manifest of each row of file_versions that has one.
pub record Store : Type 0 where
  pub blobs : List (Text × Text)
  pub chunks : List ChunkRow
  pub manifests : List Manifest
  pub entries : List ManifestChunk
  pub versions : List ℕ

unfoldable pub find_blob : Text → List (Text × Text) → Option Text
find_blob key [] = none
find_blob key ((k, b) ∷ bs) = if text_eq k key then some b else find_blob key bs

unfoldable pub find_chunk : Text → List ChunkRow → Option ChunkRow
find_chunk h [] = none
find_chunk h (c ∷ cs) = if text_eq c.hash h then some c else find_chunk h cs

abbrev pub is_found {ℓ} : {A : Type ℓ} → Option A → Bool
is_found none = false
is_found (some a) = true

-- FSStore.PutKeyed: what is already there is kept.
unfoldable pub put_keyed : Text → Text → List (Text × Text) → Bool × List (Text × Text)
unfolding find_blob
put_keyed key bytes bs =
    if is_found (find_blob key bs) then (true, bs) else (false, (key, bytes) ∷ bs)

-- INSERT INTO chunks ... ON CONFLICT (hash) DO NOTHING, and whether it inserted.
unfoldable pub insert_chunk : ChunkRow → List ChunkRow → Bool × List ChunkRow
unfolding find_chunk
insert_chunk c cs = if is_found (find_chunk c.hash cs) then (false, cs) else (true, c ∷ cs)

abbrev pub row_of : Libraries → Text → Text → ChunkRow
row_of l hash plain = record {
  hash = hash;
  size = length plain;
  stored_size = length (compress_chunk l plain).0;
  compression = (compress_chunk l plain).1;
  key = storage_key hash;
}

-- The bytes land before the row does.
unfoldable pub put_chunk : Libraries → Text → Text → Store → Result Err (Bool × Store)
unfolding put_keyed insert_chunk
put_chunk l expected plain st =
    if length plain == 0 || ltb max_chunk_size (length plain)
    then err chunk_too_large
    else if not (text_eq (l.sum plain) expected)
    then err hash_mismatch
    else (let blobs' = (put_keyed (storage_key expected) (compress_chunk l plain).0 st.blobs).1 in
        let inserted = insert_chunk (row_of l expected plain) st.chunks in
        ok (inserted.0, record st { blobs = blobs'; chunks = inserted.1 }))

-- The stored bytes and the row of a chunk: both must be there.
unfoldable pub read_chunk_stored : Text → Store → Result Err (Text × ChunkRow)
unfolding find_chunk find_blob
read_chunk_stored h st = do
  c ← or_fail (find_chunk h st.chunks) chunk_not_found
  b ← or_fail (find_blob c.key st.blobs) chunk_not_found
  ok (b, c)

-- One round of the loop of verifyContentHash: the plaintext of a chunk, checked against its address.
unfoldable pub checked_plain : Libraries → Store → Text → Result Err Text
unfolding read_chunk_stored decompress
checked_plain l st h = do
  (b, c) ← read_chunk_stored h st
  plain ← decompress l b c.compression
  if text_eq (l.sum plain) h then ok plain else err corrupt_chunk

unfoldable pub reassemble : Libraries → Store → List Text → Result Err Text
unfolding checked_plain
reassemble l st [] = ok []
reassemble l st (h ∷ hs) = do
  plain ← checked_plain l st h
  rest ← reassemble l st hs
  ok (plain ++ rest)

unfoldable pub verify_content_hash : Libraries → Store → Text → List Text → Result Err (Unit {0})
unfolding reassemble
verify_content_hash l st expected hs = do
  whole ← reassemble l st hs
  if text_eq (l.sum whole) expected then ok tt else err content_hash_mismatch

-- The loop over the hashes: each chunk's offset, from `total` on, and the total after the last.
unfoldable pub geometry : List ChunkRow → ℕ → List Text → Result Err (List (Text × ℕ) × ℕ)
unfolding find_chunk
geometry cs total [] = ok ([], total)
geometry cs total (h ∷ hs) = do
  c ← or_fail (find_chunk h cs) missing_chunk
  (rest, end) ← geometry cs (total + c.size) hs
  ok ((h, total) ∷ rest, end)

abbrev pub is_live : Store → ℕ → Bool
is_live st id = any (λ v. v == id) st.versions

-- SELECT m.id FROM manifests m WHERE ... AND EXISTS (SELECT 1 FROM file_versions ...) LIMIT 1
unfoldable pub find_manifest : Store → Text → ℕ → ℕ → List Manifest → Option Manifest
find_manifest st hash total count [] = none
find_manifest st hash total count (m ∷ ms) =
    if text_eq m.content_hash hash
      && m.total_size == total
      && m.chunk_count == count
      && is_live st m.id
    then some m
    else find_manifest st hash total count ms

unfoldable pub entries_of : ℕ → ℕ → List (Text × ℕ) → List ManifestChunk
entries_of id i [] = []
entries_of id i ((h, off) ∷ rest) =
    record { manifest_id = id; seq = i; chunk_hash = h; byte_offset = off }
    ∷ entries_of id (i + 1) rest

-- The reuse of a live manifest, or the rows of a new one; `id` is what gen_random_uuid() gives. The
-- result says whether the manifest was reused.
unfoldable pub record_manifest :
    ℕ → Text → List (Text × ℕ) → ℕ → ℕ → Store → Manifest × Bool × Store
unfolding find_manifest entries_of
record_manifest id hash offsets total count st =
    let m : Manifest = record {
      id = id;
      total_size = total;
      chunk_count = count;
      content_hash = hash;
    } in
    elim (find_manifest st hash total count st.manifests) [
      | some old ↦ (record m { id = old.id }, true, st)
      | none ↦ (
        m,
        false,
        record st { manifests = m ∷ st.manifests; entries = st.entries ++ entries_of id 0 offsets },
      )
    ]

unfoldable pub commit_manifest :
    Libraries → ℕ → Text → List Text → Store → Result Err (Manifest × Bool × Store)
unfolding geometry verify_content_hash record_manifest
commit_manifest l id hash [] st = err empty_manifest
commit_manifest l id hash (h ∷ hs) st = do
  (offsets, total) ← geometry st.chunks 0 (h ∷ hs)
  _ ← verify_content_hash l st hash (h ∷ hs)
  ok (record_manifest id hash offsets total (length (h ∷ hs)) st)
