-- ===== src/Cas/Collect.antt =====
-- server/internal/cas/gc.go, the loops that call it in server/internal/files/service.go, and
-- blob/blob.go's Delete. The column refcount of chunks, which a trigger on manifest_chunks keeps (migration
-- 00007_cas.sql), is the count of the entries; the created_at columns, of which nothing else reads, are
-- arguments. Whether a delete in the blob store fails is an argument too.
pub mod Live
pub mod Race
use private_cloud.Prelude.{
  ℕ, zero, suc, ◌+◌, Bool, true, false, not, ◌&&◌, List, [], ◌∷◌, map, Text, text_eq, filter,
  length, take, ltb, leb, ◌==◌, if◌then◌else◌,
}
use private_cloud.Cas.Store.{Store, ChunkRow, Manifest, ManifestChunk, is_live}

abbrev pub refers_to : Text → ManifestChunk → Bool
refers_to h e = text_eq e.chunk_hash h

-- chunks.refcount
abbrev pub refcount : Store → Text → ℕ
refcount st h = length (filter (refers_to h) st.entries)

-- ORDER BY created_at
pub insert_by_age : {A : Type 0} → (A → ℕ) → A → List A → List A
insert_by_age created x [] = x ∷ []
insert_by_age created x (y ∷ ys) =
    let rest = insert_by_age created x ys in
    if leb (created x) (created y) then x ∷ y ∷ ys else y ∷ rest

pub order_by_age : {A : Type 0} → (A → ℕ) → List A → List A
unfolding insert_by_age
order_by_age created [] = []
order_by_age created (x ∷ xs) = insert_by_age created x (order_by_age created xs)

pub unreferenced_chunks : (ChunkRow → ℕ) → ℕ → ℕ → ℕ → Store → List ChunkRow
unfolding order_by_age
unreferenced_chunks created now grace limit st =
    let old = filter (λ c. refcount st c.hash == 0 && ltb (created c + grace) now) st.chunks in
    take limit (order_by_age created old)

abbrev pub other_chunk : Text → ChunkRow → Bool
other_chunk h c = not (text_eq c.hash h)

-- DeleteChunkRow: whether there was a row to delete.
pub delete_chunk_row : Text → Store → Bool × Store
delete_chunk_row h st =
    if refcount st h == 0
    then (let rest = filter (other_chunk h) st.chunks in
        (ltb (length rest) (length st.chunks), record st { chunks = rest }))
    else (false, st)

pub unreferenced_manifests : (Manifest → ℕ) → ℕ → ℕ → ℕ → Store → List ℕ
unfolding order_by_age
unreferenced_manifests created now grace limit st =
    let old = filter (λ m. not (is_live st m.id) && ltb (created m + grace) now) st.manifests in
    map (λ m. m.id) (take limit (order_by_age created old))

-- DeleteManifestRow; the rows of manifest_chunks go with the manifest.
pub delete_manifest_row : ℕ → Store → Bool × Store
delete_manifest_row id st =
    if is_live st id
    then (false, st)
    else (let rest = filter (λ m. not (m.id == id)) st.manifests in
        (
          ltb (length rest) (length st.manifests),
          record st {
            manifests = rest;
            entries = filter (λ e. not (e.manifest_id == id)) st.entries;
          },
        ))

-- FSStore.Delete, where it does not fail.
abbrev pub other_blob : Text → Text × Text → Bool
other_blob key (k, b) = not (text_eq k key)

pub delete_blob : Text → List (Text × Text) → List (Text × Text)
delete_blob key bs = filter (other_blob key) bs

-- collectManifests: how many rows it freed.
pub collect_manifests : List ℕ → ℕ × Store → ℕ × Store
unfolding delete_manifest_row
collect_manifests [] (freed, st) = (freed, st)
collect_manifests (id ∷ ids) (freed, st) =
    let (deleted, st') = delete_manifest_row id st in
    collect_manifests ids (if deleted then suc freed else freed, st')

-- What follows DeleteChunkRow in collectChunks.
pub free_bytes : (Text → Bool) → ChunkRow → ℕ × ℕ → Bool × Store → (ℕ × ℕ) × Store
unfolding delete_blob
free_bytes fails c n (false, st) = (n, st)
free_bytes fails c (freed, bytes) (true, st) =
    if fails c.key
    then ((freed, bytes), st)
    else ((suc freed, bytes + c.stored_size), record st { blobs = delete_blob c.key st.blobs })

-- One round of collectChunks: the row, then the bytes.
pub collect_chunk : (Text → Bool) → ChunkRow → (ℕ × ℕ) × Store → (ℕ × ℕ) × Store
unfolding delete_chunk_row free_bytes
collect_chunk fails c (n, st) = free_bytes fails c n (delete_chunk_row c.hash st)

-- collectChunks over its candidates: the rows and the bytes that it freed.
pub collect_chunks : (Text → Bool) → List ChunkRow → (ℕ × ℕ) × Store → (ℕ × ℕ) × Store
unfolding collect_chunk
collect_chunks fails [] out = out
collect_chunks fails (c ∷ cs) out = collect_chunks fails cs (collect_chunk fails c out)

-- Stats
pub record Stats : Type 0 where
  pub chunks : ℕ
  pub logical_bytes : ℕ
  pub unique_bytes : ℕ
  pub physical_bytes : ℕ
  pub manifests : ℕ

abbrev pub sum_of : {A : Type 0} → (A → ℕ) → List A → ℕ
sum_of f [] = 0
sum_of f (x ∷ xs) = f x + sum_of f xs

pub storage_stats : Store → Stats
storage_stats st = record {
  chunks = length st.chunks;
  logical_bytes = sum_of (λ m. m.total_size) st.manifests;
  unique_bytes = sum_of (λ c. c.size) st.chunks;
  physical_bytes = sum_of (λ c. c.stored_size) st.chunks;
  manifests = length st.manifests;
}
