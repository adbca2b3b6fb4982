-- ===== src/Cas/Reader.antt =====
-- server/internal/cas/reader.go and store.go's chunksFrom: the reader that reassembles a file from
-- its chunks, one decompressed chunk at a time. Whether the request's context is cancelled is an
-- argument of `read`. A call that fails keeps no change of the caches, which the source may refresh
-- before it fails: they only repeat rows that do not change.
pub mod Slices
pub mod Targets
pub mod Reading
pub mod Whole
use private_cloud.Prelude.{
  ℕ, ◌+◌, ◌-◌, ◌≡◌, Bool, true, false, not, ◌&&◌, ◌||◌, Option, none, some, List, [], ◌∷◌, Text,
  text_eq, filter, length, take, drop, ltb, leb, ◌==◌, if◌then◌else◌, Result, ok, err, ◌>>=◌,
  or_fail, ℤ, offset_by,
}
use private_cloud.Cas.Codec.{
  Libraries, Compression, Err, decompress, corrupt_chunk, chunk_not_found, wrong_size,
  manifest_not_found, read_after_close, cancelled, end_of_file, invalid_whence, negative_position,
}
use private_cloud.Cas.Store.{Store, ChunkRow, ManifestChunk, Manifest, find_blob, find_chunk}

-- chunkRef: one entry of a manifest as the reader needs it.
pub record Ref : Type 0 where
  pub hash : Text
  pub key : Text
  pub size : ℕ
  pub compression : Compression
  pub offset : ℕ

-- ORDER BY mc.seq
unfoldable pub insert_by_seq : ManifestChunk → List ManifestChunk → List ManifestChunk
insert_by_seq e [] = e ∷ []
insert_by_seq e (f ∷ fs) = if leb e.seq f.seq then e ∷ f ∷ fs else f ∷ insert_by_seq e fs

unfoldable pub order_by_seq : List ManifestChunk → List ManifestChunk
unfolding insert_by_seq
order_by_seq [] = []
order_by_seq (e ∷ es) = insert_by_seq e (order_by_seq es)

abbrev pub ref_of : ManifestChunk → ChunkRow → Ref
ref_of e c = record {
  hash = c.hash;
  key = c.key;
  size = c.size;
  compression = c.compression;
  offset = e.byte_offset;
}

-- JOIN chunks c ON c.hash = mc.chunk_hash
unfoldable pub join : List ChunkRow → List ManifestChunk → List Ref
unfolding find_chunk
join cs [] = []
join cs (e ∷ es) = elim (find_chunk e.chunk_hash cs) [
  | none ↦ join cs es
  | some c ↦ ref_of e c ∷ join cs es
]

-- Every entry of the manifest, in order.
unfoldable pub refs_of : ℕ → Store → List Ref
unfolding join order_by_seq
refs_of id st = join st.chunks (order_by_seq (filter (λ e. e.manifest_id == id) st.entries))

-- WHERE ... AND mc.byte_offset + c.size > $2
pub chunks_from : ℕ → ℕ → Store → List Ref
unfolding refs_of
chunks_from id from st = filter (λ r. ltb from (r.offset + r.size)) (refs_of id st)

-- The two caches are none where their `Valid` flag is false: the decompressed chunk with the offset
-- at which it starts, and the references with the offset from which they were loaded.
pub record Reader : Type 0 where
  pub manifest : Manifest
  pub pos : ℕ
  pub window : Option (Text × ℕ)
  pub refs : Option (List Ref × ℕ)
  pub closed : Bool

unfoldable pub find_manifest_by_id : ℕ → List Manifest → Option Manifest
find_manifest_by_id id [] = none
find_manifest_by_id id (m ∷ ms) = if m.id == id then some m else find_manifest_by_id id ms

-- Store.Open
pub open_ : ℕ → Store → Result Err Reader
unfolding find_manifest_by_id
open_ id st = do
  m ← or_fail (find_manifest_by_id id st.manifests) manifest_not_found
  ok (record { manifest = m; pos = 0; window = none; refs = none; closed = false })

abbrev pub covers : ℕ → Ref → Bool
covers offset r = leb r.offset offset && ltb offset (r.offset + r.size)

pub covering : ℕ → List Ref → Option Ref
covering offset [] = none
covering offset (r ∷ rs) = if covers offset r then some r else covering offset rs

abbrev pub check_size : Libraries → Ref → Text → Result Err Text
check_size l r plain =
    if not (length plain == r.size)
    then err wrong_size
    else if text_eq (l.sum plain) r.hash
    then ok plain
    else err corrupt_chunk

-- The bytes of one chunk: read, decompressed, and checked against its size and its address.
unfoldable pub fetch : Libraries → Store → Ref → Result Err Text
unfolding decompress find_blob
fetch l st r = do
  stored ← or_fail (find_blob r.key st.blobs) chunk_not_found
  plain ← decompress l stored r.compression
  check_size l r plain

-- The cached references, where they may serve the offset.
pub cached : ℕ → Reader → Option (List Ref)
cached offset r = elim r.refs [
  | none ↦ none
  | some (rs, from) ↦ if ltb offset from || length rs == 0 then none else some rs
]

-- What chunksFrom gives, which is the end of the file where it is nothing.
pub load_refs : ℕ → Store → Reader → Result Err (Ref × List Ref)
unfolding chunks_from
load_refs offset st r = elim (chunks_from r.manifest.id offset st) [
  | [] ↦ err end_of_file
  | t ∷ ts ↦ ok (t, t ∷ ts)
]

abbrev pub first_load : ℕ → Store → Reader → Ref × List Ref → Result Err (Ref × List Ref × ℕ)
first_load offset st r (u, us) = elim (covering offset us) [
  | some t ↦ ok (t, us, offset)
  | none ↦ load_refs offset st r >>= λ (t, ts). ok (t, ts, offset)
]

-- The reference that covers the offset, and the references to keep: from the cache, from a first
-- load, or from a reload where neither reaches the offset.
pub target : ℕ → Store → Reader → Result Err (Ref × List Ref × ℕ)
unfolding cached load_refs covering
target offset st r = elim (cached offset r) [
  | some rs ↦ elim (covering offset rs) [
    | some t ↦ ok (t, rs, elim r.refs [ none ↦ offset | some (_, from) ↦ from ])
    | none ↦ load_refs offset st r >>= λ (t, ts). ok (t, ts, offset)
  ]
  | none ↦ load_refs offset st r >>= first_load offset st r
]

pub load_window_for : Libraries → Store → ℕ → Reader → Result Err Reader
unfolding target fetch
load_window_for l st offset r = do
  (t, rs, from) ← target offset st r
  plain ← fetch l st t
  ok (record r { window = some (plain, t.offset); refs = some (rs, from) })

pub in_window : Reader → Bool
in_window r = elim r.window [
  | none ↦ false
  | some (w, start) ↦ not (ltb r.pos start) && ltb r.pos (start + length w)
]

pub with_window : Libraries → Store → Reader → Result Err Reader
with_window l st r = if in_window r then ok r else load_window_for l st r.pos r

-- copy(p, r.window[off:]) for a buffer of n bytes.
pub copy_out : ℕ → Reader → Text × Reader
copy_out n r = elim r.window [
  | none ↦ ([], r)
  | some (w, start) ↦
      let out = take n (drop (r.pos - start) w) in (out, record r { pos = r.pos + length out })
]

pub read : Libraries → Store → Bool → ℕ → Reader → Result Err (Text × Reader)
read l st gone n r =
    if r.closed
    then err read_after_close
    else if leb r.manifest.total_size r.pos
    then err end_of_file
    else if gone
    then err cancelled
    else (with_window l st r >>= λ r'. ok (copy_out n r'))

pub data Whence : Type 0 where
  seek_start seek_current seek_end other : Whence

abbrev pub land : Reader → Option ℕ → Result Err (ℕ × Reader)
land r none = err negative_position
land r (some abs) = ok (abs, record r { pos = abs })

pub seek : ℤ → Whence → Reader → Result Err (ℕ × Reader)
seek z w r = if r.closed then err read_after_close else (elim w [
  | seek_start ↦ land r (offset_by 0 z)
  | seek_current ↦ land r (offset_by r.pos z)
  | seek_end ↦ land r (offset_by r.manifest.total_size z)
  | other ↦ err invalid_whence
])

-- The flags and `pos` stay as they are; the two slices are dropped.
pub close : Reader → Reader
close r = record r { closed = true; window = none; refs = none }
