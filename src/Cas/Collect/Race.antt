-- ===== src/Cas/Collect/Race.antt =====
-- server/internal/cas/store.go's Write against server/internal/files/service.go's collectChunks: an upload
-- that finds a chunk's bytes on disk, and a collection of that chunk before the upload writes the rows.
use private_cloud.Prelude.{
  ℕ, ◌<◌, ◌≡◌, refl, ap, ◌∙◌, inl, inr, true, false, not, none, some, List, [], ◌∷◌, Text, text_eq,
  text_eq_refl, filter, filter-yes, filter-no, length, ltb, lt→ltb, ◌==◌, Bool-cases, arith, err,
  length-filter-le,
}
use private_cloud.Cas.Codec.{Libraries, chunk_not_found, storage_key}
use private_cloud.Cas.Store.{
  Store, ChunkRow, put_keyed, find_blob, find_chunk, insert_chunk, row_of, read_chunk_stored,
}
use private_cloud.Cas.Write.{no_counts, place, insert_rows}
use private_cloud.Cas.Collect.{
  refcount, other_chunk, delete_chunk_row, other_blob, delete_blob, free_bytes, collect_chunk,
}

find_chunk-gone : (h : Text) (cs : List ChunkRow) → find_chunk h (filter (other_chunk h) cs) ≡ none
unfolding find_chunk
find_chunk-gone h [] = refl
find_chunk-gone h (c ∷ cs) = elim (Bool-cases (text_eq c.hash h)) [
  | inl named ↦
      ap (find_chunk h) (filter-no (other_chunk h) c cs (ap not named)) ∙ find_chunk-gone h cs
  | inr other ↦
      ap (find_chunk h) (filter-yes (other_chunk h) c cs (ap not other))
      ∙ rw other (find_chunk-gone h cs)
]

find_blob-gone : (k : Text) (bs : List (Text × Text)) → find_blob k (delete_blob k bs) ≡ none
unfolding find_blob delete_blob
find_blob-gone k [] = refl
find_blob-gone k ((k', b) ∷ bs) = elim (Bool-cases (text_eq k' k)) [
  | inl named ↦
      ap (find_blob k) (filter-no (other_blob k) (k', b) bs (ap not named)) ∙ find_blob-gone k bs
  | inr other ↦
      ap (find_blob k) (filter-yes (other_blob k) (k', b) bs (ap not other))
      ∙ rw other (find_blob-gone k bs)
]

filter-shorter :
    (h : Text) (cs : List ChunkRow) (c : ChunkRow)
    → find_chunk h cs ≡ some c
    → length (filter (other_chunk h) cs) < length cs
unfolding find_chunk
filter-shorter h [] c e = cc
filter-shorter h (x ∷ cs) c e = elim (Bool-cases (text_eq x.hash h)) [
  | inl named ↦ omega (
    arith,
    ap length (filter-no (other_chunk h) x cs (ap not named)),
    length-filter-le (other_chunk h) cs,
  )
  | inr other ↦ omega (
    arith,
    ap length (filter-yes (other_chunk h) x cs (ap not other)),
    filter-shorter h cs c (rw other at e),
  )
]

-- The rows of the upload go in after the collection of the row that was there.
abbrev pub after_race : Libraries → ℕ × Text → ChunkRow → Store → Store
after_race l (offset, plain) c st =
    let collected = (collect_chunk (λ k. false) c ((0, 0), st)).1 in
    record collected { chunks = insert_rows l ((offset, plain) ∷ []) collected.chunks }

find_chunk_self : (c : ChunkRow) (cs : List ChunkRow) → find_chunk c.hash (c ∷ cs) ≡ some c
unfolding find_chunk
find_chunk_self c cs = rw (text_eq_refl c.hash) refl

collected : Text → Store → Store
collected h st = record st {
  chunks = filter (other_chunk h) st.chunks;
  blobs = delete_blob (storage_key h) st.blobs;
}

collect_chunk-collected :
    (h : Text) (c : ChunkRow) (st : Store)
    → c.hash ≡ h
    → c.key ≡ storage_key h
    → find_chunk h st.chunks ≡ some c
    → (refcount st h == 0) ≡ true
    → (collect_chunk (λ k. false) c ((0, 0), st)).1 ≡ collected h st
unfolding collect_chunk delete_chunk_row free_bytes collected
collect_chunk-collected h c st hash key row zero_ =
    let fewer : ltb (length (filter (other_chunk h) st.chunks)) (length st.chunks) ≡ true =
      lt→ltb _ _ (filter-shorter h st.chunks c row) in
    rw (collect_chunk, hash, delete_chunk_row, zero_, fewer, key) refl

insert_chunk-absent :
    (c : ChunkRow) (cs : List ChunkRow)
    → find_chunk c.hash cs ≡ none
    → (insert_chunk c cs).1 ≡ c ∷ cs
unfolding insert_chunk
insert_chunk-absent c cs e = rw (insert_chunk, e) refl

insert_rows-one :
    (l : Libraries) (offset : ℕ) (plain : Text) (cs : List ChunkRow)
    → find_chunk (l.sum plain) cs ≡ none
    → insert_rows l ((offset, plain) ∷ []) cs ≡ row_of l (l.sum plain) plain ∷ cs
unfolding insert_rows
insert_rows-one l offset plain cs e = insert_chunk-absent (row_of l (l.sum plain) plain) cs e

-- A chunk that no manifest refers to, whose row and bytes are there, is collected after an upload of the
-- same content has found the bytes on disk, which writes none of its own, and before that upload writes
-- its rows: then the chunk has a row and no bytes, and reading it fails.
pub upload_races :
    (l : Libraries) (offset : ℕ) (plain b : Text) (c : ChunkRow) (st : Store)
    → c.hash ≡ l.sum plain
    → c.key ≡ storage_key (l.sum plain)
    → find_chunk (l.sum plain) st.chunks ≡ some c
    → find_blob (storage_key (l.sum plain)) st.blobs ≡ some b
    → (refcount st (l.sum plain) == 0) ≡ true
    → ((place l ((offset, plain) ∷ []) (no_counts, st.blobs)).1 ≡ st.blobs)
      × (find_chunk (l.sum plain) (after_race l (offset, plain) c st).chunks
          ≡ some (row_of l (l.sum plain) plain))
      × (read_chunk_stored (l.sum plain) (after_race l (offset, plain) c st) ≡ err chunk_not_found)
unfolding place put_keyed collected read_chunk_stored
upload_races l offset plain b c st hash key row bytes zero_ =
    let h = l.sum plain in
    let out = (collect_chunk (λ k. false) c ((0, 0), st)).1 in
    let e : out ≡ collected h st = collect_chunk-collected h c st hash key row zero_ in
    let rows : (after_race l (offset, plain) c st).chunks ≡ row_of l h plain ∷ out.chunks =
      insert_rows-one l offset plain out.chunks
        (ap (λ (s : Store). find_chunk h s.chunks) e ∙ find_chunk-gone h st.chunks) in
    let found = ap (find_chunk h) rows ∙ find_chunk_self (row_of l h plain) out.chunks in
    let gone : find_blob (storage_key h) out.blobs ≡ none =
      ap (λ (s : Store). find_blob (storage_key h) s.blobs) e
      ∙ find_blob-gone (storage_key h) st.blobs in
    (rw bytes refl, found, rw (read_chunk_stored, found, gone) refl)
