-- ===== src/Cas/Write/Stored.antt =====
-- server/internal/cas/store.go, Store.Write: what a finished upload has stored.
use private_cloud.Prelude.{
  ◌≡◌, refl, ap, ◌∙◌, inl, inr, some, List, [], ◌∷◌, ◌++◌, map, Text, text_eq, text_eq_refl, length,
  length-append, All, Bool-cases, Option-cases, ok,
}
use private_cloud.Cas.Codec.{Libraries, compress_chunk, storage_key}
use private_cloud.Cas.Store.{
  Store, ChunkRow, find_blob, find_chunk, insert_chunk, row_of, reassemble, checked_plain,
}
use private_cloud.Cas.Addressed.{
  IsLong, IsUncollided, IsAddressed, Describes, Keyed, put_keyed-present, put_keyed-Keyed,
  put_keyed-kept, rows-kept, insert_chunk-rows, checked_plain-Describes,
}
use private_cloud.Cas.Write.{Counts, Piece, hash_of, place, total_size_of, insert_rows}

-- The stored form of a piece is under its key.
abbrev pub Placed : Libraries → List (Text × Text) → Piece → Type 0
Placed l bs (offset, plain) =
    find_blob (storage_key (l.sum plain)) bs ≡ some (compress_chunk l plain).0

abbrev pub Distinct : Libraries → Piece → Type 0
Distinct l (offset, plain) = IsUncollided l plain

abbrev pub content_of : List Piece → Text
content_of [] = []
content_of ((offset, plain) ∷ ps) = plain ++ content_of ps

abbrev pub Described : Libraries → List (Text × Text) → ChunkRow → Type 0
Described l bs c = (plain : Text) × Describes l bs c plain

place-kept :
    (l : Libraries) (ps : List Piece) (c : Counts) (bs : List (Text × Text)) (k b : Text)
    → find_blob k bs ≡ some b
    → find_blob k (place l ps (c, bs)).1 ≡ some b
unfolding place
place-kept l [] c bs k b e = e
place-kept l ((offset, plain) ∷ ps) c bs k b e =
    place-kept l ps _ _ k b
      (put_keyed-kept (storage_key (l.sum plain)) (compress_chunk l plain).0 k b bs e)

pub place-rows :
    (l : Libraries) (ps : List Piece) (c : Counts) (bs : List (Text × Text)) (cs : List ChunkRow)
    → All (Described l bs) cs
    → All (Described l (place l ps (c, bs)).1) cs
unfolding place
place-rows l [] c bs cs h = h
place-rows l ((offset, plain) ∷ ps) c bs cs h =
    place-rows l ps _ _ cs
      (rows-kept l (storage_key (l.sum plain)) (compress_chunk l plain).0 bs cs h)

pub place-Keyed :
    (l : Libraries)
    → IsLong l
    → (ps : List Piece) (c : Counts) (bs : List (Text × Text)) → All (Keyed l) bs
    → All (Keyed l) (place l ps (c, bs)).1
unfolding place
place-Keyed l long [] c bs h = h
place-Keyed l long ((offset, plain) ∷ ps) c bs h =
    place-Keyed l long ps _ _ (put_keyed-Keyed l long plain bs h)

pub place-Placed :
    (l : Libraries)
    → IsLong l
    → (ps : List Piece) (c : Counts) (bs : List (Text × Text)) → All (Distinct l) ps
    → All (Keyed l) bs
    → All (Placed l (place l ps (c, bs)).1) ps
unfolding place
place-Placed l long [] c bs d h = tt
place-Placed l long ((offset, plain) ∷ ps) c bs d h = (
  place-kept l ps _ _ _ _ (put_keyed-present l long plain bs d.0 h),
  place-Placed l long ps _ _ d.1 (put_keyed-Keyed l long plain bs h),
)

pub insert_rows-Described :
    (l : Libraries) (bs : List (Text × Text)) (ps : List Piece) (cs : List ChunkRow)
    → All (Placed l bs) ps
    → All (Described l bs) cs
    → All (Described l bs) (insert_rows l ps cs)
unfolding insert_rows
insert_rows-Described l bs [] cs p h = h
insert_rows-Described l bs ((offset, plain) ∷ ps) cs p h =
    let new : Describes l bs (row_of l (l.sum plain) plain) plain = record {
      hashed = refl;
      sized = refl;
      keyed = refl;
      packed = refl;
      present = p.0;
    } in
    insert_rows-Described l bs ps _ p.1 (insert_chunk-rows _ _ cs (plain, new) h)

-- A chunk has a row.
abbrev pub HasRow : List ChunkRow → Text → Type 0
HasRow cs h = (c : ChunkRow) × (find_chunk h cs ≡ some c)

insert_chunk-kept :
    (x : ChunkRow) (cs : List ChunkRow) (h : Text) → HasRow cs h → HasRow (insert_chunk x cs).1 h
unfolding insert_chunk find_chunk
insert_chunk-kept x cs h (c, e) = elim (Option-cases (find_chunk x.hash cs)) [
  | inr (y, old) ↦ rw old (c, e)
  | inl new ↦ elim (Bool-cases (text_eq x.hash h)) [
    | inl hit ↦ rw (new, hit) (x, refl)
    | inr miss ↦ rw (new, miss) (c, e)
  ]
]

insert_chunk-new : (x : ChunkRow) (cs : List ChunkRow) → HasRow (insert_chunk x cs).1 x.hash
unfolding insert_chunk find_chunk
insert_chunk-new x cs = elim (Option-cases (find_chunk x.hash cs)) [
  | inr (y, old) ↦ rw old (y, old)
  | inl new ↦ rw (new, text_eq_refl x.hash) (x, refl)
]

insert_rows-kept :
    (l : Libraries) (ps : List Piece) (cs : List ChunkRow) (h : Text)
    → HasRow cs h
    → HasRow (insert_rows l ps cs) h
unfolding insert_rows
insert_rows-kept l [] cs h r = r
insert_rows-kept l ((offset, plain) ∷ ps) cs h r =
    insert_rows-kept l ps _ h (insert_chunk-kept (row_of l (l.sum plain) plain) cs h r)

abbrev pub PieceRow : Libraries → List ChunkRow → Piece → Type 0
PieceRow l cs p = HasRow cs (hash_of l p)

pub insert_rows-PieceRow :
    (l : Libraries) (ps : List Piece) (cs : List ChunkRow)
    → All (PieceRow l (insert_rows l ps cs)) ps
unfolding insert_rows
insert_rows-PieceRow l [] cs = tt
insert_rows-PieceRow l ((offset, plain) ∷ ps) cs = (
  insert_rows-kept l ps _ (l.sum plain) (insert_chunk-new (row_of l (l.sum plain) plain) cs),
  insert_rows-PieceRow l ps _,
)

-- Pieces that have rows in an addressed store read back, one after the other, as their content.
pub reassemble-pieces :
    (l : Libraries) (st : Store) (ps : List Piece)
    → IsAddressed l st
    → All (Distinct l) ps
    → All (PieceRow l st.chunks) ps
    → reassemble l st (map (hash_of l) ps) ≡ ok (content_of ps)
unfolding reassemble
reassemble-pieces l st [] a d r = refl
reassemble-pieces l st ((offset, plain) ∷ ps) a d r =
    let (q, reads, hashed, _) = checked_plain-Describes l st (l.sum plain) r.0.0 a r.0.1 in
    let reads' : checked_plain l st (l.sum plain) ≡ ok plain =
      reads ∙ ap (λ (x : Text). ok x) (d.0 q hashed) in
    rw (reads', reassemble-pieces l st ps a d.1 r.1) refl

pub total_size-content : (ps : List Piece) → total_size_of ps ≡ length (content_of ps)
unfolding total_size_of
total_size-content [] = refl
total_size-content ((offset, plain) ∷ ps) =
    rw (length-append plain (content_of ps), total_size-content ps) refl
