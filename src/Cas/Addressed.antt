-- ===== src/Cas/Addressed.antt =====
-- server/internal/cas/delta.go, PutChunk: the store stays content-addressed.
use private_cloud.Prelude.{
  ◌≤◌, ◌<◌, ◌≡◌, refl, sym, ap, ◌∙◌, inl, inr, Bool, true, none, some, List, [], ◌∷◌, Text, text_eq,
  text_eq_iff, text_eq_refl, length, Has, All, All-Has, Bool-cases, Option-cases, ok, arith,
}
use private_cloud.Cas.Codec.{Libraries, max_chunk_size, compress_chunk, storage_key}
use private_cloud.Cas.Keys.{decompress-compress_chunk, storage_key-injective}
use private_cloud.Cas.Store.{
  Store, ChunkRow, find_blob, find_chunk, put_keyed, insert_chunk, row_of, put_chunk,
  read_chunk_stored, checked_plain,
}

-- A row of chunks describes `plain`, whose stored form is in the blob store.
pub record Describes (l : Libraries) (blobs : List (Text × Text)) (c : ChunkRow) (plain : Text)
    : Type 0 where
  pub hashed : l.sum plain ≡ c.hash
  pub sized : c.size ≡ length plain
  pub keyed : c.key ≡ storage_key c.hash
  pub packed : c.compression ≡ (compress_chunk l plain).1
  pub present : find_blob c.key blobs ≡ some (compress_chunk l plain).0

-- Each blob is the stored form of the content that its key addresses, with or without a row.
abbrev pub Keyed : Libraries → Text × Text → Type 0
Keyed l (k, b) = (plain : Text) × (k ≡ storage_key (l.sum plain)) × (b ≡ (compress_chunk l plain).0)

pub record IsAddressed (l : Libraries) (st : Store) : Type 0 where
  pub rows : All (λ c. (plain : Text) × Describes l st.blobs c plain) st.chunks
  pub blobs_keyed : All (Keyed l) st.blobs

find_blob-Keyed :
    (l : Libraries) (key b : Text) (bs : List (Text × Text))
    → All (Keyed l) bs
    → find_blob key bs ≡ some b
    → (plain : Text) × (key ≡ storage_key (l.sum plain)) × (b ≡ (compress_chunk l plain).0)
unfolding find_blob
find_blob-Keyed l key b [] h e = cc
find_blob-Keyed l key b ((k, x) ∷ bs) h e = elim (Bool-cases (text_eq k key)) [
  | inl hit ↦ first hit h.0
  | inr miss ↦ find_blob-Keyed l key b bs h.1 (rw miss at e)
]
  where
    first :
        text_eq k key ≡ true
        → Keyed l (k, x)
        → (plain : Text) × (key ≡ storage_key (l.sum plain)) × (b ≡ (compress_chunk l plain).0)
    first hit (p, kp, bp) =
        let same : k ≡ key = (text_eq_iff k key).0 hit in
        let e' : some x ≡ some b = rw hit at e in (p, sym same ∙ kp, cc)

-- No other content has the digest of `plain`.
abbrev pub IsUncollided : Libraries → Text → Type 0
IsUncollided l plain = (q : Text) → l.sum q ≡ l.sum plain → q ≡ plain

-- The digests have at least two bytes.
abbrev pub IsLong : Libraries → Type 0
IsLong l = (q : Text) → 2 ≤ length (l.sum q)

module _ (l : Libraries) (long : IsLong l) where
  -- After PutKeyed the blob is the stored form, also where the key was taken.
  pub put_keyed-present :
      (plain : Text) (bs : List (Text × Text))
      → IsUncollided l plain
      → All (Keyed l) bs
      → find_blob
          (storage_key (l.sum plain))
          (put_keyed (storage_key (l.sum plain)) (compress_chunk l plain).0 bs).1
        ≡ some (compress_chunk l plain).0
  unfolding put_keyed
  put_keyed-present plain bs u h = elim (Option-cases (find_blob (storage_key (l.sum plain)) bs)) [
    | inl new ↦ fresh new
    | inr (b, old) ↦ kept b old (find_blob-Keyed l _ b bs h old)
  ]
    where
      fresh :
          find_blob (storage_key (l.sum plain)) bs ≡ none
          → find_blob
              (storage_key (l.sum plain))
              (put_keyed (storage_key (l.sum plain)) (compress_chunk l plain).0 bs).1
            ≡ some (compress_chunk l plain).0
      fresh new =
          rw (put_keyed, new)
            (unfold find_blob in rw (text_eq_refl (storage_key (l.sum plain))) refl)

      kept :
          (b : Text)
          → find_blob (storage_key (l.sum plain)) bs ≡ some b
          → (q : Text) × (storage_key (l.sum plain) ≡ storage_key (l.sum q))
            × (b ≡ (compress_chunk l q).0)
          → find_blob
              (storage_key (l.sum plain))
              (put_keyed (storage_key (l.sum plain)) (compress_chunk l plain).0 bs).1
            ≡ some (compress_chunk l plain).0
      kept b old (q, same, form) =
          let eq : q ≡ plain =
            u q (sym (storage_key-injective (l.sum plain) (l.sum q) (long plain) (long q) same)) in
          let form' : b ≡ (compress_chunk l plain).0 =
            form ∙ ap (λ (x : Text). (compress_chunk l x).0) eq in
          rw (put_keyed, old) (old ∙ ap some form')

  pub put_keyed-Keyed :
      (plain : Text) (bs : List (Text × Text))
      → All (Keyed l) bs
      → All (Keyed l) (put_keyed (storage_key (l.sum plain)) (compress_chunk l plain).0 bs).1
  unfolding put_keyed
  put_keyed-Keyed plain bs h = elim (Option-cases (find_blob (storage_key (l.sum plain)) bs)) [
    | inl new ↦ rw new ((plain, refl, refl), h)
    | inr (b, old) ↦ rw old h
  ]

-- A blob that was there is still found.
pub put_keyed-kept :
    (key bytes k b : Text) (bs : List (Text × Text))
    → find_blob k bs ≡ some b
    → find_blob k (put_keyed key bytes bs).1 ≡ some b
unfolding put_keyed find_blob
put_keyed-kept key bytes k b bs e = elim (Option-cases (find_blob key bs)) [
  | inl new ↦ fresh new
  | inr (x, old) ↦ rw old e
]
  where
    fresh : find_blob key bs ≡ none → find_blob k (put_keyed key bytes bs).1 ≡ some b
    fresh new = elim (Bool-cases (text_eq key k)) [
      | inl hit ↦
          let same : key ≡ k = (text_eq_iff key k).0 hit in
          let gone : none ≡ some b = sym new ∙ ap (λ (q : Text). find_blob q bs) same ∙ e in cc
      | inr miss ↦ rw (new, miss) e
    ]

pub rows-kept :
    (l : Libraries) (key bytes : Text) (bs : List (Text × Text)) (cs : List ChunkRow)
    → All (λ c. (plain : Text) × Describes l bs c plain) cs
    → All (λ c. (plain : Text) × Describes l (put_keyed key bytes bs).1 c plain) cs
rows-kept l key bytes bs [] h = tt
rows-kept l key bytes bs (c ∷ cs) h = (kept h.0, rows-kept l key bytes bs cs h.1)
  where
    kept :
        (plain : Text) × Describes l bs c plain
        → (plain : Text) × Describes l (put_keyed key bytes bs).1 c plain
    kept (p, d) = (
      p,
      record {
        hashed = d.hashed;
        sized = d.sized;
        keyed = d.keyed;
        packed = d.packed;
        present = put_keyed-kept key bytes c.key _ bs d.present;
      },
    )

-- What a successful PutChunk was given, and the store that it left.
pub put_chunk-ok :
    (l : Libraries) (expected plain : Text) (st st' : Store) (new : Bool)
    → put_chunk l expected plain st ≡ ok (new, st')
    → (l.sum plain ≡ expected)
      × (0 < length plain)
      × (length plain ≤ max_chunk_size)
      × (st'.blobs ≡ (put_keyed (storage_key expected) (compress_chunk l plain).0 st.blobs).1)
      × (st'.chunks ≡ (insert_chunk (row_of l expected plain) st.chunks).1)
      × (st'.manifests ≡ st.manifests)
      × (st'.entries ≡ st.entries)
      × (st'.versions ≡ st.versions)
unfolding put_chunk
put_chunk-ok l expected plain st st' new e = ground (arith, text_eq_iff (l.sum plain) expected)

pub insert_chunk-rows :
    (P : ChunkRow → Type 0) (c : ChunkRow) (cs : List ChunkRow)
    → P c
    → All P cs
    → All P (insert_chunk c cs).1
unfolding insert_chunk
insert_chunk-rows P c cs h a = elim (Option-cases (find_chunk c.hash cs)) [
  | inl new ↦ rw new (h, a)
  | inr (x, old) ↦ rw old a
]

-- In an addressed store, with digests of two bytes at least, a chunk that PutChunk accepts leaves every row, the new one included, describing the bytes that
-- are stored under its key, provided that no other content has the same digest.
pub put_chunk-IsAddressed :
    (l : Libraries) (expected plain : Text) (st st' : Store) (new : Bool)
    → IsLong l
    → IsUncollided l plain
    → IsAddressed l st
    → put_chunk l expected plain st ≡ ok (new, st')
    → IsAddressed l st'
put_chunk-IsAddressed l expected plain st st' new long u a e = record {
  rows = rw (chunks', blobs') rows;
  blobs_keyed = rw blobs' (rw (← hash) (put_keyed-Keyed l long plain st.blobs a.blobs_keyed));
}
  where
    hash : l.sum plain ≡ expected
    hash = (put_chunk-ok l expected plain st st' new e).0

    blobs' : st'.blobs ≡ (put_keyed (storage_key expected) (compress_chunk l plain).0 st.blobs).1
    blobs' = (put_chunk-ok l expected plain st st' new e).3

    chunks' : st'.chunks ≡ (insert_chunk (row_of l expected plain) st.chunks).1
    chunks' = (put_chunk-ok l expected plain st st' new e).4

    described :
        Describes l
          (put_keyed (storage_key expected) (compress_chunk l plain).0 st.blobs).1
          (row_of l expected plain)
          plain
    described = record {
      hashed = hash;
      sized = refl;
      keyed = refl;
      packed = refl;
      present = rw (← hash) (put_keyed-present l long plain st.blobs u a.blobs_keyed);
    }

    rows :
        All
          (λ c.
            (p : Text) × Describes l
              (put_keyed (storage_key expected) (compress_chunk l plain).0 st.blobs).1
              c
              p)
          (insert_chunk (row_of l expected plain) st.chunks).1
    rows =
        insert_chunk-rows _ (row_of l expected plain) st.chunks (plain, described)
          (rows-kept l (storage_key expected) (compress_chunk l plain).0 st.blobs st.chunks a.rows)

pub find_chunk-Has :
    (h : Text) (c : ChunkRow) (cs : List ChunkRow)
    → find_chunk h cs ≡ some c
    → Has c cs × (c.hash ≡ h)
unfolding find_chunk
find_chunk-Has h c [] e = cc
find_chunk-Has h c (x ∷ cs) e = ground (arith, text_eq_iff x.hash h, find_chunk-Has h c cs)

-- In an addressed store a chunk that has a row reads back as content of its address, of the size
-- that the row records.
pub checked_plain-Describes :
    (l : Libraries) (st : Store) (h : Text) (c : ChunkRow)
    → IsAddressed l st
    → find_chunk h st.chunks ≡ some c
    → (plain : Text) × (checked_plain l st h ≡ ok plain)
      × (l.sum plain ≡ h)
      × (c.size ≡ length plain)
unfolding checked_plain read_chunk_stored
checked_plain-Describes l st h c a e =
    read (All-Has _ st.chunks c a.rows (find_chunk-Has h c st.chunks e).0)
      (find_chunk-Has h c st.chunks e).1
  where
    read :
        (plain : Text) × Describes l st.blobs c plain
        → c.hash ≡ h
        → (plain : Text) × (checked_plain l st h ≡ ok plain)
          × (l.sum plain ≡ h)
          × (c.size ≡ length plain)
    read (p, d) named = (
      p,
      rw
          (
            checked_plain,
            read_chunk_stored,
            e,
            d.present,
            d.packed,
            decompress-compress_chunk l p,
            d.hashed ∙ named,
            text_eq_refl h,
          )
          refl,
      d.hashed ∙ named,
      d.sized,
    )
