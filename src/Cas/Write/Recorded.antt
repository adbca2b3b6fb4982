-- ===== src/Cas/Write/Recorded.antt =====
-- server/internal/cas/store.go, Store.Write: the entries of a new manifest, as the reader loads them.
use private_cloud.Prelude.{
  ℕ, ◌+◌, ◌≡◌, ◌≢◌, refl, sym, ap, ◌∙◌, true, Bool-cases, inl, inr, some, List, [], ◌∷◌, ◌++◌, map,
  filter, Text, text_eq_refl, length, All, All-Has, ◌==◌, ==_iff, ==_refl, leb, ok, arith, subst,
}
use private_cloud.Cas.Codec.{Libraries}
use private_cloud.Cas.Store.{Store, ChunkRow, ManifestChunk, find_chunk, entries_of}
use private_cloud.Cas.Keys.{decompress-compress_chunk}
use private_cloud.Cas.Addressed.{IsAddressed, IsUncollided, Describes, find_chunk-Has}
use private_cloud.Cas.Write.{Piece, entry_of}
use private_cloud.Cas.Write.Stored.{Distinct, content_of, PieceRow}
use private_cloud.Cas.Reader.{join, order_by_seq, insert_by_seq, ref_of, fetch}
use private_cloud.Cas.Reader.Slices.{Lies}

-- The pieces lie end to end from `off` on.
abbrev pub Tiles : ℕ → List Piece → Type 0
Tiles off [] = Unit
Tiles off ((offset, plain) ∷ ps) = (offset ≡ off) × Tiles (off + length plain) ps

-- No entry is of the manifest.
abbrev pub IsNew : ℕ → List ManifestChunk → Type 0
IsNew id es = All (λ e. e.manifest_id ≢ id) es

own :
    (id i : ℕ) (xs : List (Text × ℕ))
    → filter (λ e. e.manifest_id == id) (entries_of id i xs) ≡ entries_of id i xs
unfolding entries_of
own id i [] = refl
own id i ((h, off) ∷ xs) = ground (arith, own id (i + 1) xs)

filter_new :
    (id : ℕ) (es xs : List ManifestChunk)
    → IsNew id es
    → filter (λ e. e.manifest_id == id) (es ++ xs) ≡ filter (λ e. e.manifest_id == id) xs
filter_new id [] xs n = refl
filter_new id (e ∷ es) xs n = elim (Bool-cases (e.manifest_id == id)) [
  | inl hit ↦ absurd (n.0 ((==_iff e.manifest_id id).0 hit))
  | inr miss ↦ rw (filter, miss) (filter_new id es xs n.1)
]

ordered : (id i : ℕ) (xs : List (Text × ℕ)) → order_by_seq (entries_of id i xs) ≡ entries_of id i xs
unfolding order_by_seq insert_by_seq entries_of
ordered id i [] = refl
ordered id i ((h, off) ∷ []) = refl
ordered id i ((h, off) ∷ (h', off') ∷ xs) =
    let before : leb i (i + 1) ≡ true = ground arith in
    rw (ordered id (i + 1) ((h', off') ∷ xs), before) refl

-- The entries that the reader finds for a new manifest are those that Write has recorded, in order.
pub entries_new :
    (id : ℕ) (es : List ManifestChunk) (xs : List (Text × ℕ))
    → IsNew id es
    → order_by_seq (filter (λ e. e.manifest_id == id) (es ++ entries_of id 0 xs))
      ≡ entries_of id 0 xs
entries_new id es xs n =
    ap order_by_seq (filter_new id es (entries_of id 0 xs) n ∙ own id 0 xs) ∙ ordered id 0 xs

fetch-Describes :
    (l : Libraries) (st : Store) (e : ManifestChunk) (c : ChunkRow) (plain : Text)
    → Describes l st.blobs c plain
    → fetch l st (ref_of e c) ≡ ok plain
unfolding fetch
fetch-Describes l st e c plain d =
    rw
      (
        fetch,
        d.present,
        d.packed,
        decompress-compress_chunk l plain,
        d.sized,
        ==_refl (length plain),
        d.hashed,
        text_eq_refl c.hash,
      )
      refl

join-found :
    (cs : List ChunkRow) (e : ManifestChunk) (es : List ManifestChunk) (c : ChunkRow)
    → find_chunk e.chunk_hash cs ≡ some c
    → join cs (e ∷ es) ≡ ref_of e c ∷ join cs es
unfolding join
join-found cs e es c found = rw (join, found) refl

-- The row of a piece describes its bytes.
row-Describes :
    (l : Libraries) (st : Store) (plain : Text) (c : ChunkRow)
    → IsAddressed l st
    → IsUncollided l plain
    → find_chunk (l.sum plain) st.chunks ≡ some c
    → Describes l st.blobs c plain
row-Describes l st plain c a d e =
    let (there, named) = find_chunk-Has (l.sum plain) c st.chunks e in
    let (q, g) = All-Has _ st.chunks c a.rows there in
    subst (Describes l st.blobs c) (d q (g.hashed ∙ named)) g

pub pieces-Lies :
    (l : Libraries) (st : Store) (id i off : ℕ) (ps : List Piece)
    → IsAddressed l st
    → Tiles off ps
    → All (Distinct l) ps
    → All (PieceRow l st.chunks) ps
    → Lies l st off (join st.chunks (entries_of id i (map (entry_of l) ps))) (content_of ps)
unfolding entries_of join
pieces-Lies l st id i off [] a t d r = refl
pieces-Lies l st id i off ((offset, plain) ∷ ps) a t d r =
    let c = r.0.0 in
    let e : ManifestChunk = record {
      manifest_id = id;
      seq = i;
      chunk_hash = l.sum plain;
      byte_offset = offset;
    } in
    let g = row-Describes l st plain c a d.0 r.0.1 in
    let rest : Lies l st (off + c.size)
        (join st.chunks (entries_of id (i + 1) (map (entry_of l) ps))) (content_of ps) =
      rw g.sized (pieces-Lies l st id (i + 1) (off + length plain) ps a t.1 d.1 r.1) in
    subst (λ rs. Lies l st off rs (plain ++ content_of ps))
      (sym (join-found st.chunks e (entries_of id (i + 1) (map (entry_of l) ps)) c r.0.1))
      (plain, content_of ps, refl, t.0, g.sized, fetch-Describes l st e c plain g, rest)
