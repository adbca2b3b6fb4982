-- ===== src/Cas/Collect/Live.antt =====
-- server/internal/files/service.go, collectChunks: what is still referenced reads as before.
use private_cloud.Prelude.{
  ℕ, ◌≤◌, ◌≡◌, refl, sym, ap, ◌∙◌, inl, inr, Bool, true, false, not, Option, some, List, [], ◌∷◌,
  Text, text_eq, text_eq_iff, filter, filter-yes, filter-no, length, ◌==◌, All, Bool-cases,
  Option-cases, if◌then◌else◌,
}
use private_cloud.Cas.Codec.{Libraries, storage_key}
use private_cloud.Cas.Keys.{storage_key-injective}
use private_cloud.Cas.Store.{
  Store, ChunkRow, find_blob, find_chunk, read_chunk_stored, checked_plain, reassemble,
}
use private_cloud.Cas.Collect.{
  refers_to, refcount, other_chunk, delete_chunk_row, other_blob, delete_blob, free_bytes,
  collect_chunk, collect_chunks,
}

true-false : true ≡ false → ⊥
true-false e = cc

text_eq-differs : (s t : Text) → (s ≡ t → ⊥) → text_eq s t ≡ false
text_eq-differs s t d = elim (Bool-cases (text_eq s t)) [
  | inl same ↦ absurd (d ((text_eq_iff s t).0 same))
  | inr differs ↦ differs
]

find_chunk-other :
    (h g : Text) (cs : List ChunkRow)
    → text_eq h g ≡ false
    → find_chunk h (filter (other_chunk g) cs) ≡ find_chunk h cs
unfolding find_chunk
find_chunk-other h g [] d = refl
find_chunk-other h g (c ∷ cs) d = elim (Bool-cases (text_eq c.hash g)) [
  | inr other ↦
      ap (find_chunk h) (filter-yes (other_chunk g) c cs (ap not other))
      ∙ ap (λ (o : Option ChunkRow). if text_eq c.hash h then some c else o)
          (find_chunk-other h g cs d)
  | inl named ↦
      let differs : text_eq c.hash h ≡ false =
        text_eq-differs c.hash h
          (λ e. true-false (sym named ∙ ap (λ (x : Text). text_eq x g) e ∙ d)) in
      ap (find_chunk h) (filter-no (other_chunk g) c cs (ap not named))
      ∙ find_chunk-other h g cs d
      ∙ ap (λ (b : Bool). if b then some c else find_chunk h cs) (sym differs)
]

find_blob-other :
    (k key : Text) (bs : List (Text × Text))
    → text_eq k key ≡ false
    → find_blob k (filter (other_blob key) bs) ≡ find_blob k bs
unfolding find_blob
find_blob-other k key [] d = refl
find_blob-other k key ((k', b) ∷ bs) d = elim (Bool-cases (text_eq k' key)) [
  | inr other ↦
      ap (find_blob k) (filter-yes (other_blob key) (k', b) bs (ap not other))
      ∙ ap (λ (o : Option Text). if text_eq k' k then some b else o) (find_blob-other k key bs d)
  | inl named ↦
      let differs : text_eq k' k ≡ false =
        text_eq-differs k' k
          (λ e. true-false (sym named ∙ ap (λ (x : Text). text_eq x key) e ∙ d)) in
      ap (find_blob k) (filter-no (other_blob key) (k', b) bs (ap not named))
      ∙ find_blob-other k key bs d
      ∙ ap (λ (c : Bool). if c then some b else find_blob k bs) (sym differs)
]

-- A chunk is referenced, and its row, where it has one, is keyed by its hash.
pub record IsHeld (st : Store) (h : Text) : Type 0 where
  pub long : 2 ≤ length h
  pub counted : (refcount st h == 0) ≡ false
  pub keyed : (c : ChunkRow) → find_chunk h st.chunks ≡ some c → c.key ≡ storage_key h

-- The rows and the bytes of a chunk are the same in two stores.
record Agrees (h : Text) (st st' : Store) : Type 0 where
  rows : find_chunk h st'.chunks ≡ find_chunk h st.chunks
  blob : find_blob (storage_key h) st'.blobs ≡ find_blob (storage_key h) st.blobs
  entries : st'.entries ≡ st.entries

-- A row that collectChunks is given: it names its own hash and key.
abbrev pub IsKeyed : ChunkRow → Type 0
IsKeyed c = (c.key ≡ storage_key c.hash) × (2 ≤ length c.hash)

free_bytes-Agrees :
    (fails : Text → Bool) (c : ChunkRow) (n : ℕ × ℕ) (r : Bool × Store) (h : Text) (st : Store)
    → text_eq (storage_key h) c.key ≡ false
    → Agrees h st r.1
    → Agrees h st (free_bytes fails c n r).1
unfolding free_bytes delete_blob
free_bytes-Agrees fails c n (false, st') h st d a = a
free_bytes-Agrees fails c n (true, st') h st d a = elim (Bool-cases (fails c.key)) [
  | inl failed ↦ rw failed a
  | inr done ↦ rw done (record {
    rows = a.rows;
    blob = find_blob-other (storage_key h) c.key st'.blobs d ∙ a.blob;
    entries = a.entries;
  })
]

-- A chunk that is held is not one whose count is zero.
held-other :
    (st : Store) (h : Text) (c : ChunkRow)
    → IsHeld st h
    → (refcount st c.hash == 0) ≡ true
    → h ≡ c.hash
    → ⊥
held-other st h c held zero_ e =
    true-false (sym zero_ ∙ ap (λ (x : Text). refcount st x == 0) (sym e) ∙ held.counted)

collect_chunk-Agrees :
    (fails : Text → Bool) (c : ChunkRow) (n : ℕ × ℕ) (st : Store) (h : Text)
    → IsKeyed c
    → IsHeld st h
    → Agrees h st (collect_chunk fails c (n, st)).1
unfolding collect_chunk delete_chunk_row
collect_chunk-Agrees fails c n st h (key, long) held = elim (Bool-cases (refcount st c.hash == 0)) [
  | inl zero_ ↦
      let apart : h ≡ c.hash → ⊥ = held-other st h c held zero_ in
      let keys : text_eq (storage_key h) c.key ≡ false =
        text_eq-differs (storage_key h) c.key
          (λ e. apart (storage_key-injective h c.hash held.long long (e ∙ key))) in
      rw (collect_chunk, delete_chunk_row, zero_)
        (free_bytes-Agrees fails c n _ h st keys (record {
          rows = find_chunk-other h c.hash st.chunks (text_eq-differs h c.hash apart);
          blob = refl;
          entries = refl;
        }))
  | inr counted ↦
      rw (collect_chunk, delete_chunk_row, counted, free_bytes)
        (record { rows = refl; blob = refl; entries = refl })
]

agreeing-IsHeld : (st st' : Store) (h : Text) → Agrees h st st' → IsHeld st h → IsHeld st' h
agreeing-IsHeld st st' h a held = record {
  long = held.long;
  counted = ap (λ es. length (filter (refers_to h) es) == 0) a.entries ∙ held.counted;
  keyed = λ c e. held.keyed c (sym a.rows ∙ e);
}

collect_chunks-Agrees :
    (fails : Text → Bool) (cs : List ChunkRow) (n : ℕ × ℕ) (st : Store) (h : Text)
    → All IsKeyed cs
    → IsHeld st h
    → Agrees h st (collect_chunks fails cs (n, st)).1
unfolding collect_chunks
collect_chunks-Agrees fails [] n st h k held = record { rows = refl; blob = refl; entries = refl }
collect_chunks-Agrees fails (c ∷ cs) n st h k held =
    let first = collect_chunk-Agrees fails c n st h k.0 held in
    let out = collect_chunk fails c (n, st) in
    let rest =
      collect_chunks-Agrees fails cs out.0 out.1 h k.1 (agreeing-IsHeld st out.1 h first held) in
    record {
      rows = rest.rows ∙ first.rows;
      blob = rest.blob ∙ first.blob;
      entries = rest.entries ∙ first.entries;
    }

agreeing-reads :
    (l : Libraries) (st st' : Store) (h : Text)
    → Agrees h st st'
    → IsHeld st h
    → checked_plain l st' h ≡ checked_plain l st h
unfolding checked_plain read_chunk_stored
agreeing-reads l st st' h a held = elim (Option-cases (find_chunk h st.chunks)) [
  | inl gone ↦ rw (checked_plain, read_chunk_stored, a.rows, gone) refl
  | inr (c, row) ↦ rw (checked_plain, read_chunk_stored, a.rows, row, held.keyed c row, a.blob) refl
]

-- Collecting any rows that name their own hash and key, with deletes that fail or not, leaves each list
-- of chunks that manifests still refer to reading exactly as before, provided that their rows are keyed
-- by their hashes.
pub collect_chunks-keeps :
    (l : Libraries) (fails : Text → Bool) (cs : List ChunkRow) (n : ℕ × ℕ) (st : Store)
    (hs : List Text)
    → All IsKeyed cs
    → All (IsHeld st) hs
    → reassemble l (collect_chunks fails cs (n, st)).1 hs ≡ reassemble l st hs
unfolding reassemble
collect_chunks-keeps l fails cs n st [] k held = refl
collect_chunks-keeps l fails cs n st (h ∷ hs) k held =
    let a = collect_chunks-Agrees fails cs n st h k held.0 in
    rw (agreeing-reads l st _ h a held.0, collect_chunks-keeps l fails cs n st hs k held.1) refl
