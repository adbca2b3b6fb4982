-- ===== src/Cas/Commit.antt =====
-- server/internal/cas/delta.go, CommitManifest: what a committed manifest says of the file.
use private_cloud.Prelude.{
  ℕ, ◌+◌, ◌≡◌, refl, ap, ◌∙◌, subst, inl, inr, Bool, true, none, some, List, [], ◌∷◌, ◌++◌, Text,
  text_eq, text_eq_iff, length, length-append, Bool-cases, Option-cases, Result, ok, Result-cases,
  arith,
}
use private_cloud.Cas.Codec.{Libraries, Err}
use private_cloud.Cas.Store.{
  Store, ChunkRow, Manifest, find_chunk, geometry, reassemble, checked_plain, verify_content_hash,
  find_manifest, record_manifest, commit_manifest,
}
use private_cloud.Cas.Addressed.{IsAddressed, checked_plain-Describes}

ok-injective {ℓ κ} :
    {E : Type ℓ} {A : Type κ} (a b : A) → ◌≡◌ {A = Result E A} (ok a) (ok b) → a ≡ b
ok-injective a b e = cc

-- The geometry of a list of hashes with what reading them gives: the total grows by the length of
-- the content, and there is an offset for each hash.
geometry-reassemble :
    (l : Libraries) (st : Store) (t : ℕ) (hs : List Text) (offs : List (Text × ℕ)) (end : ℕ)
    → IsAddressed l st
    → geometry st.chunks t hs ≡ ok (offs, end)
    → (content : Text) × (reassemble l st hs ≡ ok content) × (end ≡ t + length content)
unfolding geometry reassemble
geometry-reassemble l st t [] offs end a e = ([], refl, ground arith)
geometry-reassemble l st t (h ∷ hs) offs end a e = elim (Option-cases (find_chunk h st.chunks)) [
  | inl no_row ↦ absurd (refused no_row)
  | inr (c, row) ↦ found c row (λ offs' e'. geometry-reassemble l st (t + c.size) hs offs' end a e')
]
  where
    refused : find_chunk h st.chunks ≡ none → ⊥
    refused no_row = cc (rw no_row at e)

    joined :
        (c : ChunkRow)
        → (plain : Text) × (checked_plain l st h ≡ ok plain)
          × (l.sum plain ≡ h)
          × (c.size ≡ length plain)
        → (rest : Text) × (reassemble l st hs ≡ ok rest) × (end ≡ t + c.size + length rest)
        → (content : Text) × (reassemble l st (h ∷ hs) ≡ ok content) × (end ≡ t + length content)
    joined c (plain, p, _, size) (rest, q, total) =
        (plain ++ rest, rw (reassemble, p, q) refl, omega (arith, length-append plain rest))

    found :
        (c : ChunkRow)
        → find_chunk h st.chunks ≡ some c
        → ((offs' : List (Text × ℕ))
            → geometry st.chunks (t + c.size) hs ≡ ok (offs', end)
            → (rest : Text) × (reassemble l st hs ≡ ok rest) × (end ≡ t + c.size + length rest))
        → (content : Text) × (reassemble l st (h ∷ hs) ≡ ok content) × (end ≡ t + length content)
    found c row ih = elim (Result-cases (geometry st.chunks (t + c.size) hs)) [
      | inl ((offs', end'), g) ↦
          let done : ◌≡◌ {A = Result Err (List (Text × ℕ) × ℕ)} (ok ((h, t) ∷ offs', end'))
              (ok (offs, end)) =
            rw (row, g) at e in
          let same : end' ≡ end = ground arith in
          joined c (checked_plain-Describes l st h c a row)
            (ih offs' (g ∙ ap (λ (n : ℕ). ok (offs', n)) same))
      | inr (x, g) ↦ absurd (cc (rw (row, g) at e))
    ]

-- What the last step of CommitManifest returns.
abbrev Recorded : Text → ℕ → ℕ → Store → Manifest × Bool × Store → Type 0
Recorded hash total count st (m, reused, st') =
    (m.content_hash ≡ hash)
    × (m.total_size ≡ total)
    × (m.chunk_count ≡ count)
    × (st'.blobs ≡ st.blobs)
    × (st'.chunks ≡ st.chunks)
    × (st'.versions ≡ st.versions)
    × (reused ≡ true → st' ≡ st)

record_manifest-Recorded :
    (id : ℕ) (hash : Text) (offs : List (Text × ℕ)) (total count : ℕ) (st : Store)
    → Recorded hash total count st (record_manifest id hash offs total count st)
unfolding record_manifest
record_manifest-Recorded id hash offs total count st =
    elim (Option-cases (find_manifest st hash total count st.manifests)) [
      | inl none_live ↦
          rw (record_manifest, none_live) (refl, refl, refl, refl, refl, refl, λ e. cc)
      | inr (old, live) ↦ rw (record_manifest, live) (refl, refl, refl, refl, refl, refl, λ e. refl)
    ]

-- What CommitManifest answers for a list of hashes: a manifest of the declared hash, of the length of
-- the content that the chunks make up in that order, whose digest is the declared hash.
pub record Commits (l : Libraries) (st : Store) (hash : Text) (hs : List Text) (m : Manifest)
    : Type 0 where
  pub content : Text
  pub reads : reassemble l st hs ≡ ok content
  pub identity : l.sum content ≡ hash
  pub named : m.content_hash ≡ hash
  pub total : m.total_size ≡ length content
  pub count : m.chunk_count ≡ length hs

-- In an addressed store, CommitManifest succeeds only for chunks that are stored and whose content, put together in the
-- order given, has the declared hash; the size is the content's, never the client's claim. It
-- leaves the blobs, the chunks and the versions alone, and a reuse leaves the whole store.
pub commit_manifest-Commits :
    (l : Libraries) (id : ℕ) (hash : Text) (hs : List Text) (st st' : Store) (m : Manifest)
    (reused : Bool)
    → IsAddressed l st
    → commit_manifest l id hash hs st ≡ ok (m, reused, st')
    → Commits l st hash hs m
      × (st'.blobs ≡ st.blobs)
      × (st'.chunks ≡ st.chunks)
      × (st'.versions ≡ st.versions)
      × (reused ≡ true → st' ≡ st)
unfolding commit_manifest verify_content_hash
commit_manifest-Commits l id hash [] st st' m reused a e = cc
commit_manifest-Commits l id hash (h ∷ hs) st st' m reused a e =
    elim (Result-cases (geometry st.chunks 0 (h ∷ hs))) [
      | inl ((offs, total), g) ↦
          placed offs total g (geometry-reassemble l st 0 (h ∷ hs) offs total a g)
      | inr (x, g) ↦ absurd (cc (rw g at e))
    ]
  where
    placed :
        (offs : List (Text × ℕ)) (total : ℕ)
        → geometry st.chunks 0 (h ∷ hs) ≡ ok (offs, total)
        → (content : Text) × (reassemble l st (h ∷ hs) ≡ ok content) × (total ≡ 0 + length content)
        → Commits l st hash (h ∷ hs) m
          × (st'.blobs ≡ st.blobs)
          × (st'.chunks ≡ st.chunks)
          × (st'.versions ≡ st.versions)
          × (reused ≡ true → st' ≡ st)
    placed offs total g (content, r, t) = elim (Bool-cases (text_eq (l.sum content) hash)) [
      | inl match_ ↦
          let done : ◌≡◌ {A = Result Err (Manifest × Bool × Store)}
              (ok (record_manifest id hash offs total (length (h ∷ hs)) st)) (ok (m, reused, st')) =
            rw (g, r, match_) at e in
          let rec =
            subst (Recorded hash total (length (h ∷ hs)) st) (ok-injective _ _ done)
              (record_manifest-Recorded id hash offs total (length (h ∷ hs)) st) in
          (
            record {
              content = content;
              reads = r;
              identity = (text_eq_iff (l.sum content) hash).0 match_;
              named = rec.0;
              total = rec.1 ∙ t ∙ omega arith;
              count = rec.2;
            },
            rec.3,
            rec.4,
            rec.5,
            rec.6,
          )
      | inr differs ↦ absurd (cc (rw (g, r, differs) at e))
    ]
