-- ===== src/Cas/Examples/Collected.antt =====
-- server/internal/cas: an upload of two pieces, a collection, and the two interleaved.
use private_cloud.Prelude.{
  ◌≡◌, refl, Bool, true, false, some, List, [], ◌∷◌, Text, text_eq, err, arith,
}
use private_cloud.Cas.Codec.{compress_chunk, storage_key, chunk_not_found}
use private_cloud.Cas.Store.{
  Store, ChunkRow, row_of, find_chunk, find_blob, reassemble, read_chunk_stored,
}
use private_cloud.Cas.Write.{Piece, no_counts, place}
use private_cloud.Cas.Collect.{collect_chunks}
use private_cloud.Cas.Collect.Live.{IsHeld, collect_chunks-keeps}
use private_cloud.Cas.Collect.Race.{after_race, upload_races}
use private_cloud.Cas.Examples.{libraries, store_a, committed, hash_a}

-- A cutter that gives each byte as a piece, of this content.
abbrev pieces : List Piece
pieces = (0, 65 ∷ []) ∷ (1, 66 ∷ []) ∷ []

abbrev split : Text → List Piece × Bool
split s = (pieces, true)

-- A chunk that nothing refers to.
abbrev stray : ChunkRow
stray = row_of libraries (1 ∷ 2 ∷ 67 ∷ []) (67 ∷ [])

a-IsHeld : IsHeld committed hash_a
unfolding find_chunk text_eq storage_key compress_chunk
a-IsHeld = record { long = omega arith; counted = refl; keyed = λ c e. cc }

collect_chunks-keeps_example :
    reassemble libraries
      (collect_chunks (λ k. false) (stray ∷ []) ((0, 0), committed)).1
      (hash_a ∷ [])
    ≡ reassemble libraries committed (hash_a ∷ [])
collect_chunks-keeps_example =
    collect_chunks-keeps libraries (λ k. false) (stray ∷ []) (0, 0) committed (hash_a ∷ [])
      ((refl, omega arith), tt) (a-IsHeld, tt)

row_found : find_chunk hash_a store_a.chunks ≡ some (row_of libraries hash_a (65 ∷ []))
unfolding find_chunk text_eq
row_found = refl

blob_found : find_blob (storage_key hash_a) store_a.blobs ≡ some (65 ∷ [])
unfolding find_blob storage_key text_eq
blob_found = refl

upload_races_example :
    ((place libraries ((0, 65 ∷ []) ∷ []) (no_counts, store_a.blobs)).1 ≡ store_a.blobs)
    × (find_chunk hash_a
          (after_race libraries (0, 65 ∷ []) (row_of libraries hash_a (65 ∷ [])) store_a).chunks
        ≡ some (row_of libraries hash_a (65 ∷ [])))
    × (read_chunk_stored hash_a
          (after_race libraries (0, 65 ∷ []) (row_of libraries hash_a (65 ∷ [])) store_a)
        ≡ err chunk_not_found)
upload_races_example =
    upload_races libraries 0 (65 ∷ []) (65 ∷ []) (row_of libraries hash_a (65 ∷ [])) store_a refl
      refl row_found blob_found refl
