-- ===== src/Cas/Examples.antt =====
-- server/internal/cas: two chunks of one byte each, put, committed, read, uploaded and collected.
mod Reads
mod Collected
use private_cloud.Prelude.{
  ℕ, ◌+◌, ◌≤◌, ◌≡◌, refl, ap, inl, inr, Bool, true, false, Option, none, some, List, [], ◌∷◌, ◌++◌,
  Text, text_eq, length, drop, Result, ok, err, arith,
}
use private_cloud.Cas.Codec.{Libraries, compress_chunk, decompress, storage_key}
use private_cloud.Cas.Store.{
  Store, Manifest, find_blob, find_chunk, put_keyed, insert_chunk, put_chunk, row_of, checked_plain,
  read_chunk_stored, reassemble, verify_content_hash, geometry, find_manifest, entries_of,
  record_manifest, commit_manifest,
}
use private_cloud.Cas.Keys.{decompress-compress_chunk, storage_key-injective}
use private_cloud.Cas.Addressed.{
  IsAddressed, IsLong, IsUncollided, put_chunk-IsAddressed, checked_plain-Describes,
}
use private_cloud.Cas.Commit.{Commits, commit_manifest-Commits}

-- A digest that keeps the content, and an encoder that keeps the bytes.
abbrev pub libraries : Libraries
libraries = record {
  sum = λ plain. 1 ∷ 2 ∷ plain;
  encode = λ plain. plain;
  decode = λ stored. some stored;
  decode_encode = λ plain. refl;
}

pub libraries-IsLong : IsLong libraries
libraries-IsLong q = omega arith

pub libraries-IsUncollided : (plain : Text) → IsUncollided libraries plain
libraries-IsUncollided plain q e = ap (drop 2) e

decompress-compress_chunk_example :
    decompress libraries
      (compress_chunk libraries (65 ∷ [])).0
      (compress_chunk libraries (65 ∷ [])).1
    ≡ ok (65 ∷ [])
decompress-compress_chunk_example = decompress-compress_chunk libraries (65 ∷ [])

abbrev pub hash_a : Text
hash_a = 1 ∷ 2 ∷ 65 ∷ []

abbrev pub hash_b : Text
hash_b = 1 ∷ 2 ∷ 66 ∷ []

storage_key-injective_example : hash_a ≡ hash_a
storage_key-injective_example = storage_key-injective hash_a hash_a (omega arith) (omega arith) refl

abbrev pub empty_store : Store
empty_store = record { blobs = []; chunks = []; manifests = []; entries = []; versions = [] }

abbrev pub store_a : Store
store_a = record empty_store {
  blobs = (storage_key hash_a, 65 ∷ []) ∷ [];
  chunks = row_of libraries hash_a (65 ∷ []) ∷ [];
}

abbrev pub store_ab : Store
store_ab = record store_a {
  blobs = (storage_key hash_b, 66 ∷ []) ∷ store_a.blobs;
  chunks = row_of libraries hash_b (66 ∷ []) ∷ store_a.chunks;
}

put_a : put_chunk libraries hash_a (65 ∷ []) empty_store ≡ ok (true, store_a)
unfolding put_chunk put_keyed insert_chunk find_blob find_chunk compress_chunk storage_key text_eq
put_a = refl

put_b : put_chunk libraries hash_b (66 ∷ []) store_a ≡ ok (true, store_ab)
unfolding put_chunk put_keyed insert_chunk find_blob find_chunk compress_chunk storage_key text_eq
put_b = refl

empty-IsAddressed : IsAddressed libraries empty_store
empty-IsAddressed = record { rows = tt; blobs_keyed = tt }

store_a-IsAddressed : IsAddressed libraries store_a
store_a-IsAddressed =
    put_chunk-IsAddressed libraries hash_a (65 ∷ []) empty_store store_a true libraries-IsLong
      (libraries-IsUncollided (65 ∷ [])) empty-IsAddressed put_a

pub store_ab-IsAddressed : IsAddressed libraries store_ab
store_ab-IsAddressed =
    put_chunk-IsAddressed libraries hash_b (66 ∷ []) store_a store_ab true libraries-IsLong
      (libraries-IsUncollided (66 ∷ [])) store_a-IsAddressed put_b

put_chunk-IsAddressed_example : IsAddressed libraries store_ab
put_chunk-IsAddressed_example =
    put_chunk-IsAddressed libraries hash_b (66 ∷ []) store_a store_ab true libraries-IsLong
      (libraries-IsUncollided (66 ∷ [])) store_a-IsAddressed put_b

found_a : find_chunk hash_a store_ab.chunks ≡ some (row_of libraries hash_a (65 ∷ []))
unfolding find_chunk text_eq
found_a = refl

checked_plain-Describes_example :
    (plain : Text) × (checked_plain libraries store_ab hash_a ≡ ok plain)
    × (libraries.sum plain ≡ hash_a)
    × (◌≡◌ {A = ℕ} 1 (length plain))
checked_plain-Describes_example =
    checked_plain-Describes libraries store_ab hash_a (row_of libraries hash_a (65 ∷ []))
      store_ab-IsAddressed found_a

abbrev pub content : Text
content = 65 ∷ 66 ∷ []

abbrev pub manifest : Manifest
manifest = record { id = 9; total_size = 2; chunk_count = 2; content_hash = 1 ∷ 2 ∷ content }

abbrev pub committed : Store
committed = record store_ab {
  manifests = manifest ∷ [];
  entries =
      record { manifest_id = 9; seq = 0; chunk_hash = hash_a; byte_offset = 0 }
      ∷ record { manifest_id = 9; seq = 1; chunk_hash = hash_b; byte_offset = 1 }
      ∷ [];
}

commits :
    commit_manifest libraries 9 (1 ∷ 2 ∷ content) (hash_a ∷ hash_b ∷ []) store_ab
    ≡ ok (manifest, false, committed)
unfolding commit_manifest geometry verify_content_hash reassemble checked_plain read_chunk_stored
    find_chunk find_blob record_manifest find_manifest entries_of decompress compress_chunk
    storage_key text_eq
commits = refl

commit_manifest-Commits_example :
    Commits libraries store_ab (1 ∷ 2 ∷ content) (hash_a ∷ hash_b ∷ []) manifest
    × (committed.blobs ≡ store_ab.blobs)
    × (committed.chunks ≡ store_ab.chunks)
    × (committed.versions ≡ store_ab.versions)
    × (false ≡ true → committed ≡ store_ab)
commit_manifest-Commits_example =
    commit_manifest-Commits libraries 9 (1 ∷ 2 ∷ content) (hash_a ∷ hash_b ∷ []) store_ab committed
      manifest false store_ab-IsAddressed commits
