-- ===== src/Cas/Codec.antt =====
-- server/internal/cas/chunker.go and delta.go: the libraries that the package calls, the
-- compression policy, and the storage keys.
use private_cloud.Prelude.{
  ℕ, ◌+◌, ◌*◌, ◌/◌, ◌%◌, ◌≡◌, Option, none, some, [], ◌∷◌, ◌++◌, Text, length, take, drop, ltb,
  if◌then◌else◌, Result, ok, err,
}

-- github.com/zeebo/blake3 and github.com/klauspost/compress/zstd. `sum` is the digest of the bytes
-- written, in however many writes. zstd's documented round trip is the one law.
pub record Libraries : Type 0 where
  pub sum : Text → Text
  pub encode : Text → Text
  pub decode : Text → Option Text
  pub decode_encode : (plain : Text) → decode (encode plain) ≡ some plain

-- What a stored chunk's compression column says; `other` is any text but the two.
pub data Compression : Type 0 where
  none_ zstd other : Compression

pub data Err : Type 0 where
  hash_mismatch chunk_too_large empty_manifest missing_chunk chunk_not_found : Err
  content_hash_mismatch manifest_not_found : Err
  corrupt_chunk unknown_compression wrong_size : Err
  split_failed : Err
  read_after_close cancelled end_of_file invalid_whence negative_position : Err

abbrev pub max_chunk_size : ℕ
max_chunk_size = 65536

-- The bytes to store and how they are compressed: zstd only where it saves a tenth.
unfoldable pub compress_chunk : Libraries → Text → Text × Compression
compress_chunk l plain =
    if ltb (length (l.encode plain)) (length plain * 9 / 10)
    then (l.encode plain, zstd)
    else (plain, none_)

unfoldable pub decompress : Libraries → Text → Compression → Result Err Text
decompress l stored none_ = ok stored
decompress l stored zstd = elim (l.decode stored) [
  | some plain ↦ ok plain
  | none ↦ err corrupt_chunk
]
decompress l stored other = err unknown_compression

abbrev pub hex_digit : ℕ → ℕ
hex_digit d = if ltb d 10 then b'0' + d else 87 + d

-- hex.EncodeToString
abbrev pub hex : Text → Text
hex [] = []
hex (b ∷ bs) = hex_digit (b / 16) ∷ hex_digit (b % 16) ∷ hex bs

-- ab/cd/<full hex>
unfoldable pub storage_key : Text → Text
storage_key hash = let h = hex hash in take 2 h ++ (b'/' ∷ (take 2 (drop 2 h) ++ (b'/' ∷ h)))
