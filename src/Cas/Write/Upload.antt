-- ===== src/Cas/Write/Upload.antt =====
-- server/internal/cas/store.go, Store.Write: an upload stores the content and answers for it.
use private_cloud.Prelude.{some, ◌+◌, ◌≡◌, false, List, map, Text, length, ok}
use private_cloud.Cas.Codec.{Libraries}
use private_cloud.Cas.Store.{Store, reassemble}
use private_cloud.Cas.Addressed.{IsAddressed}
use private_cloud.Cas.Write.{WriteResult, Piece, hash_of}
use private_cloud.Cas.Reader.{refs_of, find_manifest_by_id}
use private_cloud.Cas.Reader.Slices.{Lies}

-- What Write answers and leaves for a content that the cutter gave as these pieces: the store stays
-- addressed, the manifest has the content's digest, its length and the number of the pieces, each
-- piece counts as new or as deduplicated. A new manifest is in the table, and the entries that the reader
-- loads for it lie end to end, with chunks that can be fetched and make up the content.
pub record Writes (l : Libraries) (content : Text) (ps : List Piece) (res : WriteResult)
    (st : Store) : Type 0 where
  pub addressed : IsAddressed l st
  pub hashed : res.manifest.content_hash ≡ l.sum content
  pub sized : res.manifest.total_size ≡ length content
  pub counted : res.manifest.chunk_count ≡ length ps
  pub accounted : res.new_chunks + res.deduped_chunks ≡ length ps
  pub readable : res.reused_manifest ≡ false → reassemble l st (map (hash_of l) ps) ≡ ok content
  pub listed :
      res.reused_manifest ≡ false
      → find_manifest_by_id res.manifest.id st.manifests ≡ some res.manifest
  pub recorded : res.reused_manifest ≡ false → Lies l st 0 (refs_of res.manifest.id st) content
