-- ===== src/Files/Versions/Listings.antt =====
-- server/internal/files/versions.go and store.go: the versions of a file, the content of one, the blobs that
-- no version holds, and the versions that may move to a manifest.
use private_cloud.Prelude.{
  ℕ, ◌+◌, Bool, not, ◌&&◌, Option, none, some, is_some, List, [], ◌∷◌, map, filter, take, ltb, leb,
  ◌==◌, if◌then◌else◌, Result, ok, err, ◌>>=◌, or_fail, Text,
}
use private_cloud.Files.{Err, not_found, Node, same_id, get_live}
use private_cloud.Files.Versions.{Version, BlobRow, Db, find_blob, lookup_by, content_hash}
use private_cloud.Files.Versions.History.{is_newer, oldest_first, refcount, version_of}

pub record Listed : Type 0 where
  pub id : ℕ
  pub size : ℕ
  pub mime : Text
  pub created_at : ℕ
  pub created_by : Option ℕ
  pub is_head : Bool
  pub content_hash : Option Text
  pub manifest_id : Option ℕ

unfoldable pub insert_by_newest : Version → List Version → List Version
unfolding is_newer
insert_by_newest v [] = v ∷ []
insert_by_newest v (w ∷ ws) =
    let rest = insert_by_newest v ws in if is_newer v w then w ∷ rest else v ∷ w ∷ ws

unfoldable pub newest_first : List Version → List Version
unfolding insert_by_newest
newest_first [] = []
newest_first (v ∷ vs) = insert_by_newest v (newest_first vs)

abbrev pub listed : Db → Node → Version → Listed
listed db n v = record {
  id = v.id;
  size = v.size;
  mime = v.mime;
  created_at = v.created_at;
  created_by = v.created_by;
  is_head = same_id (some v.id) n.head_version_id;
  content_hash = content_hash db v;
  manifest_id = v.manifest_id;
}

-- No row is the same answer as no file.
abbrev pub or_missing : List Listed → Result Err (List Listed)
or_missing [] = err not_found
or_missing (l ∷ ls) = ok (l ∷ ls)

unfoldable pub list_versions : ℕ → ℕ → Db → Result Err (List Listed)
unfolding get_live newest_first
list_versions owner node_id db = do
  n ← or_fail (get_live owner node_id db.nodes) not_found
  or_missing (map (listed db n) (newest_first (filter (λ v. v.node_id == node_id) db.versions)))

pub record VersionContent : Type 0 where
  pub blob_key : Text
  pub manifest_id : Option ℕ
  pub mime : Text
  pub size : ℕ
  pub content_hash : Option Text
  pub created_at : ℕ
  pub name : Text

abbrev pub key_of : Option BlobRow → Text
key_of none = []
key_of (some b) = b.storage_key

unfoldable pub find_version_content : ℕ → ℕ → ℕ → Db → Result Err VersionContent
unfolding get_live version_of find_blob
find_version_content owner node_id version_id db = do
  n ← or_fail (get_live owner node_id db.nodes) not_found
  v ← or_fail (version_of version_id node_id db.versions) not_found
  ok record {
    blob_key = key_of (lookup_by v.blob_id (λ id. find_blob id db.blobs));
    manifest_id = v.manifest_id;
    mime = v.mime;
    size = v.size;
    content_hash = content_hash db v;
    created_at = v.created_at;
    name = n.name;
  }

unfoldable pub insert_blob_by_age : BlobRow → List BlobRow → List BlobRow
insert_blob_by_age b [] = b ∷ []
insert_blob_by_age b (c ∷ cs) =
    let rest = insert_blob_by_age b cs in
    if leb b.created_at c.created_at then b ∷ c ∷ cs else c ∷ rest

unfoldable pub oldest_blobs_first : List BlobRow → List BlobRow
unfolding insert_blob_by_age
oldest_blobs_first [] = []
oldest_blobs_first (b ∷ bs) = insert_blob_by_age b (oldest_blobs_first bs)

unfoldable pub unreferenced_blobs : ℕ → ℕ → ℕ → Db → List BlobRow
unfolding refcount oldest_blobs_first
unreferenced_blobs grace limit now db = take limit (
    oldest_blobs_first
      (filter (λ b. refcount b.id db.versions == 0 && ltb (b.created_at + grace) now) db.blobs))

abbrev pub migratable : Db → ℕ → Version → Bool
migratable db min_size v =
    not (is_some v.manifest_id)
    && (is_some (lookup_by v.blob_id (λ id. find_blob id db.blobs)) && leb min_size v.size)

-- The whole rows, of which the source reads the ids, the size and the key of the blob.
unfoldable pub migratable_versions : ℕ → ℕ → Db → List Version
unfolding oldest_first find_blob
migratable_versions min_size limit db =
    take limit (oldest_first (filter (migratable db min_size) db.versions))
