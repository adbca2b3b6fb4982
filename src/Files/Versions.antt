-- ===== src/Files/Versions.antt =====
-- server/internal/files/store.go and versions.go: PutFile, what an owner uses and its quota, the versions
-- of a file, and the rows of blobs. A file of the tree has a head version.
pub mod History
pub mod Listings
pub mod Pruning
use private_cloud.Prelude.{
  any, ℕ, suc, ◌+◌, ◌-◌, Bool, true, false, not, ◌&&◌, ◌||◌, Option, none, some, is_some, List, [],
  ◌∷◌, map, Text, text_eq, codes, filter, length, ltb, ◌==◌, if◌then◌else◌, Result, ok, err, ◌>>=◌,
  or_fail,
}
use private_cloud.Files.{
  Err, not_found, not_a_file, name_taken, invalid_name, quota, bad_content, db_error, Node, is_live,
  is_trashed, same_id, find_node, get_live, insert_row,
}
use private_cloud.Files.Names.{validate_name}
use private_cloud.Files.Tree.{require, live_folder, child_of}

pub record Version : Type 0 where
  pub id : ℕ
  pub node_id : ℕ
  pub blob_id : Option ℕ
  pub manifest_id : Option ℕ
  pub size : ℕ
  pub mime : Text
  pub created_at : ℕ
  pub created_by : Option ℕ

pub record BlobRow : Type 0 where
  pub id : ℕ
  pub storage_key : Text
  pub size : ℕ
  pub sha256 : Text
  pub created_at : ℕ

-- `manifests` has the content hash of each, `quotas` the quota_bytes of each user.
pub record Db : Type 0 where
  pub nodes : List Node
  pub versions : List Version
  pub blobs : List BlobRow
  pub manifests : List (ℕ × Text)
  pub quotas : List (ℕ × Option ℕ)

unfoldable pub find_by_id {ℓ} : {A : Type ℓ} → ℕ → List (ℕ × A) → Option A
find_by_id id [] = none
find_by_id id ((k, a) ∷ rows) = if k == id then some a else find_by_id id rows

unfoldable pub find_blob : ℕ → List BlobRow → Option BlobRow
find_blob id [] = none
find_blob id (b ∷ bs) = if b.id == id then some b else find_blob id bs

abbrev pub hash_of_blob : Option BlobRow → Option Text → Option Text
hash_of_blob (some b) other = some b.sha256
hash_of_blob none other = other

abbrev pub lookup_by {ℓ} : {A : Type ℓ} → Option ℕ → (ℕ → Option A) → Option A
lookup_by none find = none
lookup_by (some id) find = find id

-- coalesce(b.sha256, m.content_hash)
unfoldable pub content_hash : Db → Version → Option Text
unfolding find_blob find_by_id
content_hash db v =
    hash_of_blob (lookup_by v.blob_id (λ id. find_blob id db.blobs))
      (lookup_by v.manifest_id (λ id. find_by_id id db.manifests))

-- A row of the joined versions of an owner's files.
pub record Content : Type 0 where
  pub hash : Option Text
  pub size : ℕ
  pub is_head : Bool
  pub trashed : Bool

abbrev pub rank : Content → ℕ
rank c = if c.is_head then (if c.trashed then 1 else 2) else 0

abbrev pub same_hash : Option Text → Option Text → Bool
same_hash none none = true
same_hash none (some b) = false
same_hash (some a) none = false
same_hash (some a) (some b) = text_eq a b

-- DISTINCT ON the hash, with the ORDER BY that picks the row.
unfoldable pub pick : Content → List Content → List Content
pick c [] = c ∷ []
pick c (d ∷ ds) =
    let rest = pick c ds in
    if same_hash c.hash d.hash then (if ltb (rank d) (rank c) then c ∷ ds else d ∷ ds) else d ∷ rest

unfoldable pub distinct : List Content → List Content
unfolding pick
distinct [] = []
distinct (c ∷ cs) = pick c (distinct cs)

-- The version as a row of an owner's content, where its node is a file of the owner.
abbrev pub joined : ℕ → Db → Version → Option Node → List Content → List Content
joined owner db v none rest = rest
joined owner db v (some n) rest =
    if n.owner_id == owner && not n.is_folder
    then record {
      hash = content_hash db v;
      size = v.size;
      is_head = same_id (some v.id) n.head_version_id;
      trashed = is_trashed n;
    }
      ∷ rest
    else rest

unfoldable pub contents : ℕ → Db → List Version → List Content
unfolding find_node content_hash
contents owner db [] = []
contents owner db (v ∷ vs) =
    joined owner db v (find_node (λ n. n.id == v.node_id) db.nodes) (contents owner db vs)

unfoldable pub total : (Content → Bool) → List Content → ℕ
total counts [] = 0
total counts (c ∷ cs) = (if counts c then c.size else 0) + total counts cs

pub record Usage : Type 0 where
  pub live_bytes : ℕ
  pub trash_bytes : ℕ
  pub version_bytes : ℕ
  pub file_count : ℕ
  pub quota_bytes : Option ℕ

unfoldable pub usage_of : ℕ → Option ℕ → Db → Usage
unfolding contents distinct total
usage_of owner limit db =
    let cs = distinct (contents owner db db.versions) in
    record {
      live_bytes = total (λ c. c.is_head && not c.trashed) cs;
      trash_bytes = total (λ c. c.is_head && c.trashed) cs;
      version_bytes = total (λ c. not c.is_head) cs;
      file_count =
          length (filter (λ n. n.owner_id == owner && (not n.is_folder && is_live n)) db.nodes);
      quota_bytes = limit;
    }

-- Usage: a user that is not there is an error.
unfoldable pub usage : ℕ → Db → Result Err Usage
unfolding find_by_id usage_of
usage owner db = do
  limit ← or_fail (find_by_id owner db.quotas) db_error
  ok (usage_of owner limit db)

unfoldable pub total_bytes : Usage → ℕ
total_bytes u = u.live_bytes + u.trash_bytes + u.version_bytes

abbrev pub over : ℕ → ℕ → Option ℕ → Bool
over used adding none = false
over used adding (some q) = ltb q (used + adding)

unfoldable pub check_quota : ℕ → ℕ → Db → Result Err (Unit {0})
unfolding usage total_bytes
check_quota owner adding db = do
  u ← usage owner db
  require (not (over (total_bytes u) adding u.quota_bytes)) quota

pub record PutFileInput : Type 0 where
  pub owner_id : ℕ
  pub parent_id : ℕ
  pub name : Text
  pub blob_key : Text
  pub sha256 : Text
  pub manifest_id : Option ℕ
  pub size : ℕ
  pub mime : Text

-- The ids of the rows that PutFile may insert.
pub record NewIds : Type 0 where
  pub blob : ℕ
  pub node : ℕ
  pub version : ℕ

-- The live row that has the name, or a new one.
unfoldable pub place_file :
    (Text → Text) → PutFileInput → Node → ℕ → List Node → Result Err (ℕ × List Node)
unfolding find_node insert_row
place_file fold input parent id nodes =
    elim (find_node
      (λ n.
        same_id n.parent_id (some input.parent_id)
        && (text_eq n.name_fold (fold input.name) && is_live n))
      nodes) [
        | none ↦ (do
          out ← insert_row (child_of fold parent id false input.name) nodes
          ok (id, out))
        | some n ↦ (do _ ← require (not n.is_folder) name_taken; ok (n.id, nodes))
      ]

abbrev pub set_head : ℕ → ℕ → Text → Node → Node
set_head id version name n =
    if n.id == id then record n { head_version_id = some version; name = name } else n

abbrev pub blob_row : PutFileInput → ℕ → ℕ → BlobRow
blob_row input now id = record {
  id = id;
  storage_key = input.blob_key;
  size = input.size;
  sha256 = input.sha256;
  created_at = now;
}

-- The storage key of a blob is unique.
unfoldable pub insert_blob : PutFileInput → ℕ → ℕ → List BlobRow → Result Err (List BlobRow)
insert_blob input now id blobs =
    if text_eq input.blob_key []
    then ok blobs
    else (if any (λ b. text_eq b.storage_key input.blob_key) blobs
        then err db_error
        else ok (blob_row input now id ∷ blobs))

-- A version's manifest is there: the foreign key.
unfoldable pub is_manifest : Option ℕ → List (ℕ × Text) → Bool
unfolding find_by_id
is_manifest none ms = true
is_manifest (some id) ms = is_some (find_by_id id ms)

abbrev pub mime_or_default : Text → Text
mime_or_default mime = if text_eq mime [] then codes "application/octet-stream" else mime

unfoldable pub put_file : (Text → Text) → ℕ → NewIds → PutFileInput → Db → Result Err Db
unfolding validate_name live_folder check_quota place_file insert_blob is_manifest
put_file fold now ids input db = do
  _ ← require (validate_name input.name) invalid_name
  _ ←
      require
        (if text_eq input.blob_key []
          then is_some input.manifest_id
          else not (is_some input.manifest_id))
        bad_content
  parent ← live_folder input.owner_id input.parent_id db.nodes
  _ ← check_quota input.owner_id input.size db
  blobs ← insert_blob input now ids.blob db.blobs
  (id, nodes) ← place_file fold input parent ids.node db.nodes
  _ ← require (is_manifest input.manifest_id db.manifests) db_error
  let version : Version = record {
    id = ids.version;
    node_id = id;
    blob_id = if text_eq input.blob_key [] then none else some ids.blob;
    manifest_id = input.manifest_id;
    size = input.size;
    mime = mime_or_default input.mime;
    created_at = now;
    created_by = some input.owner_id;
  }
  ok (record db {
    nodes = map (set_head id ids.version input.name) nodes;
    versions = version ∷ db.versions;
    blobs = blobs;
  })
