-- ===== src/Files/Versions/History.antt =====
-- server/internal/files/versions.go and store.go: RestoreVersion and PruneVersions, the list of a file's
-- versions, and a version that moves from its blob to a manifest. Times and retention are numbers.
use private_cloud.Prelude.{
  ℕ, suc, ◌+◌, ◌-◌, Bool, false, not, ◌&&◌, ◌||◌, Option, none, some, is_some, List, [], ◌∷◌, map,
  any, filter, length, take, ltb, leb, ◌==◌, if◌then◌else◌, Result, ok, ◌>>=◌, or_fail,
}
use private_cloud.Files.{Err, not_found, not_a_file, Node, same_id, find_node, get_live}
use private_cloud.Files.Tree.{require}
use private_cloud.Files.Versions.{Version, Db, BlobRow, set_head, check_quota}

unfoldable pub find_version : ℕ → List Version → Option Version
find_version id [] = none
find_version id (v ∷ vs) = if v.id == id then some v else find_version id vs

abbrev pub size_of : Option Version → ℕ
size_of none = 0
size_of (some v) = v.size

-- The size of the head version, 0 when there is none.
unfoldable pub head_size : Node → Db → ℕ
unfolding find_version
head_size n db = elim n.head_version_id [
  | none ↦ 0
  | some id ↦ size_of (find_version id db.versions)
]

-- Only the growth over the head is charged.
unfoldable pub charge_growth : ℕ → ℕ → ℕ → Db → Result Err (Unit {0})
unfolding check_quota
charge_growth owner size head db =
    let charged = check_quota owner (size - head) db in if ltb head size then charged else ok tt

unfoldable pub version_of : ℕ → ℕ → List Version → Option Version
version_of id node [] = none
version_of id node (v ∷ vs) =
    if v.id == id && v.node_id == node then some v else version_of id node vs

unfoldable pub restore_version : ℕ → ℕ → ℕ → ℕ → ℕ → Db → Result Err Db
unfolding get_live head_size charge_growth version_of
restore_version now owner node_id version_id new_id db = do
  n ← or_fail (get_live owner node_id db.nodes) not_found
  _ ← require (not n.is_folder) not_a_file
  v ← or_fail (version_of version_id node_id db.versions) not_found
  _ ← charge_growth owner v.size (head_size n db) db
  let restored : Version = record v { id = new_id; created_at = now; created_by = some owner }
  ok (record db {
    nodes = map (set_head node_id new_id n.name) db.nodes;
    versions = restored ∷ db.versions;
  })

-- ORDER BY created_at DESC, id DESC: whether the second version comes before the first.
unfoldable pub is_newer : Version → Version → Bool
is_newer v w = ltb v.created_at w.created_at || (v.created_at == w.created_at && ltb v.id w.id)

-- row_number() in the versions of its file.
unfoldable pub row_number : List Version → Version → ℕ
unfolding is_newer
row_number vs v = suc (length (filter (λ w. w.node_id == v.node_id && is_newer v w) vs))

abbrev pub is_superseded : Version → Option Node → Bool
is_superseded v none = false
is_superseded v (some n) = is_some n.head_version_id && not (same_id (some v.id) n.head_version_id)

unfoldable pub is_prunable : ℕ → ℕ → ℕ → Db → Version → Bool
unfolding find_node row_number
is_prunable keep_n retention now db v =
    is_superseded v (find_node (λ n. n.id == v.node_id) db.nodes)
    && (ltb keep_n (row_number db.versions v) && ltb (v.created_at + retention) now)

unfoldable pub insert_by_age : Version → List Version → List Version
insert_by_age v [] = v ∷ []
insert_by_age v (w ∷ ws) =
    let rest = insert_by_age v ws in if leb v.created_at w.created_at then v ∷ w ∷ ws else w ∷ rest

unfoldable pub oldest_first : List Version → List Version
unfolding insert_by_age
oldest_first [] = []
oldest_first (v ∷ vs) = insert_by_age v (oldest_first vs)

-- The rows that one pass deletes.
unfoldable pub victims : ℕ → ℕ → ℕ → ℕ → Db → List Version
unfolding is_prunable oldest_first
victims keep_n retention limit now db =
    take limit (oldest_first (filter (is_prunable keep_n retention now db) db.versions))

unfoldable pub prune_versions : ℕ → ℕ → ℕ → ℕ → Db → Db
unfolding victims
prune_versions keep_n retention limit now db =
    let dead = victims keep_n retention limit now db in
    record db { versions = filter (λ v. not (any (λ w. w.id == v.id) dead)) db.versions }

-- Whether the version still points at the blob alone.
abbrev pub is_on_blob : ℕ → ℕ → Version → Bool
is_on_blob version blob v =
    v.id == version && (same_id v.blob_id (some blob) && not (is_some v.manifest_id))

unfoldable pub switch_to_manifest : ℕ → ℕ → ℕ → Db → Bool × Db
switch_to_manifest version blob manifest db = (
  any (is_on_blob version blob) db.versions,
  record db {
    versions =
        map
          (λ v.
            if is_on_blob version blob v
            then record v { blob_id = none; manifest_id = some manifest }
            else v)
          db.versions;
  },
)

-- The column refcount, which triggers keep: the versions that hold the blob.
unfoldable pub refcount : ℕ → List Version → ℕ
refcount blob vs = length (filter (λ v. same_id v.blob_id (some blob)) vs)

abbrev pub is_dead : Db → ℕ → BlobRow → Bool
is_dead db id b = b.id == id && refcount b.id db.versions == 0

-- DeleteBlobRow: whether a row is gone, and the rows that are left.
unfoldable pub delete_blob_row : ℕ → Db → Bool × Db
unfolding refcount
delete_blob_row id db = (
  any (is_dead db id) db.blobs,
  record db { blobs = filter (λ b. not (is_dead db id b)) db.blobs },
)
