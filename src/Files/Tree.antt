-- ===== src/Files/Tree.antt =====
-- server/internal/files/store.go: the operations on the tree, EnsureRoot, CreateFolder, MoveOrRename, Trash
-- and Restore. MoveOrRename, Trash and Restore are one transaction each; one that fails leaves the rows
-- as they were. CreateFolder reads its parent and inserts in two statements, which may see different rows.
pub mod Shape
pub mod Adding
pub mod Trashing
pub mod Moving
pub mod Placing
pub mod Invariant
pub mod Steps
use private_cloud.Prelude.{
  ℕ, zero, suc, ◌+◌, Bool, true, false, not, ◌&&◌, ◌||◌, Option, none, some, is_some, List, [], ◌∷◌,
  ◌++◌, map, Text, codes, text_eq, has_prefix, any, filter, length, ltb, ◌==◌, if◌then◌else◌,
  Result, ok, err, ◌>>=◌, or_fail,
}
use private_cloud.Files.{
  Err, not_found, not_a_folder, name_taken, invalid_name, cycle, root_reserved, not_trashed, Node,
  is_live, is_trashed, is_root, same_id, get, get_live, root, clashes, insert_row,
}
use private_cloud.Files.Paths.{join_path, is_under, splice}
use private_cloud.Files.Names.{validate_name}

abbrev pub Rows : Type 0
Rows = List Node

abbrev pub require : Bool → Err → Result Err (Unit {0})
require true e = ok tt
require false e = err e

abbrev pub new_root : ℕ → ℕ → Node
new_root owner id = record {
  id = id;
  owner_id = owner;
  parent_id = none;
  is_folder = true;
  name = [];
  name_fold = [];
  path = codes "/";
  head_version_id = none;
  trashed_at = none;
  trashed_root_id = none;
}

-- EnsureRoot: a unique violation is ignored.
unfoldable pub add_root : ℕ → ℕ → Rows → Rows
unfolding insert_row
add_root owner id rows = elim (insert_row (new_root owner id) rows) [ err e ↦ rows | ok out ↦ out ]

unfoldable pub ensure_root : ℕ → ℕ → Rows → Result Err Node × Rows
unfolding root add_root
ensure_root owner id rows = elim (root owner rows) [
  | some n ↦ (ok n, rows)
  | none ↦ (let out = add_root owner id rows in (or_fail (root owner out) not_found, out))
]

unfoldable pub live_folder : ℕ → ℕ → Rows → Result Err Node
unfolding get_live
live_folder owner id rows = do
  parent ← or_fail (get_live owner id rows) not_found
  _ ← require parent.is_folder not_a_folder
  ok parent

-- The name and the parent that MoveOrRename gives the node.
unfoldable pub target_name : Node → Text → Result Err Text
unfolding validate_name
target_name node [] = ok node.name
target_name node (c ∷ new_name) = do
  _ ← require (validate_name (c ∷ new_name)) invalid_name
  ok (c ∷ new_name)

abbrev pub target_parent : Node → Option ℕ → Option ℕ
target_parent node (some p) = some p
target_parent node none = node.parent_id

-- The folder itself, or one below it.
unfoldable pub makes_cycle : Node → Node → Bool
makes_cycle node parent =
    node.is_folder
    && (parent.id == node.id || has_prefix (parent.path ++ codes "/") (node.path ++ codes "/"))

-- UPDATE nodes ... WHERE id = $1
unfoldable pub replace_row : Node → Rows → Rows
replace_row new rows = map (λ n. if n.id == new.id then new else n) rows

unfoldable pub rewritten : Node → Text → Node → Node
unfolding is_under splice
rewritten node new_path n =
    if n.owner_id == node.owner_id && is_under node.path n.path
    then record n { path = splice node.path new_path n.path }
    else n

unfoldable pub clashes_with_other : Node → Rows → Bool
clashes_with_other new rows = any (λ n. not (n.id == new.id) && clashes new n) rows

-- The UPDATE of the row, and for a folder that of the paths below it.
unfoldable pub statements : Bool → Node → Node → Rows → Rows
unfolding replace_row rewritten
statements true node new rows = map (rewritten node new.path) (replace_row new rows)
statements false node new rows = replace_row new rows

unfoldable pub place : Node → Node → Rows → Result Err Rows
unfolding statements clashes_with_other
place node new rows =
    if clashes_with_other new rows
    then err name_taken
    else ok (statements node.is_folder node new rows)

module _ (fold : Text → Text) where
  -- A new live child of a folder.
  abbrev pub child_of : Node → ℕ → Bool → Text → Node
  child_of parent id is_folder name = record {
    id = id;
    owner_id = parent.owner_id;
    parent_id = some parent.id;
    is_folder = is_folder;
    name = name;
    name_fold = fold name;
    path = join_path parent.path name;
    head_version_id = none;
    trashed_at = none;
    trashed_root_id = none;
  }

  -- `seen` are the rows that the look for the parent sees, `rows` those that the insert sees.
  unfoldable pub create_folder : ℕ → ℕ → Text → ℕ → Rows → Rows → Result Err Rows
  unfolding live_folder insert_row validate_name join_path
  create_folder owner parent_id name id seen rows = do
    _ ← require (validate_name name) invalid_name
    parent ← live_folder owner parent_id seen
    insert_row (child_of parent id true name) rows

  abbrev pub moved_row : Node → Node → Text → Node
  moved_row node parent name = record node {
    parent_id = some parent.id;
    name = name;
    name_fold = fold name;
    path = join_path parent.path name;
  }

  unfoldable pub relocate : Node → Node → Text → Rows → Result Err Rows
  unfolding makes_cycle place join_path
  relocate node parent name rows =
      if makes_cycle node parent
      then err cycle
      else if text_eq (join_path parent.path name) node.path
          && same_id (some parent.id) node.parent_id
      then ok rows
      else place node (moved_row node parent name) rows

  unfoldable pub move_or_rename : ℕ → ℕ → Option ℕ → Text → Rows → Result Err Rows
  unfolding get_live target_name live_folder relocate
  move_or_rename owner id new_parent new_name rows = do
    node ← or_fail (get_live owner id rows) not_found
    _ ← require (not (is_root node)) root_reserved
    name ← target_name node new_name
    parent_id ← or_fail (target_parent node new_parent) root_reserved
    parent ← live_folder owner parent_id rows
    relocate node parent name rows

abbrev pub trash_row : ℕ → ℕ → Node → Node
trash_row now root_id n = record n { trashed_at = some now; trashed_root_id = some root_id }

unfoldable pub is_trashed_with : Node → Node → Bool
unfolding is_under
is_trashed_with node n =
    is_live n
    && (n.id == node.id && n.owner_id == node.owner_id
        || node.is_folder && (n.owner_id == node.owner_id && is_under node.path n.path))

unfoldable pub trash_rows : ℕ → Node → Rows → Rows
unfolding is_trashed_with
trash_rows now node rows =
    map (λ n. if is_trashed_with node n then trash_row now node.id n else n) rows

-- Trash: the count of rows, and the rows.
unfoldable pub trash : ℕ → ℕ → ℕ → Rows → Result Err (ℕ × Rows)
unfolding get_live trash_rows
trash now owner id rows = do
  node ← or_fail (get_live owner id rows) not_found
  _ ← require (not (is_root node)) root_reserved
  ok (length (filter (is_trashed_with node) rows), trash_rows now node rows)

abbrev pub restore_row : ℕ → ℕ → Node → Node
restore_row owner id n =
    if same_id n.trashed_root_id (some id) && n.owner_id == owner
    then record n { trashed_at = none; trashed_root_id = none }
    else n

-- Two rows that an index keeps apart.
unfoldable pub has_clash : Rows → Bool
has_clash [] = false
has_clash (n ∷ rows) = any (clashes n) rows || has_clash rows

unfoldable pub restore : ℕ → ℕ → Rows → Result Err Rows
unfolding get has_clash
restore owner id rows = do
  node ← or_fail (get owner id rows) not_found
  _ ← require (is_trashed node) not_trashed
  _ ← require (same_id node.trashed_root_id (some node.id)) not_trashed
  parent_id ← or_fail node.parent_id not_found
  parent ← or_fail (get owner parent_id rows) not_found
  _ ← require (is_live parent) not_trashed
  let out = map (restore_row owner id) rows
  if has_clash out then err name_taken else ok out
