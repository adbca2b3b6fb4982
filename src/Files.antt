-- ===== src/Files.antt =====
-- server/internal/files: the tree of folders and files of each user, its trash, the versions of a file
-- and the resumable uploads. The tables are lists of rows, a uuid is a number, and a new row's id, the
-- time and strings.ToLower (`fold`) are arguments. A name or a path is the list of its code points.
-- The columns created_at and updated_at of nodes are left out: nothing that is modelled reads them.
pub mod Paths
pub mod Names
pub mod Tree
pub mod Uploads
pub mod Versions
mod Examples
use private_cloud.Prelude.{
  ℕ, Bool, true, false, not, ◌&&◌, Option, none, some, is_some, List, [], ◌∷◌, Text, text_eq, any,
  filter, ◌==◌, if◌then◌else◌, Result, ok, err, or_fail,
}

-- `db_error` is any other error of the database.
pub data Err : Type 0 where
  not_found not_a_folder not_a_file name_taken invalid_name cycle quota : Err
  root_reserved not_trashed bad_content db_error : Err

-- A row of nodes. A root has no parent.
pub record Node : Type 0 where
  pub id : ℕ
  pub owner_id : ℕ
  pub parent_id : Option ℕ
  pub is_folder : Bool
  pub name : Text
  pub name_fold : Text
  pub path : Text
  pub head_version_id : Option ℕ
  pub trashed_at : Option ℕ
  pub trashed_root_id : Option ℕ

abbrev pub is_trashed : Node → Bool
is_trashed n = is_some n.trashed_at

abbrev pub is_live : Node → Bool
is_live n = not (is_some n.trashed_at)

abbrev pub is_root : Node → Bool
is_root n = not (is_some n.parent_id)

abbrev pub same_id : Option ℕ → Option ℕ → Bool
same_id none none = true
same_id none (some b) = false
same_id (some a) none = false
same_id (some a) (some b) = a == b

unfoldable pub find_node : (Node → Bool) → List Node → Option Node
find_node test [] = none
find_node test (n ∷ ns) = let rest = find_node test ns in if test n then some n else rest

unfoldable pub get : ℕ → ℕ → List Node → Option Node
unfolding find_node
get owner id rows = find_node (λ n. n.id == id && n.owner_id == owner) rows

unfoldable pub get_live : ℕ → ℕ → List Node → Option Node
unfolding find_node
get_live owner id rows = find_node (λ n. n.id == id && (n.owner_id == owner && is_live n)) rows

unfoldable pub get_by_path : ℕ → Text → List Node → Option Node
unfolding find_node
get_by_path owner path rows =
    find_node (λ n. n.owner_id == owner && (text_eq n.path path && is_live n)) rows

unfoldable pub root : ℕ → List Node → Option Node
unfolding find_node
root owner rows = find_node (λ n. n.owner_id == owner && (is_root n && is_live n)) rows

-- ListChildren, but for the order, which is the database's collation.
unfoldable pub list_children : ℕ → ℕ → List Node → List Node
list_children owner parent rows =
    filter (λ n. n.owner_id == owner && (same_id n.parent_id (some parent) && is_live n)) rows

-- ListTrash, but for the order.
unfoldable pub list_trash : ℕ → List Node → List Node
list_trash owner rows =
    filter (λ n. n.owner_id == owner && same_id n.trashed_root_id (some n.id)) rows

-- Two live rows that one of the unique indexes keeps apart: the roots of an owner, and siblings of the
-- same folded name.
abbrev pub clash_under : Option ℕ → Option ℕ → Node → Node → Bool
clash_under none none a b = a.owner_id == b.owner_id
clash_under (some p) (some q) a b = p == q && text_eq a.name_fold b.name_fold
clash_under none (some q) a b = false
clash_under (some p) none a b = false

abbrev pub clashes : Node → Node → Bool
clashes a b = is_live a && (is_live b && clash_under a.parent_id b.parent_id a b)

-- INSERT INTO nodes.
unfoldable pub insert_row : Node → List Node → Result Err (List Node)
insert_row n rows = if any (clashes n) rows then err name_taken else ok (n ∷ rows)
