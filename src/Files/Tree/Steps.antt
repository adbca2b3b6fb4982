-- ===== src/Files/Tree/Steps.antt =====
-- server/internal/files/store.go: MoveOrRename as a whole, and the operations one after another.
use private_cloud.Prelude.{
  ℕ, ◌≡◌, ◌≢◌, refl, sym, subst, ◌∙◌, true, false, not, ◌&&◌, inl, inr, Option, none, some, [], ◌∷◌,
  Text, text_eq, Has, Bool-cases, Result, ok, >>=-eq-ok, ◌>>=◌, or_fail,
}
use private_cloud.Files.{
  Err, Node, is_live, is_root, get_live, same_id, not_found, root_reserved, invalid_name,
}
use private_cloud.Files.Names.{validate_name}
use private_cloud.Files.Paths.{join_path, IsAscii}
use private_cloud.Files.Tree.{
  Rows, require, ensure_root, create_folder, live_folder, target_name, target_parent, makes_cycle,
  moved_row, place, relocate, move_or_rename, trash,
}
use private_cloud.Files.Tree.Shape.{IsSegment, IsTree}
use private_cloud.Files.Tree.Adding.{
  get_live-Found, live_folder-Found, or_fail-ok, require-true, validate_name-IsSegment,
  create_folder-IsTree,
}
use private_cloud.Files.Tree.Trashing.{ensure_root-IsTree, trash-IsTree}
use private_cloud.Files.Tree.Invariant.{place-IsTree, place-free}

target_name-IsSegment :
    (node : Node) (new_name name : Text)
    → IsSegment node.name
    → target_name node new_name ≡ ok name
    → IsSegment name
unfolding target_name
target_name-IsSegment node [] name h e = subst IsSegment (cc) h
target_name-IsSegment node (c ∷ new_name) name h e =
    let (u, valid, same) =
      >>=-eq-ok (require (validate_name (c ∷ new_name)) invalid_name)
        (λ (u : Unit {0}). ok (c ∷ new_name)) e in
    subst IsSegment (same_text same) (
      validate_name-IsSegment (c ∷ new_name)
        (require-true (validate_name (c ∷ new_name)) invalid_name u valid))
  where
    same_text : {a b : Text} → ◌≡◌ {A = Result Err Text} (ok a) (ok b) → a ≡ b
    same_text e = cc

module _ (fold : Text → Text) (rows : Rows) (tree : IsTree fold rows) where
  relocate-IsTree :
      (x p : Node) (name : Text) (out : Rows)
      → Has x rows
      → is_live x ≡ true
      → x.parent_id ≢ none
      → Has p rows
      → is_live p ≡ true
      → p.is_folder ≡ true
      → p.owner_id ≡ x.owner_id
      → IsSegment name
      → (x.is_folder ≡ true → IsAscii x.path)
      → relocate fold x p name rows ≡ ok out
      → IsTree fold out
  unfolding relocate
  relocate-IsTree x p name out hx lx inner hp lp dir own seg ascii h =
      elim (Bool-cases (makes_cycle x p)) [
        | inl round ↦ absurd (cc (rw (relocate, round) at h))
        | inr outside ↦
            elim (Bool-cases
              (text_eq (join_path p.path name) x.path && same_id (some p.id) x.parent_id)) [
                | inl nothing ↦ subst (IsTree fold) (cc (rw (relocate, outside, nothing) at h)) tree
                | inr something ↦
                    let done : place x (moved_row fold x p name) rows ≡ ok out =
                      rw (relocate, outside, something) at h in
                    place-IsTree fold rows tree x p name
                      (record {
                        hx = hx;
                        lx = lx;
                        inner = inner;
                        hp = hp;
                        lp = lp;
                        dir = dir;
                        own = own;
                        seg = seg;
                        ascii = ascii;
                        free = place-free x (moved_row fold x p name) rows out done;
                        outside = outside;
                      })
                      out done
              ]
      ]

  pub move_or_rename-IsTree :
      (owner id : ℕ) (new_parent : Option ℕ) (new_name : Text) (out : Rows)
      → ((n : Node) → Has n rows → n.id ≡ id → n.is_folder ≡ true → IsAscii n.path)
      → move_or_rename fold owner id new_parent new_name rows ≡ ok out
      → IsTree fold out
  unfolding move_or_rename
  move_or_rename-IsTree owner id new_parent new_name out ascii h =
      let (x, e, h1) = >>=-eq-ok (or_fail (get_live owner id rows) not_found) _ h in
      let found =
        get_live-Found owner id rows x (or_fail-ok (get_live owner id rows) not_found x e) in
      let (u, deep, h2) =
        >>=-eq-ok (require (not (is_root x)) root_reserved) (λ (u : Unit {0}). at_name x) h1 in
      let (name, e2, h3) = >>=-eq-ok (target_name x new_name) (λ (n : Text). at_parent x n) h2 in
      let (q, e3, h4) =
        >>=-eq-ok (or_fail (target_parent x new_parent) root_reserved)
          (λ (i : ℕ). at_folder x name i) h3 in
      let (p, e4, h5) =
        >>=-eq-ok (live_folder owner q rows) (λ (f : Node). relocate fold x f name rows) h4 in
      let (folder, dir) = live_folder-Found owner q rows p e4 in
      let inner : x.parent_id ≢ none =
        λ top. cc (require-true (not (is_root x)) root_reserved u deep, top_root x top) in
      relocate-IsTree x p name out found.there found.live inner folder.there folder.live dir
        (folder.own ∙ sym found.own)
        (target_name-IsSegment x new_name name (tree.named x found.there found.live inner) e2)
        (ascii x found.there found.same_id) h5
    where
      at_folder : Node → Text → ℕ → Result Err Rows
      at_folder x name i = live_folder owner i rows >>= λ (f : Node). relocate fold x f name rows

      at_parent : Node → Text → Result Err Rows
      at_parent x name =
          or_fail (target_parent x new_parent) root_reserved >>= λ (i : ℕ). at_folder x name i

      at_name : Node → Result Err Rows
      at_name x = target_name x new_name >>= λ (n : Text). at_parent x n

      top_root : (n : Node) → n.parent_id ≡ none → not (is_root n) ≡ false
      top_root n e = rw e refl

-- One operation that succeeds: a new row's id is no row's, a folder that moves has an ASCII path, and no
-- other operation comes between the two statements of CreateFolder.
pub data Step (fold : Text → Text) (rows : Rows) : Rows → Type 0 where
  roots :
      (owner id : ℕ)
      → ((n : Node) → Has n rows → n.id ≢ id)
      → Step fold rows (ensure_root owner id rows).1
  creates :
      (owner parent : ℕ) (name : Text) (id : ℕ) (out : Rows)
      → ((n : Node) → Has n rows → n.id ≢ id)
      → create_folder fold owner parent name id rows rows ≡ ok out
      → Step fold rows out
  moves :
      (owner id : ℕ) (new_parent : Option ℕ) (new_name : Text) (out : Rows)
      → ((n : Node) → Has n rows → n.id ≡ id → n.is_folder ≡ true → IsAscii n.path)
      → move_or_rename fold owner id new_parent new_name rows ≡ ok out
      → Step fold rows out
  trashes :
      (now owner id count : ℕ) (out : Rows)
      → trash now owner id rows ≡ ok (count, out)
      → Step fold rows out

pub data Reach (fold : Text → Text) (rows : Rows) : Rows → Type 0 where
  here : Reach fold rows rows
  next : {mid out : Rows} → Reach fold rows mid → Step fold mid out → Reach fold rows out

Step-IsTree :
    {fold : Text → Text} {rows out : Rows} → Step fold rows out → IsTree fold rows → IsTree fold out
Step-IsTree {fold} {rows} (roots owner id fresh) tree =
    ensure_root-IsTree fold rows tree owner id fresh
Step-IsTree {fold} {rows} (creates owner parent name id out fresh h) tree =
    create_folder-IsTree fold owner parent name id rows out tree fresh h
Step-IsTree {fold} {rows} (moves owner id new_parent new_name out ascii h) tree =
    move_or_rename-IsTree fold rows tree owner id new_parent new_name out ascii h
Step-IsTree {fold} {rows} (trashes now owner id count out h) tree =
    trash-IsTree fold now owner id rows out count tree h

Reach-IsTree_from :
    {fold : Text → Text} {rows out : Rows}
    → IsTree fold rows
    → Reach fold rows out
    → IsTree fold out
Reach-IsTree_from tree here = tree
Reach-IsTree_from tree (next r s) = Step-IsTree s (Reach-IsTree_from tree r)

empty-IsTree : (fold : Text → Text) → IsTree fold []
empty-IsTree fold = record {
  placed = λ n h l. absurd h;
  rooted = λ n h l. absurd h;
  named = λ n h l ne. absurd h;
  ids = λ n m h g same. absurd h;
  paths = λ n m h g ln lm own same. absurd h;
}

-- However EnsureRoot, CreateFolder, MoveOrRename and Trash follow one another from an empty table, with
-- fresh ids, nothing between the two statements of CreateFolder and no folder moved whose path is not
-- ASCII, the rows are a tree: each live row is a root
-- or lies in a live folder of its owner and its path is that folder's with a segment of its own; ids
-- are unique, and so are the paths of the live rows of an owner.
pub Reach-IsTree : (fold : Text → Text) (out : Rows) → Reach fold [] out → IsTree fold out
Reach-IsTree fold out r = Reach-IsTree_from (empty-IsTree fold) r
