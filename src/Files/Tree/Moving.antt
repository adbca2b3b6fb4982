-- ===== src/Files/Tree/Moving.antt =====
-- server/internal/files/store.go, MoveOrRename: the checks of a move, and what its statements make of
-- each row.
use private_cloud.Prelude.{
  ◌≡◌, ◌≢◌, refl, sym, ap, ◌∙◌, Bool, true, false, not, ◌&&◌, inl, inr, none, some, [], ◌∷◌, ◌++◌,
  append-nil, append_assoc, Text, codes, text_eq_refl, has_prefix, has_prefix-append, any, any-Has,
  Has, ◌==◌, ==_refl, ==_iff, if◌then◌else◌, Bool-cases, arith,
}
use private_cloud.Files.{Node, is_live, clashes}
use private_cloud.Files.Paths.{is_under, splice, IsAscii, splice-IsAscii}
use private_cloud.Files.Tree.{Rows, makes_cycle, moved_row, clashes_with_other}
use private_cloud.Files.Tree.Shape.{
  IsSegment, IsTree, Under, stem, stem-Under, join_path-stem, last_slash, is_under→Under,
  is_under-true, stem-eq,
}
use private_cloud.Files.Tree.Adding.{same_place, rooted-join, top_apart}
use private_cloud.Files.Tree.Trashing.{inner_path}

-- A live row `x` and a live folder `p` of its owner that it may move into under a name: the code's checks,
-- with the ASCII path of a folder.
pub record Moves (fold : Text → Text) (rows : Rows) (x p : Node) (name : Text) : Type 0 where
  pub hx : Has x rows
  pub lx : is_live x ≡ true
  pub inner : x.parent_id ≢ none
  pub hp : Has p rows
  pub lp : is_live p ≡ true
  pub dir : p.is_folder ≡ true
  pub own : p.owner_id ≡ x.owner_id
  pub seg : IsSegment name
  pub ascii : x.is_folder ≡ true → IsAscii x.path
  pub free : clashes_with_other (moved_row fold x p name) rows ≡ false
  pub outside : makes_cycle x p ≡ false

module _ (fold : Text → Text) (rows : Rows) (tree : IsTree fold rows) (x p : Node) (name : Text)
    (mv : Moves fold rows x p name) where
  open mv use {hx, lx, inner, hp, lp, dir, own, seg, ascii, free, outside}

  abbrev pub new : Node
  new = moved_row fold x p name

  -- The rows whose path the second statement rewrites.
  abbrev pub selected : Node → Bool
  selected n = x.is_folder && (n.owner_id == x.owner_id && is_under x.path n.path)

  -- What the two statements do to a row.
  abbrev pub place_row : Node → Node
  place_row n =
      if n.id == x.id
      then new
      else if selected n
      then record n { path = splice x.path new.path n.path }
      else n

  pub x_deep : x.path ≢ codes "/"
  x_deep = inner_path fold rows tree x hx lx inner

  pub x_some : x.path ≢ []
  x_some e = let (s, f) = tree.rooted x hx lx in cc

  pub new-path : new.path ≡ stem p.path ++ (b'/' ∷ name)
  new-path = join_path-stem p.path name

  pub new_deep : new.path ≢ codes "/"
  new_deep e = top_apart (stem p.path) name seg.0 (sym e ∙ new-path)

  pub new_some : new.path ≢ []
  new_some e = let (s, f) = rooted-join p.path name (tree.rooted p hp lp) in cc

  prefixed :
      x.is_folder ≡ true
      → has_prefix (p.path ++ codes "/") (x.path ++ codes "/") ≡ true
      → makes_cycle x p ≡ true
  unfolding makes_cycle
  prefixed folder h = ground arith

  -- The cycle test says of a folder that the new parent is neither the folder nor below it.
  pub not_same : x.is_folder ≡ true → p.path ≢ x.path
  not_same folder e =
      let whole : p.path ++ codes "/" ≡ (x.path ++ codes "/") ++ [] =
        ap (λ (q : Text). q ++ codes "/") e ∙ sym (append-nil (x.path ++ codes "/")) in
      cc (prefixed folder (rw whole (has_prefix-append (x.path ++ codes "/") [])), outside)

  pub not_below : x.is_folder ≡ true → Under x.path p.path → ⊥
  not_below folder (t, e) =
      let whole : p.path ++ codes "/" ≡ (x.path ++ codes "/") ++ (t ++ codes "/") =
        ap (λ (q : Text). q ++ codes "/") e
        ∙ (append_assoc x.path (b'/' ∷ t) (codes "/")
            ∙ sym (append_assoc x.path (codes "/") (t ++ codes "/"))) in
      cc (
        prefixed folder (rw whole (has_prefix-append (x.path ++ codes "/") (t ++ codes "/"))),
        outside,
      )

  pub new_not_below : x.is_folder ≡ true → Under x.path new.path → ⊥
  new_not_below folder (t, e) =
      elim (last_slash (stem p.path) x.path name t seg.1 (sym new-path ∙ e)) [
        | inl (same, _) ↦ not_same folder (stem-eq p.path x.path same x_some)
        | inr (u, deep, _) ↦ not_below folder (stem-Under p.path x.path u deep)
      ]

  free_any : any (λ n. not (n.id == new.id) && clashes new n) rows ≡ false
  unfolding clashes_with_other
  free_any = free

  -- The new path is taken by no other row.
  pub not_taken :
      (z : Node)
      → Has z rows
      → is_live z ≡ true
      → z.owner_id ≡ x.owner_id
      → (z.id == x.id) ≡ false
      → z.path ≢ new.path
  not_taken z hz lz oz other e =
      let (parent, folded) = same_place fold rows tree z p name hz lz hp lp (oz ∙ sym own) seg e in
      cc (
        any-Has (λ n. not (n.id == new.id) && clashes new n) rows z hz (meets parent folded),
        free_any,
      )
    where
      meets :
          z.parent_id ≡ some p.id
          → z.name_fold ≡ fold name
          → not (z.id == new.id) && clashes new z ≡ true
      meets parent folded =
          rw (other, lx, lz, parent, folded, ==_refl p.id, text_eq_refl (fold name)) refl

  -- What a live row is to the folder that moves, and what becomes of it.
  pub data Lot (r : Node) : Type 0 where
    itself : r ≡ x → place_row r ≡ new → Lot r
    below :
        (t : Text)
        → x.is_folder ≡ true
        → r.owner_id ≡ x.owner_id
        → r.path ≡ x.path ++ (b'/' ∷ t)
        → place_row r ≡ record r { path = new.path ++ (b'/' ∷ t) }
        → Lot r
    beside :
        (r.id == x.id) ≡ false
        → (x.is_folder ≡ true → r.owner_id ≡ x.owner_id → Under x.path r.path → ⊥)
        → place_row r ≡ r
        → Lot r

  selected-parts :
      (r : Node)
      → selected r ≡ true
      → (x.is_folder ≡ true) × (r.owner_id ≡ x.owner_id) × (is_under x.path r.path ≡ true)
  selected-parts r h = ground arith

  unselected-parts :
      (r : Node)
      → selected r ≡ false
      → x.is_folder ≡ true
      → r.owner_id ≡ x.owner_id
      → Under x.path r.path
      → ⊥
  unselected-parts r h folder oz u = ground (arith, is_under-true x.path r.path u)

  below_lot : (r : Node) → (r.id == x.id) ≡ false → selected r ≡ true → Lot r
  below_lot r other hit =
      let (folder, oz, under) = selected-parts r hit in
      let (t, e) = is_under→Under x.path r.path under in
      let cut : splice x.path new.path r.path ≡ new.path ++ (b'/' ∷ t) =
        ap (splice x.path new.path) e ∙ splice-IsAscii x.path new.path (b'/' ∷ t) (ascii folder) in
      below t folder oz e (
        ap
          (λ (b : Bool).
            if b
            then new
            else if selected r
            then record r { path = splice x.path new.path r.path }
            else r)
          other
        ∙ (ap (λ (b : Bool). if b then record r { path = splice x.path new.path r.path } else r) hit
            ∙ ap (λ (q : Text). record r { path = q }) cut))

  pub lot : (r : Node) → Has r rows → Lot r
  lot r hr = elim (Bool-cases (r.id == x.id)) [
    | inl same ↦ itself (tree.ids r x hr hx ((==_iff r.id x.id).0 same)) (
        ap
          (λ (b : Bool).
            if b
            then new
            else if selected r
            then record r { path = splice x.path new.path r.path }
            else r)
          same)
    | inr other ↦ elim (Bool-cases (selected r)) [
      | inl hit ↦ below_lot r other hit
      | inr miss ↦ beside other (unselected-parts r miss) (
          ap
            (λ (b : Bool).
              if b
              then new
              else if selected r
              then record r { path = splice x.path new.path r.path }
              else r)
            other
          ∙ ap (λ (b : Bool). if b then record r { path = splice x.path new.path r.path } else r)
              miss)
    ]
  ]

  -- The id, the owner and the trash mark of a row stay.
  pub place_row-id : (r : Node) → Has r rows → (place_row r).id ≡ r.id
  place_row-id r hr = go (lot r hr)
    where
      go : Lot r → (place_row r).id ≡ r.id
      go (itself e f) = ap (λ (n : Node). n.id) f ∙ ap (λ (n : Node). n.id) (sym e)
      go (below t folder oz e f) = ap (λ (n : Node). n.id) f
      go (beside other away f) = ap (λ (n : Node). n.id) f

  pub place_row-owner : (r : Node) → Has r rows → (place_row r).owner_id ≡ r.owner_id
  place_row-owner r hr = go (lot r hr)
    where
      go : Lot r → (place_row r).owner_id ≡ r.owner_id
      go (itself e f) = ap (λ (n : Node). n.owner_id) f ∙ ap (λ (n : Node). n.owner_id) (sym e)
      go (below t folder oz e f) = ap (λ (n : Node). n.owner_id) f
      go (beside other away f) = ap (λ (n : Node). n.owner_id) f

  pub place_row-live : (r : Node) → Has r rows → is_live (place_row r) ≡ is_live r
  place_row-live r hr = go (lot r hr)
    where
      go : Lot r → is_live (place_row r) ≡ is_live r
      go (itself e f) = ap is_live f ∙ ap is_live (sym e)
      go (below t folder oz e f) = ap is_live f
      go (beside other away f) = ap is_live f
