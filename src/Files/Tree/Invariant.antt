-- ===== src/Files/Tree/Invariant.antt =====
-- server/internal/files/store.go, MoveOrRename: its statements are the one map over the rows.
use private_cloud.Prelude.{
  ◌≡◌, refl, sym, ap, ap₂, subst, ◌∙◌, Bool, true, false, ◌&&◌, inl, inr, [], ◌∷◌, map, Text, ◌==◌,
  if◌then◌else◌, Bool-cases, Result, ok,
}
use private_cloud.Files.{Err, Node}
use private_cloud.Files.Paths.{is_under, splice}
use private_cloud.Files.Tree.{
  Rows, moved_row, replace_row, rewritten, clashes_with_other, statements, place,
}
use private_cloud.Files.Tree.Shape.{IsTree, is_under→Under}
use private_cloud.Files.Tree.Moving
use private_cloud.Files.Tree.Placing.{placed-IsTree}

map-map :
    (g h k : Node → Node) (rows : Rows)
    → ((r : Node) → g (h r) ≡ k r)
    → map g (map h rows) ≡ map k rows
map-map g h k [] same = refl
map-map g h k (r ∷ rows) same =
    ap₂ (λ (n : Node) (ns : Rows). n ∷ ns) (same r) (map-map g h k rows same)

map-same : (g k : Node → Node) (rows : Rows) → ((r : Node) → g r ≡ k r) → map g rows ≡ map k rows
map-same g k [] same = refl
map-same g k (r ∷ rows) same =
    ap₂ (λ (n : Node) (ns : Rows). n ∷ ns) (same r) (map-same g k rows same)

module _ (fold : Text → Text) (rows : Rows) (tree : IsTree fold rows) (x p : Node) (name : Text)
    (mv : Moving.Moves fold rows x p name) where
  abbrev new : Node
  new = moved_row fold x p name

  abbrev f : Node → Node
  f = Moving.place_row fold rows tree x p name mv

  abbrev swap : Node → Node
  swap n = if n.id == x.id then new else n

  -- What the moved row, a row below the folder and any other row become.
  abbrev cut : Node → Node
  cut r = record r { path = splice x.path new.path r.path }

  still : x.is_folder ≡ true → rewritten x new.path new ≡ new
  unfolding rewritten
  still folder = elim (Bool-cases (is_under x.path new.path)) [
    | inl under ↦ absurd (
        Moving.new_not_below fold rows tree x p name mv folder
          (is_under→Under x.path new.path under))
    | inr apart ↦
        ap (λ (b : Bool). if b then cut new else new) (and_no (x.owner_id == x.owner_id) apart)
  ]
    where
      and_no : (a : Bool) {b : Bool} → b ≡ false → (a && b) ≡ false
      and_no true e = e
      and_no false e = refl

  swap_self : (r : Node) → (r.id == x.id) ≡ true → swap r ≡ new
  swap_self r same = ap (λ (b : Bool). if b then new else r) same

  swap_other : (r : Node) → (r.id == x.id) ≡ false → swap r ≡ r
  swap_other r other = ap (λ (b : Bool). if b then new else r) other

  abbrev beside : Node → Bool
  beside r = r.owner_id == x.owner_id && is_under x.path r.path

  f_self : (r : Node) → (r.id == x.id) ≡ true → f r ≡ new
  f_self r same =
      ap (λ (b : Bool). if b then new else if x.is_folder && beside r then cut r else r) same

  f_other :
      (r : Node) (dir : Bool)
      → (r.id == x.id) ≡ false
      → x.is_folder ≡ dir
      → f r ≡ (if dir && beside r then cut r else r)
  f_other r dir other folder =
      ap (λ (b : Bool). if b then new else if x.is_folder && beside r then cut r else r) other
      ∙ ap (λ (b : Bool). if b && beside r then cut r else r) folder

  both_statements : x.is_folder ≡ true → (r : Node) → rewritten x new.path (swap r) ≡ f r
  both_statements folder r = elim (Bool-cases (r.id == x.id)) [
    | inl same ↦ ap (rewritten x new.path) (swap_self r same) ∙ (still folder ∙ sym (f_self r same))
    | inr other ↦
        ap (rewritten x new.path) (swap_other r other)
        ∙ (unselected r ∙ sym (f_other r true other folder))
  ]
    where
      unselected : (r : Node) → rewritten x new.path r ≡ (if true && beside r then cut r else r)
      unselected r = unfold rewritten in refl

  one_statement : x.is_folder ≡ false → (r : Node) → swap r ≡ f r
  one_statement file r = elim (Bool-cases (r.id == x.id)) [
    | inl same ↦ swap_self r same ∙ sym (f_self r same)
    | inr other ↦ swap_other r other ∙ sym (f_other r false other file)
  ]

  statements-eq : (dir : Bool) → x.is_folder ≡ dir → statements dir x new rows ≡ map f rows
  unfolding statements replace_row
  statements-eq true folder = map-map (rewritten x new.path) swap f rows (both_statements folder)
  statements-eq false file = map-same swap f rows (one_statement file)

  pub place-IsTree : (out : Rows) → place x new rows ≡ ok out → IsTree fold out
  unfolding place
  place-IsTree out h =
      let done : ok (statements x.is_folder x new rows) ≡ ok out = rw (place, mv.free) at h in
      subst (IsTree fold) (sym (statements-eq x.is_folder refl) ∙ ok_same done)
        (placed-IsTree fold rows tree x p name mv)
    where
      ok_same : {a b : Rows} → ◌≡◌ {A = Result Err Rows} (ok a) (ok b) → a ≡ b
      ok_same e = cc

pub place-free :
    (x new : Node) (rows out : Rows)
    → place x new rows ≡ ok out
    → clashes_with_other new rows ≡ false
unfolding place
place-free x new rows out h = elim (Bool-cases (clashes_with_other new rows)) [
  | inl taken ↦ absurd (cc (rw (place, taken) at h))
  | inr free ↦ free
]
