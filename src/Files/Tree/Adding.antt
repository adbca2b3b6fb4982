-- ===== src/Files/Tree/Adding.antt =====
-- server/internal/files/store.go: the queries for a live row, and new rows of nodes.
use private_cloud.Prelude.{
  ℕ, ◌≡◌, ◌≢◌, refl, sym, ap, subst, ◌∙◌, Bool, true, false, ◌&&◌, ◌⊎◌, inl, inr, Option, none,
  some, [], ◌∷◌, ◌++◌, Text, codes, text_eq, text_eq_iff, text_eq_refl, any, any-Has, Has, ◌==◌,
  ==_refl, Bool-cases, ok, >>=-eq-ok, ◌>>=◌, or_fail, arith,
}
use private_cloud.Files.{
  Err, Node, is_live, clashes, insert_row, find_node, get_live, invalid_name, not_found,
  not_a_folder,
}
use private_cloud.Files.Names.{validate_name, validate_name-segment, is_separator}
use private_cloud.Files.Paths.{join_path}
use private_cloud.Files.Tree.{Rows, require, child_of, live_folder, create_folder}
use private_cloud.Files.Tree.Shape.{
  IsSegment, IsChild, IsTree, stem, join_path-stem, last_slash, has_slash,
}

pub top_apart : (s name : Text) → name ≢ [] → codes "/" ≢ s ++ (b'/' ∷ name)
top_apart [] [] ne e = ne refl
top_apart [] (c ∷ name) ne e = cc
top_apart (x ∷ []) name ne e = cc
top_apart (x ∷ y ∷ s) name ne e = cc

stem-injective : (q p : Text) → q ≢ [] → p ≢ [] → stem q ≡ stem p → q ≡ p
stem-injective q p hq hp e = elim (Bool-cases (text_eq q (codes "/"))) [
  | inl top ↦ elim (Bool-cases (text_eq p (codes "/"))) [
    | inl top' ↦ (text_eq_iff q (codes "/")).0 top ∙ sym ((text_eq_iff p (codes "/")).0 top')
    | inr deep' ↦ absurd (hp (sym (rw (top, deep') at e)))
  ]
  | inr deep ↦ elim (Bool-cases (text_eq p (codes "/"))) [
    | inl top' ↦ absurd (hq (rw (deep, top') at e))
    | inr deep' ↦ rw (deep, deep') at e
  ]
]

pub rooted-join :
    (parent seg : Text)
    → ((s : Text) × (parent ≡ b'/' ∷ s))
    → (s : Text) × (join_path parent seg ≡ b'/' ∷ s)
unfolding join_path
rooted-join parent seg (s, e) = elim (Bool-cases (text_eq parent (codes "/"))) [
  | inl top ↦ (seg, rw (join_path, top) refl)
  | inr deep ↦ (s ++ (b'/' ∷ seg), rw (join_path, deep) (ap (λ (q : Text). q ++ (b'/' ∷ seg)) e))
]

pub validate_name-IsSegment : (name : Text) → validate_name name ≡ true → IsSegment name
validate_name-IsSegment name h =
    let (some_char, no_separator) = validate_name-segment name h in
    (λ e. cc ((text_eq_iff name []).1 e, some_char), only_slashes name no_separator)
  where
    only_slashes : (s : Text) → any is_separator s ≡ false → any (λ c. c == b'/') s ≡ false
    only_slashes [] h = refl
    only_slashes (c ∷ s) h = ground (arith, only_slashes s)

module _ (fold : Text → Text) (rows : Rows) (tree : IsTree fold rows) where
  -- A live row whose path is that of a new child of a folder lies in the folder, under the same name up to
  -- case.
  pub same_place :
      (z p : Node) (name : Text)
      → Has z rows
      → is_live z ≡ true
      → Has p rows
      → is_live p ≡ true
      → z.owner_id ≡ p.owner_id
      → IsSegment name
      → z.path ≡ join_path p.path name
      → (z.parent_id ≡ some p.id) × (z.name_fold ≡ fold name)
  same_place z p name hz lz hp lp own seg e = elim (tree.placed z hz lz) [
    | inl (_, top) ↦
        absurd (top_apart (stem p.path) name seg.0 (sym top ∙ (e ∙ join_path-stem p.path name)))
    | inr (m, hm, c) ↦
        let meet = last_slash (stem m.path) (stem p.path) c.segment name c.is_segment.1 (
          sym (join_path-stem m.path c.segment)
          ∙ (sym c.path ∙ (e ∙ join_path-stem p.path name))) in
        elim meet [
          | inr (u, _, f) ↦ absurd (cc (has_slash u c.segment, seg.1, f))
          | inl (stems, segs) ↦
              let paths : m.path ≡ p.path =
                stem-injective m.path p.path (not_empty m hm c.live) (not_empty p hp lp) stems in
              let same = tree.paths m p hm hp c.live lp (c.owner ∙ own) paths in
              (c.parent ∙ ap (λ (r : Node). some r.id) same, sym c.folded ∙ ap fold segs)
        ]
  ]
    where
      not_empty : (m : Node) → Has m rows → is_live m ≡ true → m.path ≢ []
      not_empty m h l e = let (s, f) = tree.rooted m h l in cc

  abbrev pub Fresh : ℕ → Type 0
  Fresh id = (n : Node) → Has n rows → n.id ≢ id

  -- The new row is in no unique index with an old one.
  module _ (p : Node) (id : ℕ) (is_folder : Bool) (name : Text) (hp : Has p rows)
      (lp : is_live p ≡ true) (dir : p.is_folder ≡ true) (seg : IsSegment name) (fresh : Fresh id)
      (free : any (clashes (child_of fold p id is_folder name)) rows ≡ false) where
    abbrev new : Node
    new = child_of fold p id is_folder name

    new-IsChild : IsChild fold new p
    new-IsChild = record {
      live = lp;
      folder = dir;
      owner = refl;
      parent = refl;
      segment = name;
      is_segment = seg;
      path = refl;
      folded = refl;
    }

    not_taken :
        (z : Node) → Has z rows → is_live z ≡ true → z.owner_id ≡ p.owner_id → z.path ≢ new.path
    not_taken z hz lz own e =
        let (parent, folded) = same_place z p name hz lz hp lp own seg e in
        cc (any-Has (clashes new) rows z hz (meets z lz parent folded), free)
      where
        meets :
            (z : Node)
            → is_live z ≡ true
            → z.parent_id ≡ some p.id
            → z.name_fold ≡ fold name
            → clashes new z ≡ true
        meets z lz parent folded =
            rw (lz, parent, folded, ==_refl p.id, text_eq_refl (fold name)) refl

    placed :
        (n : Node)
        → Has n (new ∷ rows)
        → is_live n ≡ true
        → ((n.parent_id ≡ none) × (n.path ≡ codes "/"))
          ⊎ ((m : Node) × Has m (new ∷ rows) × IsChild fold n m)
    placed n (inl e) l = inr (p, inr hp, subst (λ (r : Node). IsChild fold r p) (sym e) new-IsChild)
    placed n (inr h) l = elim (tree.placed n h l) [
      | inl top ↦ inl top
      | inr (m, hm, c) ↦ inr (m, inr hm, c)
    ]

    rooted : (n : Node) → Has n (new ∷ rows) → is_live n ≡ true → (s : Text) × (n.path ≡ b'/' ∷ s)
    rooted n (inl e) l =
        let (s, f) = rooted-join p.path name (tree.rooted p hp lp) in
        (s, ap (λ (r : Node). r.path) e ∙ f)
    rooted n (inr h) l = tree.rooted n h l

    named :
        (n : Node) → Has n (new ∷ rows) → is_live n ≡ true → n.parent_id ≢ none → IsSegment n.name
    named n (inl e) l ne = subst (λ (r : Node). IsSegment r.name) (sym e) seg
    named n (inr h) l ne = tree.named n h l ne

    ids : (n m : Node) → Has n (new ∷ rows) → Has m (new ∷ rows) → n.id ≡ m.id → n ≡ m
    ids n m (inl e) (inl f) same = e ∙ sym f
    ids n m (inl e) (inr h) same = absurd (fresh m h (sym same ∙ ap (λ (r : Node). r.id) e))
    ids n m (inr h) (inl f) same = absurd (fresh n h (same ∙ ap (λ (r : Node). r.id) f))
    ids n m (inr h) (inr g) same = tree.ids n m h g same

    paths :
        (n m : Node)
        → Has n (new ∷ rows)
        → Has m (new ∷ rows)
        → is_live n ≡ true
        → is_live m ≡ true
        → n.owner_id ≡ m.owner_id
        → n.path ≡ m.path
        → n ≡ m
    paths n m (inl e) (inl f) ln lm own same = e ∙ sym f
    paths n m (inl e) (inr h) ln lm own same = absurd (
        not_taken m h lm (sym own ∙ ap (λ (r : Node). r.owner_id) e)
          (sym same ∙ ap (λ (r : Node). r.path) e))
    paths n m (inr h) (inl f) ln lm own same = absurd (
        not_taken n h ln (own ∙ ap (λ (r : Node). r.owner_id) f)
          (same ∙ ap (λ (r : Node). r.path) f))
    paths n m (inr h) (inr g) ln lm own same = tree.paths n m h g ln lm own same

    pub add_child-IsTree : IsTree fold (new ∷ rows)
    add_child-IsTree = record {
      placed = placed;
      rooted = rooted;
      named = named;
      ids = ids;
      paths = paths;
    }

pub find_node-Has :
    (test : Node → Bool) (rows : Rows) (n : Node)
    → find_node test rows ≡ some n
    → Has n rows × (test n ≡ true)
unfolding find_node
find_node-Has test [] n h = cc
find_node-Has test (r ∷ rows) n h = elim (Bool-cases (test r)) [
  | inl hit ↦ let e : r ≡ n = cc (rw (find_node, hit) at h) in (inl (sym e), ap test (sym e) ∙ hit)
  | inr miss ↦
      let (there, hit) = find_node-Has test rows n (rw (find_node, miss) at h) in (inr there, hit)
]

-- What a query for a live row finds.
pub record Found (owner id : ℕ) (rows : Rows) (n : Node) : Type 0 where
  pub there : Has n rows
  pub same_id : n.id ≡ id
  pub own : n.owner_id ≡ owner
  pub live : is_live n ≡ true

pub get_live-Found :
    (owner id : ℕ) (rows : Rows) (n : Node)
    → get_live owner id rows ≡ some n
    → Found owner id rows n
unfolding get_live
get_live-Found owner id rows n h =
    let (there, hit) =
      find_node-Has (λ m. m.id == id && (m.owner_id == owner && is_live m)) rows n h in
    record { there = there; same_id = ground arith; own = ground arith; live = ground arith }

pub or_fail-ok : (o : Option Node) (e : Err) (n : Node) → or_fail o e ≡ ok n → o ≡ some n
or_fail-ok (some m) e n h = cc
or_fail-ok none e n h = cc

pub require-true : (b : Bool) (e : Err) (u : Unit {0}) → require b e ≡ ok u → b ≡ true
require-true true e u h = refl
require-true false e u h = cc

pub live_folder-Found :
    (owner id : ℕ) (rows : Rows) (p : Node)
    → live_folder owner id rows ≡ ok p
    → Found owner id rows p × (p.is_folder ≡ true)
unfolding live_folder
live_folder-Found owner id rows p h =
    let (q, e, h') =
      >>=-eq-ok (or_fail (get_live owner id rows) not_found)
        (λ (m : Node). require m.is_folder not_a_folder >>= λ (u : Unit {0}). ok m) h in
    let (u, f, g) = >>=-eq-ok (require q.is_folder not_a_folder) (λ (u : Unit {0}). ok q) h' in
    let same : q ≡ p = cc in
    let folder = require-true q.is_folder not_a_folder u f in
    (
      get_live-Found owner id rows p
          (or_fail-ok (get_live owner id rows) not_found p (e ∙ ap ok same)),
      ap (λ (r : Node). r.is_folder) (sym same) ∙ folder,
    )

pub insert_row-ok :
    (n : Node) (rows out : Rows)
    → insert_row n rows ≡ ok out
    → (any (clashes n) rows ≡ false) × (out ≡ n ∷ rows)
unfolding insert_row
insert_row-ok n rows out h = elim (Bool-cases (any (clashes n) rows)) [
  | inl taken ↦ absurd (cc (rw (insert_row, taken) at h))
  | inr free ↦ (free, cc (rw (insert_row, free) at h))
]

pub create_folder-IsTree :
    (fold : Text → Text) (owner parent : ℕ) (name : Text) (id : ℕ) (rows out : Rows)
    → IsTree fold rows
    → ((n : Node) → Has n rows → n.id ≢ id)
    → create_folder fold owner parent name id rows rows ≡ ok out
    → IsTree fold out
unfolding create_folder
create_folder-IsTree fold owner parent name id rows out tree fresh h =
    let (u, valid, h') =
      >>=-eq-ok (require (validate_name name) invalid_name)
        (λ (u : Unit {0}). live_folder owner parent rows >>= λ (p : Node).
          insert_row (child_of fold p id true name) rows)
        h in
    let (p, e, h'') =
      >>=-eq-ok (live_folder owner parent rows)
        (λ (p : Node). insert_row (child_of fold p id true name) rows) h' in
    let (found, dir) = live_folder-Found owner parent rows p e in
    let (free, added) = insert_row-ok (child_of fold p id true name) rows out h'' in
    subst (IsTree fold) (sym added) (
      add_child-IsTree fold rows tree p id true name found.there found.live dir
        (validate_name-IsSegment name (require-true (validate_name name) invalid_name u valid))
        fresh free)
