-- ===== src/Files/Tree/Placing.antt =====
-- server/internal/files/store.go, MoveOrRename: the rows after its statements, as one map over the rows.
use private_cloud.Prelude.{
  ◌≡◌, ◌≢◌, refl, sym, ap, subst, ◌∙◌, Bool, true, ◌⊎◌, inl, inr, none, some, [], ◌∷◌, ◌++◌,
  append_assoc, map, map-Has, Has-map, Text, codes, text_eq, text_eq_iff, length, length-append,
  Has, ==_iff, if◌then◌else◌, Bool-cases, arith,
}
use private_cloud.Files.{Node, is_live}
use private_cloud.Files.Paths.{join_path}
use private_cloud.Files.Tree.{Rows}
use private_cloud.Files.Tree.Shape.{
  IsSegment, IsChild, IsTree, Under, stem, stem-eq, ne-nil, last_slash, join_path-stem, child-Under,
  deep-Under, root-Under, ancestor,
}
use private_cloud.Files.Tree.Adding.{rooted-join}
use private_cloud.Files.Tree.Moving

join_deep : (q seg : Text) → q ≢ codes "/" → join_path q seg ≡ q ++ (b'/' ∷ seg)
join_deep q seg deep = elim (Bool-cases (text_eq q (codes "/"))) [
  | inl top ↦ absurd (deep ((text_eq_iff q (codes "/")).0 top))
  | inr miss ↦ join_path-stem q seg ∙ ap (λ (b : Bool). (if b then [] else q) ++ (b'/' ∷ seg)) miss
]

append_cancel : (q t u : Text) → q ++ (b'/' ∷ t) ≡ q ++ (b'/' ∷ u) → t ≡ u
append_cancel [] t u e = cc
append_cancel (c ∷ q) t u e = append_cancel q t u (cc)

longer : (q t : Text) → q ≢ q ++ (b'/' ∷ t)
longer q t e = omega (arith, ap length e, length-append {0} q (b'/' ∷ t))

module _ (fold : Text → Text) (rows : Rows) (tree : IsTree fold rows) (x p : Node) (name : Text)
    (mv : Moving.Moves fold rows x p name) where
  open mv use {hx, lx, inner, hp, lp, dir, own, seg, ascii, free, outside}

  abbrev new : Node
  new = Moving.new fold rows tree x p name mv

  abbrev f : Node → Node
  f = Moving.place_row fold rows tree x p name mv

  abbrev Lot : Node → Type 0
  Lot = Moving.Lot fold rows tree x p name mv

  -- The new parent is left alone.
  parent_beside : f p ≡ p
  parent_beside = go (Moving.lot fold rows tree x p name mv p hp)
    where
      go : Lot p → f p ≡ p
      go (Moving.itself e e') = absurd (
          Moving.not_same fold rows tree x p name mv (ap (λ (n : Node). n.is_folder) (sym e) ∙ dir)
            (ap (λ (n : Node). n.path) e))
      go (Moving.below t folder oz e e') =
          absurd (Moving.not_below fold rows tree x p name mv folder (t, e))
      go (Moving.beside other away e) = e

  new-IsChild : IsChild fold new p
  new-IsChild = record {
    live = lp;
    folder = dir;
    owner = own;
    parent = refl;
    segment = name;
    is_segment = seg;
    path = refl;
    folded = refl;
  }

  -- A row below the folder that moves lies in the moved folder, or in a row below it.
  below-IsChild :
      (n m : Node) (t : Text)
      → Has m rows
      → IsChild fold n m
      → n.path ≡ x.path ++ (b'/' ∷ t)
      → n.owner_id ≡ x.owner_id
      → x.is_folder ≡ true
      → IsChild fold (record n { path = new.path ++ (b'/' ∷ t) }) (f m)
  below-IsChild n m t hm c e oz folder =
      elim (last_slash (stem m.path) x.path c.segment t c.is_segment.1
        (sym (c.path ∙ join_path-stem m.path c.segment) ∙ e)) [
          | inl (same, seg_same) ↦
              let paths = stem-eq m.path x.path same (Moving.x_some fold rows tree x p name mv) in
              in_moved (tree.paths m x hm hx c.live lx (c.owner ∙ oz) paths) seg_same
                (Moving.lot fold rows tree x p name mv m hm)
          | inr (u, deep, rest) ↦
              let under = stem-eq m.path (x.path ++ (b'/' ∷ u)) deep (ne-nil x.path u) in
              in_below u under rest (Moving.lot fold rows tree x p name mv m hm)
        ]
    where
      as_child :
          (q : Node)
          → q.is_folder ≡ true
          → is_live q ≡ true
          → q.owner_id ≡ m.owner_id
          → q.id ≡ m.id
          → q.path ≢ codes "/"
          → new.path ++ (b'/' ∷ t) ≡ q.path ++ (b'/' ∷ c.segment)
          → f m ≡ q
          → IsChild fold (record n { path = new.path ++ (b'/' ∷ t) }) (f m)
      as_child q folder_q live_q owner_q id_q deep_q path_q same =
          subst (IsChild fold (record n { path = new.path ++ (b'/' ∷ t) })) (sym same) (record {
            live = live_q;
            folder = folder_q;
            owner = owner_q ∙ c.owner;
            parent = c.parent ∙ ap some (sym id_q);
            segment = c.segment;
            is_segment = c.is_segment;
            path = path_q ∙ sym (join_deep q.path c.segment deep_q);
            folded = c.folded;
          })

      in_moved :
          m ≡ x
          → c.segment ≡ t
          → Lot m
          → IsChild fold (record n { path = new.path ++ (b'/' ∷ t) }) (f m)
      in_moved is_x seg_same (Moving.itself e same) =
          as_child new folder lx (ap (λ (r : Node). r.owner_id) (sym is_x))
            (ap (λ (r : Node). r.id) (sym is_x)) (Moving.new_deep fold rows tree x p name mv)
            (ap (λ (s : Text). new.path ++ (b'/' ∷ s)) (sym seg_same)) same
      in_moved is_x seg_same (Moving.below t' folder' oz' e same) =
          absurd (longer x.path t' (ap (λ (r : Node). r.path) (sym is_x) ∙ e))
      in_moved is_x seg_same (Moving.beside other away same) =
          absurd (cc (other, (==_iff m.id x.id).1 (ap (λ (r : Node). r.id) is_x)))

      in_below :
          (u : Text)
          → m.path ≡ x.path ++ (b'/' ∷ u)
          → t ≡ u ++ (b'/' ∷ c.segment)
          → Lot m
          → IsChild fold (record n { path = new.path ++ (b'/' ∷ t) }) (f m)
      in_below u under rest (Moving.itself e same) =
          absurd (longer x.path u (ap (λ (r : Node). r.path) (sym e) ∙ under))
      in_below u under rest (Moving.below t' folder' oz' e same) =
          let tails : t' ≡ u = append_cancel x.path t' u (sym e ∙ under) in
          as_child (record m { path = new.path ++ (b'/' ∷ t') }) c.folder c.live refl refl
            (λ top. root-Under new.path t' (Moving.new_some fold rows tree x p name mv) (sym top))
            (ap (λ (s : Text). new.path ++ (b'/' ∷ s))
                (rest ∙ ap (λ (s : Text). s ++ (b'/' ∷ c.segment)) (sym tails))
              ∙ sym (append_assoc new.path (b'/' ∷ t') (b'/' ∷ c.segment)))
            same
      in_below u under rest (Moving.beside other away same) =
          absurd (away folder (c.owner ∙ oz) (u, under))

  placed :
      (r : Node)
      → Has r rows
      → is_live r ≡ true
      → (((f r).parent_id ≡ none) × ((f r).path ≡ codes "/"))
        ⊎ ((m : Node) × Has m (map f rows) × IsChild fold (f r) m)
  placed r hr l = go (Moving.lot fold rows tree x p name mv r hr)
    where
      Goal : Node → Type 0
      Goal q =
          ((q.parent_id ≡ none) × (q.path ≡ codes "/"))
          ⊎ ((m : Node) × Has m (map f rows) × IsChild fold q m)

      go : Lot r → Goal (f r)
      go (Moving.itself e same) = subst Goal (sym same) (
          inr (
            p,
            subst (λ (q : Node). Has q (map f rows)) parent_beside (Has-map f rows p hp),
            new-IsChild,
          ))
      go (Moving.below t folder oz e same) = elim (tree.placed r hr l) [
        | inl (_, top) ↦
            absurd (root-Under x.path t (Moving.x_some fold rows tree x p name mv) (sym top ∙ e))
        | inr (m, hm, c) ↦
            subst Goal (sym same)
              (inr (f m, Has-map f rows m hm, below-IsChild r m t hm c e oz folder))
      ]
      go (Moving.beside other away same) = elim (tree.placed r hr l) [
        | inl top ↦ subst Goal (sym same) (inl top)
        | inr (m, hm, c) ↦ subst Goal (sym same) (
            inr (
              m,
              subst (λ (q : Node). Has q (map f rows))
                  (stays m c (Moving.lot fold rows tree x p name mv m hm)) (Has-map f rows m hm),
              c,
            ))
      ]
        where
          stays : (m : Node) → IsChild fold r m → Lot m → f m ≡ m
          stays m c (Moving.itself e same) = absurd (
              away (ap (λ (q : Node). q.is_folder) (sym e) ∙ c.folder)
                (sym c.owner ∙ ap (λ (q : Node). q.owner_id) e)
                (subst (λ (q : Node). Under q.path r.path) e
                  (child-Under fold r m c (λ top.
                    Moving.x_deep fold rows tree x p name mv
                      (ap (λ (q : Node). q.path) (sym e) ∙ top)))))
          stays m c (Moving.below t folder oz e same) = absurd (
              away folder (sym c.owner ∙ oz)
                (deep-Under fold r m x.path c (t, e) (Moving.x_some fold rows tree x p name mv)))
          stays m c (Moving.beside other' away' same) = same

  rooted : (r : Node) → Has r rows → is_live r ≡ true → (s : Text) × ((f r).path ≡ b'/' ∷ s)
  rooted r hr l = go (Moving.lot fold rows tree x p name mv r hr)
    where
      go : Lot r → (s : Text) × ((f r).path ≡ b'/' ∷ s)
      go (Moving.itself e same) =
          let (s, g) = rooted-join p.path name (tree.rooted p hp lp) in
          (s, ap (λ (q : Node). q.path) same ∙ g)
      go (Moving.below t folder oz e same) =
          let (s, g) = rooted-join p.path name (tree.rooted p hp lp) in
          (s ++ (b'/' ∷ t), ap (λ (q : Node). q.path) same ∙ ap (λ (q : Text). q ++ (b'/' ∷ t)) g)
      go (Moving.beside other away same) =
          let (s, g) = tree.rooted r hr l in (s, ap (λ (q : Node). q.path) same ∙ g)

  -- A path below the new path is that of no row that was left alone.
  beside_apart :
      (r : Node) (t : Text)
      → Has r rows
      → is_live r ≡ true
      → r.owner_id ≡ x.owner_id
      → x.is_folder ≡ true
      → (Under x.path r.path → ⊥)
      → r.path ≢ new.path ++ (b'/' ∷ t)
  beside_apart r t hr l oz folder away e =
      let new_some = Moving.new_some fold rows tree x p name mv in
      let (y, hy, ly, oy, at_new) = ancestor fold rows tree r new.path hr l new_some (t, e) in
      go y hy ly (oy ∙ oz) at_new (Moving.lot fold rows tree x p name mv y hy)
    where
      go :
          (y : Node)
          → Has y rows
          → is_live y ≡ true
          → y.owner_id ≡ x.owner_id
          → y.path ≡ new.path
          → Lot y
          → ⊥
      go y hy ly oy at_new (Moving.itself g same) =
          away
            (t, e ∙ ap (λ (q : Text). q ++ (b'/' ∷ t)) (sym at_new ∙ ap (λ (n : Node). n.path) g))
      go y hy ly oy at_new (Moving.below u folder oz g same) =
          Moving.new_not_below fold rows tree x p name mv folder (u, sym at_new ∙ g)
      go y hy ly oy at_new (Moving.beside other away same) =
          Moving.not_taken fold rows tree x p name mv y hy ly oy other at_new

  paths :
      (r q : Node)
      → Has r rows
      → Has q rows
      → is_live r ≡ true
      → is_live q ≡ true
      → r.owner_id ≡ q.owner_id
      → (f r).path ≡ (f q).path
      → r ≡ q
  paths r q hr hq lr lq own same =
      go (Moving.lot fold rows tree x p name mv r hr) (Moving.lot fold rows tree x p name mv q hq)
    where
      path_of : {a b : Node} → a ≡ b → a.path ≡ b.path
      path_of e = ap (λ (n : Node). n.path) e

      owner_of : {a b : Node} → a ≡ b → a.owner_id ≡ b.owner_id
      owner_of e = ap (λ (n : Node). n.owner_id) e

      go : Lot r → Lot q → r ≡ q
      go (Moving.itself e e') (Moving.itself g g') = e ∙ sym g
      go (Moving.itself e e') (Moving.below t folder oz g g') =
          absurd (longer new.path t (sym (path_of e') ∙ (same ∙ path_of g')))
      go (Moving.itself e e') (Moving.beside other away g') = absurd (
          Moving.not_taken fold rows tree x p name mv q hq lq (sym own ∙ owner_of e) other
            (sym (path_of g') ∙ (sym same ∙ path_of e')))
      go (Moving.below t folder oz e e') (Moving.itself g g') =
          absurd (longer new.path t (sym (path_of g') ∙ (sym same ∙ path_of e')))
      go (Moving.below t folder oz e e') (Moving.below u folder' oz' g g') =
          let tails = append_cancel new.path t u (sym (path_of e') ∙ (same ∙ path_of g')) in
          tree.paths r q hr hq lr lq own
            (e ∙ (ap (λ (s : Text). x.path ++ (b'/' ∷ s)) tails ∙ sym g))
      go (Moving.below t folder oz e e') (Moving.beside other away g') = absurd (
          beside_apart q t hq lq (sym own ∙ oz) folder (away folder (sym own ∙ oz))
            (sym (path_of g') ∙ (sym same ∙ path_of e')))
      go (Moving.beside other away e') (Moving.itself g g') = absurd (
          Moving.not_taken fold rows tree x p name mv r hr lr (own ∙ owner_of g) other
            (sym (path_of e') ∙ (same ∙ path_of g')))
      go (Moving.beside other away e') (Moving.below t folder oz g g') = absurd (
          beside_apart r t hr lr (own ∙ oz) folder (away folder (own ∙ oz))
            (sym (path_of e') ∙ (same ∙ path_of g')))
      go (Moving.beside other away e') (Moving.beside other' away' g') =
          tree.paths r q hr hq lr lq own (sym (path_of e') ∙ (same ∙ path_of g'))

  named : (r : Node) → Has r rows → is_live r ≡ true → (f r).parent_id ≢ none → IsSegment (f r).name
  named r hr l ne = go (Moving.lot fold rows tree x p name mv r hr)
    where
      kept : r.name ≡ (f r).name → r.parent_id ≡ (f r).parent_id → IsSegment (f r).name
      kept e g = subst IsSegment e (tree.named r hr l (λ top. ne (sym g ∙ top)))

      go : Lot r → IsSegment (f r).name
      go (Moving.itself e same) = subst (λ (q : Node). IsSegment q.name) (sym same) seg
      go (Moving.below t folder oz e same) =
          kept (ap (λ (q : Node). q.name) (sym same)) (ap (λ (q : Node). q.parent_id) (sym same))
      go (Moving.beside other away same) =
          kept (ap (λ (q : Node). q.name) (sym same)) (ap (λ (q : Node). q.parent_id) (sym same))

  was_live : (r : Node) → Has r rows → is_live (f r) ≡ true → is_live r ≡ true
  was_live r hr l = sym (Moving.place_row-live fold rows tree x p name mv r hr) ∙ l

  pub placed-IsTree : IsTree fold (map f rows)
  placed-IsTree = record {
    placed = λ n h l.
        let (r, hr, e) = map-Has f rows n h in
        subst
          (λ (q : Node).
            ((q.parent_id ≡ none) × (q.path ≡ codes "/"))
            ⊎ ((m : Node) × Has m (map f rows) × IsChild fold q m))
          (sym e) (placed r hr (was_live r hr (ap is_live (sym e) ∙ l)));
    rooted = λ n h l.
        let (r, hr, e) = map-Has f rows n h in
        let (s, g) = rooted r hr (was_live r hr (ap is_live (sym e) ∙ l)) in
        (s, ap (λ (q : Node). q.path) e ∙ g);
    named = λ n h l ne.
        let (r, hr, e) = map-Has f rows n h in
        subst (λ (q : Node). IsSegment q.name) (sym e)
          (named r hr (was_live r hr (ap is_live (sym e) ∙ l))
            (λ top. ne (ap (λ (q : Node). q.parent_id) e ∙ top)));
    ids = λ n m h g same.
        let (r, hr, e) = map-Has f rows n h in
        let (q, hq, d) = map-Has f rows m g in
        let ids : r.id ≡ q.id =
          sym (Moving.place_row-id fold rows tree x p name mv r hr)
          ∙ (ap (λ (n : Node). n.id) (sym e)
              ∙ (same
                  ∙ (ap (λ (n : Node). n.id) d
                      ∙ Moving.place_row-id fold rows tree x p name mv q hq))) in
        e ∙ (ap f (tree.ids r q hr hq ids) ∙ sym d);
    paths = λ n m h g ln lm own same.
        let (r, hr, e) = map-Has f rows n h in
        let (q, hq, d) = map-Has f rows m g in
        let owners : r.owner_id ≡ q.owner_id =
          sym (Moving.place_row-owner fold rows tree x p name mv r hr)
          ∙ (ap (λ (n : Node). n.owner_id) (sym e)
              ∙ (own
                  ∙ (ap (λ (n : Node). n.owner_id) d
                      ∙ Moving.place_row-owner fold rows tree x p name mv q hq))) in
        let both =
          paths r q hr hq (was_live r hr (ap is_live (sym e) ∙ ln))
            (was_live q hq (ap is_live (sym d) ∙ lm)) owners
            (ap (λ (n : Node). n.path) (sym e) ∙ (same ∙ ap (λ (n : Node). n.path) d)) in
        e ∙ (ap f both ∙ sym d);
  }
