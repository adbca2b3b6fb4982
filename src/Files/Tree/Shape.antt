-- ===== src/Files/Tree/Shape.antt =====
-- server/internal/files: the rows of nodes as a tree, and the arithmetic of its paths.
use private_cloud.Prelude.{
  ℕ, zero, suc, ◌<◌, ◌≡◌, ◌≢◌, refl, sym, ap, ◌∙◌, Bool, true, false, ◌⊎◌, inl, inr, none, some,
  List, [], ◌∷◌, ◌++◌, append_assoc, Text, codes, text_eq, text_eq_iff, has_prefix-eq,
  has_prefix-append, any, Has, length, length-append, ◌==◌, if◌then◌else◌, Bool-cases, arith,
}
use private_cloud.Files.{Node, is_live}
use private_cloud.Files.Paths.{join_path, is_under, is_under-eq}

-- A segment of a path: it has a character, and no slash.
abbrev pub IsSegment : Text → Type 0
IsSegment s = (s ≢ []) × (any (λ c. c == b'/') s ≡ false)

-- The row `m` is the live folder that a live row `n` lies in. A file's name may have been respelled since
-- its path was made, so the segment is the name up to case.
pub record IsChild (fold : Text → Text) (n m : Node) : Type 0 where
  pub live : is_live m ≡ true
  pub folder : m.is_folder ≡ true
  pub owner : m.owner_id ≡ n.owner_id
  pub parent : n.parent_id ≡ some m.id
  pub segment : Text
  pub is_segment : IsSegment segment
  pub path : n.path ≡ join_path m.path segment
  pub folded : fold segment ≡ n.name_fold

pub record IsTree (fold : Text → Text) (rows : List Node) : Type 0 where
  -- A live row is a root, or lies in a live folder of its owner, and its path says so.
  pub placed :
      (n : Node)
      → Has n rows
      → is_live n ≡ true
      → ((n.parent_id ≡ none) × (n.path ≡ codes "/")) ⊎ ((m : Node) × Has m rows × IsChild fold n m)
  pub rooted : (n : Node) → Has n rows → is_live n ≡ true → (s : Text) × (n.path ≡ b'/' ∷ s)
  pub named : (n : Node) → Has n rows → is_live n ≡ true → n.parent_id ≢ none → IsSegment n.name
  pub ids : (n m : Node) → Has n rows → Has m rows → n.id ≡ m.id → n ≡ m
  -- Two live rows of an owner have different paths.
  pub paths :
      (n m : Node)
      → Has n rows
      → Has m rows
      → is_live n ≡ true
      → is_live m ≡ true
      → n.owner_id ≡ m.owner_id
      → n.path ≡ m.path
      → n ≡ m

-- What goes before the last slash of a child's path.
abbrev pub stem : Text → Text
stem parent = if text_eq parent (codes "/") then [] else parent

pub join_path-stem : (parent seg : Text) → join_path parent seg ≡ stem parent ++ (b'/' ∷ seg)
unfolding join_path
join_path-stem parent seg = elim (Bool-cases (text_eq parent (codes "/"))) [
  | inl root ↦ rw (join_path, root) refl
  | inr deep ↦ rw (join_path, deep) refl
]

pub has_slash : (a t : Text) → any (λ c. c == b'/') (a ++ (b'/' ∷ t)) ≡ true
has_slash [] t = refl
has_slash (x ∷ a) t = ground (arith, has_slash a t)

-- A path with two readings as a stem and a rest, where one rest is a segment.
pub last_slash :
    (a p seg t : Text)
    → any (λ c. c == b'/') seg ≡ false
    → a ++ (b'/' ∷ seg) ≡ p ++ (b'/' ∷ t)
    → ((a ≡ p) × (seg ≡ t)) ⊎ ((u : Text) × (a ≡ p ++ (b'/' ∷ u)) × (t ≡ u ++ (b'/' ∷ seg)))
last_slash [] [] seg t h e = inl (refl, cc)
last_slash [] (x ∷ p) seg t h e =
    let inner : seg ≡ p ++ (b'/' ∷ t) = cc in absurd (cc (has_slash p t, h, inner))
last_slash (y ∷ a) [] seg t h e = inr (a, cc, cc)
last_slash (y ∷ a) (x ∷ p) seg t h e =
    let first : y ≡ x = cc in
    let rest : a ++ (b'/' ∷ seg) ≡ p ++ (b'/' ∷ t) = cc in
    elim (last_slash a p seg t h rest) [
      | inl (same, seg_same) ↦ inl (cc, seg_same)
      | inr (u, deep, f) ↦ inr (u, cc, f)
    ]

-- The path goes on from that of a folder with a slash.
abbrev pub Under : Text → Text → Type 0
Under p q = (t : Text) × (q ≡ p ++ (b'/' ∷ t))

pub is_under→Under : (p q : Text) → is_under p q ≡ true → Under p q
is_under→Under p q h =
    let (t, e) = has_prefix-eq q (p ++ codes "/") (sym (is_under-eq p q) ∙ h) in
    (t, e ∙ append_assoc p (codes "/") t)

pub is_under-true : (p q : Text) → Under p q → is_under p q ≡ true
is_under-true p q (t, e) =
    let joined : q ≡ (p ++ codes "/") ++ t = e ∙ sym (append_assoc p (codes "/") t) in
    is_under-eq p q ∙ rw joined (has_prefix-append (p ++ codes "/") t)

-- A stem that is not empty is the path itself.
pub stem-eq : (q p : Text) → stem q ≡ p → p ≢ [] → q ≡ p
stem-eq q p e ne = elim (Bool-cases (text_eq q (codes "/"))) [
  | inl root ↦ absurd (ne (sym (rw root at e)))
  | inr deep ↦ rw deep at e
]

pub ne-nil : (p u : Text) → p ++ (b'/' ∷ u) ≢ []
ne-nil [] u e = cc
ne-nil (x ∷ p) u e = cc

pub stem-Under : (q p u : Text) → stem q ≡ p ++ (b'/' ∷ u) → Under p q
stem-Under q p u e = (u, stem-eq q (p ++ (b'/' ∷ u)) e (ne-nil p u))

pub root-Under : (p t : Text) → p ≢ [] → codes "/" ≢ p ++ (b'/' ∷ t)
root-Under [] t ne e = ne refl
root-Under (x ∷ []) t ne e = cc
root-Under (x ∷ y ∷ p) t ne e = cc

join_path-longer : (parent seg : Text) → seg ≢ [] → length parent < length (join_path parent seg)
unfolding join_path
join_path-longer parent [] ne = absurd (ne refl)
join_path-longer parent (c ∷ seg) ne = elim (Bool-cases (text_eq parent (codes "/"))) [
  | inl root ↦
      let e : parent ≡ codes "/" = (text_eq_iff parent (codes "/")).0 root in
      rw (join_path, root) (omega (arith, ap length e))
  | inr deep ↦ rw (join_path, deep) (omega (arith, length-append {0} parent (b'/' ∷ c ∷ seg)))
]

module _ (fold : Text → Text) where
  -- What lies below a folder lies in the folder or in what lies below it.
  pub parent-Under :
      (n m : Node) (p : Text)
      → IsChild fold n m
      → p ≢ []
      → Under p n.path
      → (m.path ≡ p) ⊎ Under p m.path
  parent-Under n m p c ne (t, e) =
      elim (last_slash (stem m.path) p c.segment t c.is_segment.1
        (sym (c.path ∙ join_path-stem m.path c.segment) ∙ e)) [
          | inl (same, _) ↦ inl (stem-eq m.path p same ne)
          | inr (u, deep, _) ↦ inr (stem-Under m.path p u deep)
        ]

  -- And the other way round.
  pub child-Under : (n m : Node) → IsChild fold n m → m.path ≢ codes "/" → Under m.path n.path
  child-Under n m c deep = elim (Bool-cases (text_eq m.path (codes "/"))) [
    | inl root ↦ absurd (deep ((text_eq_iff m.path (codes "/")).0 root))
    | inr miss ↦ (
      c.segment,
      c.path
          ∙ (join_path-stem m.path c.segment
              ∙ ap (λ (b : Bool). (if b then [] else m.path) ++ (b'/' ∷ c.segment)) miss),
    )
  ]

  pub deep-Under :
      (n m : Node) (p : Text) → IsChild fold n m → Under p m.path → p ≢ [] → Under p n.path
  deep-Under n m p c (t, e) ne = elim (Bool-cases (text_eq m.path (codes "/"))) [
    | inl root ↦ absurd (root-Under p t ne (sym ((text_eq_iff m.path (codes "/")).0 root) ∙ e))
    | inr miss ↦ (
      t ++ (b'/' ∷ c.segment),
      c.path
          ∙ (join_path-stem m.path c.segment
              ∙ (ap (λ (b : Bool). (if b then [] else m.path) ++ (b'/' ∷ c.segment)) miss
                  ∙ (ap (λ (q : Text). q ++ (b'/' ∷ c.segment)) e
                      ∙ append_assoc p (b'/' ∷ t) (b'/' ∷ c.segment)))),
    )
  ]

  module _ (rows : List Node) (tree : IsTree fold rows) where
    -- A live row below a path lies below a live row of that path.
    ancestor_within :
        (k : ℕ) (n : Node) (p : Text)
        → length n.path < k
        → Has n rows
        → is_live n ≡ true
        → p ≢ []
        → Under p n.path
        → (m : Node) × Has m rows × (is_live m ≡ true) × (m.owner_id ≡ n.owner_id) × (m.path ≡ p)
    ancestor_within zero n p h there live ne under = elim h [ ]
    ancestor_within (suc k) n p h there live ne (t, e) = elim (tree.placed n there live) [
      | inl (_, top) ↦ absurd (root-Under p t ne (sym top ∙ e))
      | inr (m, has, c) ↦ elim (parent-Under n m p c ne (t, e)) [
        | inl same ↦ (m, has, c.live, c.owner, same)
        | inr under ↦
            let (a, there', live', owner, same) =
              ancestor_within k m p (shorter n m c h) has c.live ne under in
            (a, there', live', owner ∙ c.owner, same)
      ]
    ]
      where
        shorter : (n m : Node) → IsChild fold n m → length n.path < suc k → length m.path < k
        shorter n m c h =
            omega (arith, join_path-longer m.path c.segment c.is_segment.0, ap length c.path)

    pub ancestor :
        (n : Node) (p : Text)
        → Has n rows
        → is_live n ≡ true
        → p ≢ []
        → Under p n.path
        → (m : Node) × Has m rows × (is_live m ≡ true) × (m.owner_id ≡ n.owner_id) × (m.path ≡ p)
    ancestor n p there live ne under =
        ancestor_within (suc (length n.path)) n p (omega arith) there live ne under
