-- ===== src/Cas/Reader/Slices.antt =====
-- server/internal/cas/reader.go: the references of a manifest cut the file's content into slices.
use private_cloud.Prelude.{
  ℕ, ◌+◌, ◌-◌, ◌≤◌, ◌<◌, ◌≡◌, refl, sym, ap, ◌∙◌, subst, inl, inr, false, some, List, [], ◌∷◌, ◌++◌,
  append_assoc, Text, filter, length, length-append, Has, ltb, Bool-cases, ok, arith,
}
use private_cloud.Cas.Codec.{Libraries}
use private_cloud.Cas.Store.{Store}
use private_cloud.Cas.Reader.{Ref, covers, covering, fetch}

-- The references lie end to end from `off` on, each with content that can be read, and together
-- they make up `content`.
abbrev pub Lies : Libraries → Store → ℕ → List Ref → Text → Type 0
Lies l st off [] content = content ≡ []
Lies l st off (r ∷ rs) content =
    (plain : Text) × (rest : Text) × (content ≡ plain ++ rest)
    × (r.offset ≡ off)
    × (r.size ≡ length plain)
    × (fetch l st r ≡ ok plain)
    × Lies l st (off + r.size) rs rest

-- `plain` is the part of `content` that starts at `start`.
pub record Slice (content : Text) (start : ℕ) (plain : Text) : Type 0 where
  pub before : Text
  pub after : Text
  pub parts : content ≡ before ++ (plain ++ after)
  pub starts : length before ≡ start

pub Lies-Slice :
    (l : Libraries) (st : Store) (off : ℕ) (rs : List Ref) (content : Text) (r : Ref)
    → Lies l st off rs content
    → Has r rs
    → (plain : Text) × (fetch l st r ≡ ok plain)
      × (r.size ≡ length plain)
      × (off ≤ r.offset)
      × Slice content (r.offset - off) plain
Lies-Slice l st off [] content r h m = absurd m
Lies-Slice l st off (x ∷ rs) content r (plain, rest, e, o, s, f, t) (inl same) = (
  plain,
  rw same f,
  rw same s,
  rw same (omega arith),
  record { before = []; after = rest; parts = e; starts = rw same (omega arith) },
)
Lies-Slice l st off (x ∷ rs) content r (plain, rest, e, o, s, f, t) (inr m) =
    later (Lies-Slice l st (off + x.size) rs rest r t m)
  where
    later :
        (p : Text) × (fetch l st r ≡ ok p)
          × (r.size ≡ length p)
          × (off + x.size ≤ r.offset)
          × Slice rest (r.offset - (off + x.size)) p
        → (p : Text) × (fetch l st r ≡ ok p)
          × (r.size ≡ length p)
          × (off ≤ r.offset)
          × Slice content (r.offset - off) p
    later (p, g, z, b, c) = (
      p,
      g,
      z,
      omega arith,
      record {
        before = plain ++ c.before;
        after = c.after;
        parts = e ∙ ap (◌++◌ plain) c.parts ∙ sym (append_assoc plain c.before (p ++ c.after));
        starts = omega (arith, length-append plain c.before, c.starts);
      },
    )

pub covering-some :
    (p : ℕ) (rs : List Ref) (r : Ref)
    → covering p rs ≡ some r
    → Has r rs × (r.offset ≤ p) × (p < r.offset + r.size)
unfolding covering
covering-some p [] r e = cc
covering-some p (x ∷ rs) r e = elim (Bool-cases (covers p x)) [
  | inl hit ↦
      let same : x ≡ r = ground arith in
      let bounds : (x.offset ≤ p) × (p < x.offset + x.size) = ground arith in
      (
        inl (sym same),
        subst (λ (y : Ref). y.offset ≤ p) same bounds.0,
        subst (λ (y : Ref). p < y.offset + y.size) same bounds.1,
      )
  | inr miss ↦ let (a, b, c) = covering-some p rs r (rw miss at e) in (inr a, b, c)
]

-- The first reference that ends behind an offset of the file is the one that covers it.
pub filter-covers :
    (l : Libraries) (st : Store) (off p : ℕ) (rs : List Ref) (content : Text)
    → Lies l st off rs content
    → off ≤ p
    → p < off + length content
    → (t : Ref) × (ts : List Ref) × (filter (λ r. ltb p (r.offset + r.size)) rs ≡ t ∷ ts)
      × Has t rs
      × (t.offset ≤ p)
      × (p < t.offset + t.size)
filter-covers l st off p [] content e a b = absurd (omega (arith, ap length e))
filter-covers l st off p (x ∷ rs) content (plain, rest, e, o, s, f, t) a b =
    elim (Bool-cases (ltb p (x.offset + x.size))) [
      | inl hit ↦ (
        x,
        filter (λ r. ltb p (r.offset + r.size)) rs,
        rw (filter, hit) refl,
        inl refl,
        omega arith,
        ground arith,
      )
      | inr miss ↦ further miss (
          filter-covers l st (off + x.size) p rs rest t (ground arith)
            (omega (arith, ap length e, length-append plain rest)))
    ]
  where
    further :
        ltb p (x.offset + x.size) ≡ false
        → (t : Ref) × (ts : List Ref) × (filter (λ r. ltb p (r.offset + r.size)) rs ≡ t ∷ ts)
          × Has t rs
          × (t.offset ≤ p)
          × (p < t.offset + t.size)
        → (t : Ref) × (ts : List Ref) × (filter (λ r. ltb p (r.offset + r.size)) (x ∷ rs) ≡ t ∷ ts)
          × Has t (x ∷ rs)
          × (t.offset ≤ p)
          × (p < t.offset + t.size)
    further miss (t, ts, q, h, lo, hi) = (t, ts, rw (filter, miss) q, inr h, lo, hi)
