-- ===== src/Media/Walk.antt =====
-- The loop of forEachEBML: it ends within as many rounds as there are bytes, and what it hands out
-- lies in the buffer.
use private_cloud.Prelude.{
  ℕ, zero, suc, ◌+◌, ◌≤◌, ◌≡◌, refl, ap, sym, ◌∙◌, true, false, none, some, List, [], ◌∷◌, Text,
  length, take, drop, ltb, length-drop, length-take, Bool-cases, Option-cases, arith, ◌==◌, inl,
  inr,
}
use private_cloud.Media.{
  marker, width_of, id_of_width, size_of_width, ebml_id, Size, bad, unknown, known, ebml_size,
  Round, stop, last, more, round, walk, for_each_ebml, after,
}

marker-le : (k b : ℕ) → marker k b ≤ k
unfolding marker
marker-le zero b = omega arith
marker-le (suc k) b = ground (arith, marker-le k b)

width_of-pos : (b : ℕ) → 1 ≤ width_of b
width_of-pos b = omega (arith, marker-le 7 b)

id_of_width-lem :
    (w : ℕ) (bs : Text) (id n : ℕ) → id_of_width w bs ≡ some (id, n) → (n ≡ w) × (n ≤ length bs)
unfolding id_of_width
id_of_width-lem w bs id n h = ground arith

ebml_id-zero : (b : ℕ) (bs : Text) → (b == 0) ≡ true → ebml_id (b ∷ bs) ≡ none
unfolding ebml_id
ebml_id-zero b bs z = rw z refl

pub ebml_id-nonzero :
    (b : ℕ) (bs : Text) → (b == 0) ≡ false → ebml_id (b ∷ bs) ≡ id_of_width (width_of b) (b ∷ bs)
unfolding ebml_id
ebml_id-nonzero b bs z = rw z refl

ebml_id-width : (bs : Text) (id n : ℕ) → ebml_id bs ≡ some (id, n) → (1 ≤ n) × (n ≤ length bs)
unfolding ebml_id
ebml_id-width [] id n h = cc
ebml_id-width (b ∷ bs) id n h = elim (Bool-cases (b == 0)) [
  | inl z ↦ cc (h, ebml_id-zero b bs z)
  | inr z ↦
      let (e, f) = id_of_width-lem (width_of b) (b ∷ bs) id n (sym (ebml_id-nonzero b bs z) ∙ h) in
      (omega (arith, e, width_of-pos b), f)
]

-- A length that is read has a width of one byte at least, and lies in the buffer with it.
HasWidth : Text → Size → Type 0
HasWidth bs bad = Unit
HasWidth bs (unknown m) = (1 ≤ m) × (m ≤ length bs)
HasWidth bs (known s m) = (1 ≤ m) × (m ≤ length bs)

size_of_width-HasWidth :
    (w first ones : ℕ) (bs : Text) → 1 ≤ w → HasWidth bs (size_of_width w first ones bs)
unfolding size_of_width HasWidth
size_of_width-HasWidth w first ones bs h = ground arith

ebml_size-HasWidth : (bs : Text) → HasWidth bs (ebml_size bs)
unfolding ebml_size HasWidth
ebml_size-HasWidth [] = tt
ebml_size-HasWidth (b ∷ bs) = elim (Bool-cases (b == 0)) [
  | inl z ↦ rw z tt
  | inr z ↦ rw z (size_of_width-HasWidth (width_of b) _ _ (b ∷ bs) (width_of-pos b))
]

-- What a round hands out and leaves, with its header of two bytes at least, fits in the buffer.
Fits : Text → Round → Type 0
Fits bs stop = Unit
Fits bs (last (id, body)) = 2 + length body ≤ length bs
Fits bs (more (id, body) rest) = 2 + length body + length rest ≤ length bs

known-Fits :
    (bs tail : Text) (id size : ℕ)
    → 2 + length tail ≤ length bs
    → ltb (length tail) size ≡ false
    → Fits bs (more (id, take size tail) (drop size tail))
unfolding Fits
known-Fits bs tail id size h l = ground (arith, length-take size tail, length-drop size tail)

sized-Fits :
    (bs : Text) (id n : ℕ)
    → (1 ≤ n) × (n ≤ length bs)
    → (s : Size) → HasWidth (drop n bs) s
    → Fits bs (after bs id n s)
unfolding Fits HasWidth
sized-Fits bs id n h bad w = tt
sized-Fits bs id n h (unknown m) w =
    ground (arith, h, w, length-drop n bs, length-drop m (drop n bs))
sized-Fits bs id n h (known size m) w =
    let tail = drop m (drop n bs) in
    let fits : 2 + length tail ≤ length bs =
      omega (arith, h, w, length-drop n bs, length-drop m (drop n bs)) in
    elim (Bool-cases (ltb (length tail) size)) [
      | inl l ↦ rw l tt
      | inr l ↦ rw l (known-Fits bs tail id size fits l)
    ]

round-Fits : (bs : Text) → Fits bs (round bs)
unfolding round Fits
round-Fits bs = elim (Option-cases (ebml_id bs)) [
  | inl e ↦ rw (round, e) tt
  | inr ((id, n), e) ↦
      rw (round, e)
        (sized-Fits bs id n (ebml_id-width bs id n e) _ (ebml_size-HasWidth (drop n bs)))
]

-- What the loop hands out from a round on.
unfoldable pub resume : ℕ → Round → List (ℕ × Text)
resume f stop = []
resume f (last e) = e ∷ []
resume f (more e rest) = e ∷ walk f rest

pub walk-eq : (f : ℕ) (bs : Text) → walk (suc f) bs ≡ resume f (round bs)
unfolding walk resume
walk-eq f bs =
    elim (round bs)
      as (λ r.
        elim r as (λ x. List (ℕ × Text)) [
          | stop ↦ []
          | last e ↦ e ∷ []
          | more e rest ↦ e ∷ walk f rest
        ]
        ≡ resume f r) [ stop ↦ refl | last e ↦ refl | more e rest ↦ refl ]

pub walk-nil : (f : ℕ) → walk f [] ≡ []
unfolding walk round ebml_id
walk-nil zero = refl
walk-nil (suc f) = refl

resume_enough :
    (f g : ℕ) (bs : Text) (r : Round)
    → ((rest : Text) → length rest ≤ f → length rest ≤ g → walk f rest ≡ walk g rest)
    → Fits bs r
    → length bs ≤ suc f
    → length bs ≤ suc g
    → resume f r ≡ resume g r
unfolding resume Fits
resume_enough f g bs stop more_rounds fits hf hg = refl
resume_enough f g bs (last e) more_rounds fits hf hg = refl
resume_enough f g bs (more e rest) more_rounds fits hf hg =
    ap (λ es. e ∷ es) (more_rounds rest (omega arith) (omega arith))

-- Fuel that is as large as the buffer is long is enough for the loop: more changes nothing.
pub walk_enough : (f g : ℕ) (bs : Text) → length bs ≤ f → length bs ≤ g → walk f bs ≡ walk g bs
walk_enough f g [] hf hg = rw (walk-nil f, walk-nil g) refl
walk_enough zero g (b ∷ bs) hf hg = elim hf [ ]
walk_enough (suc f) zero (b ∷ bs) hf hg = elim hg [ ]
walk_enough (suc f) (suc g) (b ∷ bs) hf hg =
    let rounds = resume_enough f g (b ∷ bs) (round (b ∷ bs)) (λ rest. walk_enough f g rest) in
    walk-eq f (b ∷ bs) ∙ rounds (round-Fits (b ∷ bs)) hf hg ∙ sym (walk-eq g (b ∷ bs))

-- The bytes of the bodies, with two more for each element.
abbrev pub weight : List (ℕ × Text) → ℕ
weight [] = 0
weight ((id, body) ∷ es) = 2 + length body + weight es

resume-weight :
    (f : ℕ) (bs : Text) (r : Round)
    → ((rest : Text) → weight (walk f rest) ≤ length rest)
    → Fits bs r
    → weight (resume f r) ≤ length bs
unfolding resume Fits
resume-weight f bs stop lighter fits = omega arith
resume-weight f bs (last (id, body)) lighter fits = omega arith
resume-weight f bs (more (id, body) rest) lighter fits = omega (arith, lighter rest)

walk-zero : (bs : Text) → walk zero bs ≡ []
unfolding walk
walk-zero bs = refl

walk-weight : (f : ℕ) (bs : Text) → weight (walk f bs) ≤ length bs
walk-weight zero bs = rw (walk-zero bs) (omega arith)
walk-weight (suc f) bs =
    rw (walk-eq f bs) (resume-weight f bs (round bs) (walk-weight f) (round-Fits bs))

-- For every buffer, the elements that forEachEBML hands out have bodies which, with two bytes more
-- for each, are no more bytes together than the buffer has; and any fuel above the buffer's
-- length gives the same elements, so that the loop ends within as many rounds as there are bytes.
pub for_each_ebml-Bounded :
    (bs : Text)
    → (weight (for_each_ebml bs) ≤ length bs)
      × ((f : ℕ) → length bs ≤ f → walk f bs ≡ for_each_ebml bs)
unfolding for_each_ebml
for_each_ebml-Bounded bs =
    (walk-weight (length bs) bs, λ f h. walk_enough f (length bs) bs h (omega arith))
