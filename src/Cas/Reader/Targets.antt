-- ===== src/Cas/Reader/Targets.antt =====
-- server/internal/cas/reader.go, loadWindowFor: the window for an offset is loaded.
use private_cloud.Prelude.{
  ℕ, ◌+◌, ◌-◌, ◌≤◌, ◌<◌, ◌≡◌, refl, sym, ap, ◌∙◌, subst, inl, inr, true, Option, none, some, List,
  ◌∷◌, ◌++◌, Text, filter, length, Has, Has-filter, ltb, leb, Bool-cases, Option-cases, Result, ok,
  arith,
}
use private_cloud.Cas.Codec.{Libraries, Err}
use private_cloud.Cas.Store.{Store}
use private_cloud.Cas.Reader.{
  Ref, Reader, covering, cached, fetch, chunks_from, refs_of, load_refs, first_load, target,
  load_window_for, in_window, with_window,
}
use private_cloud.Cas.Reader.Slices.{Lies, Lies-Slice, Slice, covering-some, filter-covers}

-- What the reader holds agrees with the content of its manifest.
pub record IsReading (st : Store) (content : Text) (r : Reader) : Type 0 where
  pub total : r.manifest.total_size ≡ length content
  pub refs_known :
      (rs : List Ref) (from : ℕ)
      → r.refs ≡ some (rs, from)
      → (t : Ref) → Has t rs
      → Has t (refs_of r.manifest.id st)
  pub window_true : (w : Text) (start : ℕ) → r.window ≡ some (w, start) → Slice content start w

abbrev Targets : ℕ → List Ref → Result Err (Ref × List Ref × ℕ) → Type 0
Targets p known res =
    (t : Ref) × (rs : List Ref) × (from : ℕ) × (res ≡ ok (t, rs, from))
    × Has t known
    × (t.offset ≤ p)
    × (p < t.offset + t.size)
    × ((u : Ref) → Has u rs → Has u known)

module _ (l : Libraries) (st : Store) (content : Text) where
  abbrev Found : ℕ → Reader → Type 0
  Found p r =
      (t : Ref) × (ts : List Ref) × (load_refs p st r ≡ ok (t, t ∷ ts))
      × Has t (refs_of r.manifest.id st)
      × (t.offset ≤ p)
      × (p < t.offset + t.size)
      × ((u : Ref) → Has u (t ∷ ts) → Has u (refs_of r.manifest.id st))

  load_refs-Found :
      (p : ℕ) (r : Reader)
      → Lies l st 0 (refs_of r.manifest.id st) content
      → p < length content
      → Found p r
  unfolding load_refs chunks_from
  load_refs-Found p r h b =
      build
        (filter-covers l st 0 p (refs_of r.manifest.id st) content h (omega arith) (omega arith))
    where
      build :
          (t : Ref) × (ts : List Ref) × (filter
                (λ q. ltb p (q.offset + q.size))
                (refs_of r.manifest.id st)
              ≡ t ∷ ts)
            × Has t (refs_of r.manifest.id st)
            × (t.offset ≤ p)
            × (p < t.offset + t.size)
          → Found p r
      build (t, ts, e, m, lo, hi) = (
        t,
        ts,
        rw (load_refs, chunks_from, e) refl,
        m,
        lo,
        hi,
        λ u k.
            (Has-filter (λ q. ltb p (q.offset + q.size)) (refs_of r.manifest.id st) u (rw e k)).0,
      )

  target-Targets :
      (p : ℕ) (r : Reader)
      → IsReading st content r
      → Lies l st 0 (refs_of r.manifest.id st) content
      → p < length content
      → Targets p (refs_of r.manifest.id st) (target p st r)
  unfolding target cached
  target-Targets p r v h b = elim (Option-cases (cached p r)) [
    | inl miss ↦ first miss (load_refs-Found p r h b)
    | inr (rs, hit) ↦ elim (Option-cases (covering p rs)) [
      | inl short ↦ again rs hit short (load_refs-Found p r h b)
      | inr (t, found) ↦ kept rs hit t found (cached-some rs hit)
    ]
  ]
    where
      known : List Ref
      known = refs_of r.manifest.id st

      cached-some : (rs : List Ref) → cached p r ≡ some rs → (from : ℕ) × (r.refs ≡ some (rs, from))
      cached-some rs hit = elim (Option-cases r.refs) [
        | inl e ↦ absurd (ground arith)
        | inr ((us, from), e) ↦ (from, ground arith)
      ]

      again :
          (rs : List Ref)
          → cached p r ≡ some rs
          → covering p rs ≡ none
          → Found p r
          → Targets p known (target p st r)
      again rs hit short (t, ts, e, m, lo, hi, k) =
          (t, t ∷ ts, p, rw (target, hit, short, e) refl, m, lo, hi, k)

      kept :
          (rs : List Ref)
          → cached p r ≡ some rs
          → (t : Ref) → covering p rs ≡ some t
          → (from : ℕ) × (r.refs ≡ some (rs, from))
          → Targets p known (target p st r)
      kept rs hit t found (from, e) =
          let (m, lo, hi) = covering-some p rs t found in
          (
            t,
            rs,
            from,
            rw (target, hit, found, e) refl,
            v.refs_known rs from e t m,
            lo,
            hi,
            v.refs_known rs from e,
          )

      first : cached p r ≡ none → Found p r → Targets p known (target p st r)
      first miss (t, ts, e, m, lo, hi, k) =
          let c : (leb t.offset p ≡ true) × (ltb p (t.offset + t.size) ≡ true) = ground arith in
          let g : first_load p st r (t, t ∷ ts) ≡ ok (t, t ∷ ts, p) =
            unfold covering in ground arith in
          (t, t ∷ ts, p, rw (target, miss, e) g, m, lo, hi, k)

  -- With the window that Read needs in place.
  abbrev pub Ready : Reader → Result Err Reader → Type 0
  Ready r res =
      (r' : Reader) × (res ≡ ok r')
      × IsReading st content r'
      × (in_window r' ≡ true)
      × (r'.pos ≡ r.pos)
      × (r'.manifest ≡ r.manifest)
      × (r'.closed ≡ r.closed)

  pub load_window_for-Ready :
      (r : Reader)
      → IsReading st content r
      → Lies l st 0 (refs_of r.manifest.id st) content
      → r.pos < length content
      → Ready r (load_window_for l st r.pos r)
  unfolding load_window_for in_window
  load_window_for-Ready r v h b = build (target-Targets r.pos r v h b)
    where
      finish :
          (t : Ref) (rs : List Ref) (from : ℕ)
          → target r.pos st r ≡ ok (t, rs, from)
          → t.offset ≤ r.pos
          → r.pos < t.offset + t.size
          → ((u : Ref) → Has u rs → Has u (refs_of r.manifest.id st))
          → (plain : Text) × (fetch l st t ≡ ok plain)
            × (t.size ≡ length plain)
            × (0 ≤ t.offset)
            × Slice content (t.offset - 0) plain
          → Ready r (load_window_for l st r.pos r)
      finish t rs from e lo hi k (plain, f, z, _, c) = (
        record r { window = some (plain, t.offset); refs = some (rs, from) },
        rw (load_window_for, e, f) refl,
        record {
          total = v.total;
          refs_known = λ us fr q u m. k u (subst (Has u) (sym (cc)) m);
          window_true = λ w s q. record {
            before = c.before;
            after = c.after;
            parts = c.parts ∙ ap (λ (x : Text). c.before ++ (x ++ c.after)) (cc);
            starts = omega (arith, c.starts, starts_at plain t.offset w s q);
          };
        },
        ground arith,
        refl,
        refl,
        refl,
      )
        where
          starts_at :
              (plain : Text) (o : ℕ) (w : Text) (s : ℕ)
              → ◌≡◌ {A = Option (Text × ℕ)} (some (plain, o)) (some (w, s))
              → o ≡ s
          starts_at plain o w s q = cc

      build :
          Targets r.pos (refs_of r.manifest.id st) (target r.pos st r)
          → Ready r (load_window_for l st r.pos r)
      build (t, rs, from, e, m, lo, hi, k) =
          finish t rs from e lo hi k (Lies-Slice l st 0 (refs_of r.manifest.id st) content t h m)

  pub with_window-Ready :
      (r : Reader)
      → IsReading st content r
      → Lies l st 0 (refs_of r.manifest.id st) content
      → r.pos < length content
      → Ready r (with_window l st r)
  unfolding with_window
  with_window-Ready r v h b = elim (Bool-cases (in_window r)) [
    | inl i ↦ rw (with_window, i) (r, refl, v, i, refl, refl, refl)
    | inr o ↦ rw (with_window, o) (load_window_for-Ready r v h b)
  ]
