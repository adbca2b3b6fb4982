-- ===== src/Cas/Reader/Whole.antt =====
-- server/internal/cas/reader.go: reading until the end of the file gives the whole of it, whatever
-- the sizes of the buffers.
use private_cloud.Prelude.{
  ℕ, zero, suc, ◌-◌, ◌≤◌, ◌<◌, ◌≡◌, refl, sym, ap, ◌∙◌, subst, inl, inr, false, [], ◌∷◌, ◌++◌,
  Option, none, some, tests, Text, length, drop, leb, Bool-cases, Result, ok, err, arith,
}
use mathlib.Core.Option
use private_cloud.Cas.Codec.{Libraries, Err, end_of_file}
use private_cloud.Cas.Store.{Store, Manifest}
use private_cloud.Cas.Reader.{Reader, refs_of, read}
use private_cloud.Cas.Reader.Slices.{Lies}
use private_cloud.Cas.Reader.Targets.{IsReading}
use private_cloud.Cas.Reader.Reading.{Reads, read-Reads}

-- The outcome of one round of io.ReadAll's loop, with what the rounds after it return.
abbrev round : (Reader → Option Text) → Result Err (Text × Reader) → Option Text
round rest (ok (out, r')) = Option.map (λ more. out ++ more) (rest r')
round rest (err end_of_file) = some []
round rest (err e) = none

-- io.ReadAll's loop over the reader: the i-th round, counted from the end, has a buffer for `size i`
-- bytes. None is an error other than the end of the file, or no fuel.
pub read_all : Libraries → Store → (ℕ → ℕ) → ℕ → Reader → Option Text
read_all l st size zero r = none
read_all l st size (suc fuel) r =
    round (λ r'. read_all l st size fuel r') (read l st false (size fuel) r)

drop-all : (n : ℕ) (s : Text) → length s ≤ n → drop n s ≡ []
drop-all zero [] h = refl
drop-all (suc n) [] h = refl
drop-all zero (x ∷ s) h = absurd (omega arith)
drop-all (suc n) (x ∷ s) h = drop-all n s (omega arith)

read-end :
    (l : Libraries) (st : Store) (n : ℕ) (r : Reader)
    → r.closed ≡ false
    → r.manifest.total_size ≤ r.pos
    → read l st false n r ≡ err end_of_file
unfolding read
read-end l st n r o h = ground arith

-- Where the references of the manifest lie end to end, each has a chunk that can be fetched, and together
-- they make up the content, and where what the open reader has cached agrees with it, the loop, with
-- buffers for at least one byte and fuel for one round more than the bytes left, ends and returns every
-- byte from the position on.
pub read_all-content :
    (l : Libraries) (st : Store) (content : Text) (size : ℕ → ℕ) (fuel : ℕ) (r : Reader)
    → ((i : ℕ) → 0 < size i)
    → Lies l st 0 (refs_of r.manifest.id st) content
    → IsReading st content r
    → r.closed ≡ false
    → length content - r.pos < fuel
    → read_all l st size fuel r ≡ some (drop r.pos content)
unfolding read_all
read_all-content l st content size zero r s h v o f = absurd (omega arith)
read_all-content l st content size (suc fuel) r s h v o f =
    elim (Bool-cases (leb (length content) r.pos)) [
      | inl past ↦
          rw
            (
              read-end l st (size fuel) r o (omega (tests, v.total)),
              drop-all r.pos content (omega tests),
            )
            refl
      | inr inside ↦
          more (ground arith) (read-Reads l st content (size fuel) r h v o (ground arith) (s fuel))
            (λ r' h' v' o' f'. read_all-content l st content size fuel r' s h' v' o' f')
    ]
  where
    more :
        r.pos < length content
        → (out : Text) × (r' : Reader) × (read l st false (size fuel) r ≡ ok (out, r'))
          × Reads st content (size fuel) r out r'
        → ((r' : Reader)
            → Lies l st 0 (refs_of r'.manifest.id st) content
            → IsReading st content r'
            → r'.closed ≡ false
            → length content - r'.pos < fuel
            → read_all l st size fuel r' ≡ some (drop r'.pos content))
        → read_all l st size (suc fuel) r ≡ some (drop r.pos content)
    more b (out, r', e, g) ih =
        let kept : Lies l st 0 (refs_of r'.manifest.id st) content =
          subst (λ m. Lies l st 0 (refs_of m st) content) (sym (ap (λ (m : Manifest). m.id) g.same))
            h in
        let rest = ih r' kept g.still (g.open_still ∙ o) (omega (arith, g.moved, g.some_bytes)) in
        rw (e, rest, g.next) refl
