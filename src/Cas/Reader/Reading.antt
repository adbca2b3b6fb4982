-- ===== src/Cas/Reader/Reading.antt =====
-- server/internal/cas/reader.go: Read returns the next bytes of the file.
use private_cloud.Prelude.{
  ℕ, ◌+◌, ◌-◌, ◌≤◌, ◌<◌, ◌≡◌, refl, sym, ap, ◌∙◌, inl, inr, true, false, some, ◌++◌, append_assoc,
  Text, length, length-take, length-drop, take, drop, min, drop-append_add, drop-append_le,
  drop-append_self, drop-drop, take-append-drop, leb, Option-cases, ok, arith,
}
use private_cloud.Cas.Codec.{Libraries}
use private_cloud.Cas.Store.{Store}
use private_cloud.Cas.Reader.{Reader, refs_of, read, in_window, with_window, copy_out}
use private_cloud.Cas.Reader.Slices.{Lies, Slice}
use private_cloud.Cas.Reader.Targets.{IsReading, Ready, with_window-Ready}

-- What a read gives: some bytes, as many as fit in the buffer and the chunk, which are the next ones
-- of the content, and a reader that stands behind them.
pub record Reads (st : Store) (content : Text) (n : ℕ) (r : Reader) (out : Text) (r' : Reader)
    : Type 0 where
  pub some_bytes : 0 < length out
  pub fits : length out ≤ n
  pub next : drop r.pos content ≡ out ++ drop r'.pos content
  pub moved : r'.pos ≡ r.pos + length out
  pub same : r'.manifest ≡ r.manifest
  pub open_still : r'.closed ≡ r.closed
  pub still : IsReading st content r'

Slice-next :
    (content w : Text) (start pos n : ℕ)
    → Slice content start w
    → start ≤ pos
    → pos < start + length w
    → let out = take n (drop (pos - start) w) in
      (drop pos content ≡ out ++ drop (pos + length out) content)
      × (length out ≤ n)
      × (0 < n → 0 < length out)
Slice-next content w start pos n c lo hi = (next, omega (arith, size), λ h. omega (arith, size))
  where
    out : Text
    out = take n (drop (pos - start) w)

    size : length out ≡ min n (length w - (pos - start))
    size = rw (length-take n (drop (pos - start) w), length-drop (pos - start) w) refl

    here : drop pos content ≡ drop (pos - start) w ++ c.after
    here =
        let e : pos ≡ length c.before + (pos - start) = omega (arith, c.starts) in
        ap (λ (p : ℕ). drop p content) e
        ∙ ap (drop (length c.before + (pos - start))) c.parts
        ∙ drop-append_add c.before (w ++ c.after) (pos - start)
        ∙ drop-append_le (pos - start) w c.after (omega arith)

    split : drop pos content ≡ out ++ (drop n (drop (pos - start) w) ++ c.after)
    split =
        here
        ∙ ap (λ (x : Text). x ++ c.after) (sym (take-append-drop n (drop (pos - start) w)))
        ∙ append_assoc out (drop n (drop (pos - start) w)) c.after

    next : drop pos content ≡ out ++ drop (pos + length out) content
    next =
        let rest : drop (pos + length out) content ≡ drop n (drop (pos - start) w) ++ c.after =
          sym (drop-drop pos (length out) content)
          ∙ ap (drop (length out)) split
          ∙ drop-append_self out (drop n (drop (pos - start) w) ++ c.after) in
        split ∙ ap (◌++◌ out) (sym rest)

module _ (l : Libraries) (st : Store) (content : Text) where
  copy_out-Reads :
      (n : ℕ) (r : Reader)
      → 0 < n
      → IsReading st content r
      → in_window r ≡ true
      → Reads st content n r (copy_out n r).0 (copy_out n r).1
  unfolding in_window copy_out
  copy_out-Reads n r b v i = elim (Option-cases r.window) [
    | inl e ↦ absurd (ground arith)
    | inr ((w, start), e) ↦ build w start e
  ]
    where
      build :
          (w : Text) (start : ℕ)
          → r.window ≡ some (w, start)
          → Reads st content n r (copy_out n r).0 (copy_out n r).1
      build w start e =
          let bounds : (start ≤ r.pos) × (r.pos < start + length w) = ground arith in
          let (next, fits, more) =
            Slice-next content w start r.pos n (v.window_true w start e) bounds.0 bounds.1 in
          rw (copy_out, e)
            (record {
              some_bytes = more b;
              fits = fits;
              next = next;
              moved = refl;
              same = refl;
              open_still = refl;
              still = record {
                total = v.total;
                refs_known = v.refs_known;
                window_true = v.window_true;
              };
            })

  -- Where the references of the manifest lie end to end, each has a chunk that can be fetched, and together
  -- they make up the content, and where what the reader has cached agrees with the content, a read inside
  -- the file on an open reader, with a buffer for at least one byte and a context that is not cancelled,
  -- succeeds: it gives at least one byte, no more than fit, which are the content's next ones, and the
  -- reader then stands behind them.
  pub read-Reads :
      (n : ℕ) (r : Reader)
      → Lies l st 0 (refs_of r.manifest.id st) content
      → IsReading st content r
      → r.closed ≡ false
      → r.pos < length content
      → 0 < n
      → (out : Text) × (r' : Reader) × (read l st false n r ≡ ok (out, r'))
        × Reads st content n r out r'
  unfolding read
  read-Reads n r h v o b k = build (with_window-Ready l st content r v h b)
    where
      build :
          Ready l st content r (with_window l st r)
          → (out : Text) × (r' : Reader) × (read l st false n r ≡ ok (out, r'))
            × Reads st content n r out r'
      build (r', e, v', i, p, m, c) =
          let inside : leb r.manifest.total_size r.pos ≡ false = omega_leb in
          let g = copy_out-Reads n r' k v' i in
          (
            (copy_out n r').0,
            (copy_out n r').1,
            rw (read, e, inside, o) refl,
            record {
              some_bytes = g.some_bytes;
              fits = g.fits;
              next = ap (λ (q : ℕ). drop q content) (sym p) ∙ g.next;
              moved = g.moved ∙ ap (λ (q : ℕ). q + length (copy_out n r').0) p;
              same = g.same ∙ m;
              open_still = g.open_still ∙ c;
              still = g.still;
            },
          )
        where
          omega_leb : leb r.manifest.total_size r.pos ≡ false
          omega_leb = ground (arith, v.total)
