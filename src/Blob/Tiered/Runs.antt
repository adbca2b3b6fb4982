-- ===== src/Blob/Tiered/Runs.antt =====
-- server/internal/blob/tiered.go: Demote with an honest object store, and the runs of the store.
use private_cloud.Prelude.{
  some, Option, inl, inr, ℕ, ◌≡◌, refl, sym, ap, subst, ◌∙◌, Bool, false, not, ◌&&◌, Text, text_eq,
  text_eq_iff, ◌==◌, length, Bool-cases, Result, ok, err, Result-cases, ◌>>=◌, >>=-eq-ok, arith,
}
use private_cloud.Blob.Keys.{Err, open_call}
use private_cloud.Blob.Disk.{Fs, Faults, open_file, delete, hex, fan_out}
use private_cloud.Blob.Tiered.{
  Cold, Tier, Weather, begin, finish, tiered_put, tiered_put_keyed, tiered_delete, note, Note,
  demote, local_copy, digest_local, read_back, drop_local, drop_result, read_all,
}
use private_cloud.Blob.Tiered.Contents.{
  held, without_file, look_up-ok, find_file-cons, find_file-remove_self, put-cases, with_file,
}
use private_cloud.Blob.Tiered.Demoting.{demote-Demoted}
use private_cloud.Blob.Tiered.Visible.{Honest, OnlyFile, FsStep, Offers, same-FsStep}
use private_cloud.Blob.Tiered.Persisting.{
  Keeps, ColdStep, both, still, put-ColdStep, get-ColdStep, drop_other, begin-Keeps, finish-Keeps,
  note-Keeps, tiered_delete-Keeps, tiered_put_keyed-Keeps,
}

read_all-same : (fails : Faults) (file b : Text) → read_all fails file ≡ ok b → b ≡ file
read_all-same fails file b h = ground arith

local_copy-held :
    (sum : Text → Text) (fails : Weather) (key : Text) (fs : Fs) (out : (Text × ℕ) × Text)
    → local_copy sum fails key fs ≡ ok out
    → held fs key ≡ some out.1
unfolding local_copy open_file
local_copy-held sum fails key fs out h =
    let (want, e, h') =
      >>=-eq-ok (digest_local sum (fails 0) key fs)
        (λ (w : Text × ℕ). open_file (fails 1) key fs >>= λ (file : Text). ok (w, file)) h in
    let (src, opened, same) =
      >>=-eq-ok (open_file (fails 1) key fs) (λ (file : Text). ok (want, file)) h' in
    look_up-ok (fails 1) open_call key fs src opened ∙ source want src same
  where
    source :
        (want : Text × ℕ) (src : Text)
        → ◌≡◌ {A = Result Err ((Text × ℕ) × Text)} (ok (want, src)) (ok out)
        → some src ≡ some out.1
    source want src e = cc

module _ {S : Type 0} (sum : Text → Text) where
  drop_result-cold :
      (size : ℕ) (t : Tier S) (r : Result Err (Unit {0}) × Fs)
      → (drop_result size t r).1.cold ≡ t.cold
  unfolding drop_result
  drop_result-cold size t (err e, fs) = refl
  drop_result-cold size t (ok u, fs) = refl

  drop_local-cold :
      (fails : Faults) (key : Text) (want : Text × ℕ) (t : Tier S)
      (r : Result Err (Result Err Text) × S)
      → (drop_local sum fails key want t r).1.cold ≡ r.1
  unfolding drop_local
  drop_local-cold fails key want t (err e, s) = refl
  drop_local-cold fails key want t (ok (err e), s) = refl
  drop_local-cold fails key want t (ok (ok back), s) =
      elim (Bool-cases (not (length back == want.1 && text_eq (sum back) want.0))) [
        | inl differs ↦ rw (drop_local, differs) refl
        | inr same ↦
            rw (drop_local, same)
              (drop_result-cold want.1 (record t { cold = s }) (delete fails key t.hot))
      ]

module _ {S : Type 0} (c : Cold S) (at_rest : S → Text → Option Text) (honest : Honest c at_rest)
    (k b : Text) where
  abbrev Steady : Tier S → Type 0
  Steady = Keeps c at_rest honest k b

  abbrev pub Rests : S → S → Type 0
  Rests = ColdStep c at_rest honest k b

  read_back-Rests :
      (sum : Text → Text) (fails : Faults) (key : Text) (want : Text × ℕ) (t : Tier S)
      (r : Result Err Bool × S)
      → Rests t.cold r.1
      → Rests t.cold (read_back sum c fails key want t r).1.cold
  unfolding read_back
  read_back-Rests sum fails key want t (err e, s) step = step
  read_back-Rests sum fails key want t (ok existed, s) step =
      let got = get-ColdStep c at_rest honest k b key s in
      let same = drop_local-cold sum fails key want (record t { cold = s }) (c.get_object key s) in
      subst (Rests t.cold) (sym same)
        (record { only = λ h. got.only (step.only h); keeps = λ f. got.keeps (step.keeps f) })

  pub demote-Rests :
      (sum : Text → Text) (fails : Weather) (key : Text) (t : Tier S)
      → OnlyFile k b t.hot
      → Rests t.cold (demote sum (some c) fails key t).1.cold
  unfolding demote
  demote-Rests sum fails key t only = elim (Result-cases (local_copy sum fails key t.hot)) [
    | inr (why, e) ↦ rw (demote, e) (still c at_rest honest k b t.cold)
    | inl (out, e) ↦
        rw (demote, e)
          (read_back-Rests sum (fails 2) key out.0 t
            (c.put_object key (read_all (fails 1) out.1) t.cold)
            (put-ColdStep c at_rest honest k b key (read_all (fails 1) out.1) t.cold
              (offer (local_copy-held sum fails key t.hot out e))))
  ]
    where
      offer : {file : Text} → held t.hot key ≡ some file → Offers k b key (read_all (fails 1) file)
      offer {file} e = λ hit b' f.
          let at_k = subst (λ (j : Text). held t.hot j ≡ some file) ((text_eq_iff key k).0 hit) e in
          read_all-same (fails 1) file b' f ∙ only file at_k

  moved-Keeps :
      (key back : Text) (s : S) (t u : Tier S)
      → Steady t
      → Rests t.cold u.cold
      → c.get_object key s ≡ (ok (ok back), u.cold)
      → u.hot ≡ without_file key t.hot
      → Steady u
  moved-Keeps key back s t u h step got gone = elim (Bool-cases (text_eq key k)) [
    | inr miss ↦
        both c at_rest honest k b t u
          (subst (FsStep k b t.hot) (sym gone) (drop_other c at_rest honest k b key t.hot miss))
          step h
    | inl hit ↦
        let same : key ≡ k = (text_eq_iff key k).0 hit in
        let before : at_rest s key ≡ some back = honest.get_gives key back s (cc) in
        let after : at_rest u.cold k ≡ some back =
          subst (λ (j : Text). at_rest u.cold j ≡ some back) same
            (subst (λ (r : Result Err (Result Err Text) × S). at_rest r.1 key ≡ some back) got
              (honest.get_keeps key key s ∙ before)) in
        let mine = step.only h.only_object back after in
        record {
          only_file = λ b' f. absurd (
              cc (
                subst (λ (fs : Fs). held fs k ≡ some b') gone f,
                find_file-remove_self k key t.hot.files hit,
              ));
          only_object = step.only h.only_object;
          somewhere = inr (after ∙ ap some mine);
        }
  ]

  demote-Keeps :
      (sum : Text → Text) (fails : Weather) (key : Text) (t : Tier S)
      → Steady t
      → Steady (demote sum (some c) fails key t).1
  demote-Keeps sum fails key t h =
      let out = demote sum (some c) fails key t in
      let d = demote-Demoted sum c key fails t in
      let step = demote-Rests sum fails key t h.only_file in
      elim (Result-cases out.0) [
        | inr (why, e) ↦
            both c at_rest honest k b t out.1 (same-FsStep k b t.hot out.1.hot (d.failed why e))
              step h
        | inl (n, e) ↦
            let (file, back, s, _, _, got, _, _, gone) = d.moved n e in
            moved-Keeps key back s t out.1 h step got gone
      ]

  add_other :
      (key new : Text) (fs : Fs) → text_eq key k ≡ false → FsStep k b fs (with_file key new fs)
  add_other key new fs miss = record {
    only = λ h b' f. h b' (rw (find_file-cons k key new fs.files, miss) at f);
    keeps = λ b' f. rw (find_file-cons k key new fs.files, miss) f;
  }

  tiered_put-Keeps :
      (sum : Text → Text) (fails : Faults) (raw : Text) (reader : Result Err Text) (t : Tier S)
      → text_eq (fan_out (hex raw)) k ≡ false
      → Steady t
      → Steady (tiered_put sum fails raw reader t).1
  unfolding tiered_put
  tiered_put-Keeps sum fails raw reader t miss h =
      both c at_rest honest k b t _
        (elim (put-cases sum fails raw reader t.hot) [
          | inl e ↦ same-FsStep k b t.hot _ e
          | inr (new, e) ↦ subst (FsStep k b t.hot) (sym e) (add_other _ new t.hot miss)
        ])
        (still c at_rest honest k b t.cold) h

  -- One step of the store that does not delete the key `k`, and offers no content but `b` under it: a
  -- call of an operation for any key, the start or the end of a promotion, or a note to the recorder.
  -- Open, Warm and StartRestore change nothing in other ways than by these.
  pub data Step : Tier S → Tier S → Type 0 where
    stores :
        (sum : Text → Text) (fails : Faults) (raw : Text) (reader : Result Err Text) (t : Tier S)
        → text_eq (fan_out (hex raw)) k ≡ false
        → Step t (tiered_put sum fails raw reader t).1
    stores_keyed :
        (fails : Weather) (key : Text) (reader : Result Err Text) (t : Tier S)
        → Offers k b key reader
        → Step t (tiered_put_keyed (some c) fails key reader t).1
    starts : (key : Text) (t : Tier S) → Step t (begin key t)
    ends : (fails : Faults) (key : Text) (t : Tier S) → Step t (finish c fails key t).1
    notes : (n : Note) (t : Tier S) → Step t (note n t)
    demotes :
        (sum : Text → Text) (fails : Weather) (key : Text) (t : Tier S)
        → Step t (demote sum (some c) fails key t).1
    deletes :
        (fails : Faults) (key : Text) (t : Tier S)
        → text_eq key k ≡ false
        → Step t (tiered_delete (some c) fails key t).1

  pub data Run (t : Tier S) : Tier S → Type 0 where
    here : Run t t
    next : {u v : Tier S} → Run t u → Step u v → Run t v

  Step-Keeps : {t u : Tier S} → Step t u → Steady t → Steady u
  Step-Keeps (stores sum fails raw reader t miss) h = tiered_put-Keeps sum fails raw reader t miss h
  Step-Keeps (stores_keyed fails key reader t offers) h =
      tiered_put_keyed-Keeps c at_rest honest k b fails key reader t offers h
  Step-Keeps (starts key t) h = begin-Keeps c at_rest honest k b key t h
  Step-Keeps (ends fails key t) h = finish-Keeps c at_rest honest k b fails key t h
  Step-Keeps (notes n t) h = note-Keeps c at_rest honest k b n t h
  Step-Keeps (demotes sum fails key t) h = demote-Keeps sum fails key t h
  Step-Keeps (deletes fails key t miss) h =
      tiered_delete-Keeps c at_rest honest k b fails key t miss h

  pub Run-Keeps :
      {t u : Tier S} → Run t u → Keeps c at_rest honest k b t → Keeps c at_rest honest k b u
  Run-Keeps here h = h
  Run-Keeps (next r step) h = Step-Keeps step (Run-Keeps r h)
