-- ===== src/Blob/Tiered/Persisting.antt =====
-- server/internal/blob/tiered.go: each operation as it bears on a key and its content, with an honest
-- object store.
use private_cloud.Prelude.{
  ℕ, ◌≡◌, refl, sym, subst, ◌∙◌, Bool, false, ◌⊎◌, inl, inr, Option, some, Text, text_eq,
  text_eq_iff, any, Bool-cases, Result, ok, err,
}
use private_cloud.Blob.Keys.{Err, not_found}
use private_cloud.Blob.Disk.{Fs, Faults, put_keyed, stat, delete}
use private_cloud.Blob.Tiered.{
  Cold, Tier, Weather, Waited, finished, timed_out, context_done, begin, finish, promoted,
  promote_from, promote, put_absent, tiered_put_keyed, delete_both, tiered_delete, wait_for, warm,
  note, Note,
}
use private_cloud.Blob.Tiered.Contents.{held, without_file, delete-cases, find_file-remove}
use private_cloud.Blob.Tiered.Visible.{
  Honest, OnlyFile, FsStep, Offers, same-FsStep, put_keyed-FsStep,
}

module _ {S : Type 0} (c : Cold S) (at_rest : S → Text → Option Text) (honest : Honest c at_rest)
    (k b : Text) where
  open honest use {
    get_keeps, get_gives, stat_keeps, get_missing, get_breaks, put_keeps, put_adds, delete_keeps,
  }

  abbrev pub OnlyObject : S → Type 0
  OnlyObject s = (b' : Text) → at_rest s k ≡ some b' → b' ≡ b

  -- The key has its content in a tier at least, and no tier has another for it.
  pub record Keeps (t : Tier S) : Type 0 where
    pub only_file : OnlyFile k b t.hot
    pub only_object : OnlyObject t.cold
    pub somewhere : (held t.hot k ≡ some b) ⊎ (at_rest t.cold k ≡ some b)

  pub record ColdStep (s s' : S) : Type 0 where
    pub only : OnlyObject s → OnlyObject s'
    pub keeps : at_rest s k ≡ some b → at_rest s' k ≡ some b

  pub both : (t u : Tier S) → FsStep k b t.hot u.hot → ColdStep t.cold u.cold → Keeps t → Keeps u
  both t u f s h = record {
    only_file = f.only h.only_file;
    only_object = s.only h.only_object;
    somewhere = elim h.somewhere [ inl e ↦ inl (f.keeps b e) | inr e ↦ inr (s.keeps e) ];
  }

  pub still : (s : S) → ColdStep s s
  still s = record { only = λ h. h; keeps = λ h. h }

  pub kept : (fs : Fs) → FsStep k b fs fs
  kept fs = same-FsStep k b fs fs refl

  -- A call that changes nothing at rest.
  pub same_rest : (s s' : S) → at_rest s' k ≡ at_rest s k → ColdStep s s'
  same_rest s s' e = record { only = λ h b' f. h b' (sym e ∙ f); keeps = λ f. e ∙ f }

  stat-ColdStep : (key : Text) (s : S) → ColdStep s (c.stat_object key s).1
  stat-ColdStep key s = same_rest s _ (stat_keeps key k s)

  pub get-ColdStep : (key : Text) (s : S) → ColdStep s (c.get_object key s).1
  get-ColdStep key s = same_rest s _ (get_keeps key k s)

  pub put-ColdStep :
      (key : Text) (r : Result Err Text) (s : S)
      → Offers k b key r
      → ColdStep s (c.put_object key r s).1
  put-ColdStep key r s offers = record {
    only = λ h b' f. elim (put_adds key k b' r s f) [
      | inl e ↦ h b' e
      | inr (same, e) ↦ offers ((text_eq_iff key k).1 (sym same)) b' e
    ];
    keeps = λ f. put_keeps key k b r s f;
  }

  put_absent-Keeps :
      (fails : Faults) (key : Text) (reader : Result Err Text) (t : Tier S) (r : Result Err ℕ × S)
      → Offers k b key reader
      → ColdStep t.cold r.1
      → Keeps t
      → Keeps (put_absent fails key reader t r).1
  unfolding put_absent
  put_absent-Keeps fails key reader t (ok n, s) offers step h = both t _ (kept t.hot) step h
  put_absent-Keeps fails key reader t (err not_found, s) offers step h =
      both t _ (put_keyed-FsStep k b fails key reader t.hot offers) step h
  put_absent-Keeps fails key reader t (err why, s) offers step h = both t _ (kept t.hot) step h

  put_hot-Keeps :
      (fails : Faults) (key : Text) (reader : Result Err Text) (t : Tier S)
      → Offers k b key reader
      → Keeps t
      → Keeps (record t { hot = (put_keyed fails key reader t.hot).1 })
  put_hot-Keeps fails key reader t offers h =
      both t _ (put_keyed-FsStep k b fails key reader t.hot offers) (still t.cold) h

  pub tiered_put_keyed-Keeps :
      (fails : Weather) (key : Text) (reader : Result Err Text) (t : Tier S)
      → Offers k b key reader
      → Keeps t
      → Keeps (tiered_put_keyed (some c) fails key reader t).1
  unfolding tiered_put_keyed
  tiered_put_keyed-Keeps fails key reader t offers h = go (stat (fails 0) key t.hot) refl
    where
      go :
          (r : Result Err ℕ)
          → stat (fails 0) key t.hot ≡ r
          → Keeps (tiered_put_keyed (some c) fails key reader t).1
      go (ok n) e = rw (tiered_put_keyed, e) (put_hot-Keeps (fails 1) key reader t offers h)
      go (err not_found) e =
          rw (tiered_put_keyed, e)
            (put_absent-Keeps (fails 1) key reader t (c.stat_object key t.cold) offers
              (stat-ColdStep key t.cold) h)
      go (err why) e = rw (tiered_put_keyed, e) (put_hot-Keeps (fails 1) key reader t offers h)

  -- What an object store gives for the key is its content.
  get-Offers :
      (key : Text) (s : S) (r : Result Err (Result Err Text) × S) (reader : Result Err Text)
      → c.get_object key s ≡ r
      → r.0 ≡ ok reader
      → OnlyObject s
      → Offers k b key reader
  get-Offers key s r reader e f h = λ same b' g. h b' (
      subst (λ (j : Text). at_rest s j ≡ some b') ((text_eq_iff key k).0 same)
        (get_gives key b' s (cc)))

  promote_from-Keeps :
      (fails : Faults) (key : Text) (t : Tier S) (r : Result Err (Result Err Text) × S)
      → c.get_object key t.cold ≡ r
      → Keeps t
      → Keeps (promote_from fails key t r).1
  unfolding promote_from promoted
  promote_from-Keeps fails key t (err why, s) e h =
      both t _ (kept t.hot)
        (subst (λ (r : Result Err (Result Err Text) × S). ColdStep t.cold r.1) e
          (get-ColdStep key t.cold))
        h
  promote_from-Keeps fails key t (ok reader, s) e h =
      let step =
        subst (λ (r : Result Err (Result Err Text) × S). ColdStep t.cold r.1) e
          (get-ColdStep key t.cold) in
      let offers = get-Offers key t.cold (ok reader, s) reader e refl h.only_object in
      let f = put_keyed-FsStep k b fails key reader t.hot offers in
      go (put_keyed fails key reader t.hot) f step
    where
      go :
          (out : Result Err Bool × Fs)
          → FsStep k b t.hot out.1
          → ColdStep t.cold s
          → Keeps (promoted key (record t { cold = s }) out).1
      go (err why, fs) f step = both t _ f step h
      go (ok existed, fs) f step = both t _ f step h

  pub finish-Keeps :
      (fails : Faults) (key : Text) (t : Tier S) → Keeps t → Keeps (finish c fails key t).1
  unfolding finish promote
  finish-Keeps fails key t h =
      let d = promote_from-Keeps fails key t (c.get_object key t.cold) refl h in
      record { only_file = d.only_file; only_object = d.only_object; somewhere = d.somewhere }

  pub begin-Keeps : (key : Text) (t : Tier S) → Keeps t → Keeps (begin key t)
  unfolding begin
  begin-Keeps key t h = elim (Bool-cases (any (text_eq key) t.inflight)) [
    | inl going ↦ rw (begin, going) h
    | inr fresh ↦ rw (begin, fresh) (both t _ (kept t.hot) (still t.cold) h)
  ]

  pub wait_for-Keeps :
      (fails : Faults) (w : Waited) (waiting : Tier S → Tier S) (key : Text) (t : Tier S)
      → Keeps (waiting t)
      → Keeps (wait_for c fails w waiting key t).1
  unfolding wait_for
  wait_for-Keeps fails finished waiting key t h = finish-Keeps fails key (waiting t) h
  wait_for-Keeps fails timed_out waiting key t h = h
  wait_for-Keeps fails context_done waiting key t h = h

  pub warm-Keeps :
      (fails : Weather) (w : Waited) (waiting : Tier S → Tier S) (key : Text) (t : Tier S)
      → ((u : Tier S) → Keeps u → Keeps (waiting u))
      → Keeps t
      → Keeps (warm (some c) fails w waiting key t).1
  unfolding warm
  warm-Keeps fails w waiting key t others h = go (stat (fails 0) key t.hot) refl
    where
      go :
          (r : Result Err ℕ)
          → stat (fails 0) key t.hot ≡ r
          → Keeps (warm (some c) fails w waiting key t).1
      go (ok n) e = rw (warm, e) h
      go (err not_found) e =
          rw (warm, e)
            (wait_for-Keeps (fails 1) w waiting key _ (others (begin key t) (begin-Keeps key t h)))
      go (err why) e = rw (warm, e) h

  pub note-Keeps : (n : Note) (t : Tier S) → Keeps t → Keeps (note n t)
  note-Keeps n t h = both t _ (kept t.hot) (still t.cold) h

  pub drop_other :
      (key : Text) (fs : Fs) → text_eq key k ≡ false → FsStep k b fs (without_file key fs)
  drop_other key fs miss = record {
    only = λ h b' f. h b' (rw (find_file-remove k key fs.files, miss) at f);
    keeps = λ b' f. rw (find_file-remove k key fs.files, miss) f;
  }

  delete_both-Keeps :
      (key : Text) (t : Tier S) (r : Result Err (Unit {0}) × Fs)
      → text_eq key k ≡ false
      → FsStep k b t.hot r.1
      → Keeps t
      → Keeps (delete_both (some c) key t r).1
  unfolding delete_both
  delete_both-Keeps key t (err why, fs) miss f h = both t _ f (still t.cold) h
  delete_both-Keeps key t (ok u, fs) miss f h =
      both t _ f (same_rest t.cold _ (delete_keeps key k t.cold miss)) h

  pub tiered_delete-Keeps :
      (fails : Faults) (key : Text) (t : Tier S)
      → text_eq key k ≡ false
      → Keeps t
      → Keeps (tiered_delete (some c) fails key t).1
  unfolding tiered_delete
  tiered_delete-Keeps fails key t miss h =
      delete_both-Keeps key t (delete fails key t.hot) miss
        (elim (delete-cases fails key t.hot) [
          | inl (u, e) ↦ rw e (drop_other key t.hot miss)
          | inr (why, e) ↦ rw e (kept t.hot)
        ])
        h
