-- ===== src/Blob/Tiered/Resting.antt =====
-- server/internal/blob/tiered.go: the object store in the runs of the tiered store.
use private_cloud.Prelude.{
  any, some, Option, inl, inr, ℕ, ◌≡◌, refl, ap, ◌∙◌, Bool, false, Text, text_eq, Bool-cases,
  Result, ok, err,
}
use private_cloud.Blob.Keys.{not_found, Err}
use private_cloud.Blob.Disk.{put_keyed, stat, Fs, Faults, delete}
use private_cloud.Blob.Tiered.{
  promoted, promote_from, promote, put_absent, delete_both, Cold, Tier, Weather, begin, finish,
  tiered_put, tiered_put_keyed, tiered_delete,
}
use private_cloud.Blob.Tiered.Visible.{Honest}
use private_cloud.Blob.Tiered.Persisting.{Keeps}
use private_cloud.Blob.Tiered.Runs.{
  Step, stores, stores_keyed, starts, ends, notes, demotes, deletes, Run, here, next, Run-Keeps,
  demote-Rests,
}

module _ {S : Type 0} (c : Cold S) (at_rest : S → Text → Option Text) (honest : Honest c at_rest)
    (k b : Text) where
  delete_both-cold :
      (key : Text) (t : Tier S) (r : Result Err (Unit {0}) × Fs)
      → text_eq key k ≡ false
      → at_rest t.cold k ≡ some b
      → at_rest (delete_both (some c) key t r).1.cold k ≡ some b
  unfolding delete_both
  delete_both-cold key t (err why, fs) miss far = far
  delete_both-cold key t (ok u, fs) miss far = honest.delete_keeps key k t.cold miss ∙ far

  promote_from-cold :
      (fails : Faults) (key : Text) (t : Tier S) (r : Result Err (Result Err Text) × S)
      → (promote_from fails key t r).1.cold ≡ r.1
  unfolding promote_from promoted
  promote_from-cold fails key t (err why, s) = refl
  promote_from-cold fails key t (ok reader, s) = go (put_keyed fails key reader t.hot)
    where
      go : (out : Result Err Bool × Fs) → (promoted key (record t { cold = s }) out).1.cold ≡ s
      go (err why, fs) = refl
      go (ok existed, fs) = refl

  put_absent-cold :
      (fails : Faults) (key : Text) (reader : Result Err Text) (t : Tier S) (r : Result Err ℕ × S)
      → (put_absent fails key reader t r).1.cold ≡ r.1
  unfolding put_absent
  put_absent-cold fails key reader t (ok n, s) = refl
  put_absent-cold fails key reader t (err not_found, s) = refl
  put_absent-cold fails key reader t (err why, s) = refl

  -- What is in the object store stays there.
  Stays : Tier S → Tier S → Type 0
  Stays t u = at_rest t.cold k ≡ some b → at_rest u.cold k ≡ some b

  tiered_put_keyed-Stays :
      (fails : Weather) (key : Text) (reader : Result Err Text) (t : Tier S)
      → Stays t (tiered_put_keyed (some c) fails key reader t).1
  unfolding Stays tiered_put_keyed
  tiered_put_keyed-Stays fails key reader t far = go (stat (fails 0) key t.hot) refl
    where
      go :
          (r : Result Err ℕ)
          → stat (fails 0) key t.hot ≡ r
          → at_rest (tiered_put_keyed (some c) fails key reader t).1.cold k ≡ some b
      go (ok n) e = rw (tiered_put_keyed, e) far
      go (err not_found) e =
          rw (tiered_put_keyed, e)
            (ap (λ (s : S). at_rest s k)
                (put_absent-cold (fails 1) key reader t (c.stat_object key t.cold))
              ∙ (honest.stat_keeps key k t.cold ∙ far))
      go (err why) e = rw (tiered_put_keyed, e) far

  Step-Stays :
      {t u : Tier S} → Step c at_rest honest k b t u → Keeps c at_rest honest k b t → Stays t u
  unfolding Stays tiered_put begin finish promote tiered_delete
  Step-Stays (stores sum fails raw reader t miss) h far = far
  Step-Stays (stores_keyed fails key reader t offers) h far =
      tiered_put_keyed-Stays fails key reader t far
  Step-Stays (starts key t) h far = elim (Bool-cases (any (text_eq key) t.inflight)) [
    | inl going ↦ rw (begin, going) far
    | inr fresh ↦ rw (begin, fresh) far
  ]
  Step-Stays (ends fails key t) h far =
      ap (λ (s : S). at_rest s k) (promote_from-cold fails key t (c.get_object key t.cold))
      ∙ (honest.get_keeps key k t.cold ∙ far)
  Step-Stays (notes n t) h far = far
  Step-Stays (demotes sum fails key t) h far =
      (demote-Rests c at_rest honest k b sum fails key t h.only_file).keeps far
  Step-Stays (deletes fails key t miss) h far =
      delete_both-cold key t (delete fails key t.hot) miss far

  pub Run-rests :
      {t u : Tier S}
      → Run c at_rest honest k b t u
      → Keeps c at_rest honest k b t
      → at_rest t.cold k ≡ some b
      → at_rest u.cold k ≡ some b
  unfolding Stays
  Run-rests here h far = far
  Run-rests (next r step) h far =
      Step-Stays step (Run-Keeps c at_rest honest k b r h) (Run-rests r h far)
