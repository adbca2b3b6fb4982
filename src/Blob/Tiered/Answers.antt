-- ===== src/Blob/Tiered/Answers.antt =====
-- server/internal/blob/tiered.go, Open: its answers for a key that has its content in a tier.
use private_cloud.Prelude.{
  ℕ, ◌≡◌, ◌≢◌, refl, sym, ap, subst, Bool, ◌⊎◌, inl, inr, Option, none, some, List, [], ◌∷◌, Text,
  text_eq, length, text_eq_refl, any, Bool-cases, Result, ok, err, >>=-eq-ok, arith,
}
use private_cloud.Blob.Keys.{
  mkdir, create_temp, copy, sync, close, rename, chmod, Call, Err, not_found, open_call, stat_call,
  restoring, cancelled,
}
use private_cloud.Blob.Disk.{
  Fs, Faults, look_up, put_keyed, write_new, temp_file, seal, try_calls, stat, open_file,
}
use private_cloud.Blob.Tiered.{
  Pauses, Cold, Tier, Weather, Waited, finished, timed_out, context_done, begin, finish, promoted,
  promote_from, promote, wait_for, warm, open_warmed, touched, tiered_open,
}
use private_cloud.Blob.Tiered.Contents.{
  held, look_up-ok, look_up-missing, put_keyed-cases, find_file-cons,
}
use private_cloud.Blob.Tiered.Visible.{Honest}
use private_cloud.Blob.Tiered.Persisting.{Keeps, warm-Keeps, begin-Keeps}
use private_cloud.Blob.Tiered.Runs.{Run, Run-Keeps}
use private_cloud.Blob.Tiered.Resting.{Run-rests}

-- A failure that does not say that the content is gone.
abbrev Fails : Err → Type 0
Fails e = e ≢ not_found

try_calls-Fails : (fails : Faults) (cs : List Call) (e : Err) → try_calls fails cs ≡ err e → Fails e
unfolding try_calls
try_calls-Fails fails [] e h = λ gone. cc
try_calls-Fails fails (call ∷ cs) e h = elim (Bool-cases (fails call)) [
  | inl broken ↦ λ gone. cc (rw (try_calls, broken) at h)
  | inr works ↦ try_calls-Fails fails cs e (rw (try_calls, works) at h)
]

temp_file-Fails :
    (fails : Faults) (reader : Result Err Text) (e : Err)
    → reader ≢ err not_found
    → temp_file fails reader ≡ err e
    → Fails e
unfolding temp_file
temp_file-Fails fails reader e sound h = ground (
  arith,
  try_calls-Fails fails (mkdir ∷ create_temp ∷ []) e,
  try_calls-Fails fails (copy ∷ sync ∷ close ∷ rename ∷ []) e,
)

write_new-Fails :
    (fails : Faults) (key : Text) (reader : Result Err Text) (fs : Fs) (e : Err)
    → reader ≢ err not_found
    → (write_new fails key reader fs).0 ≡ err e
    → Fails e
unfolding write_new seal
write_new-Fails fails key reader fs e sound h =
    ground (arith, temp_file-Fails fails reader e sound, try_calls-Fails fails (chmod ∷ []) e)

put_keyed-Fails :
    (fails : Faults) (key : Text) (reader : Result Err Text) (fs : Fs) (e : Err)
    → reader ≢ err not_found
    → (put_keyed fails key reader fs).0 ≡ err e
    → Fails e
unfolding put_keyed
put_keyed-Fails fails key reader fs e sound h =
    ground (arith, write_new-Fails fails key reader fs e sound)

-- A Warm that ends well has the bytes on the local disk.
abbrev Warmed : {S : Type 0} → Text → Result Err (Unit {0}) × Tier S → Type 0
Warmed k out =
    (out.0 ≡ ok tt) × ((b' : Text) × (held out.1.hot k ≡ some b'))
    ⊎ (e : Err) × (out.0 ≡ err e) × (e ≢ not_found)

put_keyed-present :
    (fails : Faults) (k : Text) (reader : Result Err Text) (fs : Fs) (existed : Bool)
    → (put_keyed fails k reader fs).0 ≡ ok existed
    → (b' : Text) × (held (put_keyed fails k reader fs).1 k ≡ some b')
put_keyed-present fails k reader fs existed h = elim (put_keyed-cases fails k reader fs) [
  | inl (same, there) ↦
      let (b', e) = there existed h in (b', subst (λ (g : Fs). held g k ≡ some b') (sym same) e)
  | inr (new, _, _, e) ↦ (
    new,
    subst (λ (g : Fs). held g k ≡ some new) (sym e)
        (rw (find_file-cons k k new fs.files, text_eq_refl k) refl),
  )
]

-- How an Open of `k` ends: with the content, or with a failure that does not say that the content is
-- gone; or it does say so, where others took the local file away after Warm had come back, and then the
-- object store has the content.
pub data Answers {S : Type 0} (at_rest : S → Text → Option Text) (k b : Text) (p : Pauses S)
    (out : Result Err Text × Tier S) : Type 0 where
  reads : out.0 ≡ ok b → Answers at_rest k b p out
  breaks : (e : Err) → out.0 ≡ err e → e ≢ not_found → Answers at_rest k b p out
  taken_away :
      out.0 ≡ err not_found
      → held out.1.hot k ≡ none
      → at_rest out.1.cold k ≡ some b
      → ¬ ((t : Tier S) → held (p.warmed t).hot k ≡ held t.hot k)
      → Answers at_rest k b p out

module _ {S : Type 0} (c : Cold S) (at_rest : S → Text → Option Text) (honest : Honest c at_rest)
    (k b : Text) where
  promoted-Warmed :
      (fails : Faults) (reader : Result Err Text) (t : Tier S)
      → reader ≢ err not_found
      → Warmed k (promoted k t (put_keyed fails k reader t.hot))
  unfolding promoted
  promoted-Warmed fails reader t sound = go (put_keyed fails k reader t.hot) refl
    where
      go :
          (r : Result Err Bool × Fs)
          → put_keyed fails k reader t.hot ≡ r
          → Warmed k (promoted k t r)
      go (err why, fs) e = inr (
        why,
        refl,
        put_keyed-Fails fails k reader t.hot why sound (ap (λ (r : Result Err Bool × Fs). r.0) e),
      )
      go (ok existed, fs) e =
          let (b', f) =
            put_keyed-present fails k reader t.hot existed
              (ap (λ (r : Result Err Bool × Fs). r.0) e) in
          inl (refl, (b', subst (λ (r : Result Err Bool × Fs). held r.1 k ≡ some b') e f))

  promote_from-Warmed :
      (fails : Faults) (t : Tier S) (r : Result Err (Result Err Text) × S)
      → c.get_object k t.cold ≡ r
      → at_rest t.cold k ≡ some b
      → Warmed k (promote_from fails k t r)
  unfolding promote_from
  promote_from-Warmed fails t (err why, s) e there =
      inr (why, refl, λ gone. cc (there, honest.get_missing k t.cold (cc)))
  promote_from-Warmed fails t (ok reader, s) e there =
      promoted-Warmed fails reader (record t { cold = s }) (λ gone. honest.get_breaks k t.cold (cc))

  finish-Warmed :
      (fails : Faults) (t : Tier S) → at_rest t.cold k ≡ some b → Warmed k (finish c fails k t)
  unfolding finish promote
  finish-Warmed fails t there = promote_from-Warmed fails t (c.get_object k t.cold) refl there

  begin_same : (t : Tier S) → ((begin k t).hot ≡ t.hot) × ((begin k t).cold ≡ t.cold)
  unfolding begin
  begin_same t = elim (Bool-cases (any (text_eq k) t.inflight)) [
    | inl going ↦ rw (begin, going) (refl, refl)
    | inr fresh ↦ rw (begin, fresh) (refl, refl)
  ]

  wait_for-Warmed :
      (fails : Faults) (w : Waited) (waiting : Tier S → Tier S) (t : Tier S)
      → at_rest (waiting t).cold k ≡ some b
      → Warmed k (wait_for c fails w waiting k t)
  unfolding wait_for
  wait_for-Warmed fails finished waiting t there = finish-Warmed fails (waiting t) there
  wait_for-Warmed fails timed_out waiting t there = inr (restoring, refl, λ gone. cc)
  wait_for-Warmed fails context_done waiting t there = inr (cancelled, refl, λ gone. cc)

  stat-held :
      (fails : Faults) (fs : Fs) (n : ℕ)
      → stat fails k fs ≡ ok n
      → (b' : Text) × (held fs k ≡ some b')
  unfolding stat
  stat-held fails fs n h =
      let (b', e, _) = >>=-eq-ok (look_up fails stat_call k fs) (λ (g : Text). ok (length g)) h in
      (b', look_up-ok fails stat_call k fs b' e)

  stat-missing : (fails : Faults) (fs : Fs) → stat fails k fs ≡ err not_found → held fs k ≡ none
  unfolding stat
  stat-missing fails fs h = look_up-missing fails stat_call k fs (ground arith)

  -- What others do while a call waits is a run.
  abbrev pub IsRun : (Tier S → Tier S) → Type 0
  IsRun pause = (t : Tier S) → Run c at_rest honest k b t (pause t)

  warm-Warmed :
      (fails : Weather) (w : Waited) (waiting : Tier S → Tier S) (t : Tier S)
      → IsRun waiting
      → Keeps c at_rest honest k b t
      → Warmed k (warm (some c) fails w waiting k t)
  unfolding warm
  warm-Warmed fails w waiting t others h = go (stat (fails 0) k t.hot) refl
    where
      go :
          (r : Result Err ℕ)
          → stat (fails 0) k t.hot ≡ r
          → Warmed k (warm (some c) fails w waiting k t)
      go (ok n) e = rw (warm, e) (inl (refl, stat-held (fails 0) t.hot n e))
      go (err not_found) e =
          let far : at_rest (begin k t).cold k ≡ some b = elim h.somewhere [
            | inl near ↦ absurd (cc (near, stat-missing (fails 0) t.hot e))
            | inr far ↦ subst (λ (s : S). at_rest s k ≡ some b) (sym (begin_same t).1) far
          ] in
          let rests =
            Run-rests c at_rest honest k b (others (begin k t))
              (begin-Keeps c at_rest honest k b k t h) far in
          rw (warm, e) (wait_for-Warmed (fails 1) w waiting (begin k t) rests)
      go (err why) e = rw (warm, e) (inr (why, refl, λ gone. cc))

  opened_held :
      (fails : Faults) (t : Tier S) (bytes : Text)
      → open_file fails k t.hot ≡ ok bytes
      → held t.hot k ≡ some bytes
  unfolding open_file
  opened_held fails t bytes e = look_up-ok fails open_call k t.hot bytes e

  open_file-missing :
      (fails : Faults) (t : Tier S) → open_file fails k t.hot ≡ err not_found → held t.hot k ≡ none
  unfolding open_file
  open_file-missing fails t e = look_up-missing fails open_call k t.hot e

  abbrev Ends : Pauses S → Result Err Text × Tier S → Type 0
  Ends p out = Answers at_rest k b p out

  open_again-Answers :
      (fails : Faults) (p : Pauses S) (t : Tier S) (b' : Text)
      → IsRun p.warmed
      → Keeps c at_rest honest k b t
      → held t.hot k ≡ some b'
      → Ends p (touched k (p.warmed t) (open_file fails k (p.warmed t).hot))
  open_again-Answers fails p t b' others h near = go (open_file fails k (p.warmed t).hot) refl
    where
      after : Keeps c at_rest honest k b (p.warmed t)
      after = Run-Keeps c at_rest honest k b (others t) h

      far : held (p.warmed t).hot k ≡ none → at_rest (p.warmed t).cold k ≡ some b
      far gone = elim after.somewhere [ inl there ↦ absurd (cc) | inr there ↦ there ]

      go :
          (r : Result Err Text)
          → open_file fails k (p.warmed t).hot ≡ r
          → Ends p (touched k (p.warmed t) r)
      go (ok bytes) e =
          reads (ap ok (after.only_file bytes (opened_held fails (p.warmed t) bytes e)))
      go (err not_found) e =
          let gone = open_file-missing fails (p.warmed t) e in
          taken_away refl gone (far gone) (λ same. cc (same t, near, gone))
      go (err why) e = breaks why refl (λ gone. cc)

  open_warmed-Answers :
      (fails : Faults) (p : Pauses S) (r : Result Err (Unit {0}) × Tier S)
      → IsRun p.warmed
      → Keeps c at_rest honest k b r.1
      → Warmed k r
      → Ends p (open_warmed fails p.warmed k r)
  unfolding open_warmed
  open_warmed-Answers fails p (err why, t) others h (inl (e, there)) = absurd (cc e)
  open_warmed-Answers fails p (err why, t) others h (inr (e', e, sound)) =
      breaks why refl (λ gone. sound (cc))
  open_warmed-Answers fails p (ok u, t) others h (inl (e, (b', near))) =
      open_again-Answers fails p t b' others h near
  open_warmed-Answers fails p (ok u, t) others h (inr (e', e, sound)) = absurd (cc e)

  tiered_open-Answers :
      (fails : Weather) (w : Waited) (p : Pauses S) (t : Tier S)
      → IsRun p.missed
      → IsRun p.waiting
      → IsRun p.warmed
      → Keeps c at_rest honest k b t
      → Ends p (tiered_open (some c) fails w p k t)
  unfolding tiered_open
  tiered_open-Answers fails w p t missing waits warms h = go (open_file (fails 2) k t.hot) refl
    where
      missed : Keeps c at_rest honest k b (p.missed t)
      missed = Run-Keeps c at_rest honest k b (missing t) h

      go :
          (r : Result Err Text)
          → open_file (fails 2) k t.hot ≡ r
          → Ends p (tiered_open (some c) fails w p k t)
      go (ok bytes) e =
          rw (tiered_open, e) (reads (ap ok (h.only_file bytes (opened_held (fails 2) t bytes e))))
      go (err not_found) e =
          rw (tiered_open, e)
            (open_warmed-Answers (fails 3) p (warm (some c) fails w p.waiting k (p.missed t)) warms
              (warm-Keeps c at_rest honest k b fails w p.waiting k (p.missed t)
                (λ u v. Run-Keeps c at_rest honest k b (waits u) v) missed)
              (warm-Warmed fails w p.waiting (p.missed t) waits missed))
      go (err why) e = rw (tiered_open, e) (breaks why refl (λ gone. cc))

  -- Where a key has content in a tier and no other content in either, then after every run that does
  -- not delete the key and offers no other content under it, whatever system calls and calls of the
  -- object store fail and however promotions are interleaved, an Open of the key in whose pauses other
  -- such runs happen ends in one of three ways. It gives that content; it fails with an error other than
  -- the one that the content is not there; or it fails with that one, and then, after Warm had come back,
  -- the others took away the local file, and the object store has the content.
  pub run_reads :
      {t u : Tier S} (fails : Weather) (w : Waited) (p : Pauses S)
      → Run c at_rest honest k b t u
      → IsRun p.missed
      → IsRun p.waiting
      → IsRun p.warmed
      → Keeps c at_rest honest k b t
      → Answers at_rest k b p (tiered_open (some c) fails w p k u)
  run_reads {t} {u} fails w p r missing waits warms h =
      tiered_open-Answers fails w p u missing waits warms (Run-Keeps c at_rest honest k b r h)
