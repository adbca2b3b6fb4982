-- ===== src/Jobs/Retry.antt =====
-- server/internal/jobs/store.go: retries. How often a job can be claimed, how long it backs off,
-- what Enqueue bounds, and when RetryFailed is refused by the index.
use private_cloud.Prelude.{
  ◌-◌, ◌<◌, ℕ, ◌+◌, ◌≤◌, ◌≡◌, refl, sym, ap, ◌∙◌, inl, inr, true, false, ◌&&◌, Option, none, some,
  List, [], ◌∷◌, ◌++◌, map, Text, text_eq_iff, any, filter, Has, Has-map, length, length-take, take,
  ltb, ◌==◌, Bool-cases, if◌then◌else◌, ok, err, subst, arith,
}
use private_cloud.Jobs.Table.{
  Job, queued, failed, is_queued, is_pending, clash, commit, unique_pending, update,
  unique_violation,
}
use private_cloud.Jobs.Invariant.{IsValid, row_unique}
use private_cloud.Jobs.Steps.{commit-ok}
use private_cloud.Jobs.{
  enqueue, insert, fresh, fail, retry_failed, queued_count, is_retried, requeue, give_back, has_id,
  trunc_err, max_error,
}

clash-any : (j k : Job) (js : List Job) → Has k js → clash j k ≡ true → any (clash j) js ≡ true
clash-any j k [] h c = absurd h
clash-any j k (x ∷ js) (inl e) c = let c' : clash j x ≡ true = rw (← e) c in ground arith
clash-any j k (x ∷ js) (inr h) c = ground (arith, clash-any j k js h c)

clash_comm : (j k : Job) → clash j k ≡ true → clash k j ≡ true
unfolding clash
clash_comm j k e = ground (arith, text_eq_iff j.kind k.kind, text_eq_iff k.kind j.kind)

-- Where the index holds, two rows that clash are one row.
unique_pending-clash :
    (j k : Job) (js : List Job)
    → unique_pending js ≡ true
    → Has j js
    → Has k js
    → clash j k ≡ true
    → j ≡ k
unfolding unique_pending
unique_pending-clash j k [] u hj hk c = absurd hj
unique_pending-clash j k (x ∷ js) u (inl p) (inl q) c = p ∙ sym q
unique_pending-clash j k (x ∷ js) u (inl p) (inr q) c =
    let c' : clash x k ≡ true = rw (← p) c in let hit = clash-any x k js q c' in ground arith
unique_pending-clash j k (x ∷ js) u (inr p) (inl q) c =
    let c' : clash x j ≡ true = rw (← q) (clash_comm j k c) in
    let hit = clash-any x j js p c' in ground arith
unique_pending-clash j k (x ∷ js) u (inr p) (inr q) c =
    unique_pending-clash j k js (ground arith) p q c

-- RetryFailed requeues nothing at all, and reports the index's violation, as soon as one of the jobs
-- that it would retry has a pending job of the same kind for the same file.
pub retry_failed_blocked :
    (now : ℕ) (kind : Text) (js : List Job) (old new : Job) (file : ℕ)
    → IsValid js
    → Has old js
    → Has new js
    → is_retried kind old ≡ true
    → is_pending new.state ≡ true
    → new.kind ≡ old.kind
    → old.node_id ≡ some file
    → new.node_id ≡ some file
    → retry_failed now kind js ≡ err unique_violation
unfolding retry_failed commit
retry_failed_blocked now kind js old new file v ho hn r p k fo fn =
    elim (Bool-cases (unique_pending (update (is_retried kind) (requeue now) js))) [
      | inl u ↦ absurd (contradiction u)
      | inr u ↦ rw u refl
    ]
  where
    contradiction : unique_pending (update (is_retried kind) (requeue now) js) ≡ true → ⊥
    contradiction u =
        let failed_old : old.state ≡ failed = ground arith in
        let mo : Has (requeue now old) (update (is_retried kind) (requeue now) js) =
          rw r at (Has-map (λ j. if is_retried kind j then requeue now j else j) js old ho) in
        let nr : is_retried kind new ≡ false = ground arith in
        let mn : Has new (update (is_retried kind) (requeue now) js) =
          rw nr at (Has-map (λ j. if is_retried kind j then requeue now j else j) js new hn) in
        let c : clash (requeue now old) new ≡ true =
          unfold clash in ground (arith, text_eq_iff old.kind new.kind) in
        let same = unique_pending-clash (requeue now old) new _ u mo mn c in
        let one : new ≡ old =
          row_unique old new js v.ids ho hn (sym (ap (λ (j : Job). j.id) same)) in
        ground (arith, ap (λ (j : Job). j.state) one)

-- What a job that failed at `now` with the error text `cause` looks like: it is dead-lettered if
-- its attempts are spent and queued otherwise, it may run again after at most an hour, and it keeps
-- at most 2000 bytes of the error.
pub record BacksOff (now : ℕ) (j k : Job) : Type 0 where
  pub same : k.id ≡ j.id
  pub counted : k.attempts ≡ j.attempts
  pub spent : j.max_attempts ≤ j.attempts → k.state ≡ failed
  pub left : j.attempts < j.max_attempts → k.state ≡ queued
  pub later : now ≤ k.run_after
  pub within : k.run_after ≤ now + 3_600_000_000
  pub message : (m : Text) × (k.last_error ≡ some m) × (length m ≤ 2000)

length-capped : (n : ℕ) (s : Text) → length (if ltb n (length s) then take n s else s) ≤ n
length-capped n s = ground (arith, length-take n s)

length-trunc_err : (cause : Option Text) → length (trunc_err cause) ≤ 2000
unfolding trunc_err
length-trunc_err none = omega arith
length-trunc_err (some s) = length-capped max_error s

give_back-BacksOff :
    (now : ℕ) (cause : Option Text) (j : Job) → BacksOff now j (give_back now (trunc_err cause) j)
give_back-BacksOff now cause j = record {
  same = refl;
  counted = refl;
  spent = λ h. ground arith;
  left = λ h. ground arith;
  later = omega arith;
  within = omega arith;
  message = (trunc_err cause, refl, length-trunc_err cause);
}

-- If the index lets Fail through, each row with the id that it was given is replaced by one that
-- has backed off.
pub fail-BacksOff :
    (now id : ℕ) (cause : Option Text) (js ks : List Job) (j : Job)
    → Has j js
    → j.id ≡ id
    → fail now id cause js ≡ ok ks
    → (k : Job) × Has k ks × BacksOff now j k
unfolding fail
fail-BacksOff now id cause js ks j h e f =
    let f' : Job → Job = λ k. if has_id id k then give_back now (trunc_err cause) k else k in
    let (same, u) = commit-ok (map f' js) f in
    let here : has_id id j ≡ true = ground arith in
    let m : Has (give_back now (trunc_err cause) j) (map f' js) = rw here at (Has-map f' js j h) in
    (
      give_back now (trunc_err cause) j,
      subst (Has (give_back now (trunc_err cause) j)) (sym same) m,
      give_back-BacksOff now cause j,
    )

queued_count-snoc :
    (owner : ℕ) (n : Job) (js : List Job)
    → length (filter (λ j. j.owner_id == owner && is_queued j.state) (js ++ n ∷ []))
      ≤ length (filter (λ j. j.owner_id == owner && is_queued j.state) js) + 1
queued_count-snoc owner n [] = ground arith
queued_count-snoc owner n (j ∷ js) = ground (arith, queued_count-snoc owner n js)

-- An Enqueue under a cap that succeeds had counted fewer queued jobs of the owner than the cap, and the
-- owner's queued jobs are then no more than the cap and those together that were queued between the count
-- and the insert: no more than the cap, where none was. Where nothing was added, the table is as it was.
pub enqueue_capped :
    (id now : ℕ) (kind : Text) (file : Option ℕ) (owner cap : ℕ) (counted js ks : List Job)
    (r : Option ℕ)
    → 0 < cap
    → enqueue id now kind file owner cap counted js ≡ ok (r, ks)
    → (queued_count owner counted < cap)
      × (queued_count owner ks ≤ cap + (queued_count owner js - queued_count owner counted))
      × (r ≡ none → ks ≡ js)
unfolding enqueue queued_count insert
enqueue_capped id now kind file owner cap counted js ks r h e =
    ground (arith, queued_count-snoc owner (fresh id now kind file owner) js)
