-- ===== src/Jobs/Examples.antt =====
-- server/internal/jobs/store.go: a queue of two jobs, and runs of it.
use private_cloud.Prelude.{
  ◌-◌, ◌<◌, ℕ, ◌+◌, ◌≤◌, ◌≡◌, ◌≢◌, refl, ◌⊎◌, inl, inr, true, false, Option, none, some, List, [],
  ◌∷◌, Text, text_eq, Has, All, filter, ok, err, arith,
}
use private_cloud.Jobs.Table.{Job, failed, no_job, unique_violation, unique_pending, clash, commit}
use private_cloud.Jobs.Invariant.{IsSound, IsValid}
use private_cloud.Jobs.Steps.{Step, enqueues, claims, Reach, unchanged, and_then, reach-IsValid}
use private_cloud.Jobs.{
  fresh, insert, enqueue, queued_count, runnable, oldest, start, claim, fail, give_back, trunc_err,
  retry_failed, is_retried, requeue,
}
use private_cloud.Jobs.Claim.{claim_total, claim_exclusive}
use private_cloud.Jobs.Retry.{retry_failed_blocked, BacksOff, fail-BacksOff, enqueue_capped}
use private_cloud.Jobs.Bulk.{
  FileRow, is_live, Served, enqueue_for_all_files, enqueue_for_all_files-Served,
}
use private_cloud.Jobs.Drain.{claims_bounded, budget}

abbrev kind : Text
kind = 1 ∷ []

abbrev first_job : Job
first_job = fresh 1 10 kind (some 5) 7

abbrev second_job : Job
second_job = fresh 2 20 kind (some 6) 7

abbrev queue : List Job
queue = first_job ∷ second_job ∷ []

one_enqueued : Step [] (first_job ∷ [])
unfolding enqueue insert queued_count clash text_eq
one_enqueued = enqueues 1 10 kind (some 5) 7 0 (some 1) [] tt refl

two_enqueued : Step (first_job ∷ []) queue
unfolding enqueue insert queued_count clash text_eq
two_enqueued = enqueues 2 20 kind (some 6) 7 0 (some 2) [] ((λ e. absurd (omega arith)), tt) refl

queued_run : Reach [] queue
queued_run = and_then (and_then unchanged one_enqueued) two_enqueued

reach-IsValid_example : IsValid queue
reach-IsValid_example = reach-IsValid queued_run

queue-IsValid : IsValid queue
queue-IsValid = reach-IsValid queued_run

abbrev after_first : List Job
after_first = start 30 first_job ∷ second_job ∷ []

abbrev after_both : List Job
after_both = start 30 first_job ∷ start 40 second_job ∷ []

claimed_first : claim 30 (kind ∷ []) [] queue ≡ ok (start 30 first_job, after_first)
unfolding claim runnable oldest commit unique_pending clash text_eq
claimed_first = refl

claimed_second : claim 40 (kind ∷ []) [] after_first ≡ ok (start 40 second_job, after_both)
unfolding claim runnable oldest commit unique_pending clash text_eq
claimed_second = refl

claim_exclusive_example : ◌≢◌ {A = ℕ} 1 2
claim_exclusive_example =
    claim_exclusive queue after_first after_both (start 30 first_job) (start 40 second_job) 30 40
      (kind ∷ []) (kind ∷ []) [] [] queue-IsValid claimed_first claimed_second

claim_total_example :
    ((claim 30 (kind ∷ []) [] queue ≡ err no_job)
      × All (λ k. runnable 30 (kind ∷ []) [] k ≡ false) queue)
    ⊎ ((j : Job) × (ks : List Job) × (claim 30 (kind ∷ []) [] queue ≡ ok (j, ks)))
claim_total_example = claim_total 30 (kind ∷ []) [] queue queue-IsValid

abbrev claim_run : Reach queue after_both
claim_run =
    and_then (and_then unchanged (claims 30 (kind ∷ []) [] (start 30 first_job) claimed_first))
      (claims 40 (kind ∷ []) [] (start 40 second_job) claimed_second)

claims_bounded_example : 2 + budget after_both ≤ budget queue
claims_bounded_example = claims_bounded claim_run tt queue-IsValid

abbrev failed_once : Job
failed_once = give_back 50 (trunc_err none) (start 30 first_job)

failed_first : fail 50 1 none after_first ≡ ok (failed_once ∷ second_job ∷ [])
unfolding fail commit unique_pending clash trunc_err text_eq
failed_first = refl

fail-BacksOff_example :
    (k : Job) × Has k (failed_once ∷ second_job ∷ []) × BacksOff 50 (start 30 first_job) k
fail-BacksOff_example =
    fail-BacksOff 50 1 none after_first (failed_once ∷ second_job ∷ []) (start 30 first_job)
      (inl refl) refl failed_first

enqueued_capped :
    enqueue 2 20 kind (some 6) 7 2 (first_job ∷ []) (first_job ∷ []) ≡ ok (some 2, queue)
unfolding enqueue insert queued_count clash text_eq
enqueued_capped = refl

-- Two requests that count before either inserts go over the cap.
both_enqueued : enqueue 2 20 kind (some 6) 7 1 [] (first_job ∷ []) ≡ ok (some 2, queue)
unfolding enqueue insert queued_count clash text_eq
both_enqueued = refl

enqueue_capped_example :
    (queued_count 7 [] < 1)
    × (queued_count 7 queue ≤ 1 + (queued_count 7 (first_job ∷ []) - queued_count 7 []))
    × (◌≡◌ {A = Option ℕ} (some 2) none → queue ≡ first_job ∷ [])
enqueue_capped_example =
    enqueue_capped 2 20 kind (some 6) 7 1 [] (first_job ∷ []) queue (some 2) (omega arith)
      both_enqueued

abbrev dead_job : Job
dead_job = record first_job { state = failed; attempts = 5 }

abbrev newer_job : Job
newer_job = fresh 3 60 kind (some 5) 7

dead_job-IsSound : IsSound dead_job
dead_job-IsSound = ground arith

newer_job-IsSound : IsSound newer_job
newer_job-IsSound = ground arith

is_dead : is_retried [] dead_job ≡ true
unfolding text_eq
is_dead = refl

blocked-IsValid : IsValid (dead_job ∷ newer_job ∷ [])
unfolding unique_pending clash text_eq
blocked-IsValid = record {
  rows = (dead_job-IsSound, (newer_job-IsSound, tt));
  ids = (((λ e. absurd (omega arith)), tt), (tt, tt));
  pending = refl;
}

retry_failed_blocked_example : retry_failed 70 [] (dead_job ∷ newer_job ∷ []) ≡ err unique_violation
retry_failed_blocked_example =
    retry_failed_blocked 70 [] (dead_job ∷ newer_job ∷ []) dead_job newer_job 5 blocked-IsValid
      (inl refl) (inr (inl refl)) is_dead refl refl refl refl

abbrev files : List (ℕ × FileRow)
files =
    (8, record { id = 5; owner_id = 7; trashed = false; mime = none })
    ∷ (9, record { id = 6; owner_id = 7; trashed = true; mime = none })
    ∷ []

enqueue_for_all_files-Served_example :
    All (Served kind (enqueue_for_all_files 80 kind files queue).1) (filter is_live files)
enqueue_for_all_files-Served_example = enqueue_for_all_files-Served 80 kind files queue

abbrev retried_job : Job
retried_job = requeue 90 dead_job

retried : retry_failed 90 [] (dead_job ∷ []) ≡ ok (1, retried_job ∷ [])
unfolding retry_failed commit unique_pending clash text_eq
retried = refl
