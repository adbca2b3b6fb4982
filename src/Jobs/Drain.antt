-- ===== src/Jobs/Drain.antt =====
-- server/internal/jobs/store.go: the queue drains. The attempts that the rows of the table have
-- left bound the claims that can still be made.
use private_cloud.Prelude.{
  ℕ, suc, ◌+◌, ◌-◌, ◌≤◌, ◌<◌, ◌≡◌, refl, sym, inl, inr, ap, ◌∙◌, Bool, not, List, [], ◌∷◌, map,
  Text, filter, Has, All-Has, ok, >>=-eq-ok, arith,
}
use private_cloud.Jobs.Table.{Job, update, commit}
use private_cloud.Jobs.Invariant.{IsSound, IsValid}
use private_cloud.Jobs.Steps.{
  enqueues, claims, completes, fails, reaps, deletes_finished, deletes_stale, retries, Reach,
  unchanged, and_then, claimed, claim-Takes, runnable-queued, commit-ok, run-IsValid,
}
use private_cloud.Jobs.{
  claim, complete, fail, reap_stale, delete_finished, delete_stale_queued, is_stale, reclaim,
  is_finished, is_unclaimed,
}

-- The attempts that the table has left.
pub budget : List Job → ℕ
budget [] = 0
budget (j ∷ js) = j.max_attempts - j.attempts + budget js

-- No step enqueues a job or retries a dead-lettered one.
abbrev pub Drains : {js ks : List Job} → Reach js ks → Type 0
Drains unchanged = Unit
Drains (and_then r (enqueues _ _ _ _ _ _ _ counted _ _)) = ⊥
Drains (and_then r (retries _ _ _ _)) = ⊥
Drains (and_then r (claims _ _ _ _ _)) = Drains r
Drains (and_then r (completes _ _ _)) = Drains r
Drains (and_then r (fails _ _ _ _)) = Drains r
Drains (and_then r (reaps _ _ _ _)) = Drains r
Drains (and_then r (deletes_finished _ _ _ _)) = Drains r
Drains (and_then r (deletes_stale _ _ _ _)) = Drains r

abbrev pub claim_count : {js ks : List Job} → Reach js ks → ℕ
claim_count unchanged = 0
claim_count (and_then r (claims _ _ _ _ _)) = suc (claim_count r)
claim_count (and_then r (enqueues _ _ _ _ _ _ _ counted _ _)) = claim_count r
claim_count (and_then r (retries _ _ _ _)) = claim_count r
claim_count (and_then r (completes _ _ _)) = claim_count r
claim_count (and_then r (fails _ _ _ _)) = claim_count r
claim_count (and_then r (reaps _ _ _ _)) = claim_count r
claim_count (and_then r (deletes_finished _ _ _ _)) = claim_count r
claim_count (and_then r (deletes_stale _ _ _ _)) = claim_count r

budget-map :
    (f : Job → Job)
    → ((j : Job) → ((f j).attempts ≡ j.attempts) × ((f j).max_attempts ≡ j.max_attempts))
    → (js : List Job) → budget (map f js) ≡ budget js
unfolding budget
budget-map f keep [] = refl
budget-map f keep (j ∷ js) = ground (arith, keep j, budget-map f keep js)

budget-filter : (p : Job → Bool) (js : List Job) → budget (filter p js) ≤ budget js
unfolding budget
budget-filter p [] = omega arith
budget-filter p (j ∷ js) = ground (arith, budget-filter p js)

budget-started : (now : ℕ) (row : Job) (js : List Job) → budget (claimed now row js) ≤ budget js
unfolding budget
budget-started now row [] = omega arith
budget-started now row (j ∷ js) = ground (arith, budget-started now row js)

budget-claimed :
    (now : ℕ) (row : Job) (js : List Job)
    → Has row js
    → row.attempts < row.max_attempts
    → budget (claimed now row js) < budget js
unfolding budget
budget-claimed now row [] h a = absurd h
budget-claimed now row (j ∷ js) (inl e) a =
    let same : (j.id ≡ row.id) × (j.attempts ≡ row.attempts) × (j.max_attempts ≡ row.max_attempts) =
      (
        ap (λ (k : Job). k.id) (sym e),
        ap (λ (k : Job). k.attempts) (sym e),
        ap (λ (k : Job). k.max_attempts) (sym e),
      ) in
    ground (arith, budget-started now row js)
budget-claimed now row (j ∷ js) (inr h) a = ground (arith, budget-claimed now row js h)

budget-commit :
    (f : Job → Job)
    → ((j : Job) → ((f j).attempts ≡ j.attempts) × ((f j).max_attempts ≡ j.max_attempts))
    → (js ks : List Job) → commit (map f js) ≡ ok ks
    → budget ks ≤ budget js
budget-commit f keep js ks e =
    omega (arith, budget-map f keep js, ap budget (commit-ok (map f js) e).0)

budget-reap :
    (now lease n : ℕ) (js ks : List Job)
    → reap_stale now lease js ≡ ok (n, ks)
    → budget ks ≤ budget js
unfolding reap_stale
budget-reap now lease n js ks e =
    let (us, a, b) = >>=-eq-ok (commit (update (is_stale now lease) (reclaim now) js)) _ e in
    let same : us ≡ ks = ground arith in budget-commit _ (λ j. ground arith) js ks (a ∙ ap ok same)

budget-claim :
    (now : ℕ) (kinds : List Text) (locked : List ℕ) (js ks : List Job) (j : Job)
    → IsValid js
    → claim now kinds locked js ≡ ok (j, ks)
    → budget ks < budget js
budget-claim now kinds locked js ks j v e =
    let c = claim-Takes now kinds locked js j ks e in
    let s = All-Has IsSound js c.row v.rows c.present in
    let left = s.queued_left (runnable-queued now kinds locked c.row c.eligible) in
    omega (arith, budget-claimed now c.row js c.present left, ap budget c.table)

-- In a run from a valid table that neither enqueues nor retries, the claims made and the attempts left at its end are
-- together at most the attempts left at its start: the queue drains.
pub claims_bounded :
    {js ks : List Job} (r : Reach js ks)
    → Drains r
    → IsValid js
    → claim_count r + budget ks ≤ budget js
unfolding complete fail delete_finished delete_stale_queued
claims_bounded unchanged d v = omega arith
claims_bounded (and_then r (enqueues _ _ _ _ _ _ _ counted _ _)) d v = absurd d
claims_bounded (and_then r (retries _ _ _ _)) d v = absurd d
claims_bounded {ks} (and_then {ks = mid} r (claims now kinds locked j e)) d v =
    omega (arith, claims_bounded r d v, budget-claim now kinds locked mid ks j (run-IsValid r v) e)
claims_bounded {ks} (and_then {ks = mid} r (completes now id e)) d v =
    omega (arith, claims_bounded r d v, budget-commit _ (λ j. ground arith) mid ks e)
claims_bounded {ks} (and_then {ks = mid} r (fails now id cause e)) d v =
    omega (arith, claims_bounded r d v, budget-commit _ (λ j. ground arith) mid ks e)
claims_bounded {ks} (and_then {ks = mid} r (reaps now lease n e)) d v =
    omega (arith, claims_bounded r d v, budget-reap now lease n mid ks e)
claims_bounded {ks} (and_then {ks = mid} r (deletes_finished now retention n e)) d v = omega (
  arith,
  claims_bounded r d v,
  ap (λ (t : ℕ × List Job). budget t.1) e,
  budget-filter (λ j. not (is_finished now retention j)) mid,
)
claims_bounded {ks} (and_then {ks = mid} r (deletes_stale now ttl n e)) d v = omega (
  arith,
  claims_bounded r d v,
  ap (λ (t : ℕ × List Job). budget t.1) e,
  budget-filter (λ j. not (is_unclaimed now ttl j)) mid,
)
