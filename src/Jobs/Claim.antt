-- ===== src/Jobs/Claim.antt =====
-- server/internal/jobs/store.go, Claim: when it takes nothing, and that no two workers hold one job.
use private_cloud.Prelude.{
  ℕ, ◌≡◌, refl, sym, ap, ◌∙◌, ◌≢◌, ◌⊎◌, inl, inr, Bool, false, none, some, List, [], ◌∷◌, Text,
  filter, Has, Has-filter, Has-map, All, Option-cases, if◌then◌else◌, ok, err, subst, arith,
}
use private_cloud.Jobs.Table.{Job, no_job}
use private_cloud.Jobs.Invariant.{IsValid, row_unique}
use private_cloud.Jobs.Steps.{
  Takes, claim-Takes, claimed, claimed_unique, commit_unique, oldest-Has, runnable-queued,
  claimed-IsValid,
}
use private_cloud.Jobs.{claim, runnable, oldest, start, has_id}

oldest-none : (js : List Job) → oldest js ≡ none → js ≡ []
unfolding oldest
oldest-none [] e = refl
oldest-none (j ∷ js) e = ground arith

none_runnable : (p : Job → Bool) (js : List Job) → filter p js ≡ [] → All (λ k. p k ≡ false) js
none_runnable p [] e = tt
none_runnable p (j ∷ js) e = ground (arith, none_runnable p js)

-- On a valid table the unique index never refuses a claim: either no row may run and the claim
-- answers that there is no job, or it succeeds.
pub claim_total :
    (now : ℕ) (kinds : List Text) (locked : List ℕ) (js : List Job)
    → IsValid js
    → ((claim now kinds locked js ≡ err no_job) × All (λ k. runnable now kinds locked k ≡ false) js)
      ⊎ ((j : Job) × (ks : List Job) × (claim now kinds locked js ≡ ok (j, ks)))
unfolding claim
claim_total now kinds locked js v =
    elim (Option-cases (oldest (filter (runnable now kinds locked) js))) [
      | inl n ↦ inl (rw (claim, n) refl, none_runnable _ js (oldest-none _ n))
      | inr (row, m) ↦ inr (start now row, claimed now row js, found row m)
    ]
  where
    found :
        (row : Job)
        → oldest (filter (runnable now kinds locked) js) ≡ some row
        → claim now kinds locked js ≡ ok (start now row, claimed now row js)
    found row m =
        let (hrow, el) = Has-filter (runnable now kinds locked) js row (oldest-Has _ row m) in
        let u = claimed_unique now js row v hrow (runnable-queued now kinds locked row el) in
        rw (claim, m) (rw (commit_unique (claimed now row js) u) refl)

-- In a valid table, two claims in a row that succeed, by any workers at any times, never return the same
-- job.
pub claim_exclusive :
    (js ks ls : List Job) (j k : Job) (now later : ℕ) (kinds others : List Text)
    (locked barred : List ℕ)
    → IsValid js
    → claim now kinds locked js ≡ ok (j, ks)
    → claim later others barred ks ≡ ok (k, ls)
    → j.id ≢ k.id
claim_exclusive js ks ls j k now later kinds others locked barred v e f same =
    clash_of (claim-Takes now kinds locked js j ks e) (claim-Takes later others barred ks k ls f)
  where
    clash_of : Takes now kinds locked js j ks → Takes later others barred ks k ls → ⊥
    clash_of c d =
        let q = runnable-queued now kinds locked c.row c.eligible in
        let valid : IsValid ks =
          subst IsValid (sym c.table) (claimed-IsValid now js c.row v c.present q) in
        let moved : Has (if has_id c.row.id c.row then start now c.row else c.row) ks =
          rw c.table (Has-map _ js c.row c.present) in
        let placed : Has (start now c.row) ks = ground arith in
        let ids : d.row.id ≡ (start now c.row).id =
          ap (λ (r : Job). r.id) (sym d.started) ∙ sym same ∙ ap (λ (r : Job). r.id) c.started in
        let one : d.row ≡ start now c.row =
          row_unique (start now c.row) d.row ks valid.ids placed d.present ids in
        let idle = runnable-queued later others barred d.row d.eligible in
        cc (sym idle ∙ ap (λ (r : Job). r.state) one)
