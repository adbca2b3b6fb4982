-- ===== src/Jobs/Steps.antt =====
-- server/internal/jobs/store.go: every statement keeps the table valid, and so does every history.
use private_cloud.Prelude.{
  ℕ, ◌≤◌, ◌≡◌, refl, sym, ap, subst, ◌∙◌, ◌≢◌, inl, inr, true, not, Option, none, some, List, [],
  ◌∷◌, map, Text, any, filter, Has, All, All-intro, All-Has, Has-filter, Bool-cases, Option-cases,
  if◌then◌else◌, Result, ok, ◌>>=◌, >>=-eq-ok, arith,
}
use private_cloud.Jobs.Table.{Job, queued, clash, unique_pending, update, commit, Err}
use private_cloud.Jobs.Invariant.{
  IsSound, IsValid, Shrinks, map-IsValid, filter-IsValid, snoc-IsValid, unique_pending-map,
  row_unique, empty-IsValid,
}
use private_cloud.Jobs.{
  enqueue, claim, complete, fail, reap_stale, delete_finished, delete_stale_queued, retry_failed,
  insert, fresh, runnable, oldest, start, has_id, finish, give_back, trunc_err, is_stale, reclaim,
  is_retried, requeue, is_finished, is_unclaimed,
}

pub commit-ok :
    (js : List Job) {ks : List Job} → commit js ≡ ok ks → (ks ≡ js) × (unique_pending js ≡ true)
unfolding commit
commit-ok js h = ground arith

pub commit_unique : (js : List Job) → unique_pending js ≡ true → commit js ≡ ok js
unfolding commit
commit_unique js h = ground arith

pub oldest-Has : (js : List Job) (j : Job) → oldest js ≡ some j → Has j js
unfolding oldest
oldest-Has [] j e = cc
oldest-Has (x ∷ js) j e = elim (Option-cases (oldest js)) [
  | inl n ↦ ground arith
  | inr (k, m) ↦ ground (arith, oldest-Has js k m)
]

-- No row is due before the oldest.
oldest-le : (js : List Job) (j : Job) → oldest js ≡ some j → All (λ k. j.run_after ≤ k.run_after) js
unfolding oldest
oldest-le [] j e = tt
oldest-le (x ∷ js) j e = elim (Option-cases (oldest js)) [
  | inl n ↦ first n
  | inr (k, m) ↦ later k m (oldest-le js k m)
]
  where
    none-nil : (ks : List Job) → oldest ks ≡ none → ks ≡ []
    none-nil [] n = refl
    none-nil (y ∷ ks) n = ground arith

    first : oldest js ≡ none → All (λ k. j.run_after ≤ k.run_after) (x ∷ js)
    first n = rw (none-nil js n) (ground arith, tt)

    weaken :
        (k : Job)
        → j.run_after ≤ k.run_after
        → (ks : List Job) → All (λ i. k.run_after ≤ i.run_after) ks
        → All (λ i. j.run_after ≤ i.run_after) ks
    weaken k h [] a = tt
    weaken k h (i ∷ ks) a = (omega arith, weaken k h ks a.1)

    later :
        (k : Job)
        → oldest js ≡ some k
        → All (λ i. k.run_after ≤ i.run_after) js
        → All (λ i. j.run_after ≤ i.run_after) (x ∷ js)
    later k m a =
        let h : (j.run_after ≤ k.run_after) × (j.run_after ≤ x.run_after) = ground arith in
        (h.1, weaken k h.0 js a)

-- The table that a claim of the row `j` leaves.
abbrev pub claimed : ℕ → Job → List Job → List Job
claimed now j = update (has_id j.id) (start now)

start-Shrinks :
    (now : ℕ) (js : List Job) (j : Job)
    → IsValid js
    → Has j js
    → j.state ≡ queued
    → All (Shrinks (λ k. if has_id j.id k then start now k else k)) js
start-Shrinks now js j v hj q = All-intro _ js λ k hk. shrinks k (row_unique j k js v.ids hj hk)
  where
    shrinks :
        (k : Job)
        → (k.id ≡ j.id → k ≡ j)
        → Shrinks (λ k. if has_id j.id k then start now k else k) k
    shrinks k one = elim (Bool-cases (has_id j.id k)) [
      | inl unchanged ↦
          ground (arith, one (ground arith), ap (λ (r : Job). r.state) (one (ground arith)))
      | inr away ↦ ground arith
    ]

pub claimed_unique :
    (now : ℕ) (js : List Job) (j : Job)
    → IsValid js
    → Has j js
    → j.state ≡ queued
    → unique_pending (claimed now j js) ≡ true
claimed_unique now js j v hj q = unique_pending-map _ js (start-Shrinks now js j v hj q) v.pending

pub claimed-IsValid :
    (now : ℕ) (js : List Job) (j : Job)
    → IsValid js
    → Has j js
    → j.state ≡ queued
    → IsValid (claimed now j js)
claimed-IsValid now js j v hj q =
    map-IsValid _ (λ k. ground arith) js (All-intro _ js sound) (claimed_unique now js j v hj q) v
  where
    sound : (k : Job) → Has k js → IsSound (if has_id j.id k then start now k else k)
    sound k hk = elim (Bool-cases (has_id j.id k)) [
      | inl unchanged ↦
          let one : k ≡ j = row_unique j k js v.ids hj hk (ground arith) in
          let s = All-Has IsSound js k v.rows hk in
          let e : k.state ≡ queued = ap (λ (r : Job). r.state) one ∙ q in
          ground (arith, s.queued_left e, s.budget)
      | inr away ↦ rw away (All-Has IsSound js k v.rows hk)
    ]

finish-IsSound :
    (now id : ℕ) (k : Job) → IsSound k → IsSound (if has_id id k then finish now k else k)
finish-IsSound now id k s = ground arith

give_back-IsSound :
    (now id : ℕ) (m : Text) (k : Job)
    → IsSound k
    → IsSound (if has_id id k then give_back now m k else k)
give_back-IsSound now id m k s = ground arith

reclaim-IsSound :
    (now lease : ℕ) (k : Job)
    → IsSound k
    → IsSound (if is_stale now lease k then reclaim now k else k)
reclaim-IsSound now lease k s = ground arith

requeue-IsSound :
    (now : ℕ) (kind : Text) (k : Job)
    → IsSound k
    → IsSound (if is_retried kind k then requeue now k else k)
requeue-IsSound now kind k s = ground arith

-- A claim in the words of its statement.
pub record Takes (now : ℕ) (kinds : List Text) (locked : List ℕ) (js : List Job) (j : Job)
    (ks : List Job) : Type 0 where
  pub row : Job
  pub present : Has row js
  pub eligible : runnable now kinds locked row ≡ true
  pub first : All (λ k. row.run_after ≤ k.run_after) (filter (runnable now kinds locked) js)
  pub started : j ≡ start now row
  pub table : ks ≡ claimed now row js

pub runnable-queued :
    (now : ℕ) (kinds : List Text) (locked : List ℕ) (j : Job)
    → runnable now kinds locked j ≡ true
    → j.state ≡ queued
unfolding runnable
runnable-queued now kinds locked j h = ground arith

pub claim-Takes :
    (now : ℕ) (kinds : List Text) (locked : List ℕ) (js : List Job) (j : Job) (ks : List Job)
    → claim now kinds locked js ≡ ok (j, ks)
    → Takes now kinds locked js j ks
unfolding claim
claim-Takes now kinds locked js j ks e =
    elim (Option-cases (oldest (filter (runnable now kinds locked) js))) [
      | inl n ↦ absurd (impossible n)
      | inr (row, m) ↦ found row m
    ]
  where
    impossible : oldest (filter (runnable now kinds locked) js) ≡ none → ⊥
    impossible n = ground arith

    taken :
        (row : Job)
        → oldest (filter (runnable now kinds locked) js) ≡ some row
        → Has row js
        → runnable now kinds locked row ≡ true
        → (us : List Job) × (commit (claimed now row js) ≡ ok us)
          × (◌≡◌ {A = Result Err (Job × List Job)} (ok (start now row, us)) (ok (j, ks)))
        → Takes now kinds locked js j ks
    taken row m hrow el (us, a, b) =
        let c = commit-ok (claimed now row js) a in
        record {
          row = row;
          present = hrow;
          eligible = el;
          first = oldest-le _ row m;
          started = cc;
          table = sym (cc) ∙ c.0;
        }

    found :
        (row : Job)
        → oldest (filter (runnable now kinds locked) js) ≡ some row
        → Takes now kinds locked js j ks
    found row m =
        let (hrow, el) = Has-filter (runnable now kinds locked) js row (oldest-Has _ row m) in
        let both : (commit (claimed now row js) >>= λ js'. ok (start now row, js')) ≡ ok (j, ks) =
          ground arith in
        let g : List Job → Result Err (Job × List Job) = λ js'. ok (start now row, js') in
        taken row m hrow el (>>=-eq-ok (commit (claimed now row js)) g both)

-- One operation at one time. Between the count and the insert of Enqueue there may be others: it
-- counts in any table.
pub data Step (js ks : List Job) : Type 0 where
  enqueues :
      (id now : ℕ) (kind : Text) (node : Option ℕ) (owner cap : ℕ) (r : Option ℕ)
      (counted : List Job)
      → All (λ k. k.id ≢ id) js
      → enqueue id now kind node owner cap counted js ≡ ok (r, ks)
      → Step js ks
  claims :
      (now : ℕ) (kinds : List Text) (locked : List ℕ) (j : Job)
      → claim now kinds locked js ≡ ok (j, ks)
      → Step js ks
  completes : (now id : ℕ) → complete now id js ≡ ok ks → Step js ks
  fails : (now id : ℕ) (cause : Option Text) → fail now id cause js ≡ ok ks → Step js ks
  reaps : (now lease n : ℕ) → reap_stale now lease js ≡ ok (n, ks) → Step js ks
  deletes_finished : (now retention n : ℕ) → delete_finished now retention js ≡ (n, ks) → Step js ks
  deletes_stale : (now ttl n : ℕ) → delete_stale_queued now ttl js ≡ (n, ks) → Step js ks
  retries : (now : ℕ) (kind : Text) (n : ℕ) → retry_failed now kind js ≡ ok (n, ks) → Step js ks

pub data Reach (js : List Job) : List Job → Type 0 where
  unchanged : Reach js js
  and_then : {ks ls : List Job} → Reach js ks → Step ks ls → Reach js ls

fresh-IsSound :
    (id now : ℕ) (kind : Text) (file : Option ℕ) (owner : ℕ)
    → IsSound (fresh id now kind file owner)
fresh-IsSound id now kind file owner = ground arith

insert-IsValid :
    (n : Job) (js : List Job)
    → IsSound n
    → All (λ k. k.id ≢ n.id) js
    → IsValid js
    → IsValid (insert n js).1
unfolding insert
insert-IsValid n js s d v = elim (Bool-cases (any (clash n) js)) [
  | inl old ↦ rw old v
  | inr new ↦ rw new (snoc-IsValid n js s d new v)
]

enqueue-table :
    (id now : ℕ) (kind : Text) (file : Option ℕ) (owner cap : ℕ) (counted js : List Job)
    (r : Option ℕ) (ks : List Job)
    → enqueue id now kind file owner cap counted js ≡ ok (r, ks)
    → insert (fresh id now kind file owner) js ≡ (r, ks)
unfolding enqueue
enqueue-table id now kind file owner cap counted js r ks e = ground arith

-- An update that the unique index accepted.
commit-IsValid :
    (f : Job → Job)
    → ((j : Job) → (f j).id ≡ j.id)
    → ((j : Job) → IsSound j → IsSound (f j))
    → (js ks : List Job) → commit (map f js) ≡ ok ks
    → IsValid js
    → IsValid ks
commit-IsValid f keep sound js ks e v =
    let (same, u) = commit-ok (map f js) e in
    rw same (
      map-IsValid f keep js (All-intro _ js (λ k hk. sound k (All-Has IsSound js k v.rows hk))) u v)

-- Every statement that the database accepts keeps the table valid.
pub Step-IsValid : {js ks : List Job} → Step js ks → IsValid js → IsValid ks
unfolding complete fail reap_stale delete_finished delete_stale_queued retry_failed
Step-IsValid {js} {ks} (enqueues id now kind file owner cap r counted d e) v =
    subst IsValid
      (ap (λ (t : Option ℕ × List Job). t.1)
        (enqueue-table id now kind file owner cap counted js r ks e))
      (insert-IsValid _ js (fresh-IsSound id now kind file owner) d v)
Step-IsValid {js} {ks} (claims now kinds locked j e) v =
    let c = claim-Takes now kinds locked js j ks e in
    rw c.table
      (claimed-IsValid now js c.row v c.present (runnable-queued now kinds locked c.row c.eligible))
Step-IsValid {js} {ks} (completes now id e) v =
    commit-IsValid _ (λ j. ground arith) (finish-IsSound now id) js ks e v
Step-IsValid {js} {ks} (fails now id cause e) v =
    commit-IsValid _ (λ j. ground arith) (give_back-IsSound now id (trunc_err cause)) js ks e v
Step-IsValid {js} {ks} (reaps now lease n e) v =
    let (us, a, b) = >>=-eq-ok (commit (update (is_stale now lease) (reclaim now) js)) _ e in
    let same : us ≡ ks = ground arith in
    commit-IsValid _ (λ j. ground arith) (reclaim-IsSound now lease) js ks (a ∙ ap ok same) v
Step-IsValid {js} {ks} (deletes_finished now retention n e) v =
    subst IsValid (ap (λ (t : ℕ × List Job). t.1) e)
      (filter-IsValid (λ j. not (is_finished now retention j)) js v)
Step-IsValid {js} {ks} (deletes_stale now ttl n e) v =
    subst IsValid (ap (λ (t : ℕ × List Job). t.1) e)
      (filter-IsValid (λ j. not (is_unclaimed now ttl j)) js v)
Step-IsValid {js} {ks} (retries now kind n e) v =
    let (us, a, b) = >>=-eq-ok (commit (update (is_retried kind) (requeue now) js)) _ e in
    let same : us ≡ ks = ground arith in
    commit-IsValid _ (λ j. ground arith) (requeue-IsSound now kind) js ks (a ∙ ap ok same) v

pub run-IsValid : {js ks : List Job} → Reach js ks → IsValid js → IsValid ks
run-IsValid unchanged v = v
run-IsValid (and_then r st) v = Step-IsValid st (run-IsValid r v)

-- Whatever the history of the queue, from the empty table: every row keeps its attempts within its
-- budget, a queued row has an attempt left, a failed row has none, ids are distinct, and no two
-- pending rows have one kind and one file.
pub reach-IsValid : {js : List Job} → Reach [] js → IsValid js
reach-IsValid r = run-IsValid r empty-IsValid
