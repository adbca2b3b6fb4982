-- ===== src/Jobs/Bulk.antt =====
-- server/internal/jobs/store.go: the bulk enqueues over the live files, and what the operator sees of the
-- queue. `Files` is the table nodes with each file's head version, as far as the statements read it.
use private_cloud.Prelude.{
  ℕ, suc, ◌≡◌, refl, ap, sym, ◌∙◌, inl, inr, Bool, true, false, not, ◌&&◌, ◌||◌, Option, none, some,
  is_some, List, [], ◌∷◌, ◌++◌, Text, codes, text_eq, text_eq_refl, has_prefix, any, filter, length,
  take, ltb, leb, ◌==◌, if◌then◌else◌, All, Bool-cases, Result, ok, >>=-eq-ok, arith,
}
use private_cloud.Jobs.Table.{
  State, queued, running, done, failed, Job, Err, is_queued, is_running, is_failed, is_pending,
  same_node, clash, commit, update,
}
use private_cloud.Jobs.{fresh, insert, is_retried, requeue, retry_failed}
use private_cloud.Jobs.Steps.{commit-ok}

-- A row of nodes of kind 'file', with the mime type of its head version, where it has one.
pub record FileRow : Type 0 where
  pub id : ℕ
  pub owner_id : ℕ
  pub trashed : Bool
  pub mime : Option Text

-- The rows that the statement inserts, each with the id of its job, and how many went in.
pub enqueue_rows : ℕ → Text → List (ℕ × FileRow) → List Job → ℕ × List Job
unfolding insert
enqueue_rows now kind [] js = (0, js)
enqueue_rows now kind ((id, f) ∷ fs) js =
    let one = insert (fresh id now kind (some f.id) f.owner_id) js in
    let rest = enqueue_rows now kind fs one.1 in
    (if is_some one.0 then suc rest.0 else rest.0, rest.1)

abbrev pub is_live : ℕ × FileRow → Bool
is_live (id, f) = not f.trashed

abbrev pub is_media : ℕ × FileRow → Bool
is_media (id, f) = elim f.mime [
  | none ↦ false
  | some m ↦ has_prefix m (codes "image/") || has_prefix m (codes "video/")
]

-- EnqueueForAllFiles
pub enqueue_for_all_files : ℕ → Text → List (ℕ × FileRow) → List Job → ℕ × List Job
unfolding enqueue_rows
enqueue_for_all_files now kind fs js = enqueue_rows now kind (filter is_live fs) js

-- EnqueueForAllMediaFiles
pub enqueue_for_all_media_files : ℕ → Text → List (ℕ × FileRow) → List Job → ℕ × List Job
unfolding enqueue_rows
enqueue_for_all_media_files now kind fs js =
    enqueue_rows now kind (filter (λ f. is_live f && is_media f) fs) js

-- ORDER BY updated_at DESC
pub insert_by_update : Job → List Job → List Job
insert_by_update j [] = j ∷ []
insert_by_update j (k ∷ ks) =
    let rest = insert_by_update j ks in
    if leb k.updated_at j.updated_at then j ∷ k ∷ ks else k ∷ rest

pub order_by_update : List Job → List Job
unfolding insert_by_update
order_by_update [] = []
order_by_update (j ∷ js) = insert_by_update j (order_by_update js)

-- ListFailed, for a limit that is not negative.
pub list_failed : ℕ → List Job → List Job
unfolding order_by_update
list_failed limit js =
    let limit' = if limit == 0 || ltb 1000 limit then 100 else limit in
    take limit' (order_by_update (filter (λ j. is_failed j.state) js))

abbrev pub has_state : State → Job → Bool
has_state queued j = is_queued j.state
has_state running j = is_running j.state
has_state done j = not (is_pending j.state) && not (is_failed j.state)
has_state failed j = is_failed j.state

-- Stats: the count of one state, which the map lacks where it is 0.
pub stats : State → List Job → ℕ
stats s js = length (filter (has_state s) js)

-- A pending job of the kind is there for the file.
abbrev pub serves : Text → ℕ → Job → Bool
serves kind file j = is_pending j.state && (text_eq kind j.kind && same_node (some file) j.node_id)

any-append : (p : Job → Bool) (xs ys : List Job) → any p (xs ++ ys) ≡ (any p xs || any p ys)
any-append p [] ys = refl
any-append p (x ∷ xs) ys = ground (arith, any-append p xs ys)

any-implies :
    (p q : Job → Bool)
    → ((j : Job) → p j ≡ true → q j ≡ true)
    → (js : List Job) → any p js ≡ true
    → any q js ≡ true
any-implies p q f [] e = e
any-implies p q f (j ∷ js) e = ground (arith, f j, any-implies p q f js)

clash-serves :
    (id now owner file : ℕ) (kind : Text) (j : Job)
    → clash (fresh id now kind (some file) owner) j ≡ true
    → serves kind file j ≡ true
unfolding clash
clash-serves id now owner file kind j e = ground arith

insert-serves :
    (id now owner file : ℕ) (kind : Text) (js : List Job)
    → any (serves kind file) (insert (fresh id now kind (some file) owner) js).1 ≡ true
unfolding insert
insert-serves id now owner file kind js =
    let n = fresh id now kind (some file) owner in
    elim (Bool-cases (any (clash n) js)) [
      | inl old ↦
          rw (insert, old)
            (any-implies (clash n) (serves kind file) (clash-serves id now owner file kind) js old)
      | inr new ↦
          rw (insert, new)
            (any-append (serves kind file) js (n ∷ []) ∙ ground (arith, text_eq_refl kind))
    ]

insert-any :
    (p : Job → Bool) (n : Job) (js : List Job) → any p js ≡ true → any p (insert n js).1 ≡ true
unfolding insert
insert-any p n js h = elim (Bool-cases (any (clash n) js)) [
  | inl old ↦ rw (insert, old) h
  | inr new ↦ rw (insert, new) (any-append p js (n ∷ []) ∙ ground arith)
]

enqueue_rows-any :
    (p : Job → Bool) (now : ℕ) (kind : Text) (fs : List (ℕ × FileRow)) (js : List Job)
    → any p js ≡ true
    → any p (enqueue_rows now kind fs js).1 ≡ true
unfolding enqueue_rows
enqueue_rows-any p now kind [] js h = h
enqueue_rows-any p now kind ((id, f) ∷ fs) js h =
    let n = fresh id now kind (some f.id) f.owner_id in
    enqueue_rows-any p now kind fs (insert n js).1 (insert-any p n js h)

abbrev pub Served : Text → List Job → ℕ × FileRow → Type 0
Served kind js (id, f) = any (serves kind f.id) js ≡ true

enqueue_rows-Served :
    (now : ℕ) (kind : Text) (fs : List (ℕ × FileRow)) (js : List Job)
    → All (Served kind (enqueue_rows now kind fs js).1) fs
unfolding enqueue_rows
enqueue_rows-Served now kind [] js = tt
enqueue_rows-Served now kind ((id, f) ∷ fs) js =
    let n = fresh id now kind (some f.id) f.owner_id in
    (
      enqueue_rows-any (serves kind f.id) now kind fs (insert n js).1
          (insert-serves id now f.owner_id f.id kind js),
      enqueue_rows-Served now kind fs (insert n js).1,
    )

-- After EnqueueForAllFiles each live file has a pending job of the kind, whatever the queue held before.
pub enqueue_for_all_files-Served :
    (now : ℕ) (kind : Text) (fs : List (ℕ × FileRow)) (js : List Job)
    → All (Served kind (enqueue_for_all_files now kind fs js).1) (filter is_live fs)
unfolding enqueue_for_all_files
enqueue_for_all_files-Served now kind fs js = enqueue_rows-Served now kind (filter is_live fs) js

requeued-none :
    (now : ℕ) (js : List Job)
    → length (filter (has_state failed) (update (is_retried []) (requeue now) js)) ≡ 0
unfolding text_eq
requeued-none now [] = refl
requeued-none now (j ∷ js) = ground (arith, requeued-none now js)

retried-failed :
    (js : List Job) → length (filter (is_retried []) js) ≡ length (filter (has_state failed) js)
unfolding text_eq
retried-failed [] = refl
retried-failed (j ∷ js) = ground (arith, retried-failed js)

-- An unfiltered RetryFailed that the unique index lets through requeues as many jobs as Stats counted as
-- failed, and Stats counts none as failed after it.
retry_failed-stats :
    (now n : ℕ) (js ks : List Job)
    → retry_failed now [] js ≡ ok (n, ks)
    → (n ≡ stats failed js) × (stats failed ks ≡ 0)
unfolding retry_failed stats
retry_failed-stats now n js ks e =
    let upd = update (is_retried []) (requeue now) js in
    let g : List Job → Result Err (ℕ × List Job) =
      λ js'. ok (length (filter (is_retried []) js), js') in
    let (us, a, b) = >>=-eq-ok (commit upd) g e in
    let counts : length (filter (is_retried []) js) ≡ n = cc in
    let table : us ≡ ks = cc in
    let none_left =
      ap (λ xs. length (filter (has_state failed) xs)) (sym table ∙ (commit-ok upd a).0) in
    (sym counts ∙ retried-failed js, none_left ∙ requeued-none now js)
