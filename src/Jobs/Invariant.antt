-- ===== src/Jobs/Invariant.antt =====
-- server/internal/jobs/store.go: what holds of the queue's table between two statements.
use private_cloud.Prelude.{
  ◌≤◌, ◌<◌, ◌≡◌, refl, sym, ap, ◌∙◌, All-Has, ◌≢◌, inl, inr, Bool, true, false, List, [], ◌∷◌, ◌++◌,
  map, text_eq_iff, any, filter, Has, All, All-filter, All-append, arith,
}
use private_cloud.Jobs.Table.{Job, queued, running, failed, is_pending, clash, unique_pending}

-- What holds of each row.
pub record IsSound (j : Job) : Type 0 where
  pub budget : 0 < j.max_attempts
  pub bounded : j.attempts ≤ j.max_attempts
  pub queued_left : j.state ≡ queued → j.attempts < j.max_attempts
  pub running_counted : j.state ≡ running → 0 < j.attempts
  pub failed_spent : j.state ≡ failed → j.attempts ≡ j.max_attempts

-- The primary key.
abbrev pub DistinctIds : List Job → Type 0
DistinctIds [] = Unit
DistinctIds (j ∷ js) = All (λ k. k.id ≢ j.id) js × DistinctIds js

pub record IsValid (js : List Job) : Type 0 where
  pub rows : All IsSound js
  pub ids : DistinctIds js
  pub pending : unique_pending js ≡ true

pub empty-IsValid : IsValid []
unfolding unique_pending
empty-IsValid = record { rows = tt; ids = tt; pending = refl }

-- An update of a row that keeps the indexed columns and does not make the row pending.
pub record Shrinks (f : Job → Job) (j : Job) : Type 0 where
  pub kept_kind : (f j).kind ≡ j.kind
  pub kept_node : (f j).node_id ≡ j.node_id
  pub no_new : is_pending (f j).state ≡ true → is_pending j.state ≡ true

clash-Shrinks :
    (f : Job → Job) (j k : Job)
    → Shrinks f j
    → Shrinks f k
    → clash (f j) (f k) ≡ true
    → clash j k ≡ true
unfolding clash
clash-Shrinks f j k hj hk e = ground arith

any-Shrinks :
    (f : Job → Job) (j : Job) (js : List Job)
    → Shrinks f j
    → All (Shrinks f) js
    → any (clash (f j)) (map f js) ≡ true
    → any (clash j) js ≡ true
any-Shrinks f j [] hj h e = e
any-Shrinks f j (k ∷ js) hj h e =
    ground (arith, clash-Shrinks f j k hj h.0, any-Shrinks f j js hj h.1)

-- Such an update never meets the unique index.
pub unique_pending-map :
    (f : Job → Job) (js : List Job)
    → All (Shrinks f) js
    → unique_pending js ≡ true
    → unique_pending (map f js) ≡ true
unfolding unique_pending
unique_pending-map f [] h u = u
unique_pending-map f (j ∷ js) h u =
    ground (arith, any-Shrinks f j js h.0 h.1, unique_pending-map f js h.1)

any-filter : (p q : Job → Bool) (js : List Job) → any p (filter q js) ≡ true → any p js ≡ true
any-filter p q [] e = e
any-filter p q (j ∷ js) e = ground (arith, any-filter p q js)

pub unique_pending-filter :
    (q : Job → Bool) (js : List Job)
    → unique_pending js ≡ true
    → unique_pending (filter q js) ≡ true
unfolding unique_pending
unique_pending-filter q [] u = u
unique_pending-filter q (j ∷ js) u =
    ground (arith, any-filter (clash j) q js, unique_pending-filter q js)

clash_comm : (j k : Job) → clash j k ≡ true → clash k j ≡ true
unfolding clash
clash_comm j k e = ground (arith, text_eq_iff j.kind k.kind, text_eq_iff k.kind j.kind)

any-snoc :
    (n j : Job) (js : List Job)
    → any (clash j) js ≡ false
    → clash j n ≡ false
    → any (clash j) (js ++ n ∷ []) ≡ false
any-snoc n j [] e h = ground arith
any-snoc n j (k ∷ js) e h = ground (arith, any-snoc n j js)

pub unique_pending-snoc :
    (n : Job) (js : List Job)
    → unique_pending js ≡ true
    → any (clash n) js ≡ false
    → unique_pending (js ++ n ∷ []) ≡ true
unfolding unique_pending
unique_pending-snoc n [] u e = refl
unique_pending-snoc n (j ∷ js) u e =
    ground (arith, any-snoc n j js, clash_comm j n, unique_pending-snoc n js)

-- Distinct keys survive the same changes.
map-DistinctIds :
    (f : Job → Job)
    → ((j : Job) → (f j).id ≡ j.id)
    → (js : List Job) → DistinctIds js
    → DistinctIds (map f js)
map-DistinctIds f keep [] d = tt
map-DistinctIds f keep (j ∷ js) d = (other js d.0, map-DistinctIds f keep js d.1)
  where
    other : (ks : List Job) → All (λ k. k.id ≢ j.id) ks → All (λ k. k.id ≢ (f j).id) (map f ks)
    other [] n = tt
    other (k ∷ ks) n = ((λ e. n.0 (sym (keep k) ∙ e ∙ keep j)), other ks n.1)

filter-DistinctIds : (q : Job → Bool) (js : List Job) → DistinctIds js → DistinctIds (filter q js)
filter-DistinctIds q [] d = tt
filter-DistinctIds q (j ∷ js) d =
    let rest = filter-DistinctIds q js d.1 in
    let apart = All-filter (λ k. k.id ≢ j.id) q js d.0 in ground arith

snoc-DistinctIds :
    (n : Job) (js : List Job)
    → DistinctIds js
    → All (λ k. k.id ≢ n.id) js
    → DistinctIds (js ++ n ∷ [])
snoc-DistinctIds n [] d h = (tt, tt)
snoc-DistinctIds n (j ∷ js) d h = (
  All-append (λ k. k.id ≢ j.id) js (n ∷ []) d.0 ((λ e. h.0 (sym e)), tt),
  snoc-DistinctIds n js d.1 h.1,
)

-- One row bears one key.
pub row_unique :
    (j k : Job) (js : List Job) → DistinctIds js → Has j js → Has k js → k.id ≡ j.id → k ≡ j
row_unique j k [] d hj hk e = absurd hj
row_unique j k (x ∷ js) d (inl p) (inl q) e = q ∙ sym p
row_unique j k (x ∷ js) d (inl p) (inr q) e =
    absurd (All-Has (λ y. y.id ≢ x.id) js k d.0 q (e ∙ ap (λ (y : Job). y.id) p))
row_unique j k (x ∷ js) d (inr p) (inl q) e =
    absurd (All-Has (λ y. y.id ≢ x.id) js j d.0 p (sym e ∙ ap (λ (y : Job). y.id) q))
row_unique j k (x ∷ js) d (inr p) (inr q) e = row_unique j k js d.1 p q e

pub map-IsValid :
    (f : Job → Job)
    → ((j : Job) → (f j).id ≡ j.id)
    → (js : List Job) → All (λ j. IsSound (f j)) js
    → unique_pending (map f js) ≡ true
    → IsValid js
    → IsValid (map f js)
map-IsValid f keep js sound u v = record {
  rows = rows js sound;
  ids = map-DistinctIds f keep js v.ids;
  pending = u;
}
  where
    rows : (ks : List Job) → All (λ j. IsSound (f j)) ks → All IsSound (map f ks)
    rows [] g = tt
    rows (k ∷ ks) g = (g.0, rows ks g.1)

pub filter-IsValid : (q : Job → Bool) (js : List Job) → IsValid js → IsValid (filter q js)
filter-IsValid q js v = record {
  rows = All-filter IsSound q js v.rows;
  ids = filter-DistinctIds q js v.ids;
  pending = unique_pending-filter q js v.pending;
}

pub snoc-IsValid :
    (n : Job) (js : List Job)
    → IsSound n
    → All (λ k. k.id ≢ n.id) js
    → any (clash n) js ≡ false
    → IsValid js
    → IsValid (js ++ n ∷ [])
snoc-IsValid n js s h e v = record {
  rows = All-append IsSound js (n ∷ []) v.rows (s, tt);
  ids = snoc-DistinctIds n js v.ids h;
  pending = unique_pending-snoc n js v.pending e;
}
