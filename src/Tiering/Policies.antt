-- ===== src/Tiering/Policies.antt =====
-- What Candidates selects: rows that the policy allows, no more of them than the batch.
use private_cloud.Prelude.{
  ◌<◌, ◌+◌, ap, some, none, ltb, tests, ℕ, ◌-◌, ◌≤◌, ◌≡◌, refl, Bool, true, false, List, [], ◌∷◌,
  ◌++◌, ◌⊎◌, inl, inr, map, Has, filter, take, length, Has-filter, Has-take, Has-append,
  length-append, length-take, pos, ok, arith, ◌==◌, if◌then◌else◌,
}
use private_cloud.Tiering.{
  Policy, Row, Table, blobs_table, chunks_table, Candidate, Tables, demotable, before, recency,
  at_least, insert_by_recency, order_by_recency, candidate_of, select_candidates, two_selects,
  candidates,
}

Has-insert : (r s : Row) (rs : List Row) → Has s (insert_by_recency r rs) → (s ≡ r) ⊎ Has s rs
unfolding insert_by_recency
Has-insert r s [] m = m
Has-insert r s (t ∷ ts) m = ground (arith, Has-insert r s ts)

Has-order : (rs : List Row) (s : Row) → Has s (order_by_recency rs) → Has s rs
unfolding order_by_recency
Has-order [] s m = m
Has-order (r ∷ rs) s m = ground (arith, Has-insert r s (order_by_recency rs), Has-order rs s)

-- A row that the policy allows to move.
pub record Allowed (now : ℕ) (p : Policy) (r : Row) : Type 0 where
  pub hot : r.is_hot ≡ true
  pub referenced : 0 < r.refcount
  pub old : (age : ℕ) → p.min_age ≡ pos age → r.created_at + age < now
  pub idle : (idle t : ℕ) → p.min_idle ≡ pos idle → r.last_access_at ≡ some t → t + idle < now
  pub never_read :
      (idle : ℕ) → p.min_idle ≡ pos idle → r.last_access_at ≡ none → r.created_at + idle < now
  pub large : (m : ℕ) → p.min_size ≡ pos m → m ≤ r.size

-- The row of a candidate: it is in the table, and the policy allows it to move.
pub record Sourced (now : ℕ) (p : Policy) (t : Table) (rs : List Row) (c : Candidate) : Type 0 where
  pub row : Row
  pub present : Has row rs
  pub allowed : Allowed now p row
  pub table : c.table ≡ t
  pub key : c.storage_key ≡ row.key
  pub size : c.size ≡ row.size

demotable-Allowed : (now : ℕ) (p : Policy) (r : Row) → demotable now p r ≡ true → Allowed now p r
unfolding demotable
demotable-Allowed now p r h =
    let hot : r.is_hot ≡ true = ground arith in
    let used : ltb 0 r.refcount ≡ true = ground arith in
    let aged : before r.created_at now p.min_age ≡ true = ground arith in
    let unread : before (recency r) now p.min_idle ≡ true = ground arith in
    let big : at_least r.size p.min_size ≡ true = ground arith in
    record {
      hot = hot;
      referenced = omega (tests, used);
      old = λ age e. omega (tests, rw e at aged);
      idle = λ idle t e f. omega (tests, rw (e, f) at unread);
      never_read = λ idle e f. omega (tests, rw (e, f) at unread);
      large = λ m e. omega (tests, rw e at big);
    }

Has-map-inv :
    {A B : Type 0} (f : A → B) (xs : List A) (b : B)
    → Has b (map f xs)
    → (a : A) × Has a xs × (b ≡ f a)
Has-map-inv f [] b m = absurd m
Has-map-inv f (x ∷ xs) b (inl e) = (x, inl refl, e)
Has-map-inv f (x ∷ xs) b (inr m) = let (a, h, e) = Has-map-inv f xs b m in (a, inr h, e)

select-Sourced :
    (now : ℕ) (p : Policy) (t : Table) (n : ℕ) (rs : List Row) (c : Candidate)
    → Has c (select_candidates now p t n rs)
    → Sourced now p t rs c
unfolding select_candidates
select-Sourced now p t n rs c m =
    let (r, h, e) =
      Has-map-inv (candidate_of t) (take n (order_by_recency (filter (demotable now p) rs))) c m in
    let (k, d) =
      Has-filter (demotable now p) rs r
        (Has-order (filter (demotable now p) rs) r (Has-take n _ r h)) in
    record {
      row = r;
      present = k;
      allowed = demotable-Allowed now p r d;
      table = ap (λ (x : Candidate). x.table) e;
      key = ap (λ (x : Candidate). x.storage_key) e;
      size = ap (λ (x : Candidate). x.size) e;
    }

length-map : {A B : Type 0} (f : A → B) (xs : List A) → length (map f xs) ≡ length xs
length-map f [] = refl
length-map f (x ∷ xs) = omega (arith, length-map f xs)

length-select :
    (now : ℕ) (p : Policy) (t : Table) (n : ℕ) (rs : List Row)
    → length (select_candidates now p t n rs) ≤ n
unfolding select_candidates
length-select now p t n rs =
    let xs = order_by_recency (filter (demotable now p) rs) in
    omega (arith, length-map (candidate_of t) (take n xs), length-take n xs)

-- The candidates of a batch, and the rows that they come from.
pub record Selects (now : ℕ) (p : Policy) (db : Tables) (batch : ℕ) (cs : List Candidate)
    : Type 0 where
  pub bounded : length cs ≤ batch
  pub sourced :
      (c : Candidate)
      → Has c cs
      → Sourced now p blobs_table db.blobs c ⊎ Sourced now p chunks_table db.chunks c

joined-le :
    {A : Type 0} (n : ℕ) (xs ys : List A)
    → length xs ≤ n
    → length ys ≤ n - length xs
    → length (if n - length xs == 0 then xs else xs ++ ys) ≤ n
joined-le n xs ys hx hy = ground (arith, length-append xs ys)

Has-joined :
    {A : Type 0} (b : Bool) (xs ys : List A) (a : A)
    → Has a (if b then xs else xs ++ ys)
    → Has a xs ⊎ Has a ys
Has-joined true xs ys a m = inl m
Has-joined false xs ys a m = Has-append xs ys a m

both-Selects :
    (now : ℕ) (p : Policy) (db : Tables) (batch : ℕ)
    → Selects now p db batch (two_selects now p db batch)
unfolding two_selects
both-Selects now p db batch =
    let xs = select_candidates now p blobs_table batch db.blobs in
    let ys = select_candidates now p chunks_table (batch - length xs) db.chunks in
    record {
      bounded =
          joined-le batch xs ys (length-select now p blobs_table batch db.blobs)
            (length-select now p chunks_table (batch - length xs) db.chunks);
      sourced = λ c m. elim (Has-joined (batch - length xs == 0) xs ys c m) [
        | inl h ↦ inl (select-Sourced now p blobs_table batch db.blobs c h)
        | inr h ↦ inr (select-Sourced now p chunks_table (batch - length xs) db.chunks c h)
      ];
    }

candidates-eq :
    (now : ℕ) (p : Policy) (db : Tables) (batch : ℕ)
    → p.batch ≡ pos batch
    → candidates now p db ≡ ok (two_selects now p db batch)
unfolding candidates
candidates-eq now p db batch h = cc

-- For a policy with a batch that is not negative, Candidates answers, with no more candidates than the
-- batch, the blobs and the chunks together. Each is a row of the table that it names, with the row's key and
-- size; the row is hot and referenced, was created longer ago than the least age, was last read (or,
-- if never, created) longer ago than the least idle time, and is no smaller than the least size, as far
-- as these are not negative.
pub candidates-Selects :
    (now : ℕ) (p : Policy) (db : Tables) (batch : ℕ)
    → p.batch ≡ pos batch
    → (cs : List Candidate) × (candidates now p db ≡ ok cs) × Selects now p db batch cs
candidates-Selects now p db batch h =
    (two_selects now p db batch, candidates-eq now p db batch h, both-Selects now p db batch)
