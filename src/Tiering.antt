-- ===== src/Tiering.antt =====
-- server/internal/jobs/tiering/tiering.go: the policy that moves cold content to object storage,
-- one sweep of it, and the tier columns of the tables blobs and chunks. The tiered blob store's
-- Demote is the field of `Services`; times are numbers, and now() is an argument. That the bytes
-- are in the bucket is the list `cold_bytes` of the state.
pub mod Policies
pub mod Sweeping
pub mod Restoring
pub mod Touching
mod Examples
use private_cloud.Prelude.{
  ℕ, zero, suc, ◌+◌, ◌-◌, Bool, true, false, not, ◌&&◌, ◌||◌, Option, none, some, List, [], ◌∷◌,
  ◌++◌, map, Text, text_eq, filter, length, take, ltb, leb, ◌==◌, if◌then◌else◌, is_some, Result,
  ok, err, ℤ, pos, negsuc,
}

pub record Policy : Type 0 where
  pub min_age : ℤ
  pub min_idle : ℤ
  pub min_size : ℤ
  pub batch : ℤ

pub data Err : Type 0 where
  bad_min_age bad_min_idle bad_min_size bad_batch unknown_table no_connection : Err
  demotion_failed : Err

abbrev pub is_positive : ℤ → Bool
is_positive (pos n) = ltb 0 n
is_positive (negsuc n) = false

abbrev pub is_negative : ℤ → Bool
is_negative (pos n) = false
is_negative (negsuc n) = true

pub validate : Policy → Option Err
validate p =
    if not (is_positive p.min_age)
    then some bad_min_age
    else if not (is_positive p.min_idle)
    then some bad_min_idle
    else if is_negative p.min_size
    then some bad_min_size
    else if not (is_positive p.batch)
    then some bad_batch
    else none

-- A row of blobs or of chunks: `size` is what is on disk, `stored_size` for a chunk.
pub record Row : Type 0 where
  pub key : Text
  pub size : ℕ
  pub is_hot : Bool
  pub refcount : ℕ
  pub created_at : ℕ
  pub last_access_at : Option ℕ
  pub tiered_at : Option ℕ

pub data Table : Type 0 where
  blobs_table chunks_table other_table : Table

pub record Candidate : Type 0 where
  pub table : Table
  pub storage_key : Text
  pub size : ℕ

pub record Tables : Type 0 where
  pub blobs : List Row
  pub chunks : List Row

-- coalesce(last_access_at, created_at)
abbrev pub recency : Row → ℕ
recency r = elim r.last_access_at [ none ↦ r.created_at | some t ↦ t ]

-- t < now() - interval
abbrev pub before : ℕ → ℕ → ℤ → Bool
before t now (pos d) = ltb (t + d) now
before t now (negsuc d) = ltb t (now + suc d)

-- n >= $3
abbrev pub at_least : ℕ → ℤ → Bool
at_least n (pos m) = leb m n
at_least n (negsuc m) = true

-- The WHERE clause.
pub demotable : ℕ → Policy → Row → Bool
demotable now p r =
    r.is_hot
    && (ltb 0 r.refcount
        && (before r.created_at now p.min_age
            && (before (recency r) now p.min_idle && at_least r.size p.min_size)))

-- ORDER BY coalesce(last_access_at, created_at)
pub insert_by_recency : Row → List Row → List Row
insert_by_recency r [] = r ∷ []
insert_by_recency r (s ∷ ss) =
    if leb (recency r) (recency s) then r ∷ s ∷ ss else s ∷ insert_by_recency r ss

pub order_by_recency : List Row → List Row
unfolding insert_by_recency
order_by_recency [] = []
order_by_recency (r ∷ rs) = insert_by_recency r (order_by_recency rs)

abbrev pub candidate_of : Table → Row → Candidate
candidate_of t r = record { table = t; storage_key = r.key; size = r.size }

pub select_candidates : ℕ → Policy → Table → ℕ → List Row → List Candidate
unfolding demotable order_by_recency
select_candidates now p t limit rs =
    map (candidate_of t) (take limit (order_by_recency (filter (demotable now p) rs)))

pub two_selects : ℕ → Policy → Tables → ℕ → List Candidate
unfolding select_candidates
two_selects now p db batch =
    let out = select_candidates now p blobs_table batch db.blobs in
    let remaining = batch - length out in
    if remaining == 0 then out else out ++ select_candidates now p chunks_table remaining db.chunks

-- A negative LIMIT is an error of the database.
pub candidates : ℕ → Policy → Tables → Result Err (List Candidate)
unfolding two_selects
candidates now p db = elim p.batch [
  | negsuc n ↦ err no_connection
  | pos batch ↦ ok (two_selects now p db batch)
]

abbrev pub cool : ℕ → Text → Row → Row
cool now key r = if text_eq r.key key then record r { is_hot = false; tiered_at = some now } else r

pub mark_cold : ℕ → Table → Text → Tables → Result Err Tables
mark_cold now blobs_table key db = ok (record db { blobs = map (cool now key) db.blobs })
mark_cold now chunks_table key db = ok (record db { chunks = map (cool now key) db.chunks })
mark_cold now other_table key db = err unknown_table

abbrev pub heat : ℕ → Text → Row → Row
heat now key r =
    if text_eq r.key key && not r.is_hot
    then record r { is_hot = true; tiered_at = some now; last_access_at = some now }
    else r

pub mark_hot : ℕ → Text → Tables → Tables
mark_hot now key db = record {
  blobs = map (heat now key) db.blobs;
  chunks = map (heat now key) db.chunks;
}

-- Result: `demoted` and so on count candidates of the sweep.
pub record Sweep : Type 0 where
  pub considered : ℕ
  pub demoted : ℕ
  pub bytes_moved : ℕ
  pub failed : ℕ
  pub first_error : Option Err

-- The database, and the keys whose bytes are in the cold tier.
pub record World : Type 0 where
  pub db : Tables
  pub cold_bytes : List Text

-- TieredStore.Demote: the bytes that it moved, or none where it failed. `updates` is whether the
-- database carries out the UPDATE of MarkCold for the key.
pub record Services : Type 0 where
  pub demote : Text → World → Option ℕ
  pub updates : Text → World → Bool

abbrev pub answered : Bool → Result Err Tables → Result Err Tables
answered true r = r
answered false r = err no_connection

abbrev pub count_failure : Err → Sweep → Sweep
count_failure e s = record s {
  failed = s.failed + 1;
  first_error = elim s.first_error [ none ↦ some e | some f ↦ some f ];
}

-- What follows MarkCold in the loop, where `moved` bytes moved.
pub flip_row : ℕ → Sweep → World → Result Err Tables → Sweep × World
flip_row moved s w (err e) = (count_failure e s, w)
flip_row moved s w (ok db) = (
  record s { demoted = s.demoted + 1; bytes_moved = s.bytes_moved + moved },
  record w { db = db },
)

-- Demote has put the bytes into the cold tier where it reports that it moved some.
pub settle : ℕ → Candidate → Sweep → World → Bool → Option ℕ → Sweep × World
unfolding flip_row mark_cold
settle now c s w updated none = (count_failure demotion_failed s, w)
settle now c s w updated (some moved) =
    flip_row moved s (record w { cold_bytes = c.storage_key ∷ w.cold_bytes })
      (answered updated (mark_cold now c.table c.storage_key w.db))

-- One round of the loop for a candidate: the row is flipped after the bytes moved.
pub demote_one : Services → ℕ → Candidate → Sweep × World → Sweep × World
unfolding settle
demote_one v now c (s, w) = settle now c s w (v.updates c.storage_key w) (v.demote c.storage_key w)

-- The loop; ctx.Err() is asked before each candidate, and is the list of its answers.
pub demote_all : Services → ℕ → List Bool → List Candidate → Sweep × World → Sweep × World
unfolding demote_one
demote_all v now gone [] sw = sw
demote_all v now (true ∷ gone) (c ∷ cs) sw = sw
demote_all v now (false ∷ gone) (c ∷ cs) sw = demote_all v now gone cs (demote_one v now c sw)
demote_all v now [] (c ∷ cs) sw = demote_all v now [] cs (demote_one v now c sw)

abbrev pub start : ℕ → Sweep
start n = record { considered = n; demoted = 0; bytes_moved = 0; failed = 0; first_error = none }

pub sweep : Services → ℕ → List Bool → Policy → World → Result Err (Sweep × World)
unfolding candidates demote_all
sweep v now gone p w = elim (candidates now p w.db) [
  | err e ↦ err e
  | ok cs ↦ ok (demote_all v now gone cs (start (length cs), w))
]

-- What the handler of a job of the kind returns.
pub data Outcome : Type 0 where
  succeeded : Outcome
  no_sweep : Err → Outcome
  demoted_nothing : ℕ → Option Err → Outcome

-- Handle: what it returns, and the state it leaves.
pub handle : Services → ℕ → List Bool → Policy → World → Outcome × World
unfolding sweep
handle v now gone p w = elim (sweep v now gone p w) [
  | err e ↦ (no_sweep e, w)
  | ok (s, w') ↦
      if ltb 0 s.failed && s.demoted == 0
      then (demoted_nothing s.failed s.first_error, w')
      else (succeeded, w')
]
