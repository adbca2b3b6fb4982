-- ===== src/Jobs/Table.antt =====
-- server/internal/jobs/store.go, the row type and the `jobs` table: a list of rows in the order in
-- which the database holds them. A uuid is a number, a time the count of microseconds (the
-- resolution of timestamptz), a SQL statement a function of the table and of now().
use private_cloud.Prelude.{
  ℕ, Bool, true, false, not, ◌&&◌, Option, none, some, List, [], ◌∷◌, map, Text, text_eq, any, ◌==◌,
  if◌then◌else◌, Result, ok, err,
}

pub data State : Type 0 where
  queued running done failed : State

pub record Job : Type 0 where
  pub id : ℕ
  pub kind : Text
  pub node_id : Option ℕ
  pub owner_id : ℕ
  pub state : State
  pub attempts : ℕ
  pub max_attempts : ℕ
  pub run_after : ℕ
  pub claimed_at : Option ℕ
  pub last_error : Option Text
  pub created_at : ℕ
  pub updated_at : ℕ

pub data Err : Type 0 where
  no_job owner_queue_full unique_violation : Err

abbrev pub is_queued : State → Bool
is_queued queued = true
is_queued running = false
is_queued done = false
is_queued failed = false

abbrev pub is_running : State → Bool
is_running queued = false
is_running running = true
is_running done = false
is_running failed = false

abbrev pub is_failed : State → Bool
is_failed queued = false
is_failed running = false
is_failed done = false
is_failed failed = true

-- state IN ('queued','running')
abbrev pub is_pending : State → Bool
is_pending queued = true
is_pending running = true
is_pending done = false
is_pending failed = false

-- Equality of a nullable column in SQL: NULL equals nothing.
abbrev pub same_node : Option ℕ → Option ℕ → Bool
same_node none n = false
same_node (some m) none = false
same_node (some m) (some n) = m == n

-- Two rows that the unique index on (kind, node_id) WHERE state IN ('queued','running') excludes.
unfoldable pub clash : Job → Job → Bool
clash j k =
    is_pending j.state
    && is_pending k.state
    && text_eq j.kind k.kind
    && same_node j.node_id k.node_id

unfoldable pub unique_pending : List Job → Bool
unfolding clash
unique_pending [] = true
unique_pending (j ∷ js) = not (any (clash j) js) && unique_pending js

-- The database's answer to a statement that leaves the table as `js`: it refuses the whole
-- statement if the unique index is broken.
unfoldable pub commit : List Job → Result Err (List Job)
unfolding unique_pending
commit js = if unique_pending js then ok js else err unique_violation

-- UPDATE jobs SET ... WHERE ...
abbrev pub update : (Job → Bool) → (Job → Job) → List Job → List Job
update where_ set_ js = map (λ j. if where_ j then set_ j else j) js
