-- ===== src/Jobs.antt =====
-- server/internal/jobs/store.go: the durable work queue, its state machine and its statements.
pub mod Table
pub mod Invariant
pub mod Steps
pub mod Claim
pub mod Taking
pub mod Retry
pub mod Drain
pub mod Bulk
mod Examples
use private_cloud.Prelude.{
  ℕ, ◌+◌, ◌*◌, ◌-◌, ◌^◌, ◌≤◌, ◌≡◌, min, Bool, true, false, not, ◌&&◌, ◌||◌, Option, none, some,
  List, [], ◌∷◌, ◌++◌, Text, codes, text_eq, any, filter, length, take, ltb, leb, ◌==◌,
  if◌then◌else◌, Result, ok, err, ◌>>=◌,
}
use Table.{
  State, queued, running, done, failed, Job, Err, no_job, owner_queue_full, unique_violation,
  is_queued, is_running, is_failed, is_pending, same_node, clash, unique_pending, commit, update,
}

abbrev pub default_max_attempts : ℕ
default_max_attempts = 5

-- One second and one hour, in microseconds.
abbrev pub second : ℕ
second = 1_000_000

abbrev pub hour : ℕ
hour = 3_600_000_000

abbrev pub max_error : ℕ
max_error = 2000

-- `cause` is the text of the error, none for a nil error.
pub trunc_err : Option Text → Text
trunc_err none = []
trunc_err (some s) = if ltb max_error (length s) then take max_error s else s

-- SELECT count(*) FROM jobs WHERE owner_id = $1 AND state = 'queued'
pub queued_count : ℕ → List Job → ℕ
queued_count owner js = length (filter (λ j. j.owner_id == owner && is_queued j.state) js)

-- The row that INSERT INTO jobs makes, with the column defaults.
abbrev pub fresh : ℕ → ℕ → Text → Option ℕ → ℕ → Job
fresh id now kind node owner = record {
  id = id;
  kind = kind;
  node_id = node;
  owner_id = owner;
  state = queued;
  attempts = 0;
  max_attempts = default_max_attempts;
  run_after = now;
  claimed_at = none;
  last_error = none;
  created_at = now;
  updated_at = now;
}

-- INSERT ... ON CONFLICT (kind, node_id) WHERE state IN ('queued','running') DO NOTHING
pub insert : Job → List Job → Option ℕ × List Job
unfolding clash
insert j js = if any (clash j) js then (none, js) else (some j.id, js ++ j ∷ [])

-- `id` is what gen_random_uuid() gives. The count and the insert are two statements outside of a
-- transaction: `counted` is the table that the count sees, `js` the one that the insert sees. A cap of 0
-- (or below) is no cap.
pub enqueue :
    ℕ → ℕ → Text → Option ℕ → ℕ → ℕ → List Job → List Job → Result Err (Option ℕ × List Job)
unfolding insert queued_count
enqueue id now kind node owner cap counted js =
    if ltb 0 cap && leb cap (queued_count owner counted)
    then err owner_queue_full
    else ok (insert (fresh id now kind node owner) js)

-- state = 'queued' AND run_after <= now() AND kind = ANY($1), and the row is not locked by another
-- transaction (SKIP LOCKED).
pub runnable : ℕ → List Text → List ℕ → Job → Bool
runnable now kinds locked j =
    is_queued j.state
    && leb j.run_after now
    && any (text_eq j.kind) kinds
    && not (any (λ i. j.id == i) locked)

-- ORDER BY run_after LIMIT 1. Among rows of one time the database may return any: here the first
-- of the table, whose order is arbitrary.
pub oldest : List Job → Option Job
oldest [] = none
oldest (j ∷ js) = elim (oldest js) [
  | none ↦ some j
  | some k ↦ if leb j.run_after k.run_after then some j else some k
]

abbrev pub start : ℕ → Job → Job
start now j = record j {
  state = running;
  attempts = j.attempts + 1;
  claimed_at = some now;
  updated_at = now;
}

abbrev pub has_id : ℕ → Job → Bool
has_id id j = j.id == id

-- The update of one statement that the unique index may refuse.
pub claim : ℕ → List Text → List ℕ → List Job → Result Err (Job × List Job)
unfolding runnable oldest commit
claim now kinds locked js = elim (oldest (filter (runnable now kinds locked) js)) [
  | none ↦ err no_job
  | some j ↦ do js' ← commit (update (has_id j.id) (start now) js); ok (start now j, js')
]

abbrev pub finish : ℕ → Job → Job
finish now j = record j { state = done; last_error = none; updated_at = now }

pub complete : ℕ → ℕ → List Job → Result Err (List Job)
unfolding commit
complete now id js = commit (update (has_id id) (finish now) js)

-- CASE WHEN attempts >= max_attempts THEN 'failed' ELSE 'queued' END
abbrev pub retry_state : Job → State
retry_state j = if leb j.max_attempts j.attempts then failed else queued

-- LEAST(power(2, attempts) * interval '1 second', interval '1 hour')
abbrev pub backoff : ℕ → ℕ
backoff attempts = min (2 ^ attempts * second) hour

abbrev pub give_back : ℕ → Text → Job → Job
give_back now message j = record j {
  state = retry_state j;
  run_after = now + backoff j.attempts;
  last_error = some message;
  updated_at = now;
}

-- `fail` in the source's words; the row is chosen by its id alone.
pub fail : ℕ → ℕ → Option Text → List Job → Result Err (List Job)
unfolding commit trunc_err
fail now id cause js = commit (update (has_id id) (give_back now (trunc_err cause)) js)

-- claimed_at < now() - lease; a NULL compares as not true.
abbrev pub lapsed : ℕ → ℕ → Option ℕ → Bool
lapsed now lease none = false
lapsed now lease (some t) = ltb (t + lease) now

abbrev pub is_stale : ℕ → ℕ → Job → Bool
is_stale now lease j = is_running j.state && lapsed now lease j.claimed_at

abbrev pub reclaim : ℕ → Job → Job
reclaim now j = record j {
  state = retry_state j;
  last_error = some (codes "worker lease expired");
  updated_at = now;
}

pub reap_stale : ℕ → ℕ → List Job → Result Err (ℕ × List Job)
unfolding commit
reap_stale now lease js = do
  js' ← commit (update (is_stale now lease) (reclaim now) js)
  ok (length (filter (is_stale now lease) js), js')

-- state IN ('done','failed') AND updated_at < now() - retention
abbrev pub is_finished : ℕ → ℕ → Job → Bool
is_finished now retention j = not (is_pending j.state) && ltb (j.updated_at + retention) now

pub delete_finished : ℕ → ℕ → List Job → ℕ × List Job
delete_finished now retention js = (
  length (filter (is_finished now retention) js),
  filter (λ j. not (is_finished now retention j)) js,
)

-- state = 'queued' AND attempts = 0 AND created_at < now() - ttl
abbrev pub is_unclaimed : ℕ → ℕ → Job → Bool
is_unclaimed now ttl j = is_queued j.state && j.attempts == 0 && ltb (j.created_at + ttl) now

pub delete_stale_queued : ℕ → ℕ → List Job → ℕ × List Job
delete_stale_queued now ttl js =
    (length (filter (is_unclaimed now ttl) js), filter (λ j. not (is_unclaimed now ttl j)) js)

abbrev pub is_retried : Text → Job → Bool
is_retried kind j = is_failed j.state && (text_eq kind [] || text_eq j.kind kind)

abbrev pub requeue : ℕ → Job → Job
requeue now j = record j {
  state = queued;
  attempts = 0;
  run_after = now;
  last_error = none;
  updated_at = now;
}

-- An empty kind retries every failed job.
pub retry_failed : ℕ → Text → List Job → Result Err (ℕ × List Job)
unfolding commit
retry_failed now kind js = do
  js' ← commit (update (is_retried kind) (requeue now) js)
  ok (length (filter (is_retried kind) js), js')
