-- ===== src/Jobs/Taking.antt =====
-- server/internal/jobs/store.go, Claim: what it returns and leaves, row by row.
use private_cloud.Prelude.{ℕ, ◌+◌, ◌≤◌, ◌≡◌, ◌≢◌, ◌⊎◌, some, List, Text, Has}
use private_cloud.Jobs.Table.{Job, queued, running}

-- A row that a worker may take: queued, due, of a kind asked for, and not locked.
pub record MayRun (now : ℕ) (kinds : List Text) (locked : List ℕ) (j : Job) : Type 0 where
  pub waits : j.state ≡ queued
  pub due : j.run_after ≤ now
  pub asked : Has j.kind kinds
  pub free : (i : ℕ) → Has i locked → i ≢ j.id

-- The row `j` is `row` with the marks of a claim.
pub record Marked (now : ℕ) (row j : Job) : Type 0 where
  pub runs : j.state ≡ running
  pub counted : j.attempts ≡ row.attempts + 1
  pub claimed_at : j.claimed_at ≡ some now
  pub updated_at : j.updated_at ≡ now
  pub id : j.id ≡ row.id
  pub kind : j.kind ≡ row.kind
  pub node_id : j.node_id ≡ row.node_id
  pub owner_id : j.owner_id ≡ row.owner_id
  pub max_attempts : j.max_attempts ≡ row.max_attempts
  pub run_after : j.run_after ≡ row.run_after

pub record Claims (now : ℕ) (kinds : List Text) (locked : List ℕ) (js : List Job) (j : Job)
    (ks : List Job) : Type 0 where
  pub row : Job
  pub present : Has row js
  pub eligible : MayRun now kinds locked row
  pub first : (k : Job) → Has k js → MayRun now kinds locked k → row.run_after ≤ k.run_after
  pub marked : Marked now row j
  pub replaced : Has j ks
  pub others : (k : Job) → Has k js → k.id ≢ row.id → Has k ks
  pub no_more : (k : Job) → Has k ks → (k.id ≡ row.id) ⊎ Has k js
