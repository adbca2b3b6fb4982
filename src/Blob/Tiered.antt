-- ===== src/Blob/Tiered.antt =====
-- server/internal/blob/tiered.go: TieredStore, a store on the local disk with an object store behind
-- it. The object store is any that answers the calls of `Cold`. A promotion starts (begin) and ends
-- (finish) in two steps, and Open takes several: what other calls do to the store between them is an
-- argument (`Pauses`). Each other operation is one step.
pub mod Demoting
pub mod Contents
pub mod Visible
pub mod Persisting
pub mod Runs
pub mod Resting
pub mod Answers
use private_cloud.Prelude.{
  ℕ, ◌+◌, Bool, true, false, not, ◌&&◌, Option, none, some, List, [], ◌∷◌, Text, text_eq, any,
  filter, length, ◌==◌, if◌then◌else◌, Result, ok, err, ◌>>=◌,
}
use private_cloud.Blob.Keys.{
  Call, read, Err, not_found, io, no_cold_tier, cold_mismatch, restoring, cancelled,
}
use private_cloud.Blob.Disk.{
  Fs, Faults, Put, put, stat, open_file, put_keyed, delete, Appended, Copied, create_partial,
  append_partial, commit_partial, stat_partial, remove_partial,
}

-- The object store: Open answers a reader, which yields the bytes or fails.
pub record Cold (S : Type 0) : Type 0 where
  pub put_object : Text → Result Err Text → S → Result Err Bool × S
  pub get_object : Text → S → Result Err (Result Err Text) × S
  pub stat_object : Text → S → Result Err ℕ × S
  pub delete_object : Text → S → Result Err (Unit {0}) × S

-- A call of the TierRecorder.
pub data Note : Type 0 where
  mark_hot touch : Text → Note

pub record Tier (S : Type 0) : Type 0 where
  pub hot : Fs
  pub cold : S
  pub inflight : List Text
  pub notes : List Note

-- How the select of Warm ends.
pub data Waited : Type 0 where
  finished timed_out context_done : Waited

-- What the other calls do to the store while Open has not gone on: after its first look at the local
-- disk, while it waits for a promotion, and once Warm has come back.
pub record Pauses (S : Type 0) : Type 0 where
  pub missed : Tier S → Tier S
  pub waiting : Tier S → Tier S
  pub warmed : Tier S → Tier S

-- What fails in the first call of the local store, in the second, and so on.
abbrev pub Weather : Type 0
Weather = ℕ → Faults

abbrev pub note : {S : Type 0} → Note → Tier S → Tier S
note n t = record t { notes = n ∷ t.notes }

abbrev pub on_hot : {S A : Type 0} → Tier S → A × Fs → A × Tier S
on_hot t (a, fs) = (a, record t { hot = fs })

abbrev pub on_cold : {S A : Type 0} → Tier S → A × S → A × Tier S
on_cold t (a, s) = (a, record t { cold = s })

abbrev pub read_all : Faults → Text → Result Err Text
read_all fails bytes = if fails read then err (io read) else ok bytes

-- The digest and the length of the local bytes.
unfoldable pub digest_local : (Text → Text) → Faults → Text → Fs → Result Err (Text × ℕ)
unfolding open_file
digest_local sum fails key fs = do
  file ← open_file fails key fs
  bytes ← read_all fails file
  ok (sum bytes, length bytes)

-- What Demote has before it calls the object store: that, and the file opened once more.
unfoldable pub local_copy : (Text → Text) → Weather → Text → Fs → Result Err ((Text × ℕ) × Text)
unfolding digest_local open_file
local_copy sum fails key fs = do
  want ← digest_local sum (fails 0) key fs
  src ← open_file (fails 1) key fs
  ok (want, src)

module _ {S : Type 0} where
  unfoldable pub tiered_put :
      (Text → Text) → Faults → Text → Result Err Text → Tier S → Result Err Put × Tier S
  unfolding put
  tiered_put sum fails raw reader t = on_hot t (put sum fails raw reader t.hot)

  -- After the stat of the object: one that is there is not written again.
  unfoldable pub put_absent :
      Faults → Text → Result Err Text → Tier S → Result Err ℕ × S → Result Err Bool × Tier S
  unfolding put_keyed
  put_absent fails key reader t (ok n, s) = (ok true, record t { cold = s })
  put_absent fails key reader t (err not_found, s) =
      on_hot (record t { cold = s }) (put_keyed fails key reader t.hot)
  put_absent fails key reader t (err e, s) = (err e, record t { cold = s })

  unfoldable pub tiered_put_keyed :
      Option (Cold S) → Weather → Text → Result Err Text → Tier S → Result Err Bool × Tier S
  unfolding put_absent stat put_keyed
  tiered_put_keyed none fails key reader t = on_hot t (put_keyed (fails 1) key reader t.hot)
  tiered_put_keyed (some c) fails key reader t = elim (stat (fails 0) key t.hot) [
    | err not_found ↦ put_absent (fails 1) key reader t (c.stat_object key t.cold)
    | ok n ↦ on_hot t (put_keyed (fails 1) key reader t.hot)
    | err e ↦ on_hot t (put_keyed (fails 1) key reader t.hot)
  ]

  -- begin, up to the goroutine.
  unfoldable pub begin : Text → Tier S → Tier S
  begin key t = if any (text_eq key) t.inflight then t else record t { inflight = key ∷ t.inflight }

  -- promote, after the bytes are local or not.
  unfoldable pub promoted : Text → Tier S → Result Err Bool × Fs → Result Err (Unit {0}) × Tier S
  promoted key t (err e, fs) = (err e, record t { hot = fs })
  promoted key t (ok existed, fs) = (ok tt, note (mark_hot key) (record t { hot = fs }))

  unfoldable pub promote_from :
      Faults → Text → Tier S → Result Err (Result Err Text) × S → Result Err (Unit {0}) × Tier S
  unfolding promoted put_keyed
  promote_from fails key t (err e, s) = (err e, record t { cold = s })
  promote_from fails key t (ok reader, s) =
      promoted key (record t { cold = s }) (put_keyed fails key reader t.hot)

  unfoldable pub promote : Cold S → Faults → Text → Tier S → Result Err (Unit {0}) × Tier S
  unfolding promote_from
  promote c fails key t = promote_from fails key t (c.get_object key t.cold)

  -- The goroutine of begin: the promotion, which then is no longer in flight.
  unfoldable pub finish : Cold S → Faults → Text → Tier S → Result Err (Unit {0}) × Tier S
  unfolding promote
  finish c fails key t =
      let out = promote c fails key t in
      (out.0, record out.1 { inflight = filter (λ k. not (text_eq key k)) out.1.inflight })

  unfoldable pub wait_for :
      Cold S → Faults → Waited → (Tier S → Tier S) → Text → Tier S → Result Err (Unit {0}) × Tier S
  unfolding finish
  wait_for c fails finished waiting key t = finish c fails key (waiting t)
  wait_for c fails timed_out waiting key t = (err restoring, waiting t)
  wait_for c fails context_done waiting key t = (err cancelled, waiting t)

  unfoldable pub warm :
      Option (Cold S)
      → Weather
      → Waited
      → (Tier S → Tier S)
      → Text
      → Tier S
      → Result Err (Unit {0}) × Tier S
  unfolding stat begin wait_for
  warm none fails w waiting key t = (err not_found, t)
  warm (some c) fails w waiting key t = elim (stat (fails 0) key t.hot) [
    | ok n ↦ (ok tt, t)
    | err not_found ↦ wait_for c (fails 1) w waiting key (begin key t)
    | err e ↦ (err e, t)
  ]

  unfoldable pub start_restore : Option (Cold S) → Faults → Text → Tier S → Tier S
  unfolding stat begin
  start_restore none fails key t = t
  start_restore (some c) fails key t = elim (stat fails key t.hot) [
    | ok n ↦ t
    | err e ↦ begin key t
  ]

  unfoldable pub is_restoring : Text → Tier S → Bool
  is_restoring key t = any (text_eq key) t.inflight

  abbrev pub touched : Text → Tier S → Result Err Text → Result Err Text × Tier S
  touched key t (ok bytes) = (ok bytes, note (touch key) t)
  touched key t (err e) = (err e, t)

  -- Open, once the local store has answered that it has no such file.
  unfoldable pub open_warmed :
      Faults → (Tier S → Tier S) → Text → Result Err (Unit {0}) × Tier S → Result Err Text × Tier S
  unfolding open_file
  open_warmed fails warmed key (err e, t) = (err e, t)
  open_warmed fails warmed key (ok u, t) =
      touched key (warmed t) (open_file fails key (warmed t).hot)

  unfoldable pub tiered_open :
      Option (Cold S) → Weather → Waited → Pauses S → Text → Tier S → Result Err Text × Tier S
  unfolding open_file warm open_warmed
  tiered_open none fails w p key t = touched key t (open_file (fails 2) key t.hot)
  tiered_open (some c) fails w p key t = elim (open_file (fails 2) key t.hot) [
    | ok bytes ↦ (ok bytes, note (touch key) t)
    | err not_found ↦
        open_warmed (fails 3) p.warmed key (warm (some c) fails w p.waiting key (p.missed t))
    | err e ↦ (err e, t)
  ]

  unfoldable pub tiered_stat : Option (Cold S) → Faults → Text → Tier S → Result Err ℕ × Tier S
  unfolding stat
  tiered_stat none fails key t = (stat fails key t.hot, t)
  tiered_stat (some c) fails key t = elim (stat fails key t.hot) [
    | ok n ↦ (ok n, t)
    | err not_found ↦ on_cold t (c.stat_object key t.cold)
    | err e ↦ (err e, t)
  ]

  unfoldable pub delete_both :
      Option (Cold S) → Text → Tier S → Result Err (Unit {0}) × Fs → Result Err (Unit {0}) × Tier S
  delete_both c key t (err e, fs) = (err e, record t { hot = fs })
  delete_both none key t (ok u, fs) = (ok tt, record t { hot = fs })
  delete_both (some c) key t (ok u, fs) =
      on_cold (record t { hot = fs }) (c.delete_object key t.cold)

  unfoldable pub tiered_delete :
      Option (Cold S) → Faults → Text → Tier S → Result Err (Unit {0}) × Tier S
  unfolding delete_both delete
  tiered_delete c fails key t = delete_both c key t (delete fails key t.hot)

  unfoldable pub drop_result : ℕ → Tier S → Result Err (Unit {0}) × Fs → Result Err ℕ × Tier S
  drop_result size t (err e, fs) = (err e, record t { hot = fs })
  drop_result size t (ok u, fs) = (ok size, record t { hot = fs })

  -- Demote, from the comparison on.
  unfoldable pub drop_local :
      (Text → Text)
      → Faults
      → Text
      → Text × ℕ
      → Tier S
      → Result Err (Result Err Text) × S
      → Result Err ℕ × Tier S
  unfolding delete drop_result
  drop_local sum fails key (want, size) t (err e, s) = (err e, record t { cold = s })
  drop_local sum fails key (want, size) t (ok (err e), s) = (err e, record t { cold = s })
  drop_local sum fails key (want, size) t (ok (ok back), s) =
      let t' = record t { cold = s } in
      if not (length back == size && text_eq (sum back) want)
      then (err cold_mismatch, t')
      else drop_result size t' (delete fails key t.hot)

  unfoldable pub read_back :
      (Text → Text)
      → Cold S
      → Faults
      → Text
      → Text × ℕ
      → Tier S
      → Result Err Bool × S
      → Result Err ℕ × Tier S
  unfolding drop_local
  read_back sum c fails key want t (err e, s) = (err e, record t { cold = s })
  read_back sum c fails key want t (ok existed, s) =
      drop_local sum fails key want (record t { cold = s }) (c.get_object key s)

  unfoldable pub demote :
      (Text → Text) → Option (Cold S) → Weather → Text → Tier S → Result Err ℕ × Tier S
  unfolding local_copy read_back
  demote sum none fails key t = (err no_cold_tier, t)
  demote sum (some c) fails key t = elim (local_copy sum fails key t.hot) [
    | err e ↦ (err e, t)
    | ok (want, src) ↦
        read_back sum c (fails 2) key want t (c.put_object key (read_all (fails 1) src) t.cold)
  ]
