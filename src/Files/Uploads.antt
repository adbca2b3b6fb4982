-- ===== src/Files/Uploads.antt =====
-- server/internal/files/uploads.go, and finishStaged of service.go: resumable uploads. A session's row
-- is locked by the request that writes to it; its bytes are in a staging file of the blob store. The
-- state of the suspended SHA-256 is the bytes that it has been fed. Of the rest of the program the
-- uploads call `Backend`.
pub mod Receiving
pub mod Locking
pub mod Unsynced
pub mod Advancing
use private_cloud.Prelude.{
  ℕ, suc, ◌+◌, ◌-◌, Bool, true, false, not, ◌&&◌, ◌||◌, Option, none, some, is_some, List, [], ◌∷◌,
  ◌++◌, map, Text, text_eq, filter, length, take, ltb, leb, ◌==◌, if◌then◌else◌, Result, ok, err,
}
use private_cloud.Blob.Disk.{
  Fs, Faults, Copied, Appended, create_partial, append_partial, commit_partial, stat_partial,
  remove_partial, delete, open_file,
}
use private_cloud.Blob.Keys
use private_cloud.Files
use private_cloud.Files.Names.{validate_name}

pub data UploadErr : Type 0 where
  upload_not_found offset_mismatch upload_locked upload_too_large wrong_length : UploadErr
  storage : Keys.Err → UploadErr
  tree : Files.Err → UploadErr

pub record Session : Type 0 where
  pub id : ℕ
  pub owner_id : ℕ
  pub parent_id : ℕ
  pub name : Text
  pub mime : Text
  pub size : ℕ
  pub offset : ℕ
  pub staging_key : Text
  pub hash_state : Text
  pub expires_at : ℕ
  pub locked_until : Option ℕ

abbrev pub is_complete : Session → Bool
is_complete s = leb s.size s.offset

-- Two minutes, in microseconds.
abbrev pub lock_window : ℕ
lock_window = 120_000_000

unfoldable pub find_session : ℕ → List Session → Option Session
find_session id [] = none
find_session id (s ∷ ss) = if s.id == id then some s else find_session id ss

-- UPDATE upload_sessions ... WHERE id = $1
unfoldable pub update_session : ℕ → (Session → Session) → List Session → List Session
update_session id change ss = map (λ s. if s.id == id then change s else s) ss

abbrev pub is_open : ℕ → ℕ → Session → Bool
is_open now owner s = s.owner_id == owner && ltb now s.expires_at

unfoldable pub get_upload : ℕ → ℕ → ℕ → List Session → Result UploadErr Session
unfolding find_session
get_upload now owner id ss = elim (find_session id ss) [
  | none ↦ err upload_not_found
  | some s ↦ if is_open now owner s then ok s else err upload_not_found
]

abbrev pub is_unlocked : ℕ → Option ℕ → Bool
is_unlocked now none = true
is_unlocked now (some t) = ltb t now

abbrev pub set_lock : Option ℕ → Session → Session
set_lock until s = record s { locked_until = until }

unfoldable pub lock_upload : ℕ → ℕ → ℕ → List Session → Result UploadErr Session × List Session
unfolding find_session update_session
lock_upload now owner id ss = elim (find_session id ss) [
  | none ↦ (err upload_not_found, ss)
  | some s ↦
      if not (is_open now owner s)
      then (err upload_not_found, ss)
      else if is_unlocked now s.locked_until
      then (ok s, update_session id (set_lock (some (now + lock_window))) ss)
      else (err upload_locked, ss)
]

unfoldable pub refresh_upload_lock : ℕ → ℕ → List Session → List Session
unfolding update_session
refresh_upload_lock now id ss = update_session id (set_lock (some (now + lock_window))) ss

unfoldable pub unlock_upload : ℕ → List Session → List Session
unfolding update_session
unlock_upload id ss = update_session id (set_lock none) ss

abbrev pub set_progress : ℕ → Text → Session → Session
set_progress offset hashed s = record s {
  offset = offset;
  hash_state = hashed;
  locked_until = none;
}

unfoldable pub commit_upload_progress : ℕ → ℕ → Text → List Session → List Session
unfolding update_session
commit_upload_progress id offset hashed ss = update_session id (set_progress offset hashed) ss

unfoldable pub delete_upload : ℕ → ℕ → List Session → Result UploadErr (Unit {0}) × List Session
delete_upload owner id ss =
    let out = filter (λ s. not (s.id == id && s.owner_id == owner)) ss in
    if length out == length ss then (err upload_not_found, out) else (ok tt, out)

-- ORDER BY expires_at
unfoldable pub insert_by_expiry : Session → List Session → List Session
insert_by_expiry s [] = s ∷ []
insert_by_expiry s (t ∷ ts) =
    let rest = insert_by_expiry s ts in
    if leb s.expires_at t.expires_at then s ∷ t ∷ ts else t ∷ rest

unfoldable pub order_by_expiry : List Session → List Session
unfolding insert_by_expiry
order_by_expiry [] = []
order_by_expiry (s ∷ ss) = insert_by_expiry s (order_by_expiry ss)

unfoldable pub expired_uploads : ℕ → ℕ → List Session → List Session
unfolding order_by_expiry
expired_uploads now limit ss = take limit (order_by_expiry (filter (λ s. ltb s.expires_at now) ss))

unfoldable pub all_staging_keys : List Session → List Text
all_staging_keys ss = map (λ s. s.staging_key) ss

pub record Uploads : Type 0 where
  pub sessions : List Session
  pub store : Fs

-- io.LimitReader(r, n) between the client and io.Copy: what is cut off ends the copy with no error.
abbrev pub limited : ℕ → Copied → Copied
limited n c = record {
  whole = take n c.whole;
  short = take (n - length c.whole) c.short;
  ended = if ltb n (length c.whole + length c.short) then none else c.ended;
}

abbrev pub with_sessions : List Session → Uploads → Uploads
with_sessions ss u = record u { sessions = ss }

-- AppendChunk, after AppendPartial has answered.
unfoldable pub commit_chunk : Session → Appended → List Session → Result UploadErr Session × Uploads
unfolding unlock_upload commit_upload_progress
commit_chunk s a ss =
    if ltb (s.size - s.offset) a.written
    then (err upload_too_large, record { sessions = unlock_upload s.id ss; store = a.store })
    else (let at = s.offset + a.written in
        (
          ok (record s { offset = at }),
          record { sessions = commit_upload_progress s.id at a.hashed ss; store = a.store },
        ))

-- AppendChunk, after LockUpload has answered.
unfoldable pub append_locked :
    Faults
    → ℕ
    → ℕ
    → Copied
    → Uploads
    → Result UploadErr Session × List Session
    → Result UploadErr Session × Uploads
unfolding unlock_upload append_partial commit_chunk
append_locked fails id offset c u (err e, ss) = (err e, with_sessions ss u)
append_locked fails id offset c u (ok s, ss) =
    if not (offset == s.offset)
    then (err offset_mismatch, with_sessions (unlock_upload id ss) u)
    else commit_chunk s
        (append_partial fails s.staging_key s.offset s.hash_state
          (limited (s.size - s.offset + 1) c) u.store)
        ss

unfoldable pub append_chunk :
    ℕ → Faults → ℕ → ℕ → ℕ → Copied → Uploads → Result UploadErr Session × Uploads
unfolding lock_upload append_locked
append_chunk now fails owner id offset c u =
    append_locked fails id offset c u (lock_upload now owner id u.sessions)

unfoldable pub cancel_upload : ℕ → Faults → ℕ → ℕ → Uploads → Result UploadErr (Unit {0}) × Uploads
unfolding get_upload delete_upload remove_partial
cancel_upload now fails owner id u = elim (get_upload now owner id u.sessions) [
  | err e ↦ (err e, u)
  | ok s ↦
      let gone = delete_upload owner id u.sessions in
      elim gone.0 [
        | err e ↦ (err e, with_sessions gone.1 u)
        | ok done ↦ (
          ok tt,
          record { sessions = gone.1; store = (remove_partial fails s.staging_key u.store).1 },
        )
      ]
]
