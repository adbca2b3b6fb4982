-- ===== src/Files/Uploads/Unsynced.antt =====
-- server/internal/files/uploads.go, AppendChunk where the fsync of the staging file fails.
use private_cloud.Prelude.{
  ℕ, ◌+◌, ◌-◌, ◌≡◌, refl, sym, ap, subst, ◌∙◌, true, false, some, List, ◌++◌, Text, ltb, ==_refl,
  Result, ok, arith,
}
use private_cloud.Blob.Keys.{sync, seek, truncate_call, open_call, io}
use private_cloud.Blob.Disk.{
  Fs, Faults, Copied, Appended, not_appended, overwrite, truncate, try_calls, look_up, copy_in,
  append_partial,
}
use private_cloud.Files.Uploads.{
  UploadErr, Session, find_session, update_session, is_open, is_unlocked, lock_window, set_lock,
  set_progress, lock_upload, commit_upload_progress, Uploads, limited, commit_chunk, append_locked,
  append_chunk,
}
use private_cloud.Files.Uploads.Receiving.{find_session-id, find_session-update}

unsynced-eq :
    (fails : Faults) (key : Text) (offset : ℕ) (hashed bytes : Text) (c : Copied) (fs : Fs)
    → look_up fails open_call key fs ≡ ok bytes
    → fails truncate_call ≡ false
    → fails seek ≡ false
    → fails sync ≡ true
    → append_partial fails key offset hashed c fs
      ≡ not_appended
          (io sync)
          (hashed ++ c.whole)
          (overwrite key (truncate offset bytes ++ (c.whole ++ c.short)) fs)
unfolding append_partial copy_in try_calls
unsynced-eq fails key offset hashed bytes c fs opened cut sought lost =
    rw (append_partial, opened, try_calls, cut, copy_in, try_calls, sought, try_calls, lost) refl

commit_nothing :
    (s : Session) (a : Appended) (ss : List Session)
    → a.written ≡ 0
    → commit_chunk s a ss ≡ (
      ok (record s { offset = s.offset + a.written }),
      record {
        sessions = commit_upload_progress s.id (s.offset + a.written) a.hashed ss;
        store = a.store;
      },
    )
unfolding commit_chunk
commit_nothing s a ss none_written =
    let fits : ltb (s.size - s.offset) a.written ≡ false = ground arith in
    rw (commit_chunk, fits) refl

-- Where a request has the lock of a session, gives its offset, and the fsync of the staging file fails
-- after the copy, AppendChunk answers success, the offset stays, and the hash that is stored with it has
-- been fed what the copy brought, cut to one byte more than is still to come.
pub append_chunk_unsynced :
    (now : ℕ) (fails : Faults) (owner id : ℕ) (s : Session) (bytes : Text) (c : Copied)
    (u : Uploads)
    → find_session id u.sessions ≡ some s
    → is_open now owner s ≡ true
    → is_unlocked now s.locked_until ≡ true
    → look_up fails open_call s.staging_key u.store ≡ ok bytes
    → fails truncate_call ≡ false
    → fails seek ≡ false
    → fails sync ≡ true
    → (let out = append_chunk now fails owner id s.offset c u in
        (r after : Session) × (out.0 ≡ ok r)
        × (find_session id out.1.sessions ≡ some after)
        × (after.offset ≡ s.offset)
        × (after.hash_state ≡ s.hash_state ++ (limited (s.size - s.offset + 1) c).whole))
unfolding append_chunk lock_upload append_locked commit_upload_progress
append_chunk_unsynced now fails owner id s bytes c u there open_now free opened cut sought lost =
    let rows : List Session = update_session id (set_lock (some (now + lock_window))) u.sessions in
    let sent : Copied = limited (s.size - s.offset + 1) c in
    let a : Appended =
      not_appended (io sync) (s.hash_state ++ sent.whole)
        (overwrite s.staging_key (truncate s.offset bytes ++ (sent.whole ++ sent.short)) u.store) in
    let whole =
      ap (append_locked fails id s.offset c u) locks
      ∙ (agrees
          ∙ (ap (λ (b : Appended). commit_chunk s b rows)
                (unsynced-eq fails s.staging_key s.offset s.hash_state bytes sent u.store opened cut
                  sought lost)
              ∙ commit_nothing s a rows refl)) in
    let change : Session → Session = set_progress (s.offset + 0) (s.hash_state ++ sent.whole) in
    let same : s.id ≡ id = find_session-id id u.sessions s there in
    let locked =
      find_session-update id (set_lock (some (now + lock_window))) u.sessions s (λ r. refl) there in
    let found : find_session id (update_session s.id change rows) ≡ some (change s) =
      subst (λ (n : ℕ). find_session id (update_session n change rows) ≡ some (change s)) (sym same)
        (find_session-update id change rows (set_lock (some (now + lock_window)) s) (λ r. refl)
          locked) in
    (
      record s { offset = s.offset + 0 },
      change s,
      ap (λ (o : Result UploadErr Session × Uploads). o.0) whole,
      ap (λ (o : Result UploadErr Session × Uploads). find_session id o.1.sessions) whole ∙ found,
      omega arith,
      refl,
    )
  where
    locks :
        lock_upload now owner id u.sessions
        ≡ (ok s, update_session id (set_lock (some (now + lock_window))) u.sessions)
    locks = rw (lock_upload, there, open_now, free) refl

    agrees :
        append_locked fails id s.offset c u
          (ok s, update_session id (set_lock (some (now + lock_window))) u.sessions)
        ≡ commit_chunk s
            (append_partial fails s.staging_key s.offset s.hash_state
              (limited (s.size - s.offset + 1) c)
              u.store)
            (update_session id (set_lock (some (now + lock_window))) u.sessions)
    agrees = rw (append_locked, ==_refl s.offset) refl
