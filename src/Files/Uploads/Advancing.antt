-- ===== src/Files/Uploads/Advancing.antt =====
-- server/internal/files/uploads.go: AppendChunk as a whole, and the lock of a session.
use private_cloud.Prelude.{
  ℕ, ◌+◌, ◌-◌, ◌≤◌, ◌≡◌, refl, sym, ap, subst, ◌∙◌, false, ◌⊎◌, inl, inr, Option, none, some, List,
  [], ◌++◌, append-nil, append_assoc, Text, length, length-append, ltb, ◌==◌, Bool-cases, Result,
  arith,
}
use private_cloud.Blob.Keys.{sync}
use private_cloud.Blob.Disk.{Faults, Copied, Appended, append_partial}
use private_cloud.Files.Uploads.{
  UploadErr, Session, find_session, update_session, lock_window, set_lock, set_progress,
  lock_upload, unlock_upload, commit_upload_progress, Uploads, limited, commit_chunk, append_locked,
  append_chunk,
}
use private_cloud.Files.Uploads.Locking.{Locks, refuses, takes, lock_upload-Locks}
use private_cloud.Files.Uploads.Receiving.{
  IsSound, Takes, append_partial-Takes, find_session-id, find_session-update,
}

-- The session after an AppendChunk that was given the copy `c`: it is sound for the store, and its hash and
-- offset have gone on by what the copy brought, or by nothing.
pub record Advanced (id : ℕ) (s : Session) (c : Copied) (u : Uploads) : Type 0 where
  pub after : Session
  pub there : find_session id u.sessions ≡ some after
  pub sound : IsSound after u.store
  pub same_size : after.size ≡ s.size
  pub more : Text
  pub part : (more ≡ []) ⊎ (more ≡ c.whole)
  pub fed : after.hash_state ≡ s.hash_state ++ more

module _ (id : ℕ) (s : Session) (c : Copied) where
  unchanged :
      (u : Uploads) (locked : Option ℕ)
      → find_session id u.sessions ≡ some (set_lock locked s)
      → IsSound s u.store
      → Advanced id s c u
  unchanged u locked there sound = record {
    after = set_lock locked s;
    there = there;
    sound = record {
      rest = sound.rest;
      staged = sound.staged;
      counted = sound.counted;
      within = sound.within;
    };
    same_size = refl;
    more = [];
    part = inl refl;
    fed = sym (append-nil s.hash_state);
  }

  -- What the two answers of AppendChunk leave of the session, where the copy has been taken.
  module _ (a : Appended) (ss : List Session) (locked : Option ℕ) (same : s.id ≡ id)
      (there : find_session id ss ≡ some (set_lock locked s)) (within : s.offset ≤ s.size)
      (count : length s.hash_state ≡ s.offset) (t : Takes s.staging_key s.hash_state c a) where
    refused : Advanced id s c (record { sessions = unlock_upload s.id ss; store = a.store })
    unfolding unlock_upload
    refused = record {
      after = set_lock none s;
      there =
          subst
            (λ (n : ℕ).
              find_session id (update_session n (set_lock none) ss) ≡ some (set_lock none s))
            (sym same)
            (find_session-update id (set_lock none) ss (set_lock locked s) (λ r. refl) there);
      sound = record {
        rest = t.more ++ t.rest;
        staged = t.staged ∙ ap some (append_assoc s.hash_state t.more t.rest);
        counted = count;
        within = within;
      };
      same_size = refl;
      more = [];
      part = inl refl;
      fed = sym (append-nil s.hash_state);
    }

    accepted :
        ltb (s.size - s.offset) a.written ≡ false
        → Advanced id s c (record {
          sessions = commit_upload_progress s.id (s.offset + a.written) a.hashed ss;
          store = a.store;
        })
    unfolding commit_upload_progress
    accepted fits =
        let change : Session → Session = set_progress (s.offset + a.written) a.hashed in
        record {
          after = change s;
          there =
              subst (λ (n : ℕ). find_session id (update_session n change ss) ≡ some (change s))
                (sym same) (find_session-update id change ss (set_lock locked s) (λ r. refl) there);
          sound = record {
            rest = t.rest;
            staged = t.staged ∙ ap (λ (h : Text). some (h ++ t.rest)) (sym t.fed);
            counted =
                omega
                  (arith, ap length t.fed, length-append {0} s.hash_state t.more, t.counted, count);
            within = room fits;
          };
          same_size = refl;
          more = t.more;
          part = t.part;
          fed = t.fed;
        }
      where
        room : ltb (s.size - s.offset) a.written ≡ false → s.offset + a.written ≤ s.size
        room fits = ground arith

    commit_chunk-Advanced : Advanced id s c (commit_chunk s a ss).1
    unfolding commit_chunk
    commit_chunk-Advanced = elim (Bool-cases (ltb (s.size - s.offset) a.written)) [
      | inl over ↦ rw (commit_chunk, over) refused
      | inr fits ↦ rw (commit_chunk, fits) (accepted fits)
    ]

  append_chunk-locked :
      (now : ℕ) (fails : Faults) (owner offset : ℕ) (whole : Copied) (u : Uploads)
      → c ≡ limited (s.size - s.offset + 1) whole
      → fails sync ≡ false
      → c.short ≡ []
      → find_session id u.sessions ≡ some s
      → IsSound s u.store
      → Locks now owner id s u.sessions (lock_upload now owner id u.sessions)
      → Advanced id s c
          (append_locked fails id offset whole u (lock_upload now owner id u.sessions)).1
  unfolding append_locked unlock_upload
  append_chunk-locked now fails owner offset whole u same_copy synced full there sound
        (refuses e f) =
      subst
        (λ (o : Result UploadErr Session × List Session).
          Advanced id s c (append_locked fails id offset whole u o).1)
        (sym f) (unchanged u s.locked_until there sound)
  append_chunk-locked now fails owner offset whole u same_copy synced full there sound (takes o f) =
      let until : Option ℕ = some (now + lock_window) in
      let rows : List Session = update_session id (set_lock until) u.sessions in
      let locked : find_session id rows ≡ some (set_lock until s) =
        find_session-update id (set_lock until) u.sessions s (λ r. refl) there in
      subst
        (λ (o : Result UploadErr Session × List Session).
          Advanced id s c (append_locked fails id offset whole u o).1)
        (sym f)
        (elim (Bool-cases (offset == s.offset)) [
          | inr differs ↦
              rw (append_locked, differs)
                (unchanged (record u { sessions = update_session id (set_lock none) rows }) none
                  (find_session-update id (set_lock none) rows (set_lock until s) (λ r. refl)
                    locked)
                  sound)
          | inl agrees ↦
              rw (append_locked, agrees, ← same_copy)
                (commit_chunk-Advanced
                  (append_partial fails s.staging_key s.offset s.hash_state c u.store) rows until
                  (find_session-id id u.sessions s there) locked sound.within sound.counted
                  (append_partial-Takes fails s.staging_key s.offset s.hash_state sound.rest c
                    u.store synced full sound.counted sound.staged))
        ])

-- Where a session is sound, an AppendChunk whose fsync works and whose writes to the file are whole or not
-- at all leaves it sound, whatever else fails and whatever it answers: the offset counts the hashed bytes,
-- the staging file begins with them, they are no more than the declared size, and they have gone on by
-- what the client sent, cut to one byte more than is still to come, or by nothing.
pub append_chunk-Advanced :
    (now : ℕ) (fails : Faults) (owner id offset : ℕ) (s : Session) (c : Copied) (u : Uploads)
    → fails sync ≡ false
    → (limited (s.size - s.offset + 1) c).short ≡ []
    → find_session id u.sessions ≡ some s
    → IsSound s u.store
    → Advanced id s
        (limited (s.size - s.offset + 1) c)
        (append_chunk now fails owner id offset c u).1
unfolding append_chunk
append_chunk-Advanced now fails owner id offset s c u synced full there sound =
    append_chunk-locked id s (limited (s.size - s.offset + 1) c) now fails owner offset c u refl
      synced full there sound (lock_upload-Locks now owner id s u.sessions there)
