-- ===== src/Files/Uploads/Locking.antt =====
-- server/internal/files/uploads.go: LockUpload, by its cases, and the calls that leave a lock in place.
use private_cloud.Prelude.{
  ◌≢◌, ◌==◌, ==_iff, none, subst, Text, [], ◌∷◌, Option-cases, ℕ, ◌+◌, ◌≤◌, ◌<◌, ◌≡◌, refl, sym, ap,
  ◌∙◌, true, false, some, List, ltb, Bool-cases, inl, inr, Result, ok, err, arith,
}
use private_cloud.Files.Uploads.{
  UploadErr, upload_not_found, upload_locked, Session, find_session, update_session, is_open,
  is_unlocked, lock_window, set_lock, lock_upload, refresh_upload_lock, unlock_upload,
  commit_upload_progress, set_progress,
}
use private_cloud.Files.Uploads.Receiving.{find_session-update}

-- What LockUpload answers for a session that is there.
pub data Locks (now owner id : ℕ) (s : Session) (ss : List Session)
    (out : Result UploadErr Session × List Session) : Type 0 where
  refuses : (e : UploadErr) → out ≡ (err e, ss) → Locks now owner id s ss out
  takes :
      is_open now owner s ≡ true
      → out ≡ (ok s, update_session id (set_lock (some (now + lock_window))) ss)
      → Locks now owner id s ss out

pub lock_upload-Locks :
    (now owner id : ℕ) (s : Session) (ss : List Session)
    → find_session id ss ≡ some s
    → Locks now owner id s ss (lock_upload now owner id ss)
unfolding lock_upload
lock_upload-Locks now owner id s ss there = elim (Bool-cases (is_open now owner s)) [
  | inr closed ↦ rw (lock_upload, there, closed) (refuses upload_not_found refl)
  | inl open_now ↦ elim (Bool-cases (is_unlocked now s.locked_until)) [
    | inr busy ↦ rw (lock_upload, there, open_now, busy) (refuses upload_locked refl)
    | inl free ↦ rw (lock_upload, there, open_now, free) (takes open_now refl)
  ]
]

-- Calls for any sessions after the lock was taken at `now`, none of which lets the session `id` go: no
-- UnlockUpload and no CommitUploadProgress of it. An attempt to lock comes within the window.
pub data Call (now id : ℕ) (ss : List Session) : List Session → Type 0 where
  locks :
      (t owner other : ℕ) → t ≤ now + lock_window → Call now id ss (lock_upload t owner other ss).1
  refreshes : (t other : ℕ) → now ≤ t → Call now id ss (refresh_upload_lock t other ss)
  unlocks : (other : ℕ) → other ≢ id → Call now id ss (unlock_upload other ss)
  commits :
      (other offset : ℕ) (hashed : Text)
      → other ≢ id
      → Call now id ss (commit_upload_progress other offset hashed ss)

pub data Calls (now id : ℕ) (ss : List Session) : List Session → Type 0 where
  none_yet : Calls now id ss ss
  then_ : {ts us : List Session} → Calls now id ss ts → Call now id ts us → Calls now id ss us

-- The session is there as it was taken, under a lock that stands until `until` at least.
record Taken (owner id until expires : ℕ) (ss : List Session) : Type 0 where
  session : Session
  there : find_session id ss ≡ some session
  owned : session.owner_id ≡ owner
  lasts : session.expires_at ≡ expires
  lock : ℕ
  locked : session.locked_until ≡ some lock
  stands : until ≤ lock

find_session-update_other :
    (id other : ℕ) (change : Session → Session) (ss : List Session)
    → ((r : Session) → (change r).id ≡ r.id)
    → other ≢ id
    → find_session id (update_session other change ss) ≡ find_session id ss
unfolding find_session update_session
find_session-update_other id other change [] keep apart = refl
find_session-update_other id other change (s ∷ ss) keep apart =
    ground (arith, find_session-update_other id other change ss keep apart, keep s)

module _ (now id owner expires : ℕ) where
  abbrev Safe : List Session → Type 0
  Safe = Taken owner id (now + lock_window) expires

  others-Safe :
      (other : ℕ) (change : Session → Session) (ss : List Session)
      → ((r : Session) → (change r).id ≡ r.id)
      → other ≢ id
      → Safe ss
      → Safe (update_session other change ss)
  others-Safe other change ss keep apart h = record {
    session = h.session;
    there = find_session-update_other id other change ss keep apart ∙ h.there;
    owned = h.owned;
    lasts = h.lasts;
    lock = h.lock;
    locked = h.locked;
    stands = h.stands;
  }

  -- An attempt while the lock stands changes nothing.
  lock_same :
      (t other_owner : ℕ) (ss : List Session)
      → t ≤ now + lock_window
      → Safe ss
      → (lock_upload t other_owner id ss).1 ≡ ss
  unfolding lock_upload
  lock_same t other_owner ss soon h =
      let busy : is_unlocked t h.session.locked_until ≡ false =
        ap (is_unlocked t) h.locked ∙ not_yet (omega (arith, soon, h.stands)) in
      elim (Bool-cases (is_open t other_owner h.session)) [
        | inl fresh ↦ rw (lock_upload, h.there, fresh, busy) refl
        | inr closed ↦ rw (lock_upload, h.there, closed) refl
      ]
    where
      not_yet : t ≤ h.lock → ltb h.lock t ≡ false
      not_yet le = ground arith

  lock_other-Safe :
      (t other_owner other : ℕ) (ss : List Session)
      → other ≢ id
      → Safe ss
      → Safe (lock_upload t other_owner other ss).1
  unfolding lock_upload
  lock_other-Safe t other_owner other ss apart h = elim (Option-cases (find_session other ss)) [
    | inl missing ↦ subst Safe (sym (rw (lock_upload, missing) refl)) h
    | inr (s, there) ↦ go s (lock_upload-Locks t other_owner other s ss there)
  ]
    where
      go :
          (s : Session)
          → Locks t other_owner other s ss (lock_upload t other_owner other ss)
          → Safe (lock_upload t other_owner other ss).1
      go s (refuses e f) =
          subst (λ (o : Result UploadErr Session × List Session). Safe o.1) (sym f) h
      go s (takes open_now f) =
          subst (λ (o : Result UploadErr Session × List Session). Safe o.1) (sym f)
            (others-Safe other (set_lock (some (t + lock_window))) ss (λ r. refl) apart h)

  refresh-Safe :
      (t : ℕ) (ss : List Session) → now ≤ t → Safe ss → Safe (refresh_upload_lock t id ss)
  unfolding refresh_upload_lock
  refresh-Safe t ss late h = record {
    session = set_lock (some (t + lock_window)) h.session;
    there =
        find_session-update id (set_lock (some (t + lock_window))) ss h.session (λ r. refl) h.there;
    owned = h.owned;
    lasts = h.lasts;
    lock = t + lock_window;
    locked = refl;
    stands = omega arith;
  }

  Call-Safe : {ss us : List Session} → Call now id ss us → Safe ss → Safe us
  unfolding refresh_upload_lock unlock_upload commit_upload_progress
  Call-Safe {ss} (locks t other_owner other soon) h = elim (Bool-cases (other == id)) [
    | inl mine ↦
        let one = (==_iff other id).0 mine in
        subst (λ (i : ℕ). Safe (lock_upload t other_owner i ss).1) (sym one)
          (subst Safe (sym (lock_same t other_owner ss soon h)) h)
    | inr theirs ↦
        lock_other-Safe t other_owner other ss (λ e. cc (theirs, (==_iff other id).1 e)) h
  ]
  Call-Safe {ss} (refreshes t other late) h = elim (Bool-cases (other == id)) [
    | inl mine ↦
        subst (λ (i : ℕ). Safe (refresh_upload_lock t i ss)) (sym ((==_iff other id).0 mine))
          (refresh-Safe t ss late h)
    | inr theirs ↦
        others-Safe other (set_lock (some (t + lock_window))) ss (λ r. refl)
          (λ e. cc (theirs, (==_iff other id).1 e)) h
  ]
  Call-Safe {ss} (unlocks other apart) h = others-Safe other (set_lock none) ss (λ r. refl) apart h
  Call-Safe {ss} (commits other offset hashed apart) h =
      others-Safe other (set_progress offset hashed) ss (λ r. refl) apart h

  Calls-Safe : {ss us : List Session} → Calls now id ss us → Safe ss → Safe us
  Calls-Safe none_yet h = h
  Calls-Safe (then_ r call) h = Call-Safe call (Calls-Safe r h)

-- Once LockUpload has let a writer in, and through calls for any sessions that do not let this one go,
-- with attempts to lock no later than two minutes after, every LockUpload of the session by its owner
-- within these two minutes is refused and changes nothing, for as long as the session has not expired.
pub lock_upload_exclusive :
    (now later owner id : ℕ) (s taken : Session) (ss us : List Session)
    → find_session id ss ≡ some s
    → (lock_upload now owner id ss).0 ≡ ok taken
    → Calls now id (lock_upload now owner id ss).1 us
    → later ≤ now + lock_window
    → later < s.expires_at
    → lock_upload later owner id us ≡ (err upload_locked, us)
unfolding lock_upload
lock_upload_exclusive now later owner id s taken ss us there let_in calls soon fresh =
    refused (
      Calls-Safe now id owner s.expires_at calls
        (first (lock_upload-Locks now owner id s ss there)))
  where
    first :
        Locks now owner id s ss (lock_upload now owner id ss)
        → Taken owner id (now + lock_window) s.expires_at (lock_upload now owner id ss).1
    first (refuses e f) = absurd (cc (let_in, f))
    first (takes open_now f) =
        subst
          (λ (o : Result UploadErr Session × List Session).
            Taken owner id (now + lock_window) s.expires_at o.1)
          (sym f)
          (record {
            session = set_lock (some (now + lock_window)) s;
            there =
                find_session-update id (set_lock (some (now + lock_window))) ss s (λ r. refl) there;
            owned = ground arith;
            lasts = refl;
            lock = now + lock_window;
            locked = refl;
            stands = omega arith;
          })

    refused :
        Taken owner id (now + lock_window) s.expires_at us
        → lock_upload later owner id us ≡ (err upload_locked, us)
    refused h =
        let open_later : is_open later owner h.session ≡ true = ground (arith, h.owned, h.lasts) in
        let busy : is_unlocked later h.session.locked_until ≡ false =
          ap (is_unlocked later) h.locked ∙ not_yet h.lock (omega (arith, h.stands)) in
        rw (lock_upload, h.there, open_later, busy) refl
      where
        not_yet : (lock : ℕ) → later ≤ lock → ltb lock later ≡ false
        not_yet lock le = ground arith
