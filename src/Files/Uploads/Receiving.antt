-- ===== src/Files/Uploads/Receiving.antt =====
-- server/internal/files/uploads.go: a session with its staging file, and AppendPartial as AppendChunk uses
-- it.
use private_cloud.Prelude.{
  ℕ, ◌-◌, ◌≤◌, ◌≡◌, refl, sym, ap, subst, ◌∙◌, true, false, ◌⊎◌, inl, inr, some, List, [], ◌∷◌,
  ◌++◌, append-nil, Text, length, length-append, take, ◌==◌, ==_iff, Bool-cases, ok, Result-cases,
  arith, text_eq_refl,
}
use private_cloud.Blob.Keys.{Call, sync, seek, truncate_call, open_call}
use private_cloud.Blob.Keys
use private_cloud.Blob.Disk.{
  Fs, Faults, Copied, Appended, not_appended, overwrite, truncate, try_calls, look_up, copy_in,
  append_partial, remove_file,
}
use private_cloud.Blob.Tiered.Contents.{held, look_up-ok, find_file-cons}
use private_cloud.Files.Uploads.{Session, find_session, update_session}

-- The session's offset, its hash and its staging file agree: the file begins with the bytes that were
-- hashed, which are as many as the offset, and that is within the declared size.
pub record IsSound (s : Session) (fs : Fs) : Type 0 where
  pub rest : Text
  pub staged : held fs s.staging_key ≡ some (s.hash_state ++ rest)
  pub counted : length s.hash_state ≡ s.offset
  pub within : s.offset ≤ s.size

pub find_session-id :
    (id : ℕ) (ss : List Session) (s : Session) → find_session id ss ≡ some s → s.id ≡ id
unfolding find_session
find_session-id id [] s h = cc
find_session-id id (t ∷ ss) s h = elim (Bool-cases (t.id == id)) [
  | inl hit ↦
      let e : t ≡ s = cc (rw (find_session, hit) at h) in
      ap (λ (r : Session). r.id) (sym e) ∙ (==_iff t.id id).0 hit
  | inr miss ↦ find_session-id id ss s (rw (find_session, miss) at h)
]

pub find_session-update :
    (id : ℕ) (change : Session → Session) (ss : List Session) (s : Session)
    → ((t : Session) → (change t).id ≡ t.id)
    → find_session id ss ≡ some s
    → find_session id (update_session id change ss) ≡ some (change s)
unfolding find_session update_session
find_session-update id change [] s keep h = cc
find_session-update id change (t ∷ ss) s keep h = elim (Bool-cases (t.id == id)) [
  | inl hit ↦
      let e : t ≡ s = cc (rw (find_session, hit) at h) in
      let same : ((change t).id == id) ≡ true = ap (λ (n : ℕ). n == id) (keep t) ∙ hit in
      rw (hit, find_session, same) (ap (λ (r : Session). some (change r)) e)
  | inr miss ↦
      rw (miss, find_session, miss)
        (find_session-update id change ss s keep (rw (find_session, miss) at h))
]

take-append : (xs ys : Text) → take (length xs) (xs ++ ys) ≡ xs
take-append [] ys = refl
take-append (x ∷ xs) ys = rw (take-append xs ys) refl

-- The file cut to the offset is what was hashed.
truncate-append :
    (offset : ℕ) (hashed rest : Text)
    → length hashed ≡ offset
    → truncate offset (hashed ++ rest) ≡ hashed
unfolding truncate
truncate-append offset hashed rest e =
    let none_missing : offset - length (hashed ++ rest) ≡ 0 =
      omega (arith, e, length-append {0} hashed rest) in
    rw none_missing (
      append-nil (take offset (hashed ++ rest))
      ∙ subst (λ (n : ℕ). take n (hashed ++ rest) ≡ hashed) e (take-append hashed rest))

pub held-overwrite : (key bytes : Text) (fs : Fs) → held (overwrite key bytes fs) key ≡ some bytes
held-overwrite key bytes fs =
    rw (find_file-cons key key bytes (remove_file key fs.files), text_eq_refl key) refl

-- What AppendPartial leaves where the sync works and no block was written in part: `more` is what the
-- hash and the file have taken, and it was counted.
pub record Takes (key hashed : Text) (c : Copied) (a : Appended) : Type 0 where
  pub more : Text
  pub rest : Text
  pub part : (more ≡ []) ⊎ (more ≡ c.whole)
  pub counted : a.written ≡ length more
  pub fed : a.hashed ≡ hashed ++ more
  pub staged : held a.store key ≡ some ((hashed ++ more) ++ rest)

not_appended-Takes :
    (key hashed rest : Text) (c : Copied) (e : Keys.Err) (fs : Fs)
    → held fs key ≡ some (hashed ++ rest)
    → Takes key hashed c (not_appended e hashed fs)
not_appended-Takes key hashed rest c e fs h = record {
  more = [];
  rest = rest;
  part = inl refl;
  counted = refl;
  fed = sym (append-nil hashed);
  staged = h ∙ ap (λ (t : Text). some (t ++ rest)) (sym (append-nil hashed));
}

sync_works : (fails : Faults) → fails sync ≡ false → try_calls fails (sync ∷ []) ≡ ok tt
unfolding try_calls
sync_works fails h = rw (try_calls, h) refl

copy_in-Takes :
    (fails : Faults) (key hashed : Text) (c : Copied) (fs : Fs)
    → fails sync ≡ false
    → c.short ≡ []
    → Takes key hashed c (copy_in fails key hashed hashed c fs)
unfolding copy_in
copy_in-Takes fails key hashed c fs synced whole =
    elim (Result-cases (try_calls fails (seek ∷ []))) [
      | inr (e, f) ↦
          rw (copy_in, f)
            (not_appended-Takes key hashed [] c e (overwrite key hashed fs)
              (held-overwrite key hashed fs ∙ ap some (sym (append-nil hashed))))
      | inl (u, f) ↦
          rw (copy_in, f, sync_works fails synced)
            (record {
              more = c.whole;
              rest = [];
              part = inr refl;
              counted = omega (arith, ap length whole);
              fed = refl;
              staged =
                  held-overwrite key (hashed ++ (c.whole ++ c.short)) fs
                  ∙ ap some (
                      ap (λ (t : Text). hashed ++ (c.whole ++ t)) whole
                      ∙ (ap (λ (t : Text). hashed ++ t) (append-nil c.whole)
                          ∙ sym (append-nil (hashed ++ c.whole))));
            })
    ]

pub append_partial-Takes :
    (fails : Faults) (key : Text) (offset : ℕ) (hashed rest : Text) (c : Copied) (fs : Fs)
    → fails sync ≡ false
    → c.short ≡ []
    → length hashed ≡ offset
    → held fs key ≡ some (hashed ++ rest)
    → Takes key hashed c (append_partial fails key offset hashed c fs)
unfolding append_partial
append_partial-Takes fails key offset hashed rest c fs synced whole count h =
    elim (Result-cases (look_up fails open_call key fs)) [
      | inr (e, f) ↦ rw (append_partial, f) (not_appended-Takes key hashed rest c e fs h)
      | inl (bytes, f) ↦ elim (Result-cases (try_calls fails (truncate_call ∷ []))) [
        | inr (e, g) ↦ rw (append_partial, f, g) (not_appended-Takes key hashed rest c e fs h)
        | inl (u, g) ↦
            let same : bytes ≡ hashed ++ rest = cc (look_up-ok fails open_call key fs bytes f, h) in
            let cut : truncate offset bytes ≡ hashed =
              ap (truncate offset) same ∙ truncate-append offset hashed rest count in
            rw (append_partial, f, g, cut) (copy_in-Takes fails key hashed c fs synced whole)
      ]
    ]
