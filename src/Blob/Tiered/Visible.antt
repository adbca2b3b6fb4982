-- ===== src/Blob/Tiered/Visible.antt =====
-- server/internal/blob/tiered.go: the object store that keeps what it holds (`Honest`), and the steps of
-- the local store as they bear on one key.
use private_cloud.Prelude.{
  ◌≡◌, ◌≢◌, sym, subst, true, false, ◌⊎◌, inl, inr, Option, none, some, Text, text_eq, text_eq_iff,
  Bool-cases, Result, ok, err,
}
use private_cloud.Blob.Keys.{Err, not_found}
use private_cloud.Blob.Disk.{Fs, Faults, put_keyed}
use private_cloud.Blob.Tiered.{Cold}
use private_cloud.Blob.Tiered.Contents.{held, with_file, put_keyed-cases, find_file-cons}

-- What an object store's documentation promises of its contents, errors at any time allowed: a get
-- changes nothing and gives the object; a put adds only whole objects and only where there was none;
-- a stat changes nothing; a delete touches one object.
pub record Honest {S : Type 0} (c : Cold S) (at_rest : S → Text → Option Text) : Type 0 where
  pub get_keeps : (key k : Text) (s : S) → at_rest (c.get_object key s).1 k ≡ at_rest s k
  pub get_gives :
      (key b : Text) (s : S) → (c.get_object key s).0 ≡ ok (ok b) → at_rest s key ≡ some b
  pub stat_keeps : (key k : Text) (s : S) → at_rest (c.stat_object key s).1 k ≡ at_rest s k
  pub get_missing :
      (key : Text) (s : S) → (c.get_object key s).0 ≡ err not_found → at_rest s key ≡ none
  pub get_breaks : (key : Text) (s : S) → (c.get_object key s).0 ≢ ok (err not_found)
  pub put_keeps :
      (key k b : Text) (r : Result Err Text) (s : S)
      → at_rest s k ≡ some b
      → at_rest (c.put_object key r s).1 k ≡ some b
  pub put_adds :
      (key k b : Text) (r : Result Err Text) (s : S)
      → at_rest (c.put_object key r s).1 k ≡ some b
      → (at_rest s k ≡ some b) ⊎ ((k ≡ key) × (r ≡ ok b))
  pub delete_keeps :
      (key k : Text) (s : S)
      → text_eq key k ≡ false
      → at_rest (c.delete_object key s).1 k ≡ at_rest s k

-- A store of files has nothing but `b` for the key `k`, and has it.
abbrev pub OnlyFile : Text → Text → Fs → Type 0
OnlyFile k b fs = (b' : Text) → held fs k ≡ some b' → b' ≡ b

-- A step of the local store after which `k` has what it had, or `b`.
pub record FsStep (k b : Text) (fs fs' : Fs) : Type 0 where
  pub only : OnlyFile k b fs → OnlyFile k b fs'
  pub keeps : (b' : Text) → held fs k ≡ some b' → held fs' k ≡ some b'

-- What a reader offers for `key` is `b`, if the key is `k`.
abbrev pub Offers : Text → Text → Text → Result Err Text → Type 0
Offers k b key reader = text_eq key k ≡ true → (b' : Text) → reader ≡ ok b' → b' ≡ b

pub same-FsStep : (k b : Text) (fs fs' : Fs) → fs' ≡ fs → FsStep k b fs fs'
same-FsStep k b fs fs' e = record {
  only = λ h b' f. h b' (subst (λ (g : Fs). held g k ≡ some b') e f);
  keeps = λ b' f. subst (λ (g : Fs). held g k ≡ some b') (sym e) f;
}

added-FsStep :
    (k b key new : Text) (fs : Fs)
    → held fs key ≡ none
    → (text_eq key k ≡ true → new ≡ b)
    → FsStep k b fs (with_file key new fs)
added-FsStep k b key new fs absent same = elim (Bool-cases (text_eq key k)) [
  | inl hit ↦ record {
    only = λ h b' f. cc (same hit, rw (find_file-cons k key new fs.files, hit) at f);
    keeps = λ b' f. absurd (cc (absent, f, (text_eq_iff key k).0 hit));
  }
  | inr miss ↦ record {
    only = λ h b' f. h b' (rw (find_file-cons k key new fs.files, miss) at f);
    keeps = λ b' f. rw (find_file-cons k key new fs.files, miss) f;
  }
]

pub put_keyed-FsStep :
    (k b : Text) (fails : Faults) (key : Text) (reader : Result Err Text) (fs : Fs)
    → Offers k b key reader
    → FsStep k b fs (put_keyed fails key reader fs).1
put_keyed-FsStep k b fails key reader fs offers = elim (put_keyed-cases fails key reader fs) [
  | inl (e, _) ↦ same-FsStep k b fs _ e
  | inr (new, r, absent, e) ↦
      subst (FsStep k b fs) (sym e) (added-FsStep k b key new fs absent (λ hit. offers hit new r))
]
