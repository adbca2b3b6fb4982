-- ===== src/Blob/Tiered/Contents.antt =====
-- server/internal/blob/blob.go: the files of the local store as a map from keys to bytes, and the
-- outcomes of its operations by cases.
use private_cloud.Prelude.{
  ◌≡◌, refl, Bool, true, ◌⊎◌, inl, inr, Option, none, some, List, [], ◌∷◌, Text, text_eq,
  text_eq_iff, if◌then◌else◌, Result, ok, err, Result-cases, arith,
}
use private_cloud.Blob.Keys.{Call, Err, path_for, stat_call, remove, not_found}
use private_cloud.Blob.Disk.{
  Fs, Faults, find_file, remove_file, try_calls, locate, look_up, temp_file, seal, write_new,
  put_keyed, put, hex, fan_out, delete,
}

-- The bytes of the file of a key.
abbrev pub held : Fs → Text → Option Text
held fs key = find_file key fs.files

pub find_file-cons :
    (k key : Text) (b : Text) (fs : List (Text × Text))
    → find_file k ((key, b) ∷ fs) ≡ (if text_eq key k then some b else find_file k fs)
unfolding find_file
find_file-cons k key b fs = refl

pub find_file-remove :
    (k key : Text) (fs : List (Text × Text))
    → find_file k (remove_file key fs) ≡ (if text_eq key k then none else find_file k fs)
unfolding find_file remove_file
find_file-remove k key [] = ground arith
find_file-remove k key ((j, b) ∷ fs) =
    ground (arith, text_eq_iff j key, text_eq_iff j k, text_eq_iff key k, find_file-remove k key fs)

pub find_file-remove_self :
    (k key : Text) (fs : List (Text × Text))
    → text_eq key k ≡ true
    → find_file k (remove_file key fs) ≡ none
find_file-remove_self k key fs hit = rw (find_file-remove k key fs, hit) refl

pub look_up-ok :
    (fails : Faults) (call : Call) (key : Text) (fs : Fs) (b : Text)
    → look_up fails call key fs ≡ ok b
    → held fs key ≡ some b
unfolding look_up
look_up-ok fails call key fs b h = ground arith

-- Unless it fails, an operation has either found the file or found that it is not there.
pub look_up-missing :
    (fails : Faults) (call : Call) (key : Text) (fs : Fs)
    → look_up fails call key fs ≡ err not_found
    → held fs key ≡ none
unfolding look_up locate try_calls path_for
look_up-missing fails call key fs h = ground arith

-- The store with one file more.
abbrev pub with_file : Text → Text → Fs → Fs
with_file key b fs = record fs { files = (key, b) ∷ fs.files }

abbrev pub without_file : Text → Fs → Fs
without_file key fs = record fs { files = remove_file key fs.files }

-- The store is as it was, and has the file if there was no error; or the file was not there and now
-- holds what the reader gave.
abbrev pub PutCases : Text → Result Err Text → Fs → Result Err Bool × Fs → Type 0
PutCases key reader fs out =
    (out.1 ≡ fs) × ((existed : Bool) → out.0 ≡ ok existed → (b : Text) × (held fs key ≡ some b))
    ⊎ (b : Text) × (reader ≡ ok b) × (held fs key ≡ none) × (out.1 ≡ with_file key b fs)

temp_file-ok :
    (fails : Faults) (reader : Result Err Text) (b : Text)
    → temp_file fails reader ≡ ok b
    → reader ≡ ok b
unfolding temp_file
temp_file-ok fails reader b h = ground arith

write_new-cases :
    (fails : Faults) (key : Text) (reader : Result Err Text) (fs : Fs)
    → held fs key ≡ none
    → PutCases key reader fs (write_new fails key reader fs)
unfolding write_new seal
write_new-cases fails key reader fs absent = elim (Result-cases (temp_file fails reader)) [
  | inl (b, e) ↦ rw (write_new, e) (inr (b, temp_file-ok fails reader b e, absent, refl))
  | inr (why, e) ↦ rw (write_new, e) (inl (refl, λ existed h. cc))
]

pub put_keyed-cases :
    (fails : Faults) (key : Text) (reader : Result Err Text) (fs : Fs)
    → PutCases key reader fs (put_keyed fails key reader fs)
unfolding put_keyed
put_keyed-cases fails key reader fs = elim (Result-cases (look_up fails stat_call key fs)) [
  | inl (b, e) ↦
      rw (put_keyed, e) (inl (refl, λ existed h. (b, look_up-ok fails stat_call key fs b e)))
  | inr (why, e) ↦ put_keyed_failed fails key reader fs why e
]
  where
    put_keyed_failed :
        (fails : Faults) (key : Text) (reader : Result Err Text) (fs : Fs) (why : Err)
        → look_up fails stat_call key fs ≡ err why
        → PutCases key reader fs (put_keyed fails key reader fs)
    put_keyed_failed fails key reader fs not_found e =
        rw (put_keyed, e)
          (write_new-cases fails key reader fs (look_up-missing fails stat_call key fs e))
    put_keyed_failed fails key reader fs why e = rw (put_keyed, e) (inl (refl, λ existed h. cc))

-- A Delete that fails leaves the store as it was, and one that succeeds takes the file away.
pub delete-cases :
    (fails : Faults) (key : Text) (fs : Fs)
    → ((u : Unit {0}) × (delete fails key fs ≡ (ok u, without_file key fs)))
      ⊎ ((e : Err) × (delete fails key fs ≡ (err e, fs)))
unfolding delete
delete-cases fails key fs = elim (Result-cases (locate fs.root key)) [
  | inr (why, e) ↦ rw (delete, e) (inr (why, refl))
  | inl (u, e) ↦ elim (Result-cases (try_calls fails (remove ∷ []))) [
    | inr (why, f) ↦ rw (delete, e, f) (inr (why, refl))
    | inl (u', f) ↦ rw (delete, e, f) (inl (tt, refl))
  ]
]

-- A Put that writes has the key that it made up.
pub put-cases :
    (sum : Text → Text) (fails : Faults) (raw : Text) (reader : Result Err Text) (fs : Fs)
    → ((put sum fails raw reader fs).1 ≡ fs)
      ⊎ ((b : Text) × ((put sum fails raw reader fs).1 ≡ with_file (fan_out (hex raw)) b fs))
unfolding put seal
put-cases sum fails raw reader fs = elim (Result-cases (locate fs.root (fan_out (hex raw)))) [
  | inr (why, e) ↦ rw (put, e) (inl refl)
  | inl (u, e) ↦ elim (Result-cases (temp_file fails reader)) [
    | inr (why, f) ↦ rw (put, e, f) (inl refl)
    | inl (b, f) ↦ rw (put, e, f) (inr (b, refl))
  ]
]
