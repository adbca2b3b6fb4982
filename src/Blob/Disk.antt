-- ===== src/Blob/Disk.antt =====
-- server/internal/blob/blob.go: FSStore, one file for each key below the store's root, and the staging
-- files of resumable uploads. `Faults` says which system calls of an operation fail; a reader is what
-- it yields, and the random bytes that name a new file are an argument.
use private_cloud.Prelude.{
  ℕ, zero, suc, ◌+◌, ◌-◌, ◌/◌, ◌%◌, Bool, true, false, Option, none, some, List, [], ◌∷◌, ◌++◌,
  Text, codes, text_eq, length, take, drop, ltb, if◌then◌else◌, is_some, Result, ok, err, ◌>>=◌,
  or_fail,
}
use private_cloud.Blob.Keys.{
  Call, stat_call, mkdir, create_temp, copy, sync, close, rename, chmod, open_call, remove,
  truncate_call, seek, Err, not_found, io, refused, at, path_for,
}

-- The store: its root, and the bytes of the file that each key stands for.
pub record Fs : Type 0 where
  pub root : List Text
  pub files : List (Text × Text)

abbrev pub Faults : Type 0
Faults = Call → Bool

unfoldable pub find_file : Text → List (Text × Text) → Option Text
find_file key [] = none
find_file key ((k, b) ∷ fs) = if text_eq k key then some b else find_file key fs

unfoldable pub remove_file : Text → List (Text × Text) → List (Text × Text)
remove_file key [] = []
remove_file key ((k, b) ∷ fs) =
    let rest = remove_file key fs in if text_eq k key then rest else (k, b) ∷ rest

-- The first of the calls that fails.
unfoldable pub try_calls : Faults → List Call → Result Err (Unit {0})
try_calls fails [] = ok tt
try_calls fails (c ∷ cs) = let rest = try_calls fails cs in if fails c then err (io c) else rest

unfoldable pub locate : List Text → Text → Result Err (Unit {0})
unfolding path_for
locate root key = elim (path_for root key) [ refused e ↦ err e | at path ↦ ok tt ]

-- The bytes of the file, where the key is good, the call works and the file is there.
unfoldable pub look_up : Faults → Call → Text → Fs → Result Err Text
unfolding locate try_calls find_file
look_up fails call key fs = do
  _ ← locate fs.root key
  _ ← try_calls fails (call ∷ [])
  or_fail (find_file key fs.files) not_found

unfoldable pub stat : Faults → Text → Fs → Result Err ℕ
unfolding look_up
stat fails key fs = do bytes ← look_up fails stat_call key fs; ok (length bytes)

unfoldable pub open_file : Faults → Text → Fs → Result Err Text
unfolding look_up
open_file fails key fs = look_up fails open_call key fs

-- PutKeyed up to the rename: the bytes of the temporary file.
unfoldable pub temp_file : Faults → Result Err Text → Result Err Text
unfolding try_calls
temp_file fails reader = do
  _ ← try_calls fails (mkdir ∷ create_temp ∷ [])
  bytes ← reader
  _ ← try_calls fails (copy ∷ sync ∷ close ∷ rename ∷ [])
  ok bytes

abbrev pub answer {ℓ} : {A : Type ℓ} → A → Result Err (Unit {0}) → Result Err A
answer a (ok u) = ok a
answer a (err e) = err e

-- The rename, and the Chmod after it.
unfoldable pub seal {ℓ} : {A : Type ℓ} → Faults → A → Text → Text → Fs → Result Err A × Fs
unfolding try_calls
seal fails a key bytes fs =
    (answer a (try_calls fails (chmod ∷ [])), record fs { files = (key, bytes) ∷ fs.files })

unfoldable pub write_new : Faults → Text → Result Err Text → Fs → Result Err Bool × Fs
unfolding temp_file seal
write_new fails key reader fs = elim (temp_file fails reader) [
  | err e ↦ (err e, fs)
  | ok bytes ↦ seal fails false key bytes fs
]

-- PutKeyed: what is already there is kept.
unfoldable pub put_keyed : Faults → Text → Result Err Text → Fs → Result Err Bool × Fs
unfolding look_up write_new
put_keyed fails key reader fs = elim (look_up fails stat_call key fs) [
  | ok bytes ↦ (ok true, fs)
  | err not_found ↦ write_new fails key reader fs
  | err e ↦ (err e, fs)
]

-- Delete: that of a file that is not there succeeds.
unfoldable pub delete : Faults → Text → Fs → Result Err (Unit {0}) × Fs
unfolding locate try_calls remove_file
delete fails key fs = elim (locate fs.root key) [
  | err e ↦ (err e, fs)
  | ok u ↦ elim (try_calls fails (remove ∷ [])) [
    | err e ↦ (err e, fs)
    | ok u ↦ (ok tt, record fs { files = remove_file key fs.files })
  ]
]

abbrev pub hex_digit : ℕ → ℕ
hex_digit d = if ltb d 10 then b'0' + d else b'a' + (d - 10)

-- hex.EncodeToString
unfoldable pub hex : Text → Text
hex [] = []
hex (b ∷ bs) = hex_digit (b / 16) ∷ hex_digit (b % 16) ∷ hex bs

-- The two levels of directories, and the name.
unfoldable pub fan_out : Text → Text
fan_out name = take 2 name ++ (b'/' ∷ (take 2 (drop 2 name) ++ (b'/' ∷ name)))

unfoldable pub staging_key : Text → Text
unfolding hex
staging_key raw = codes ".staging/" ++ hex raw

-- PutResult; the digest is a library's.
pub record Put : Type 0 where
  pub key : Text
  pub size : ℕ
  pub digest : Text

abbrev pub put_result : (Text → Text) → Text → Text → Put
put_result sum key bytes = record { key = key; size = length bytes; digest = sum bytes }

unfoldable pub put : (Text → Text) → Faults → Text → Result Err Text → Fs → Result Err Put × Fs
unfolding locate temp_file seal hex fan_out
put sum fails raw reader fs =
    let key = fan_out (hex raw) in
    elim (locate fs.root key) [
      | err e ↦ (err e, fs)
      | ok u ↦ elim (temp_file fails reader) [
        | err e ↦ (err e, fs)
        | ok bytes ↦ seal fails (put_result sum key bytes) key bytes fs
      ]
    ]

-- CreatePartial: the file is there before Close fails; O_EXCL refuses one that is already there.
unfoldable pub create_partial : Faults → Text → Fs → Result Err Text × Fs
unfolding locate try_calls staging_key find_file
create_partial fails raw fs =
    let key = staging_key raw in
    elim (do _ ← locate fs.root key; try_calls fails (mkdir ∷ open_call ∷ [])) [
      | err e ↦ (err e, fs)
      | ok u ↦ if is_some (find_file key fs.files) then (err (io open_call), fs) else (
        answer key (try_calls fails (close ∷ [])),
        record fs { files = (key, []) ∷ fs.files },
      )
    ]

abbrev pub zeros : ℕ → Text
zeros zero = []
zeros (suc n) = 0 ∷ zeros n

-- f.Truncate(offset): a shorter file grows by zeros.
unfoldable pub truncate : ℕ → Text → Text
truncate offset bytes = take offset bytes ++ zeros (offset - length bytes)

-- What io.Copy into the file and the hasher does: the blocks that both took, what the file took of a
-- block that it could not write whole, and the error that ended it.
pub record Copied : Type 0 where
  pub whole : Text
  pub short : Text
  pub ended : Option Err

-- What AppendPartial leaves: the count and the error that it returns, what the hasher has been fed,
-- and the store.
pub record Appended : Type 0 where
  pub written : ℕ
  pub failure : Option Err
  pub hashed : Text
  pub store : Fs

abbrev pub not_appended : Err → Text → Fs → Appended
not_appended e hashed fs = record { written = 0; failure = some e; hashed = hashed; store = fs }

abbrev pub overwrite : Text → Text → Fs → Fs
overwrite key bytes fs = record fs { files = (key, bytes) ∷ remove_file key fs.files }

-- From the Seek on, with the file cut to the offset.
unfoldable pub copy_in : Faults → Text → Text → Text → Copied → Fs → Appended
unfolding try_calls remove_file
copy_in fails key kept hashed c fs = elim (try_calls fails (seek ∷ [])) [
  | err e ↦ not_appended e hashed (overwrite key kept fs)
  | ok u ↦
      let fs' = overwrite key (kept ++ (c.whole ++ c.short)) fs in
      elim (try_calls fails (sync ∷ [])) [
        | err e ↦ not_appended e (hashed ++ c.whole) fs'
        | ok u ↦ record {
          written = length c.whole + length c.short;
          failure = c.ended;
          hashed = hashed ++ c.whole;
          store = fs';
        }
      ]
]

unfoldable pub append_partial : Faults → Text → ℕ → Text → Copied → Fs → Appended
unfolding look_up truncate copy_in try_calls
append_partial fails key offset hashed c fs = elim (look_up fails open_call key fs) [
  | err e ↦ not_appended e hashed fs
  | ok bytes ↦ elim (try_calls fails (truncate_call ∷ [])) [
    | err e ↦ not_appended e hashed fs
    | ok u ↦ copy_in fails key (truncate offset bytes) hashed c fs
  ]
]

-- CommitPartial: the staging file under a new key; renaming one that is not there fails.
unfoldable pub commit_partial : Faults → Text → Text → Fs → Result Err Text × Fs
unfolding locate try_calls hex fan_out find_file remove_file seal
commit_partial fails key raw fs =
    let blob_key = fan_out (hex raw) in
    elim (do
      _ ← locate fs.root key
      _ ← locate fs.root blob_key
      _ ← try_calls fails (mkdir ∷ rename ∷ [])
      or_fail (find_file key fs.files) (io rename)) [
        | err e ↦ (err e, fs)
        | ok bytes ↦
            seal fails blob_key blob_key bytes (record fs { files = remove_file key fs.files })
      ]

unfoldable pub stat_partial : Faults → Text → Fs → Result Err ℕ
unfolding stat
stat_partial fails key fs = stat fails key fs

unfoldable pub remove_partial : Faults → Text → Fs → Result Err (Unit {0}) × Fs
unfolding delete
remove_partial fails key fs = delete fails key fs
