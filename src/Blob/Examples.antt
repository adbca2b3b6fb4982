-- ===== src/Blob/Examples.antt =====
-- Runs of the stores on concrete inputs, and the theorems at inputs that meet their hypotheses.
use private_cloud.Prelude.{
  ℕ, ◌≡◌, ◌≢◌, refl, Bool, true, false, ◌⊎◌, inl, Option, none, some, List, [], ◌∷◌, Text, codes,
  text_eq, text_eq_iff, is_some, any, length, if◌then◌else◌, Result, ok, err, arith,
}
use private_cloud.Blob.Keys.{
  Err, not_found, at, refused, invalid_key, path_for, path_for_confined, split_slash, join_slash,
  is_dots,
}
use private_cloud.Blob.Disk.{find_file, remove_file}
use private_cloud.Blob.Tiered.{
  Cold, Tier, Weather, finished, begin, finish, demote, tiered_open, Pauses,
}
use private_cloud.Blob.Tiered.Contents.{find_file-cons, find_file-remove}
use private_cloud.Blob.Tiered.Demoting.{Demoted, demote-Demoted}
use private_cloud.Blob.Tiered.Visible.{Honest}
use private_cloud.Blob.Tiered.Persisting.{Keeps}
use private_cloud.Blob.Tiered.Runs.{Run, here, next, demotes, starts, ends}
use private_cloud.Blob.Tiered.Answers.{Answers, run_reads}

abbrev Objects : Type 0
Objects = List (Text × Text)

put_object : Text → Result Err Text → Objects → Result Err Bool × Objects
put_object key (err e) s = (err e, s)
put_object key (ok b) s =
    if is_some (find_file key s) then (ok true, s) else (ok false, (key, b) ∷ s)

get_object : Text → Objects → Result Err (Result Err Text) × Objects
get_object key s = elim (find_file key s) [ none ↦ (err not_found, s) | some b ↦ (ok (ok b), s) ]

stat_object : Text → Objects → Result Err ℕ × Objects
stat_object key s = elim (find_file key s) [
  | none ↦ (err not_found, s)
  | some b ↦ (ok (length b), s)
]

-- An object store that is always there.
abbrev bucket : Cold Objects
bucket = record {
  put_object = put_object;
  get_object = get_object;
  stat_object = stat_object;
  delete_object = λ key s. (ok tt, remove_file key s);
}

abbrev in_bucket : Objects → Text → Option Text
in_bucket s key = find_file key s

get-gives :
    (key b : Text) (s : Objects) → (get_object key s).0 ≡ ok (ok b) → find_file key s ≡ some b
unfolding get_object
get-gives key b s h = ground arith

get-keeps : (key k : Text) (s : Objects) → find_file k (get_object key s).1 ≡ find_file k s
unfolding get_object
get-keeps key k s = ground arith

get-missing :
    (key : Text) (s : Objects) → (get_object key s).0 ≡ err not_found → find_file key s ≡ none
unfolding get_object
get-missing key s h = ground arith

get-breaks : (key : Text) (s : Objects) → (get_object key s).0 ≢ ok (err not_found)
unfolding get_object
get-breaks key s = ground arith

stat-keeps : (key k : Text) (s : Objects) → find_file k (stat_object key s).1 ≡ find_file k s
unfolding stat_object
stat-keeps key k s = ground arith

put-keeps :
    (key k b : Text) (r : Result Err Text) (s : Objects)
    → find_file k s ≡ some b
    → find_file k (put_object key r s).1 ≡ some b
unfolding put_object
put-keeps key k b (err e) s h = h
put-keeps key k b (ok new) s h = ground (arith, find_file-cons k key new s, text_eq_iff key k)

put-adds :
    (key k b : Text) (r : Result Err Text) (s : Objects)
    → find_file k (put_object key r s).1 ≡ some b
    → (find_file k s ≡ some b) ⊎ ((k ≡ key) × (r ≡ ok b))
unfolding put_object
put-adds key k b (err e) s h = inl h
put-adds key k b (ok new) s h = ground (arith, find_file-cons k key new s, text_eq_iff key k)

bucket-Honest : Honest bucket in_bucket
bucket-Honest = record {
  get_keeps = get-keeps;
  get_gives = get-gives;
  stat_keeps = stat-keeps;
  get_missing = get-missing;
  get_breaks = get-breaks;
  put_keeps = put-keeps;
  put_adds = put-adds;
  delete_keeps = λ key k s miss. ground (arith, find_file-remove k key s);
}

abbrev calm : Weather
calm n call = false

abbrev key : Text
key = codes "ab/cd"

abbrev words : Text
words = codes "cold"

abbrev full : Tier Objects
full = record {
  hot = record { root = codes "srv" ∷ []; files = (key, words) ∷ [] };
  cold = [];
  inflight = [];
  notes = [];
}

-- A key of two segments, and one that would go out of the store's root.
confined : path_for (codes "srv" ∷ []) key ≡ at (codes "srv" ∷ codes "ab" ∷ codes "cd" ∷ [])
unfolding path_for join_slash
confined = refl

goes_up : path_for (codes "srv" ∷ []) (codes "ab/../../etc") ≡ refused invalid_key
unfolding path_for join_slash
goes_up = refl

path_for_confined_example :
    (((codes "srv" ∷ codes "ab" ∷ codes "cd" ∷ []) ≡ (codes "srv" ∷ codes "ab" ∷ codes "cd" ∷ []))
      × (any is_dots (codes "ab" ∷ codes "cd" ∷ []) ≡ false)
      × ((codes "srv" ∷ codes "ab" ∷ codes "cd" ∷ []) ≡ (codes "srv" ∷ codes "ab" ∷ codes "cd" ∷ [])
          → key ≡ key))
unfolding split_slash
path_for_confined_example = path_for_confined (codes "srv" ∷ []) key key _ _ confined confined

-- What is moved is in the bucket, and is there no longer.
moved : demote (λ s. s) (some bucket) calm key full ≡ (
  ok 4,
  record full { hot = record { root = codes "srv" ∷ []; files = [] }; cold = (key, words) ∷ [] },
)
unfolding demote put_object get_object join_slash
moved = refl

demote-Demoted_example :
    Demoted (λ s. s) bucket key full (demote (λ s. s) (some bucket) calm key full)
demote-Demoted_example = demote-Demoted (λ s. s) bucket key calm full

full-Keeps : Keeps bucket in_bucket bucket-Honest key words full
unfolding find_file text_eq
full-Keeps = record {
  only_file = λ b' h. ground arith;
  only_object = λ b' h. ground arith;
  somewhere = inl refl;
}

abbrev moved_away : Tier Objects
moved_away = (demote (λ s. s) (some bucket) calm key full).1

abbrev away_and_back :
    Run bucket in_bucket bucket-Honest key words full
      (finish bucket (calm 0) key (begin key moved_away)).1
away_and_back =
    next (next (next here (demotes (λ s. s) calm key full)) (starts key moved_away))
      (ends (calm 0) key (begin key moved_away))

-- Another demotion comes between the end of Warm and the second look at the disk.
abbrev demoted_again : Pauses Objects
demoted_again = record {
  missed = λ t. t;
  waiting = λ t. t;
  warmed = λ t. (demote (λ s. s) (some bucket) calm key t).1;
}

gone_for_now :
    (tiered_open (some bucket) calm finished demoted_again key moved_away).0 ≡ err not_found
unfolding tiered_open demote put_object get_object join_slash find_file text_eq
gone_for_now = refl

run_reads_example : Answers in_bucket key words demoted_again (
    tiered_open
      (some bucket)
      calm
      finished
      demoted_again
      key
      (finish bucket (calm 0) key (begin key moved_away)).1)
run_reads_example =
    run_reads bucket in_bucket bucket-Honest key words calm finished demoted_again away_and_back
      (λ t. here) (λ t. here) (λ t. next here (demotes (λ s. s) calm key t)) full-Keeps
