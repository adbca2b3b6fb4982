-- ===== src/Files/Examples.antt =====
-- Runs of the tree and of an upload on concrete inputs, and the theorems at inputs that meet their
-- hypotheses.
use private_cloud.Prelude.{
  List, ℕ, ◌∙◌, ◌==◌, ◌≤◌, ◌≡◌, ◌↔◌, refl, sym, ap, subst, true, false, none, some, [], ◌∷◌, ◌++◌,
  Text, codes, Has, inl, inr, ok, err, arith, has_prefix, text_eq, length,
}
use private_cloud.Blob.Keys.{sync, open_call, join_slash}
use private_cloud.Blob.Disk.{Faults, Copied, find_file, look_up}
use private_cloud.Files.{Node, not_found, quota, name_taken, find_node}
use private_cloud.Files.Versions.{Version, Db, NewIds, PutFileInput, put_file, check_quota}
use private_cloud.Files.Versions.History.{is_superseded, prune_versions, restore_version}
use private_cloud.Files.Versions.Listings.{listed, list_versions, migratable_versions}
use private_cloud.Files.Versions.Pruning.{prune_versions_keeps}
use private_cloud.Files.Paths.{is_under, is_under-eq, splice, splice_iff, byte_length, join_path}
use private_cloud.Files.Tree.{Rows, new_root, child_of, ensure_root, create_folder, move_or_rename}
use private_cloud.Files.Tree.Shape.{IsTree}
use private_cloud.Files.Tree.Steps.{roots, creates, moves, Reach, here, next, Reach-IsTree}
use private_cloud.Files.Uploads.{
  upload_locked, Session, find_session, lock_upload, refresh_upload_lock, Uploads, limited,
  append_chunk,
}
use private_cloud.Files.Uploads.Receiving.{IsSound}
use private_cloud.Files.Uploads.Advancing.{Advanced, append_chunk-Advanced}
use private_cloud.Files.Uploads.Locking.{none_yet, then_, locks, refreshes, lock_upload_exclusive}
use private_cloud.Files.Uploads.Unsynced.{append_chunk_unsynced}

abbrev same_case : Text → Text
same_case s = s

abbrev top : Node
top = new_root 7 1

abbrev docs : Node
docs = child_of same_case top 2 true (codes "docs")

abbrev notes : Node
notes = child_of same_case docs 3 true (codes "notes")

abbrev tops : Rows
tops = top ∷ []

made_docs : create_folder same_case 7 1 (codes "docs") 2 tops tops ≡ ok (docs ∷ tops)
unfolding create_folder text_eq
made_docs = refl

made_notes :
    create_folder same_case 7 2 (codes "notes") 3 (docs ∷ tops) (docs ∷ tops)
    ≡ ok (notes ∷ docs ∷ tops)
unfolding create_folder text_eq
made_notes = refl

abbrev papers : Node
papers = record docs { name = codes "papers"; name_fold = codes "papers"; path = codes "/papers" }

abbrev papers_notes : Node
papers_notes = record notes { path = codes "/papers/notes" }

renamed :
    move_or_rename same_case 7 2 none (codes "papers") (notes ∷ docs ∷ tops)
    ≡ ok (papers_notes ∷ papers ∷ tops)
unfolding move_or_rename text_eq has_prefix
renamed = refl

-- The path of a folder's child once the folder, whose name is not ASCII, has become `/new`.
cut_short :
    splice (codes "/" ++ (0xe9 ∷ [])) (codes "/new") (codes "/" ++ (0xe9 ∷ codes "/notes"))
    ≡ codes "/newnotes"
unfolding splice
cut_short = refl

made_tops : (ensure_root 7 1 []).1 ≡ tops
unfolding ensure_root
made_tops = refl

planted : Reach same_case [] tops
planted = subst (Reach same_case []) made_tops (next here (roots 7 1 (λ n h. absurd h)))

tops-id : (n : Node) → Has n tops → n.id ≡ 1
tops-id n (inl e) = ap (λ (r : Node). r.id) e
tops-id n (inr h) = absurd h

docs-id : (n : Node) → Has n (docs ∷ tops) → n.id ≤ 2
docs-id n (inl e) = omega (arith, ap (λ (r : Node). r.id) e)
docs-id n (inr h) = omega (arith, tops-id n h)

docs_plain : byte_length docs.path ≡ length docs.path
unfolding byte_length join_path text_eq
docs_plain = refl

plain_path :
    (n : Node)
    → Has n (notes ∷ docs ∷ tops)
    → n.id ≡ 2
    → n.is_folder ≡ true
    → byte_length n.path ≡ length n.path
plain_path n (inl e) same dir = absurd (omega (arith, same, ap (λ (r : Node). r.id) e))
plain_path n (inr (inl e)) same dir =
    subst (λ (r : Node). byte_length r.path ≡ length r.path) (sym e) docs_plain
plain_path n (inr (inr h)) same dir = absurd (omega (arith, same, tops-id n h))

grown : Reach same_case [] (papers_notes ∷ papers ∷ tops)
grown =
    next {mid = notes ∷ docs ∷ tops}
      (next {mid = docs ∷ tops}
        (next {mid = tops} planted (
          creates 7 1 (codes "docs") 2 (docs ∷ tops) (λ n h e. omega (arith, e, tops-id n h))
            made_docs))
        (creates 7 2 (codes "notes") 3 (notes ∷ docs ∷ tops)
          (λ n h e. omega (arith, e, docs-id n h)) made_notes))
      (moves 7 2 none (codes "papers") (papers_notes ∷ papers ∷ tops) plain_path renamed)

Reach-IsTree_example : IsTree same_case (papers_notes ∷ papers ∷ tops)
Reach-IsTree_example = Reach-IsTree same_case (papers_notes ∷ papers ∷ tops) grown

-- A folder named `100%_done` has below it what goes on with a slash, and no other path.
is_under-eq_example :
    is_under (codes "/100%_done") (codes "/100%_done/a")
    ≡ has_prefix (codes "/100%_done/a") (codes "/100%_done" ++ codes "/")
is_under-eq_example = is_under-eq (codes "/100%_done") (codes "/100%_done/a")

splice_iff_example :
    (splice (codes "/docs") (codes "/papers") (codes "/docs" ++ (b'/' ∷ codes "a"))
      ≡ codes "/papers" ++ (b'/' ∷ codes "a"))
    ↔ (byte_length (codes "/docs") ≡ length (codes "/docs"))
splice_iff_example = splice_iff (codes "/docs") (codes "/papers") b'/' (codes "a")

abbrev staging : Text
staging = codes ".staging/aa"

abbrev half : Session
half = record {
  id = 1;
  owner_id = 7;
  parent_id = 2;
  name = codes "a.bin";
  mime = codes "a/b";
  size = 4;
  offset = 2;
  staging_key = staging;
  hash_state = codes "ab";
  expires_at = 500_000_000;
  locked_until = none;
}

abbrev server : Uploads
server = record {
  sessions = half ∷ [];
  store = record { root = codes "srv" ∷ []; files = (staging, codes "abX") ∷ [] };
}

-- The client sends the last two bytes.
abbrev last_two : Copied
last_two = record { whole = codes "cd"; short = []; ended = none }

abbrev calm : Faults
calm call = false

half-IsSound : IsSound half server.store
unfolding find_file text_eq
half-IsSound = record { rest = codes "X"; staged = refl; counted = refl; within = omega arith }

found : find_session 1 server.sessions ≡ some half
unfolding find_session
found = refl

finished : (append_chunk 1 calm 7 1 2 last_two server).1.store.files ≡ (staging, codes "abcd") ∷ []
unfolding append_chunk text_eq has_prefix join_slash
finished = refl

append_chunk-Advanced_example :
    Advanced 1 half (limited 3 last_two) (append_chunk 1 calm 7 1 2 last_two server).1
append_chunk-Advanced_example =
    append_chunk-Advanced 1 calm 7 1 2 half last_two server refl refl found half-IsSound

let_in : (lock_upload 1 7 1 server.sessions).0 ≡ ok half
unfolding lock_upload
let_in = refl

-- Another writer tries, and the one that holds the session renews its lock.
abbrev renewed : List Session
renewed = refresh_upload_lock 60 1 (lock_upload 30 7 1 (lock_upload 1 7 1 server.sessions).1).1

lock_upload_exclusive_example : lock_upload 100 7 1 renewed ≡ (err upload_locked, renewed)
lock_upload_exclusive_example =
    lock_upload_exclusive 1 100 7 1 half half server.sessions renewed found let_in
      (then_ (then_ none_yet (locks 30 7 1 (omega arith))) (refreshes 60 1 (omega arith)))
      (omega arith) (omega arith)

-- Only the fsync fails.
abbrev no_sync : Faults
no_sync call = elim call [ sync ↦ true | other ↦ false ]

staged : look_up no_sync open_call staging server.store ≡ ok (codes "abX")
unfolding look_up text_eq has_prefix join_slash
staged = refl

append_chunk_unsynced_example :
    (r after : Session) × ((append_chunk 1 no_sync 7 1 2 last_two server).0 ≡ ok r)
    × (find_session 1 (append_chunk 1 no_sync 7 1 2 last_two server).1.sessions ≡ some after)
    × (after.offset ≡ 2)
    × (after.hash_state ≡ codes "ab" ++ codes "cd")
append_chunk_unsynced_example =
    append_chunk_unsynced 1 no_sync 7 1 half (codes "abX") last_two server found refl refl staged
      refl refl refl

abbrev version : ℕ → ℕ → Version
version id time = record {
  id = id;
  node_id = 5;
  blob_id = none;
  manifest_id = some id;
  size = 10;
  mime = codes "text/plain";
  created_at = time;
  created_by = some 7;
}

abbrev saved : Node
saved = record (child_of same_case docs 5 false (codes "a.txt")) { head_version_id = some 2 }

abbrev two_versions : Db
two_versions = record {
  nodes = saved ∷ docs ∷ tops;
  versions = version 2 10 ∷ version 1 5 ∷ [];
  blobs = [];
  manifests = (1, codes "x") ∷ (2, codes "y") ∷ (3, codes "z") ∷ [];
  quotas = (7, some 25) ∷ [];
}

over_quota : check_quota 7 6 two_versions ≡ err quota
unfolding check_quota text_eq
over_quota = refl

within_quota : check_quota 7 5 two_versions ≡ ok tt
unfolding check_quota text_eq
within_quota = refl

pruned : (prune_versions 1 3 10 20 two_versions).versions ≡ version 2 10 ∷ []
unfolding prune_versions
pruned = refl

two_unique :
    (v w : Version)
    → Has v two_versions.versions
    → Has w two_versions.versions
    → v.id ≡ w.id
    → v ≡ w
two_unique v w (inl e) (inl f) h = e ∙ sym f
two_unique v w (inl e) (inr (inr x)) h = absurd x
two_unique v w (inl e) (inr (inl f)) h =
    absurd (ground (arith, sym (ap (λ x. x.id) e) ∙ (h ∙ ap (λ x. x.id) f)))
two_unique v w (inr (inl e)) (inl f) h =
    absurd (ground (arith, sym (ap (λ x. x.id) e) ∙ (h ∙ ap (λ x. x.id) f)))
two_unique v w (inr (inl e)) (inr (inl f)) h = e ∙ sym f
two_unique v w (inr (inl e)) (inr (inr x)) h = absurd x
two_unique v w (inr (inr x)) m h = absurd x

newest_is_head :
    is_superseded
      (version 2 10)
      (find_node (λ n. n.id == (version 2 10).node_id) two_versions.nodes)
    ≡ false
unfolding find_node
newest_is_head = refl

prune_versions_keeps_example : Has (version 2 10) (prune_versions 1 3 10 20 two_versions).versions
prune_versions_keeps_example =
    prune_versions_keeps 1 3 10 20 two_versions two_unique (version 2 10) (inl refl)
      (inl newest_is_head)

restored :
    restore_version 30 7 5 1 9 two_versions
    ≡ ok (record two_versions {
      nodes = record saved { head_version_id = some 9 } ∷ docs ∷ tops;
      versions = record (version 1 30) { id = 9 } ∷ two_versions.versions;
    })
unfolding restore_version text_eq
restored = refl

abbrev new_ids : NewIds
new_ids = record { blob = 20; node = 21; version = 22 }

abbrev input : Text → PutFileInput
input name = record {
  owner_id = 7;
  parent_id = 2;
  name = name;
  blob_key = [];
  sha256 = [];
  manifest_id = some 3;
  size = 4;
  mime = codes "text/plain";
}

abbrev two_notes : Db
two_notes = record two_versions { nodes = notes ∷ two_versions.nodes }

folder_in_the_way : put_file same_case 30 new_ids (input (codes "notes")) two_notes ≡ err name_taken
unfolding put_file text_eq has_prefix
folder_in_the_way = refl

put_again :
    put_file same_case 30 new_ids (input (codes "a.txt")) two_versions
    ≡ ok (record two_versions {
      nodes = record saved { head_version_id = some 22 } ∷ docs ∷ tops;
      versions = record (version 3 30) { id = 22; node_id = 5; size = 4 } ∷ two_versions.versions;
    })
unfolding put_file text_eq has_prefix
put_again = refl

listed_newest_first :
    list_versions 7 5 two_versions
    ≡ ok (listed two_versions saved (version 2 10) ∷ listed two_versions saved (version 1 5) ∷ [])
unfolding list_versions
listed_newest_first = refl

no_versions_of_a_folder : list_versions 7 2 two_versions ≡ err not_found
unfolding list_versions
no_versions_of_a_folder = refl

nothing_to_migrate : migratable_versions 0 9 two_versions ≡ []
unfolding migratable_versions
nothing_to_migrate = refl
