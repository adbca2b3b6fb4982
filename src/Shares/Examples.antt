-- ===== src/Shares/Examples.antt =====
-- server/internal/shares/store.go and service.go: a link to one file, with and without a password.
use private_cloud.Prelude.{
  ◌≤◌, ◌≡◌, refl, ◌⊎◌, true, false, any, none, some, List, [], ◌∷◌, ◌++◌, Text, text_eq, ok, err,
}
use private_cloud.Shares.{
  Share, file, Node, not_found, Services, active, check_validity, unlock_proof, valid_unlock,
  find_by_token_hash, lookup, valid_share, unlock, is_file, trim_left, trim_right, trim_slashes,
  resolve_node, locked_view, node_view, view, may_download, has_password, try_increment_download,
  open_content, revoke,
}
use private_cloud.Shares.Access.{
  IsConfined, IsAdmitted, Shown, view_guarded, open_content_guarded, unlock_proves,
}
use private_cloud.Shares.Downloads.{
  Event, downloads, revokes, served, left, served-le-left, revoke_kills,
}

abbrev document : Node
document = record {
  id = 5;
  name = 100 ∷ [];
  path = 47 ∷ 100 ∷ [];
  kind = file;
  size = 3;
  mime = 116 ∷ [];
  is_root = false;
}

abbrev services : Services
services = record {
  get_live = λ owner id. some document;
  get_by_path = λ owner path. none;
  list_children = λ owner id. [];
  can_open = λ owner id. true;
  hash_token = λ t. t;
  mac = λ key id. id ∷ key;
  verify_secret = λ password hash. text_eq password hash;
  hash_secret = λ password. password;
  join = λ a b. a ++ (47 ∷ b);
}

abbrev token : Text
token = 120 ∷ []

abbrev link : Share
link = record {
  id = 1;
  node_id = 5;
  owner_id = 7;
  token_hash = token;
  unlock_key = 9 ∷ [];
  password_hash = [];
  expires_at = some 100;
  max_downloads = some 2;
  download_count = 0;
  created_at = 1;
  revoked_at = none;
}

abbrev links : List Share
links = link ∷ []

found : lookup services token links ≡ ok link
unfolding lookup find_by_token_hash text_eq
found = refl

viewed : view services 10 token [] [] links ≡ ok (node_view services link [] document)
unfolding view valid_share lookup find_by_token_hash text_eq check_validity resolve_node
    trim_slashes trim_left trim_right
viewed = refl

view_guarded_example :
    (node_view services link [] document ≡ locked_view)
    ⊎ Shown services 10 token [] [] links (node_view services link [] document)
view_guarded_example =
    view_guarded services 10 token [] [] links (node_view services link [] document) viewed

opened : (open_content services 10 11 token [] [] links).0 ≡ ok document
unfolding open_content valid_share lookup find_by_token_hash text_eq check_validity resolve_node
    trim_slashes trim_left trim_right try_increment_download
opened = refl

open_content_guarded_example :
    (s : Share) × IsAdmitted services 10 token [] links s
    × IsConfined services s document
    × (is_file document ≡ true)
    × (any (may_download s.id 11) links ≡ true)
    × ((open_content services 10 11 token [] [] links).1 ≡ (try_increment_download s.id 11 links).1)
open_content_guarded_example = open_content_guarded services 10 11 token [] [] links document opened

abbrev locked_link : Share
locked_link = record link { password_hash = 112 ∷ [] }

locked_found : lookup services token (locked_link ∷ []) ≡ ok locked_link
unfolding lookup find_by_token_hash text_eq
locked_found = refl

unlocked : unlock services 10 token (112 ∷ []) (locked_link ∷ []) ≡ ok (1 ∷ 9 ∷ [])
unfolding unlock unlock_proof valid_share lookup find_by_token_hash text_eq check_validity
unlocked = refl

unlock_proves_example :
    (valid_unlock services locked_link (1 ∷ 9 ∷ []) ≡ true)
    × (active 10 locked_link ≡ true)
    × ((has_password locked_link ≡ false) ⊎ (text_eq (112 ∷ []) (112 ∷ []) ≡ true))
unlock_proves_example =
    unlock_proves services 10 token (112 ∷ []) (1 ∷ 9 ∷ []) (locked_link ∷ []) locked_link
      locked_found unlocked

abbrev visits : List Event
visits = downloads 1 10 ∷ downloads 1 11 ∷ downloads 1 12 ∷ revokes 13 7 1 ∷ []

served-le-left_example : served 1 visits links ≤ left 1 links
served-le-left_example = served-le-left 1 visits links ((λ e. refl), tt)

revoke_kills_example : valid_share services 50 token (revoke 20 7 1 links).1 ≡ err not_found
revoke_kills_example = revoke_kills services token links link 20 50 found
