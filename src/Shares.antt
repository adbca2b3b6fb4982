-- ===== src/Shares.antt =====
-- server/internal/shares/store.go and service.go: public share links. Time is the argument `now`, in
-- microseconds; a uuid is a number. The files of the owner, SHA-256, the HMAC proof, argon2 and
-- path.Join are what the service is given (`Services`).
pub mod Access
pub mod Downloads
mod Examples
use private_cloud.Prelude.{
  ℕ, ◌+◌, ◌≡◌, Bool, true, false, not, ◌&&◌, ◌||◌, Option, none, some, is_some, List, [], ◌∷◌, ◌++◌,
  map, Text, text_eq, has_prefix, filter, length, take, any, ltb, leb, ◌==◌, if◌then◌else◌, Result,
  ok, err, ◌>>=◌, or_fail,
}

pub record Share : Type 0 where
  pub id : ℕ
  pub node_id : ℕ
  pub owner_id : ℕ
  pub token_hash : Text
  pub unlock_key : Text
  pub password_hash : Text
  pub expires_at : Option ℕ
  pub max_downloads : Option ℕ
  pub download_count : ℕ
  pub created_at : ℕ
  pub revoked_at : Option ℕ

pub data Kind : Type 0 where
  file folder : Kind

-- files.Node, as far as a share reads it; `is_root` is that it has no parent.
pub record Node : Type 0 where
  pub id : ℕ
  pub name : Text
  pub path : Text
  pub kind : Kind
  pub size : ℕ
  pub mime : Text
  pub is_root : Bool

pub data Err : Type 0 where
  not_found gone password_needed wrong_password not_a_file share_target_kind : Err

-- What the service calls: the store of files.Service (live nodes of an owner, by id and by path, and
-- a folder's children), hashToken's SHA-256, unlockProof's HMAC over the id, auth.VerifySecret,
-- auth.HashSecret, path.Join, and whether the file's content can be opened.
pub record Services : Type 0 where
  pub get_live : ℕ → ℕ → Option Node
  pub get_by_path : ℕ → Text → Option Node
  pub list_children : ℕ → ℕ → List Node
  pub can_open : ℕ → ℕ → Bool
  pub hash_token : Text → Text
  pub mac : Text → ℕ → Text
  pub verify_secret : Text → Text → Bool
  pub hash_secret : Text → Text
  pub join : Text → Text → Text

abbrev pub has_password : Share → Bool
has_password s = not (text_eq s.password_hash [])

abbrev pub revoked : Share → Bool
revoked s = is_some s.revoked_at

-- ExpiresAt != nil && !now.Before(*ExpiresAt)
abbrev pub passed : Option ℕ → ℕ → Bool
passed none now = false
passed (some t) now = not (ltb now t)

abbrev pub reached : Option ℕ → ℕ → Bool
reached none count = false
reached (some m) count = leb m count

abbrev pub expired : ℕ → Share → Bool
expired now s = passed s.expires_at now

abbrev pub cap_reached : Share → Bool
cap_reached s = reached s.max_downloads s.download_count

pub active : ℕ → Share → Bool
active now s = not (revoked s) && not (expired now s) && not (cap_reached s)

pub check_validity : ℕ → Share → Result Err (Unit {0})
check_validity now s =
    if revoked s then err not_found else if expired now s || cap_reached s then err gone else ok tt

pub unlock_proof : Services → Share → Text
unlock_proof v s = v.mac s.unlock_key s.id

-- subtle.ConstantTimeCompare
pub valid_unlock : Services → Share → Text → Bool
unfolding unlock_proof
valid_unlock v s proof = text_eq proof (unlock_proof v s)

pub find_by_token_hash : Text → List Share → Result Err Share
find_by_token_hash h [] = err not_found
find_by_token_hash h (s ∷ ss) = if text_eq s.token_hash h then ok s else find_by_token_hash h ss

pub lookup : Services → Text → List Share → Result Err Share
unfolding find_by_token_hash
lookup v token ss =
    if text_eq token [] then err not_found else find_by_token_hash (v.hash_token token) ss

-- The share that a token names, if it may be served at `now`.
pub valid_share : Services → ℕ → Text → List Share → Result Err Share
unfolding lookup check_validity
valid_share v now token ss = do s ← lookup v token ss; _ ← check_validity now s; ok s

pub unlock : Services → ℕ → Text → Text → List Share → Result Err Text
unfolding valid_share unlock_proof
unlock v now token password ss = do
  s ← valid_share v now token ss
  if has_password s && not (v.verify_secret password s.password_hash)
      then err wrong_password
      else ok (unlock_proof v s)

-- strings.Trim(s, "/")
pub trim_left : Text → Text
trim_left [] = []
trim_left (c ∷ s) = if c == b'/' then trim_left s else c ∷ s

pub trim_right : Text → Text
trim_right [] = []
trim_right (c ∷ s) =
    let rest = trim_right s in if c == b'/' && length rest == 0 then [] else c ∷ rest

pub trim_slashes : Text → Text
unfolding trim_left trim_right
trim_slashes s = trim_right (trim_left s)

abbrev pub is_file : Node → Bool
is_file n = elim n.kind [ file ↦ true | folder ↦ false ]

-- The node is the shared root or lies beneath it.
abbrev pub within : Node → Node → Bool
within root n = text_eq n.path root.path || has_prefix n.path (root.path ++ (b'/' ∷ []))

pub resolve_node : Services → Share → Text → Result Err Node
unfolding trim_slashes
resolve_node v s rel_path = do
  root ← or_fail (v.get_live s.owner_id s.node_id) not_found
  let rel = trim_slashes rel_path
  if text_eq rel []
      then ok root
      else if is_file root
      then err not_found
      else (or_fail (v.get_by_path s.owner_id (v.join root.path rel)) not_found >>= λ n.
          if within root n then ok n else err not_found)

pub record Entry : Type 0 where
  pub name : Text
  pub kind : Kind
  pub size : ℕ

pub record PublicShare : Type 0 where
  pub gated : Bool
  pub unlocked : Bool
  pub name : Text
  pub kind : Option Kind
  pub size : ℕ
  pub mime : Text
  pub path : Text
  pub entries : List Entry

abbrev pub locked_view : PublicShare
locked_view = record {
  gated = true;
  unlocked = false;
  name = [];
  kind = none;
  size = 0;
  mime = [];
  path = [];
  entries = [];
}

pub node_view : Services → Share → Text → Node → PublicShare
unfolding trim_slashes
node_view v s rel n =
    let base : PublicShare = record {
      gated = has_password s;
      unlocked = true;
      name = n.name;
      kind = some n.kind;
      size = 0;
      mime = [];
      path = trim_slashes rel;
      entries = [];
    } in
    if is_file n then record base { size = n.size; mime = n.mime } else record base {
      entries =
          map (λ c. record { name = c.name; kind = c.kind; size = c.size })
            (v.list_children s.owner_id n.id);
    }

pub view : Services → ℕ → Text → Text → Text → List Share → Result Err PublicShare
unfolding valid_share valid_unlock resolve_node node_view
view v now token proof rel ss = do
  s ← valid_share v now token ss
  if has_password s && not (valid_unlock v s proof)
      then ok locked_view
      else (resolve_node v s rel >>= λ n. ok (node_view v s rel n))

-- The WHERE clause of TryIncrementDownload.
abbrev pub may_download : ℕ → ℕ → Share → Bool
may_download id now s =
    s.id == id
    && not (is_some s.revoked_at)
    && elim s.expires_at [ none ↦ true | some t ↦ ltb now t ]
    && elim s.max_downloads [ none ↦ true | some m ↦ ltb s.download_count m ]

abbrev pub count_download : Share → Share
count_download s = record s { download_count = s.download_count + 1 }

pub try_increment_download : ℕ → ℕ → List Share → Bool × List Share
try_increment_download id now ss = (
  any (may_download id now) ss,
  map (λ s. if may_download id now s then count_download s else s) ss,
)

-- The content's metadata or the error, and the table after the call. `later` is the clock of the
-- statement that charges the download, which runs after the check at `now`.
pub open_content : Services → ℕ → ℕ → Text → Text → Text → List Share → Result Err Node × List Share
unfolding valid_share valid_unlock resolve_node try_increment_download
open_content v now later token proof rel ss = elim (valid_share v now token ss) [
  | err e ↦ (err e, ss)
  | ok s ↦
      if has_password s && not (valid_unlock v s proof)
      then (err password_needed, ss)
      else (elim (resolve_node v s rel) [
        | err e ↦ (err e, ss)
        | ok n ↦
            if not (is_file n)
            then (err not_a_file, ss)
            else (let charged = try_increment_download s.id later ss in
                if charged.0
                then ((if v.can_open s.owner_id n.id then ok n else err not_found), charged.1)
                else (err gone, charged.1))
      ])
]

-- UPDATE shares SET revoked_at = now() WHERE id = $1 AND owner_id = $2 AND revoked_at IS NULL
abbrev pub may_revoke : ℕ → ℕ → Share → Bool
may_revoke owner id s = s.id == id && s.owner_id == owner && not (is_some s.revoked_at)

pub revoke : ℕ → ℕ → ℕ → List Share → Bool × List Share
revoke now owner id ss = (
  any (may_revoke owner id) ss,
  map (λ s. if may_revoke owner id s then record s { revoked_at = some now } else s) ss,
)

-- The knobs of a new share; 0 is no limit.
pub record CreateOptions : Type 0 where
  pub password : Text
  pub expires_in : ℕ
  pub max_downloads : ℕ

abbrev pub positive : ℕ → Option ℕ
positive n = if ltb 0 n then some n else none

-- `id`, `token` and `key` are what the database and crypto/rand give.
pub create :
    Services
    → ℕ
    → ℕ
    → Text
    → Text
    → ℕ
    → ℕ
    → CreateOptions
    → List Share
    → Result Err (Share × List Share)
create v now id token key owner node opts ss = do
  n ← or_fail (v.get_live owner node) not_found
  if n.is_root
      then err share_target_kind
      else (let s : Share = record {
        id = id;
        node_id = n.id;
        owner_id = owner;
        token_hash = v.hash_token token;
        unlock_key = key;
        password_hash = if text_eq opts.password [] then [] else v.hash_secret opts.password;
        expires_at = if ltb 0 opts.expires_in then some (now + opts.expires_in) else none;
        max_downloads = positive opts.max_downloads;
        download_count = 0;
        created_at = now;
        revoked_at = none;
      } in
          ok (s, s ∷ ss))
