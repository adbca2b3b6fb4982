-- ===== src/Files/Names.antt =====
-- server/internal/files/models.go: ValidateName and isWindowsReserved. Of strings.ToUpper only what it
-- does to the letters of ASCII matters to a comparison with names that have no I, K or S beyond them.
use private_cloud.Prelude.{
  ℕ, ◌-◌, ◌≡◌, Bool, true, false, not, ◌&&◌, ◌||◌, [], ◌∷◌, map, Text, codes, text_eq, any, ltb,
  leb, ◌==◌, if◌then◌else◌, arith,
}
use private_cloud.Files.Paths.{byte_length}

abbrev pub max_name_len : ℕ
max_name_len = 255

-- unicode.IsControl
abbrev pub is_control : ℕ → Bool
is_control c = ltb c 0x20 || (leb 0x7f c && ltb c 0xa0)

abbrev pub is_separator : ℕ → Bool
is_separator c = c == b'/' || c == b'\\'

-- strings.ContainsAny(name, `<>:"|?*`)
abbrev pub is_forbidden : ℕ → Bool
is_forbidden c = any (λ d. c == d) (codes "<>:\"|?*")

unfoldable pub last_is : ℕ → Text → Bool
last_is c [] = false
last_is c (x ∷ []) = x == c
last_is c (x ∷ y ∷ s) = last_is c (y ∷ s)

abbrev pub upper : ℕ → ℕ
upper c = if leb b'a' c && leb c b'z' then c - 32 else c

-- The name up to its first dot.
unfoldable pub before_dot : Text → Text
before_dot [] = []
before_dot (c ∷ s) = let rest = before_dot s in if c == b'.' then [] else c ∷ rest

-- name[:i] where the first dot is not the first character, or else the name.
unfoldable pub base_of : Text → Text
unfolding before_dot
base_of [] = []
base_of (c ∷ s) = if c == b'.' then c ∷ s else c ∷ before_dot s

abbrev pub is_device : Text → Bool
is_device s =
    text_eq s (codes "CON")
    || (text_eq s (codes "PRN") || (text_eq s (codes "AUX") || text_eq s (codes "NUL")))

abbrev pub is_port_digit : ℕ → Bool
is_port_digit c = leb b'1' c && leb c b'9'

unfoldable pub is_port : Text → Bool
unfolding text_eq
is_port (a ∷ b ∷ c ∷ d ∷ []) =
    let prefix = a ∷ b ∷ c ∷ [] in
    (text_eq prefix (codes "COM") || text_eq prefix (codes "LPT")) && is_port_digit d
is_port s = false

unfoldable pub is_windows_reserved : Text → Bool
unfolding base_of is_port text_eq
is_windows_reserved name = let base = map upper (base_of name) in is_device base || is_port base

unfoldable pub validate_name : Text → Bool
unfolding byte_length last_is is_windows_reserved text_eq
validate_name name =
    if text_eq name [] || ltb max_name_len (byte_length name)
    then false
    else if text_eq name (codes ".") || text_eq name (codes "..")
    then false
    else if any is_separator name
    then false
    else if any is_control name
    then false
    else if last_is b' ' name || last_is b'.' name
    then false
    else if any is_forbidden name
    then false
    else not (is_windows_reserved name)

-- A name that is accepted makes one segment of a path: it has a character, and no slash.
pub validate_name-segment :
    (name : Text)
    → validate_name name ≡ true
    → (text_eq name [] ≡ false) × (any is_separator name ≡ false)
unfolding validate_name
validate_name-segment name h = ground arith
