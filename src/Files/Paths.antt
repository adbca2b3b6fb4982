-- ===== src/Files/Paths.antt =====
-- server/internal/files/models.go and store.go: JoinPath, likePrefix and the statement of MoveOrRename
-- that rewrites the paths below a folder. Postgres matches and cuts a text by characters, Go measures it
-- in bytes.
use private_cloud.Prelude.{
  ℕ, ◌+◌, ◌-◌, ◌≤◌, ◌≡◌, ◌↔◌, refl, sym, ap, ◌∙◌, Bool, true, false, ◌&&◌, ◌||◌, [], ◌∷◌, ◌++◌,
  Text, codes, text_eq, has_prefix, length, drop, drop-append_add, length-drop, length-append, ltb,
  ◌==◌, if◌then◌else◌, Bool-cases, inl, inr, arith,
}

unfoldable pub join_path : Text → Text → Text
join_path parent name = if text_eq parent (codes "/") then b'/' ∷ name else parent ++ (b'/' ∷ name)

abbrev pub is_meta : ℕ → Bool
is_meta c = c == b'\\' || (c == b'%' || c == b'_')

-- likePrefix
unfoldable pub like_prefix : Text → Text
like_prefix [] = []
like_prefix (c ∷ p) = let rest = like_prefix p in if is_meta c then b'\\' ∷ c ∷ rest else c ∷ rest

abbrev pub literal : ℕ → (Text → Bool) → Text → Bool
literal c rest [] = false
literal c rest (x ∷ s) = x == c && rest s

abbrev pub one : (Text → Bool) → Text → Bool
one rest [] = false
one rest (x ∷ s) = rest s

unfoldable pub star : (Text → Bool) → Text → Bool
star rest [] = rest []
star rest (x ∷ s) = rest (x ∷ s) || star rest s

abbrev pub is_empty : Text → Bool
is_empty [] = true
is_empty (x ∷ s) = false

-- LIKE, after a backslash or not.
unfoldable pub like : Bool → Text → Text → Bool
unfolding star
like escaped [] s = if escaped then false else is_empty s
like true (c ∷ p) s = literal c (like false p) s
like false (c ∷ p) s =
    if c == b'\\'
    then like true p s
    else if c == b'%'
    then star (like false p) s
    else if c == b'_'
    then one (like false p) s
    else literal c (like false p) s

-- path LIKE likePrefix(folder) || '/%'
unfoldable pub is_under : Text → Text → Bool
unfolding like_prefix like
is_under folder path = like false (like_prefix folder ++ codes "/%") path

-- The bytes of a code point in UTF-8, and Go's len.
abbrev pub width : ℕ → ℕ
width c = if ltb c 0x80 then 1 else if ltb c 0x800 then 2 else if ltb c 0x10000 then 3 else 4

unfoldable pub byte_length : Text → ℕ
byte_length [] = 0
byte_length (c ∷ s) = width c + byte_length s

-- $3 || substring(path from len(node.Path)+1)
unfoldable pub splice : Text → Text → Text → Text
unfolding byte_length
splice old new path = new ++ drop (byte_length old) path

star_any : (s : Text) → star (like false []) s ≡ true
unfolding star like
star_any [] = refl
star_any (x ∷ s) = star_any s

like-slash : (s : Text) → like false (codes "/%") s ≡ has_prefix s (codes "/")
unfolding like has_prefix
like-slash [] = refl
like-slash (x ∷ s) = ground (arith, star_any s)

like-prefix_cons :
    (c : ℕ) (p q s : Text)
    → like false (like_prefix (c ∷ p) ++ q) s ≡ literal c (like false (like_prefix p ++ q)) s
unfolding like like_prefix
like-prefix_cons c p q s = elim (Bool-cases (is_meta c)) [
  | inl meta ↦ rw (like_prefix, meta) refl
  | inr plain ↦ rw (like_prefix, plain) (plain_step c (like_prefix p ++ q) s plain)
]
  where
    plain_step :
        (c : ℕ) (q s : Text) → is_meta c ≡ false → like false (c ∷ q) s ≡ literal c (like false q) s
    plain_step c q s plain = ground arith

-- The statements' LIKE selects exactly the paths that go on from the folder's with a slash, whatever
-- characters the folder's path has.
pub is_under-eq :
    (folder path : Text) → is_under folder path ≡ has_prefix path (folder ++ codes "/")
unfolding is_under has_prefix
is_under-eq [] path = like-slash path
is_under-eq (c ∷ folder) [] = like-prefix_cons c folder (codes "/%") []
is_under-eq (c ∷ folder) (x ∷ path) =
    like-prefix_cons c folder (codes "/%") (x ∷ path)
    ∙ ap (λ (b : Bool). x == c && b) (is_under-eq folder path)

byte_length-ge : (s : Text) → length s ≤ byte_length s
unfolding byte_length
byte_length-ge [] = omega arith
byte_length-ge (c ∷ s) = ground (arith, byte_length-ge s)

-- Go's length and Postgres's agree: every character of the path is ASCII.
abbrev pub IsAscii : Text → Type 0
IsAscii s = byte_length s ≡ length s

splice-append :
    (old new rest : Text)
    → splice old new (old ++ rest) ≡ new ++ drop (byte_length old - length old) rest
unfolding splice
splice-append old new rest =
    let e : byte_length old ≡ length old + (byte_length old - length old) =
      omega (arith, byte_length-ge old) in
    ap (λ (n : ℕ). new ++ drop n (old ++ rest)) e
    ∙ ap (λ (t : Text). new ++ t) (drop-append_add old rest (byte_length old - length old))

pub splice-IsAscii :
    (old new rest : Text) → IsAscii old → splice old new (old ++ rest) ≡ new ++ rest
splice-IsAscii old new rest ascii =
    splice-append old new rest ∙ ap (λ (n : ℕ). new ++ drop n rest) (no_more ascii)
  where
    no_more : byte_length old ≡ length old → byte_length old - length old ≡ 0
    no_more h = omega arith

-- The path below a moved folder goes on as it did below the folder's new path exactly where the folder's
-- old path is ASCII; where it is not, the statement drops more than the old path.
pub splice_iff :
    (old new : Text) (c : ℕ) (rest : Text)
    → (splice old new (old ++ (c ∷ rest)) ≡ new ++ (c ∷ rest)) ↔ (byte_length old ≡ length old)
splice_iff old new c rest = (shorter, splice-IsAscii old new (c ∷ rest))
  where
    shorter : splice old new (old ++ (c ∷ rest)) ≡ new ++ (c ∷ rest) → byte_length old ≡ length old
    shorter h =
        let more = byte_length old - length old in
        let e : new ++ drop more (c ∷ rest) ≡ new ++ (c ∷ rest) =
          sym (splice-append old new (c ∷ rest)) ∙ h in
        omega (
          arith,
          ap length e,
          length-append {0} new (drop more (c ∷ rest)),
          length-append {0} new (c ∷ rest),
          length-drop {0} more (c ∷ rest),
          byte_length-ge old,
        )
