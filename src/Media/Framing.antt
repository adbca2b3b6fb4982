-- ===== src/Media/Framing.antt =====
-- A writer of EBML elements, and that forEachEBML reads back what it writes.
use private_cloud.Prelude.{
  ℕ, ◌/◌, ◌%◌, ◌^◌, ◌≤◌, ◌<◌, ◌⊎◌, List, [], ◌∷◌, ◌++◌, Text, length, ltb, if◌then◌else◌,
}
use private_cloud.Media.{max_int32}

-- An id of one byte or of four, its marker in it, and a size of eight bytes.
abbrev byte : ℕ → ℕ → ℕ
byte k n = n / 256 ^ k % 256

pub encode_id : ℕ → Text
encode_id id = if ltb id 256 then id ∷ [] else byte 3 id ∷ byte 2 id ∷ byte 1 id ∷ byte 0 id ∷ []

pub encode_size : ℕ → Text
encode_size n = 1 ∷ 0 ∷ 0 ∷ 0 ∷ byte 3 n ∷ byte 2 n ∷ byte 1 n ∷ byte 0 n ∷ []

pub frame : ℕ × Text → Text
unfolding encode_id encode_size
frame (id, body) = encode_id id ++ (encode_size (length body) ++ body)

pub frames : List (ℕ × Text) → Text
unfolding frame
frames [] = []
frames (e ∷ es) = frame e ++ frames es

abbrev pub IsShort : ℕ → Type 0
IsShort id = (128 ≤ id) × (id < 256)

abbrev pub IsLong : ℕ → Type 0
IsLong id = (2 ^ 28 ≤ id) × (id < 2 ^ 29)

abbrev pub IsElement : ℕ × Text → Type 0
IsElement (id, body) = (IsShort id ⊎ IsLong id) × (length body ≤ max_int32)
