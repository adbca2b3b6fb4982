-- ===== src/Media.antt =====
-- server/internal/media/mkv.go: the EBML framing under a Matroska file. A callback that
-- forEachEBML calls on each element is a list of the elements, in order; of a buffer, a byte is a
-- number below 256.
pub mod Walk
pub mod Framing
mod Examples
use private_cloud.Prelude.{
  ℕ, zero, suc, ◌+◌, ◌-◌, ◌*◌, ◌/◌, ◌%◌, ◌^◌, Bool, true, false, ◌&&◌, ◌||◌, Option, none, some,
  List, [], ◌∷◌, Text, length, take, drop, ltb, ◌==◌, if◌then◌else◌,
}

abbrev pub id_segment : ℕ
id_segment = 408125543

-- idTracks, idTrackEntry, idVideo, idProjection: the other masters on the path to what is read.
abbrev pub id_tracks : ℕ
id_tracks = 374648427

abbrev pub id_track_entry : ℕ
id_track_entry = 174

abbrev pub id_video : ℕ
id_video = 224

abbrev pub id_projection : ℕ
id_projection = 30320

abbrev pub id_ebml_header : ℕ
id_ebml_header = 440786851

abbrev pub max_depth : ℕ
max_depth = 8

abbrev pub max_int32 : ℕ
max_int32 = 2147483647

-- `data[0]&mask == 0` for the mask with bit k only, from k down: the bit where the loop stops. A
-- byte that is not zero has one.
pub marker : ℕ → ℕ → ℕ
marker zero b = zero
marker (suc k) b = let lower = marker k b in if b / 2 ^ suc k % 2 == 0 then lower else suc k

abbrev pub width_of : ℕ → ℕ
width_of b = 8 - marker 7 b

-- v = v<<8 | b over the bytes, in a word of `bits` bits: the bits that the shift moves in are zero,
-- so that the `|` is a sum.
pub shift_in : ℕ → ℕ → Text → ℕ
shift_in bits v [] = v
shift_in bits v (b ∷ bs) = shift_in bits (v * 256 % 2 ^ bits + b) bs

-- ebmlID behind its first test: the id, its marker kept, and its width.
pub id_of_width : ℕ → Text → Option (ℕ × ℕ)
unfolding shift_in
id_of_width width bytes =
    if ltb 4 width || ltb (length bytes) width
    then none
    else some (shift_in 32 0 (take width bytes), width)

pub ebml_id : Text → Option (ℕ × ℕ)
unfolding marker id_of_width
ebml_id [] = none
ebml_id (b ∷ bs) = if b == 0 then none else id_of_width (width_of b) (b ∷ bs)

pub data Size : Type 0 where
  bad : Size
  unknown : ℕ → Size
  known : ℕ → ℕ → Size

pub all_ones : Text → Bool
all_ones [] = true
all_ones (b ∷ bs) = b == 255 && all_ones bs

-- The byte without its marker bit, which is bit k.
abbrev pub without_bit : ℕ → ℕ → ℕ
without_bit k b = b - b / 2 ^ k % 2 * 2 ^ k

-- ebmlSize behind the loop that finds the width: the length that is read, with its width; `unknown`
-- where every data bit is set. `first` is the first byte without its marker bit, and `ones` what it is
-- where its data bits are all set.
pub size_of_width : ℕ → ℕ → ℕ → Text → Size
unfolding shift_in all_ones
size_of_width width first ones bytes =
    let rest = take (width - 1) (drop 1 bytes) in
    let value = shift_in 64 first rest in
    if ltb 8 width || ltb (length bytes) width
    then bad
    else if first == ones && all_ones rest
    then unknown width
    else if ltb max_int32 value
    then bad
    else known value width

pub ebml_size : Text → Size
unfolding marker size_of_width
ebml_size [] = bad
ebml_size (b ∷ bs) =
    let k = marker 7 b in
    if b == 0 then bad else size_of_width (8 - k) (without_bit k b) (2 ^ k - 1) (b ∷ bs)

-- What one round of forEachEBML does: it stops, hands out the last element, or hands out an element
-- and goes on behind it.
pub data Round : Type 0 where
  stop : Round
  last : ℕ × Text → Round
  more : ℕ × Text → Text → Round

abbrev pub after : Text → ℕ → ℕ → Size → Round
after bytes id n bad = stop
after bytes id n (unknown m) = if id == id_segment then last (id, drop m (drop n bytes)) else stop
after bytes id n (known size m) =
    let tail = drop m (drop n bytes) in
    if ltb (length tail) size then stop else more (id, take size tail) (drop size tail)

pub round : Text → Round
unfolding ebml_id ebml_size
round bytes = elim (ebml_id bytes) [
  | none ↦ stop
  | some (id, n) ↦ after bytes id n (ebml_size (drop n bytes))
]

-- The loop, on fuel: a round that goes on consumes two bytes at least.
pub walk : ℕ → Text → List (ℕ × Text)
unfolding round
walk zero bytes = []
walk (suc fuel) bytes = elim (round bytes) [
  | stop ↦ []
  | last e ↦ e ∷ []
  | more e rest ↦ e ∷ walk fuel rest
]

pub for_each_ebml : Text → List (ℕ × Text)
unfolding walk
for_each_ebml bytes = walk (length bytes) bytes

abbrev pub is_path : ℕ → Bool
is_path id =
    id == id_segment
    || (id == id_tracks || (id == id_track_entry || (id == id_video || id == id_projection)))

abbrev pub first_found : (ℕ × Text → Option Text) → List (ℕ × Text) → Option Text
first_found f [] = none
first_found f (e ∷ es) = elim (f e) [ some b ↦ some b | none ↦ first_found f es ]

-- findEBML at a depth that leaves so many levels.
pub find_within : ℕ → ℕ → Text → Option Text
unfolding for_each_ebml
find_within zero want bytes = none
find_within (suc levels) want bytes =
    first_found
      (λ e.
        if e.0 == want then some e.1 else if is_path e.0 then find_within levels want e.1 else none)
      (for_each_ebml bytes)

pub find_ebml : ℕ → Text → Option Text
unfolding find_within
find_ebml want bytes = find_within (suc max_depth) want bytes

pub looks_like_matroska : Text → Bool
unfolding shift_in
looks_like_matroska bytes =
    if ltb (length bytes) 4 then false else shift_in 32 0 (take 4 bytes) == id_ebml_header

-- ebmlUint
pub ebml_uint : Text → Option ℕ
unfolding shift_in
ebml_uint body = if ltb 8 (length body) then none else some (shift_in 64 0 body)

-- ebmlInt: an int64 as its 64-bit word, which starts from all ones where the sign bit is set.
pub ebml_int : Text → Option ℕ
unfolding shift_in
ebml_int [] = none
ebml_int (b ∷ bs) =
    let start = if b / 128 % 2 == 0 then 0 else 2 ^ 64 - 1 in
    if ltb 8 (length (b ∷ bs)) then none else some (shift_in 64 start (b ∷ bs))

-- clampDimension
pub clamp_dimension : ℕ → ℕ
clamp_dimension v = if v == 0 || ltb (2 ^ 20) v then 0 else v
