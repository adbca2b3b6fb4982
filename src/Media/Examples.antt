-- ===== src/Media/Examples.antt =====
-- server/internal/media/mkv.go: two small elements.
use private_cloud.Prelude.{ℕ, ◌≤◌, ◌≡◌, List, [], ◌∷◌, Text}
use private_cloud.Media.{walk, for_each_ebml}
use private_cloud.Media.Walk.{weight, for_each_ebml-Bounded}

-- A track's display width of two bytes, in a TrackEntry's id of one byte and in a Tracks id of four.
abbrev elements : List (ℕ × Text)
elements = (174, 84 ∷ 176 ∷ []) ∷ (374648427, []) ∷ []

-- A void element of one byte, then one whose length runs past the end.
abbrev truncated : Text
truncated = 236 ∷ 129 ∷ 0 ∷ 174 ∷ 136 ∷ 1 ∷ []

for_each_ebml-Bounded_example :
    (weight (for_each_ebml truncated) ≤ 6)
    × ((f : ℕ) → 6 ≤ f → walk f truncated ≡ for_each_ebml truncated)
for_each_ebml-Bounded_example = for_each_ebml-Bounded truncated
