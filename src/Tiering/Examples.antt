-- ===== src/Tiering/Examples.antt =====
-- server/internal/jobs/tiering/tiering.go: one blob that qualifies and one that does not.
use private_cloud.Prelude.{
  ◌+◌, arith, ℕ, ◌≤◌, ◌≡◌, refl, true, false, none, some, List, [], ◌∷◌, Text, text_eq, length, All,
  ok, pos,
}
use private_cloud.Tiering.{
  Policy, Row, Candidate, Tables, World, Services, Sweep, mark_hot, candidates, sweep,
}
use private_cloud.Tiering.Restoring.{
  restoring, local, wait_warm, restore, IsHot, restore-IsHot, last_touch, touch, max_touched,
}
use private_cloud.Tiering.Touching.{touches, touch_limited}
use private_cloud.Tiering.Policies.{Selects, candidates-Selects}
use private_cloud.Tiering.Sweeping.{Swept, sweep-Swept}

abbrev policy : Policy
policy = record { min_age = pos 10; min_idle = pos 10; min_size = pos 4; batch = pos 2 }

abbrev row : Text → ℕ → Row
row key n = record {
  key = key;
  size = n;
  is_hot = true;
  refcount = 1;
  created_at = 5;
  last_access_at = none;
  tiered_at = none;
}

abbrev tables : Tables
tables = record { blobs = row (1 ∷ []) 8 ∷ row (2 ∷ []) 3 ∷ []; chunks = [] }

abbrev world : World
world = record { db = tables; cold_bytes = [] }

abbrev services : Services
services = record { demote = λ key w. some 8; updates = λ key w. true }

candidates-Selects_example :
    (cs : List Candidate) × (candidates 100 policy tables ≡ ok cs) × Selects 100 policy tables 2 cs
candidates-Selects_example = candidates-Selects 100 policy tables 2 refl

sweep-Swept_example :
    (s : Sweep) × (w' : World) × (sweep services 100 [] policy world ≡ ok (s, w')) × Swept [] 2 s w'
sweep-Swept_example =
    sweep-Swept services 100 [] policy world 2 refl (((λ e. cc), ((λ e. cc), tt)), tt)

restored :
    (restore (λ k. restoring ∷ restoring ∷ local ∷ []) 200 ((1 ∷ []) ∷ []) (0, tables)).1 ≡ none
unfolding restore wait_warm mark_hot text_eq
restored = refl

-- A key that is on its way twice before it is there.
restore-IsHot_example :
    ((restore (λ k. restoring ∷ restoring ∷ local ∷ []) 200 ((1 ∷ []) ∷ []) (0, tables)).0 ≡ 1)
    × All
        (IsHot
          (restore (λ k. restoring ∷ restoring ∷ local ∷ []) 200 ((1 ∷ []) ∷ []) (0, tables)).2)
        ((1 ∷ []) ∷ [])
restore-IsHot_example =
    restore-IsHot (λ k. restoring ∷ restoring ∷ local ∷ []) 200 ((1 ∷ []) ∷ []) 0 tables restored

touched : (touch 100 (1 ∷ []) ([], tables)).0 ≡ true
unfolding touch last_touch
touched = refl

one_more :
    length (touch 100 (1 ∷ []) ([], tables)).1 + length {A = ℕ × Text} ((200, 2 ∷ []) ∷ [])
    ≤ max_touched
unfolding touch last_touch
one_more = omega arith

touch_limited_example :
    (length (touch 100 (1 ∷ []) ([], tables)).1 ≤ max_touched)
    × ((touch 500
          (1 ∷ [])
          ((touches ((200, 2 ∷ []) ∷ []) (touch 100 (1 ∷ []) ([], tables)).1 tables).0, tables)).0
        ≡ false)
touch_limited_example =
    touch_limited 100 500 (1 ∷ []) [] ((200, 2 ∷ []) ∷ []) tables tables touched (omega arith, tt)
      one_more refl
