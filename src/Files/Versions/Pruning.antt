-- ===== src/Files/Versions/Pruning.antt =====
-- server/internal/files/versions.go, PruneVersions.
use private_cloud.Prelude.{
  ℕ, ◌+◌, ◌≤◌, ◌≡◌, ap, true, false, not, ◌⊎◌, inl, inr, List, [], ◌∷◌, Has, Has-filter, filter-Has,
  Has-take, none_Has, any, filter, ◌==◌, Bool-cases, ==_iff, subst, arith,
}
use private_cloud.Files.{find_node}
use private_cloud.Files.Versions.{Version, Db}
use private_cloud.Files.Versions.History.{
  is_superseded, row_number, is_prunable, insert_by_age, oldest_first, victims, prune_versions,
}

Has-insert :
    (w : Version) (vs : List Version) (v : Version)
    → Has v (insert_by_age w vs)
    → (v ≡ w) ⊎ Has v vs
unfolding insert_by_age
Has-insert w [] v m = m
Has-insert w (x ∷ xs) v m = ground (arith, Has-insert w xs v)

Has-oldest_first : (vs : List Version) (v : Version) → Has v (oldest_first vs) → Has v vs
unfolding oldest_first
Has-oldest_first [] v m = m
Has-oldest_first (x ∷ xs) v m = elim (Has-insert x (oldest_first xs) v m) [
  | inl e ↦ inl e
  | inr r ↦ inr (Has-oldest_first xs v r)
]

victims-prunable :
    (keep_n retention limit now : ℕ) (db : Db) (v : Version)
    → Has v (victims keep_n retention limit now db)
    → Has v db.versions × (is_prunable keep_n retention now db v ≡ true)
unfolding victims
victims-prunable keep_n retention limit now db v m =
    Has-filter (is_prunable keep_n retention now db) db.versions v (
      Has-oldest_first (filter (is_prunable keep_n retention now db) db.versions) v (
        Has-take limit (oldest_first (filter (is_prunable keep_n retention now db) db.versions)) v
          m))

not_victim :
    (keep_n retention limit now : ℕ) (db : Db)
    → ((v w : Version) → Has v db.versions → Has w db.versions → v.id ≡ w.id → v ≡ w)
    → (v : Version) → Has v db.versions
    → is_prunable keep_n retention now db v ≡ false
    → (w : Version) → Has w (victims keep_n retention limit now db)
    → (w.id == v.id) ≡ false
not_victim keep_n retention limit now db unique v m kept w dead =
    let (m', h) = victims-prunable keep_n retention limit now db w dead in
    elim (Bool-cases (w.id == v.id)) [
      | inl same ↦ ground (
        arith,
        kept,
        subst (λ x. is_prunable keep_n retention now db x ≡ true)
            (unique w v m' m ((==_iff w.id v.id).0 same)) h,
      )
      | inr other ↦ other
    ]

-- The version is the head of its file, or one of the newest keep_n of the file, or is not
-- older than the retention.
abbrev IsSpared : ℕ → ℕ → ℕ → Db → Version → Type 0
IsSpared keep_n retention now db v =
    (is_superseded v (find_node (λ n. n.id == v.node_id) db.nodes) ≡ false)
    ⊎ ((row_number db.versions v ≤ keep_n) ⊎ (now ≤ v.created_at + retention))

spared_lem :
    (keep_n retention now : ℕ) (db : Db) (v : Version)
    → IsSpared keep_n retention now db v
    → is_prunable keep_n retention now db v ≡ false
unfolding is_prunable
spared_lem keep_n retention now db v h = ground (arith)

-- Where versions have different ids, PruneVersions keeps each version that is the head of its file, is one
-- of the newest keepN of its file, or is not older than the retention.
pub prune_versions_keeps :
    (keep_n retention limit now : ℕ) (db : Db)
    → ((v w : Version) → Has v db.versions → Has w db.versions → v.id ≡ w.id → v ≡ w)
    → (v : Version) → Has v db.versions
    → IsSpared keep_n retention now db v
    → Has v (prune_versions keep_n retention limit now db).versions
unfolding prune_versions
prune_versions_keeps keep_n retention limit now db unique v m spared =
    filter-Has (λ x. not (any (λ w. w.id == x.id) (victims keep_n retention limit now db)))
      db.versions v m
      (ap not (
        none_Has (λ w. w.id == v.id) (victims keep_n retention limit now db)
          (not_victim keep_n retention limit now db unique v m
            (spared_lem keep_n retention now db v spared))))
