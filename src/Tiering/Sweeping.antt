-- ===== src/Tiering/Sweeping.antt =====
-- One sweep: what it counts, and that no row says 'cold' before its bytes are in the cold tier.
use private_cloud.Prelude.{
  ℕ, suc, ◌+◌, ◌≤◌, ◌≡◌, refl, ◌∙◌, Bool, true, false, Option, none, some, List, [], ◌∷◌, inl, inr,
  map, Text, text_eq, text_eq_iff, Has, All, length, Result, ok, err, if◌then◌else◌, arith, pos,
}
use private_cloud.Tiering.{
  Policy, Err, Row, Table, blobs_table, chunks_table, other_table, Candidate, Tables, candidates,
  answered, cool, mark_cold, Sweep, World, Services, demote_one, settle, flip_row, demote_all,
  start, sweep,
}
use private_cloud.Tiering.Policies.{Selects, candidates-Selects}

-- A row that says 'cold' has its bytes in the cold tier.
abbrev pub RowBacked : List Text → Row → Type 0
RowBacked keys r = r.is_hot ≡ false → Has r.key keys

abbrev pub IsBacked : World → Type 0
IsBacked w = All (RowBacked w.cold_bytes) w.db.blobs × All (RowBacked w.cold_bytes) w.db.chunks

cool_by-RowBacked :
    (now : ℕ) (key : Text) (keys : List Text) (r : Row) (b : Bool)
    → (b ≡ true → r.key ≡ key)
    → RowBacked keys r
    → RowBacked (key ∷ keys) (if b then record r { is_hot = false; tiered_at = some now } else r)
cool_by-RowBacked now key keys r true same h = λ c. inl (same refl)
cool_by-RowBacked now key keys r false same h = λ c. inr (h c)

cool-RowBacked :
    (now : ℕ) (key : Text) (keys : List Text) (r : Row)
    → RowBacked keys r
    → RowBacked (key ∷ keys) (cool now key r)
cool-RowBacked now key keys r h =
    cool_by-RowBacked now key keys r (text_eq r.key key) (text_eq_iff r.key key).0 h

keep-RowBacked :
    (key : Text) (keys : List Text) (rs : List Row)
    → All (RowBacked keys) rs
    → All (RowBacked (key ∷ keys)) rs
keep-RowBacked key keys [] h = tt
keep-RowBacked key keys (r ∷ rs) h = ((λ c. inr (h.0 c)), keep-RowBacked key keys rs h.1)

map-cool-RowBacked :
    (now : ℕ) (key : Text) (keys : List Text) (rs : List Row)
    → All (RowBacked keys) rs
    → All (RowBacked (key ∷ keys)) (map (cool now key) rs)
map-cool-RowBacked now key keys [] h = tt
map-cool-RowBacked now key keys (r ∷ rs) h =
    (cool-RowBacked now key keys r h.0, map-cool-RowBacked now key keys rs h.1)

flip_row-IsBacked :
    (now moved : ℕ) (t : Table) (key : Text) (s : Sweep) (w : World)
    → IsBacked w
    → IsBacked
        (flip_row moved s
          (record w { cold_bytes = key ∷ w.cold_bytes })
          (mark_cold now t key w.db)).1
unfolding flip_row mark_cold
flip_row-IsBacked now moved blobs_table key s w h = (
  map-cool-RowBacked now key w.cold_bytes w.db.blobs h.0,
  keep-RowBacked key w.cold_bytes w.db.chunks h.1,
)
flip_row-IsBacked now moved chunks_table key s w h = (
  keep-RowBacked key w.cold_bytes w.db.blobs h.0,
  map-cool-RowBacked now key w.cold_bytes w.db.chunks h.1,
)
flip_row-IsBacked now moved other_table key s w h = (
  keep-RowBacked key w.cold_bytes w.db.blobs h.0,
  keep-RowBacked key w.cold_bytes w.db.chunks h.1,
)

settle-IsBacked :
    (now : ℕ) (c : Candidate) (s : Sweep) (w : World) (updated : Bool) (moved : Option ℕ)
    → IsBacked w
    → IsBacked (settle now c s w updated moved).1
unfolding settle
settle-IsBacked now c s w updated none h = h
settle-IsBacked now c s w true (some moved) h =
    flip_row-IsBacked now moved c.table c.storage_key s w h
settle-IsBacked now c s w false (some moved) h = (
  keep-RowBacked c.storage_key w.cold_bytes w.db.blobs h.0,
  keep-RowBacked c.storage_key w.cold_bytes w.db.chunks h.1,
)

-- The candidates that were tried.
abbrev tally : Sweep → ℕ
tally s = s.demoted + s.failed

flip_row-tally :
    (moved : ℕ) (s : Sweep) (w : World) (r : Result Err Tables)
    → tally (flip_row moved s w r).0 ≡ suc (tally s)
unfolding flip_row
flip_row-tally moved s w (ok db) = omega arith
flip_row-tally moved s w (err e) = omega arith

flip_row-considered :
    (moved : ℕ) (s : Sweep) (w : World) (r : Result Err Tables)
    → (flip_row moved s w r).0.considered ≡ s.considered
unfolding flip_row
flip_row-considered moved s w (ok db) = refl
flip_row-considered moved s w (err e) = refl

settle-tally :
    (now : ℕ) (c : Candidate) (s : Sweep) (w : World) (updated : Bool) (moved : Option ℕ)
    → tally (settle now c s w updated moved).0 ≡ suc (tally s)
unfolding settle
settle-tally now c s w updated none = omega arith
settle-tally now c s w updated (some moved) =
    flip_row-tally moved s _ (answered updated (mark_cold now c.table c.storage_key w.db))

settle-considered :
    (now : ℕ) (c : Candidate) (s : Sweep) (w : World) (updated : Bool) (moved : Option ℕ)
    → (settle now c s w updated moved).0.considered ≡ s.considered
unfolding settle
settle-considered now c s w updated none = refl
settle-considered now c s w updated (some moved) =
    flip_row-considered moved s _ (answered updated (mark_cold now c.table c.storage_key w.db))

-- How the loop goes on from a sweep that has tried some candidates, with more of them to try.
record Goes (gone : List Bool) (todo : ℕ) (s : Sweep) (w : World) (out : Sweep × World)
    : Type 0 where
  backed : IsBacked w → IsBacked out.1
  considers : out.0.considered ≡ s.considered
  counted : tally out.0 ≤ tally s + todo
  complete : gone ≡ [] → tally out.0 ≡ tally s + todo

settle-Goes :
    (v : Services) (now : ℕ) (gone gone' : List Bool) (c : Candidate) (todo : ℕ) (s : Sweep)
    (w : World) (out : Sweep × World)
    → (gone ≡ [] → gone' ≡ [])
    → (let r = settle now c s w (v.updates c.storage_key w) (v.demote c.storage_key w) in
        Goes gone' todo r.0 r.1 out)
    → Goes gone (suc todo) s w out
settle-Goes v now gone gone' c todo s w out gs g =
    let moved = v.demote c.storage_key w in
    let updated = v.updates c.storage_key w in
    let t = settle-tally now c s w updated moved in
    record {
      backed = λ h. g.backed (settle-IsBacked now c s w updated moved h);
      considers = g.considers ∙ settle-considered now c s w updated moved;
      counted = omega (arith, t, g.counted);
      complete = λ e. omega (arith, t, g.complete (gs e));
    }

demote_all-Goes :
    (v : Services) (now : ℕ) (gone : List Bool) (cs : List Candidate) (s : Sweep) (w : World)
    → Goes gone (length cs) s w (demote_all v now gone cs (s, w))
unfolding demote_all demote_one
demote_all-Goes v now gone [] s w = record {
  backed = λ h. h;
  considers = refl;
  counted = omega arith;
  complete = λ e. omega arith;
}
demote_all-Goes v now (true ∷ gone) (c ∷ cs) s w = record {
  backed = λ h. h;
  considers = refl;
  counted = omega arith;
  complete = λ e. cc;
}
demote_all-Goes v now (false ∷ gone) (c ∷ cs) s w =
    let r = settle now c s w (v.updates c.storage_key w) (v.demote c.storage_key w) in
    settle-Goes v now (false ∷ gone) gone c (length cs) s w _ (λ e. cc)
      (demote_all-Goes v now gone cs r.0 r.1)
demote_all-Goes v now [] (c ∷ cs) s w =
    let r = settle now c s w (v.updates c.storage_key w) (v.demote c.storage_key w) in
    settle-Goes v now [] [] c (length cs) s w _ (λ e. e) (demote_all-Goes v now [] cs r.0 r.1)

-- What a sweep of a batch leaves: the rows that say 'cold' are backed; of the candidates, which are no
-- more than the batch, each that was tried is demoted or failed, and all were tried unless the
-- context ended.
pub record Swept (gone : List Bool) (batch : ℕ) (s : Sweep) (w : World) : Type 0 where
  pub backed : IsBacked w
  pub bounded : s.considered ≤ batch
  pub counted : s.demoted + s.failed ≤ s.considered
  pub complete : gone ≡ [] → s.demoted + s.failed ≡ s.considered

demote_all-Swept :
    (v : Services) (now : ℕ) (gone : List Bool) (p : Policy) (w : World) (batch : ℕ)
    (cs : List Candidate)
    → Selects now p w.db batch cs
    → IsBacked w
    → (let out = demote_all v now gone cs (start (length cs), w) in Swept gone batch out.0 out.1)
demote_all-Swept v now gone p w batch cs sel h =
    let g = demote_all-Goes v now gone cs (start (length cs)) w in
    record {
      backed = g.backed h;
      bounded = omega (arith, g.considers, sel.bounded);
      counted = omega (arith, g.considers, g.counted);
      complete = λ e. omega (arith, g.considers, g.complete e);
    }

sweep-eq :
    (v : Services) (now : ℕ) (gone : List Bool) (p : Policy) (w : World) (cs : List Candidate)
    → candidates now p w.db ≡ ok cs
    → sweep v now gone p w ≡ ok (demote_all v now gone cs (start (length cs), w))
unfolding sweep
sweep-eq v now gone p w cs h = rw (sweep, h) refl

-- Whatever Demote answers, whichever rows the database updates and whenever the context ends, a sweep
-- under a policy with a batch that
-- is not negative ends without an error, and where every row that says 'cold' had its bytes in the
-- cold tier before, every such row has them after. The sweep considers no more candidates than the
-- batch; those it demoted and those that failed are no more than those, and just as many where the
-- context did not end.
pub sweep-Swept :
    (v : Services) (now : ℕ) (gone : List Bool) (p : Policy) (w : World) (batch : ℕ)
    → p.batch ≡ pos batch
    → IsBacked w
    → (s : Sweep) × (w' : World) × (sweep v now gone p w ≡ ok (s, w')) × Swept gone batch s w'
sweep-Swept v now gone p w batch hp h =
    let (cs, e, sel) = candidates-Selects now p w.db batch hp in
    let out = demote_all v now gone cs (start (length cs), w) in
    (out.0, out.1, sweep-eq v now gone p w cs e, demote_all-Swept v now gone p w batch cs sel h)
