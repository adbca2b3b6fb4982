-- ===== src/Blob/Tiered/Demoting.antt =====
-- server/internal/blob/tiered.go, Demote, with an object store that may answer anything.
use private_cloud.Prelude.{
  ℕ, ◌≡◌, refl, subst, ap, ◌∙◌, Bool, false, not, ◌&&◌, inl, inr, some, Text, text_eq, text_eq_iff,
  ◌==◌, length, Bool-cases, Result, ok, err, Result-cases, >>=-eq-ok, arith,
}
use private_cloud.Blob.Keys.{open_call, Err}
use private_cloud.Blob.Disk.{Faults, open_file, delete}
use private_cloud.Blob.Tiered.{
  Cold, Tier, Weather, read_all, digest_local, local_copy, drop_local, drop_result, read_back,
  demote,
}
use private_cloud.Blob.Tiered.Contents.{held, without_file, look_up-ok, delete-cases}

module _ {S : Type 0} (sum : Text → Text) (c : Cold S) (key : Text) where
  -- A demotion that fails leaves the local store as it was. One that succeeds has moved the bytes `b` of
  -- the file: the last thing that the object store did was to give bytes back that are as many and
  -- have the same digest, and the local file alone is gone.
  pub record Demoted (t : Tier S) (out : Result Err ℕ × Tier S) : Type 0 where
    pub failed : (e : Err) → out.0 ≡ err e → out.1.hot ≡ t.hot
    pub moved :
        (n : ℕ)
        → out.0 ≡ ok n
        → (b back : Text) × (s : S) × (held t.hot key ≡ some b)
          × (n ≡ length b)
          × (c.get_object key s ≡ (ok (ok back), out.1.cold))
          × (length back ≡ length b)
          × (sum back ≡ sum b)
          × (out.1.hot ≡ without_file key t.hot)

  read_all-ok : (fails : Faults) (file b : Text) → read_all fails file ≡ ok b → file ≡ b
  read_all-ok fails file b h = ground arith

  -- What a digest of the local file says of it.
  abbrev pub Measured : Tier S → Text × ℕ → Type 0
  Measured t want = (b : Text) × (held t.hot key ≡ some b) × (want ≡ (sum b, length b))

  digest_local-Measured :
      (fails : Faults) (t : Tier S) (want : Text × ℕ)
      → digest_local sum fails key t.hot ≡ ok want
      → Measured t want
  unfolding digest_local open_file
  digest_local-Measured fails t want h =
      let (file, opened, h') = >>=-eq-ok _ _ h in
      let (b, e, h'') = >>=-eq-ok _ _ h' in
      let same = read_all-ok fails file b e in
      (b, look_up-ok fails open_call key t.hot file opened ∙ ap some same, cc)

  unmoved : (t t' : Tier S) (e : Err) → t'.hot ≡ t.hot → Demoted t (err e, t')
  unmoved t t' e same = record { failed = λ e' h. same; moved = λ n h. cc }

  dropped :
      (want : Text × ℕ) (t : Tier S) (s s' : S) (back : Text) (fails : Faults) (b : Text)
      → held t.hot key ≡ some b
      → want ≡ (sum b, length b)
      → c.get_object key s ≡ (ok (ok back), s')
      → not (length back == want.1 && text_eq (sum back) want.0) ≡ false
      → Demoted t (drop_result want.1 (record t { cold = s' }) (delete fails key t.hot))
  unfolding drop_result
  dropped want t s s' back fails b local e got same = elim (delete-cases fails key t.hot) [
    | inr (why, d) ↦ rw (drop_result, d) (unmoved t (record t { cold = s' }) why refl)
    | inl (u, d) ↦
        rw (drop_result, d)
          (record {
            failed = λ e' h. cc;
            moved = λ n h. (
              b,
              back,
              s,
              local,
              ground arith,
              got,
              ground (arith, text_eq_iff (sum back) want.0),
              ground (arith, text_eq_iff (sum back) want.0),
              refl,
            );
          })
  ]

  drop_local-Demoted :
      (fails : Faults) (want : Text × ℕ) (t : Tier S) (s : S)
      → Measured t want
      → Demoted t (drop_local sum fails key want t (c.get_object key s))
  unfolding drop_local
  drop_local-Demoted fails want t s (b, local, e) = go (c.get_object key s) refl
    where
      go :
          (r : Result Err (Result Err Text) × S)
          → c.get_object key s ≡ r
          → Demoted t (drop_local sum fails key want t r)
      go (err why, s') h = unmoved t (record t { cold = s' }) why refl
      go (ok (err why), s') h = unmoved t (record t { cold = s' }) why refl
      go (ok (ok back), s') h =
          elim (Bool-cases (not (length back == want.1 && text_eq (sum back) want.0))) [
            | inl differs ↦ rw (drop_local, differs) (unmoved t (record t { cold = s' }) _ refl)
            | inr same ↦ rw (drop_local, same) (dropped want t s s' back fails b local e h same)
          ]

  read_back-Demoted :
      (fails : Faults) (want : Text × ℕ) (t : Tier S) (r : Result Err Bool × S)
      → Measured t want
      → Demoted t (read_back sum c fails key want t r)
  unfolding read_back
  read_back-Demoted fails want t (err why, s) m = unmoved t (record t { cold = s }) why refl
  read_back-Demoted fails want t (ok existed, s) m =
      let d = drop_local-Demoted fails want (record t { cold = s }) s m in
      record { failed = d.failed; moved = d.moved }

  ok_injective :
      {a b : (Text × ℕ) × Text} → ◌≡◌ {A = Result Err ((Text × ℕ) × Text)} (ok a) (ok b) → a ≡ b
  ok_injective h = cc

  local_copy-Measured :
      (fails : Weather) (t : Tier S) (out : (Text × ℕ) × Text)
      → local_copy sum fails key t.hot ≡ ok out
      → Measured t out.0
  unfolding local_copy
  local_copy-Measured fails t out h =
      let (want, e, h') = >>=-eq-ok _ _ h in
      let (src, _, same) =
        >>=-eq-ok (open_file (fails 1) key t.hot) (λ (src : Text). ok (want, src)) h' in
      subst (λ (o : (Text × ℕ) × Text). Measured t o.0) (ok_injective same)
        (digest_local-Measured (fails 0) t want e)

  -- A demotion that fails leaves the local store as it was, whatever the object store answers and
  -- whichever system calls fail. One that succeeds reports the length of the file's bytes and has
  -- taken the local file alone away, and the last thing that the object store did before was to give
  -- back bytes of the same length and digest.
  pub demote-Demoted : (fails : Weather) (t : Tier S) → Demoted t (demote sum (some c) fails key t)
  unfolding demote
  demote-Demoted fails t = elim (Result-cases (local_copy sum fails key t.hot)) [
    | inr (why, e) ↦ rw (demote, e) (unmoved t t why refl)
    | inl (out, e) ↦
        rw (demote, e)
          (read_back-Demoted (fails 2) out.0 t (c.put_object key (read_all (fails 1) out.1) t.cold)
            (local_copy-Measured fails t out e))
  ]
