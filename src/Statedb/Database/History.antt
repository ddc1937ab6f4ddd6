-- ===== src/Statedb/Database/History.antt =====
-- Whole blocks through statedb/statedb.go and statedb/transaction.go, one after the other, and a
-- rollback behind them.
use bcbchain.Base.{
  Bytes, GoMap, insert_all, ℕ, zero, suc, ◌+◌, ◌≤◌, ◌≡◌, refl, ap, ◌∙◌, subst, true, none, some,
  List, [], ◌∷◌, All, length, take, Outcome, returned, ◌>>=◌, arith,
}
use bcbchain.Base.Int.{pos}
use bcbchain.Db.{LevelDb, Json}
use bcbchain.Statedb.Keys.{key_of_last_transaction_id}
use bcbchain.Statedb.Snapshot
use bcbchain.Statedb.Database.{
  Transaction, StateDb, new_committable_transaction, batch_set, commit, rollback,
}
use bcbchain.Statedb.Database.Spec.{View, overlay, SameView, version}
use bcbchain.Statedb.Database.Versions.{IsWritable, IsAt, commit-IsAt}
use bcbchain.Statedb.Database.Rollback.{rollback-IsAt}

abbrev pub Writes : Type 0
Writes = GoMap Bytes

version-take :
    (m j : ℕ) (v : View) (before : List View)
    → j ≤ m
    → j ≤ length before
    → (version v (take m before) j ≡ version v before j) × (j ≤ length (take m before))
version-take m zero v before h k = (refl, omega arith)
version-take m (suc j) v [] h k = absurd (omega arith)
version-take zero (suc j) v (w ∷ before) h k = absurd (omega arith)
version-take (suc m) (suc j) v (w ∷ before) h k =
    let (same, long) = version-take m j w before (omega arith) (omega arith) in (same, omega arith)

module _ (E : LevelDb) (J : Json) where
  -- A block: a committable transaction, its writes, and its commit.
  unfoldable pub run_block : Writes → StateDb E → Outcome (StateDb E)
  run_block writes s = do
    (t, s') ← new_committable_transaction E J s
    commit E J (batch_set writes t) s'

  unfoldable pub run_blocks : List Writes → StateDb E → Outcome (StateDb E)
  unfolding run_block
  run_blocks [] s = returned s
  run_blocks (writes ∷ blocks) s = do s' ← run_block writes s; run_blocks blocks s'

  -- Between blocks: no transaction is open, and the counter stands at the last commit.
  pub record IsIdle (max id : ℕ) (now : View) (before : List View) (s : StateDb E) : Type 0 where
    pub at : IsAt E J max id now before s
    pub closed : s.committable_transaction ≡ none
    pub counter : s.last_committable_transaction_id ≡ id

  pub run_block-IsIdle :
      (max id : ℕ) (now : View) (before : List View) (writes : Writes) (s : StateDb E)
      → IsIdle max id now before s
      → IsWritable (insert_all writes [])
      → (s' : StateDb E) × (run_block writes s ≡ returned s')
        × IsIdle max (suc id) (overlay (insert_all writes []) now) (take max (now ∷ before)) s'
  unfolding run_block new_committable_transaction batch_set
  run_block-IsIdle max id now before writes s idle w =
      let open_state : StateDb E = record s {
        committable_transaction = some (s.last_committable_transaction_id + 1);
        last_committable_transaction_id = s.last_committable_transaction_id + 1;
      } in
      let t : Transaction = record {
        transaction_id = s.last_committable_transaction_id + 1;
        buffer = insert_all writes [];
        committable = true;
        last_tx_id = 0;
      } in
      let at : IsAt E J max id now before open_state = record {
        view = idle.at.view;
        sdb_last = idle.at.sdb_last;
        snapshot_last = idle.at.snapshot_last;
        max_count = idle.at.max_count;
        retained = idle.at.retained;
      } in
      let next : s.last_committable_transaction_id + 1 ≡ suc id = omega (arith, idle.counter) in
      let (s', run, at', closed, counter) =
        commit-IsAt E J max id now before t open_state at refl next w in
      (s', rw (idle.closed) run, record { at = at'; closed = closed; counter = counter ∙ next })

  run_blocks-IsIdle :
      (max id : ℕ) (now : View) (before : List View) (blocks : List Writes) (s : StateDb E)
      → IsIdle max id now before s
      → All (λ w. IsWritable (insert_all w [])) blocks
      → (s' : StateDb E) × (now' : View) × (before' : List View) × (run_blocks blocks s
          ≡ returned s')
        × IsIdle max (length blocks + id) now' before' s'
        × ((j : ℕ)
            → length blocks + j ≤ max
            → j ≤ length before
            → (version now' before' (length blocks + j) ≡ version now before j)
              × (length blocks + j ≤ length before'))
  unfolding run_blocks
  run_blocks-IsIdle max id now before [] s idle w = (
    s,
    now,
    before,
    refl,
    subst (λ i. IsIdle max i now before s) (omega arith) idle,
    λ j room long. let e : 0 + j ≡ j = omega arith in (rw e, omega arith),
  )
  run_blocks-IsIdle max id now before (writes ∷ blocks) s idle w =
      let (s₁, run₁, idle₁) = run_block-IsIdle max id now before writes s idle w.0 in
      let now₁ = overlay (insert_all writes []) now in
      let (s', now', before', run, idle', earlier) =
        run_blocks-IsIdle max (suc id) now₁ (take max (now ∷ before)) blocks s₁ idle₁ w.1 in
      (
        s',
        now',
        before',
        rw run₁ run,
        subst (λ i. IsIdle max i now' before' s') (omega arith) idle',
        λ j room long.
            let back = version-take max (suc j) now₁ (now ∷ before) (omega arith) (omega arith) in
            let e : suc (length blocks) + j ≡ length blocks + suc j = omega arith in
            let deep = earlier (suc j) (omega arith) back.1 in
            (rw e (deep.0 ∙ back.0), rw e deep.1),
      )

  -- From a state database between two blocks, a number of blocks up to the largest snapshot
  -- count, each with at least one write and none to the reserved key, can be committed one after
  -- the other and then rolled back at once: no call panics, every key but the reserved one shows
  -- the value from before the blocks, and the last transaction id is the old one.
  pub rollback-run_blocks :
      (max id : ℕ) (now : View) (before : List View) (block : Writes) (blocks : List Writes)
      (s : StateDb E)
      → IsIdle max id now before s
      → All (λ w. IsWritable (insert_all w [])) (block ∷ blocks)
      → suc (length blocks) ≤ max
      → (s' : StateDb E) × ((do
        s₁ ← run_blocks (block ∷ blocks) s
        rollback E J (pos (suc (length blocks))) s₁)
          ≡ returned s')
        × SameView (Snapshot.get E J s'.sdb) now
        × (Snapshot.get_int64 E J s'.sdb key_of_last_transaction_id ≡ returned id)
  rollback-run_blocks max id now before block blocks s idle w room =
      let (s₁, now₁, before₁, run, idle₁, earlier) =
        run_blocks-IsIdle max id now before (block ∷ blocks) s idle w in
      let n : ℕ = length blocks in
      let deep = earlier 0 (omega arith) (omega arith) in
      let e : suc n + 0 ≡ suc n = omega arith in
      let (s', rolled, at, closed, counter) =
        rollback-IsAt E J max (suc n + id) n now₁ before₁ s₁ idle₁.at idle₁.closed
          (omega (arith, deep.1)) in
      (
        s',
        rw run rolled,
        subst (λ v. SameView (Snapshot.get E J s'.sdb) v) (rw e at (deep.0)) at.view,
        rw at.sdb_last (ap returned (omega arith)),
      )
