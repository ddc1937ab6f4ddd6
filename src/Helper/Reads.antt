-- ===== src/Helper/Reads.antt =====
-- `get` after each of the writes of common/statedbhelper/statedbhelper.go.
use bcbchain.Base.{
  Bytes, GoMap, lookup, lookup-insert, insert_all, lookup-insert_all, HasUniqueKeys, is_empty,
  bytes_eq, ℕ, ◌≡◌, refl, ap, ◌∙◌, true, false, ◌&&◌, ◌||◌, none, some, [], ◌∷◌, ◌==◌,
  if◌then◌else◌, returned, arith, Bool-cases, Option-cases, inl, inr,
}
use bcbchain.Base.Int.{ℤ, eqb_ℤ}
use bcbchain.Db.{LevelDb, Json}
use bcbchain.Statedb.Buffer.{sorted_bytes}
use bcbchain.Statedb.Tx
use bcbchain.Statedb.Tx.{Tx}
use bcbchain.Statedb.Database
use bcbchain.Statedb.Database.{StateDb}
use bcbchain.Statedb.Database.Spec.{overlay}
use bcbchain.Helper.{
  with_tx, TxMap, find_tx, store_tx, Trans, TransMap, load, store, Helper, read, get, set,
  rollback_tx, commit_tx,
}

pub find_tx-store_tx :
    (x y : ℕ) (t : Tx) (m : TxMap)
    → find_tx y (store_tx x t m) ≡ (if x == y then some t else find_tx y m)
unfolding find_tx store_tx
find_tx-store_tx x y t [] = refl
find_tx-store_tx x y t ((j, u) ∷ m) = ground (arith, find_tx-store_tx x y t m)

pub load-store :
    (i j : ℤ) (t : Trans) (m : TransMap)
    → load j (store i t m) ≡ (if eqb_ℤ i j then some t else load j m)
unfolding load store
load-store i j t [] = refl
load-store i j t ((l, u) ∷ m) = ground (arith, load-store i j t m)

pub load-store_self : (i : ℤ) (t : Trans) (m : TransMap) → load i (store i t m) ≡ some t
load-store_self i t m = ground (arith, load-store i i t m)

module _ (E : LevelDb) (J : Json) where
  read-set :
      (s : StateDb E) (trans : Trans) (x y : ℕ) (tx : Tx) (key value k : Bytes)
      → find_tx x trans.tx_map ≡ some tx
      → is_empty value ≡ false
      → read E J s (record trans { tx_map = store_tx x (Tx.set key value tx) trans.tx_map }) y k
        ≡ (if (x == y) && bytes_eq key k then value else read E J s trans y k)
  unfolding read Tx.get Tx.set
  read-set s trans x y tx key value k found full = ground (
    arith,
    find_tx-store_tx x y (Tx.set key value tx) trans.tx_map,
    lookup-insert key k value tx.buffer,
  )

  -- What a call that changes one `Tx` has found and has left.
  pub record Changes (i : ℤ) (x : ℕ) (f : Tx → Tx) (h h' : Helper E) : Type 0 where
    pub trans : Trans
    pub tx : Tx
    pub loaded : load i h.transaction_map ≡ some trans
    pub found : find_tx x trans.tx_map ≡ some tx
    pub result : h' ≡ record h {
      transaction_map =
          store i (record trans { tx_map = store_tx x (f tx) trans.tx_map }) h.transaction_map;
    }

  pub with_tx_inversion :
      (i : ℤ) (x : ℕ) (f : Tx → Tx) (h h' : Helper E)
      → with_tx E J i x f h ≡ returned h'
      → Changes i x f h h'
  with_tx_inversion i x f h h' run = elim (Option-cases (load i h.transaction_map)) [
    | inl missing ↦ absurd (ground (arith, missing))
    | inr (trans, loaded) ↦ elim (Option-cases (find_tx x trans.tx_map)) [
      | inl missing ↦ absurd (ground (arith, loaded, missing))
      | inr (tx, found) ↦ record {
        trans = trans;
        tx = tx;
        loaded = loaded;
        found = found;
        result = ground (arith, loaded, found);
      }
    ]
  ]

  -- After a change of one `Tx`, `get` reads the changed one or as before.
  pub get-changed :
      (i : ℤ) (x : ℕ) (f : Tx → Tx) (h h' : Helper E) (c : Changes i x f h h')
      → (j : ℤ) (y : ℕ) (k : Bytes)
      → get E J j y k h' ≡ (
          if eqb_ℤ i j
          then returned (
              read E J h.state_db
                (record (c.trans) { tx_map = store_tx x (f c.tx) c.trans.tx_map })
                y
                k)
          else get E J j y k h)
  unfolding get
  get-changed i x f h h' c j y k = rw (c.result) (
      rw (get, load-store i j)
        (elim (Bool-cases (eqb_ℤ i j)) [ inl same ↦ rw same | inr other ↦ rw other ]))

  get-loaded :
      (i j : ℤ) (y : ℕ) (k : Bytes) (h : Helper E) (trans : Trans)
      → eqb_ℤ i j ≡ true
      → load i h.transaction_map ≡ some trans
      → get E J j y k h ≡ returned (read E J h.state_db trans y k)
  unfolding get
  get-loaded i j y k h trans same loaded = let e : j ≡ i = ground arith in rw (e, get, loaded)

  -- After a write of a value that is not empty through one Tx, a read of the same key through the
  -- same Tx returns that value, and every other read (of another key, through another Tx, or of
  -- another transaction) has the result that it had before.
  pub get-set :
      (i : ℤ) (x : ℕ) (key value : Bytes) (h h' : Helper E)
      → set E J i x key value h ≡ returned h'
      → is_empty value ≡ false
      → (j : ℤ) (y : ℕ) (k : Bytes)
      → get E J j y k h'
        ≡ (if (eqb_ℤ i j && (x == y)) && bytes_eq key k then returned value else get E J j y k h)
  unfolding set
  get-set i x key value h h' run full j y k =
      let c = with_tx_inversion i x (Tx.set key value) h h' run in
      ground (
        arith,
        get-changed i x (Tx.set key value) h h' c j y k,
        get-loaded i j y k h c.trans,
        c.loaded,
        read-set h.state_db c.trans x y c.tx key value k c.found full,
      )

  read-emptied :
      (s : StateDb E) (trans : Trans) (x y : ℕ) (tx : Tx) (k : Bytes)
      → find_tx x trans.tx_map ≡ some tx
      → read E J s (record trans { tx_map = store_tx x (Tx.rollback tx) trans.tx_map }) y k
        ≡ (if x == y then Database.get E J s trans.transaction k else read E J s trans y k)
  unfolding read Tx.get Tx.rollback lookup
  read-emptied s trans x y tx k found =
      ground (arith, find_tx-store_tx x y (Tx.rollback tx) trans.tx_map)

  -- After RollbackTx a read through that Tx returns what the block shows, and every other read
  -- has the result that it had before.
  pub get-rollback_tx :
      (i : ℤ) (x : ℕ) (h h' : Helper E) (trans : Trans)
      → rollback_tx E J i x h ≡ returned h'
      → load i h.transaction_map ≡ some trans
      → (j : ℤ) (y : ℕ) (k : Bytes)
      → get E J j y k h' ≡ (
          if eqb_ℤ i j && (x == y)
          then returned (Database.get E J h.state_db trans.transaction k)
          else get E J j y k h)
  unfolding rollback_tx
  get-rollback_tx i x h h' trans run loaded j y k =
      let c = with_tx_inversion i x Tx.rollback h h' run in
      ground (
        arith,
        get-changed i x Tx.rollback h h' c j y k,
        get-loaded i j y k h c.trans,
        c.loaded,
        loaded,
        read-emptied h.state_db c.trans x y c.tx k c.found,
      )

  -- The value that a `Tx` has of its own.
  abbrev pub own : Trans → ℕ → Bytes → Bytes
  own trans y k = elim (find_tx y trans.tx_map) [ none ↦ [] | some t ↦ Tx.get t k ]

  -- A read is the own value, or what the block shows.
  read-own :
      (s : StateDb E) (trans : Trans) (y : ℕ) (k : Bytes)
      → read E J s trans y k ≡ (
          if is_empty (own trans y k)
          then Database.get E J s trans.transaction k
          else own trans y k)
  unfolding read
  read-own s trans y k = ground arith

  block-insert_all :
      (s : StateDb E) (t : Database.Transaction) (buffer : GoMap Bytes) (k : Bytes)
      → HasUniqueKeys buffer
      → Database.get E J s (record t { buffer = insert_all buffer t.buffer }) k
        ≡ overlay buffer (Database.get E J s t) k
  unfolding Database.get
  block-insert_all s t buffer k u = ground (arith, lookup-insert_all k buffer t.buffer u)

  own-emptied :
      (trans : Trans) (t : Database.Transaction) (x y : ℕ) (tx : Tx) (k : Bytes)
      → own
          (record { transaction = t; tx_map = store_tx x (record tx { buffer = [] }) trans.tx_map })
          y
          k
        ≡ (if x == y then [] else own trans y k)
  unfolding Tx.get lookup
  own-emptied trans t x y tx k =
      ground (arith, find_tx-store_tx x y (record tx { buffer = [] }) trans.tx_map)

  -- CommitTx of a Tx of an open transaction does not panic; behind it each Tx of that transaction
  -- reads its own value where that is not empty, the committed Tx having none, and otherwise the
  -- committed entries over what the block showed before.
  pub get-commit_tx :
      (i : ℤ) (x : ℕ) (h : Helper E) (trans : Trans) (tx : Tx)
      → load i h.transaction_map ≡ some trans
      → find_tx x trans.tx_map ≡ some tx
      → HasUniqueKeys tx.buffer
      → (result : Bytes × GoMap Bytes) × (h' : Helper E) × (commit_tx E J i x h
          ≡ returned (result, h'))
        × ((y : ℕ) (k : Bytes)
            → get E J i y k h' ≡ (
                if (x == y) || is_empty (own trans y k)
                then returned (overlay tx.buffer (Database.get E J h.state_db trans.transaction) k)
                else returned (own trans y k)))
  unfolding commit_tx Tx.commit get
  get-commit_tx i x h trans tx loaded found u =
      let left : Trans = record {
        transaction = record (trans.transaction) {
          buffer = insert_all tx.buffer trans.transaction.buffer;
        };
        tx_map = store_tx x (record tx { buffer = [] }) trans.tx_map;
      } in
      (
        (sorted_bytes tx.buffer, tx.buffer),
        record h { transaction_map = store i left h.transaction_map },
        rw (loaded, found),
        λ y k.
            get-loaded i i y k (record h { transaction_map = store i left h.transaction_map }) left
              (ground arith) (load-store_self i left h.transaction_map)
            ∙ ap returned (read-own h.state_db left y k)
            ∙ ground (
              arith,
              own-emptied trans left.transaction x y tx k,
              block-insert_all h.state_db trans.transaction tx.buffer k u,
            ),
      )
