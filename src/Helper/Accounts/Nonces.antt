-- ===== src/Helper/Accounts/Nonces.antt =====
-- `SetAccountNonce` and `CheckAccountNonce` of common/statedbhelper/statedbhelper.go around the
-- rollback of a transaction.
use bcbchain.Base.{
  Bytes, GoMap, insert, lookup-insert, bytes_eq_refl, ℕ, ◌+◌, ◌%◌, ◌^◌, ◌≡◌, ap, ◌∙◌, true, some,
  ◌==◌, returned, >>=-eq-returned, arith, Bool-cases, Option-cases, inl, inr,
}
use bcbchain.Base.Int.{ℤ}
use bcbchain.Db.{LevelDb, Json}
use bcbchain.Statedb.Database
use bcbchain.Helper
use bcbchain.Helper.{Helper, Trans, load, store, or_panic, rollback_tx}
use bcbchain.Helper.Keys.{key_of_account_nonce}
use bcbchain.Helper.Reads.{load-store_self, get-rollback_tx}
use bcbchain.Helper.Accounts.{
  AccountJson, check_account_nonce, write_nonce, set_account_nonce, set_in_block, register_nonce,
  last_nonce,
}

module _ (E : LevelDb) (J : Json) (A : AccountJson) where
  -- What a write to the block leaves for reads of the block.
  pub set_in_block_lem :
      (i : ℤ) (key value : Bytes) (h h' : Helper E)
      → set_in_block E J A i key value h ≡ returned h'
      → (trans : Trans) × (load i h'.transaction_map ≡ some trans)
        × (Database.get E J h'.state_db trans.transaction key ≡ value)
  unfolding Database.set Database.get
  set_in_block_lem i key value h h' run = elim (Option-cases (load i h.transaction_map)) [
    | inl missing ↦ absurd (ground (arith, missing))
    | inr (trans, loaded) ↦
        let left : Trans = record trans {
          transaction = record (trans.transaction) {
            buffer = insert key value trans.transaction.buffer;
          };
        } in
        let e : h' ≡ record h { transaction_map = store i left h.transaction_map } =
          ground (arith, loaded) in
        (
          left,
          rw e (load-store_self i left h.transaction_map),
          ground (arith, lookup-insert key key value trans.transaction.buffer, bytes_eq_refl key),
        )
  ]

  -- A write of a nonce ends by writing it to the block.
  write_nonce_inversion :
      (i : ℤ) (x : ℕ) (addr : Bytes) (nonce : ℕ) (h h' : Helper E) (buffer : GoMap Bytes)
      → write_nonce E J A i x addr nonce h ≡ returned (buffer, h')
      → (before : Helper E) × (set_in_block E J A i
            (key_of_account_nonce addr)
            (A.encode_nonce nonce)
            before
          ≡ returned h')
  unfolding write_nonce
  write_nonce_inversion i x addr nonce h h' buffer run =
      let (data', _, rest) =
        >>=-eq-returned (Helper.get E J i x (key_of_account_nonce addr) h) _ run in
      let (r, _, rest') = >>=-eq-returned (register_nonce E J A i x addr data' h) _ rest in
      let (last, wrote, same) =
        >>=-eq-returned
          (set_in_block E J A i (key_of_account_nonce addr) (A.encode_nonce nonce) (r.1)) _ rest' in
      (r.1, wrote ∙ ground (arith, same))

  -- A call that accepts a nonce found it to be the next one.
  set_account_nonce_inversion :
      (i : ℤ) (x : ℕ) (addr : Bytes) (nonce : ℕ) (h h' : Helper E) (buffer : GoMap Bytes)
      → set_account_nonce E J A i x addr nonce h ≡ returned (some buffer, h')
      → (check_account_nonce E J A i x addr nonce h ≡ returned true)
        × (write_nonce E J A i x addr nonce h ≡ returned (buffer, h'))
  unfolding set_account_nonce
  set_account_nonce_inversion i x addr nonce h h' buffer run =
      let (valid, checked, rest) =
        >>=-eq-returned (check_account_nonce E J A i x addr nonce h) _ run in
      elim (Bool-cases valid) [
        | inr wrong ↦ absurd (ground (arith, rest, wrong))
        | inl right ↦
            let rest' = rw right at rest in
            let (r, wrote, same) =
              >>=-eq-returned (write_nonce E J A i x addr nonce h) (λ r. returned (some r.0, r.1))
                rest' in
            (checked ∙ ap returned right, wrote ∙ ground (arith, same))
      ]

  -- If SetAccountNonce accepts a nonce, then the nonce had passed CheckAccountNonce before, and
  -- after the transaction is rolled back CheckAccountNonce accepts exactly the nonce that follows
  -- it (modulo 2^64), so that the accepted nonce cannot be used again.
  pub check_account_nonce-rollback_tx :
      (i : ℤ) (x : ℕ) (addr : Bytes) (nonce : ℕ) (h h' h'' : Helper E) (buffer : GoMap Bytes)
      → set_account_nonce E J A i x addr nonce h ≡ returned (some buffer, h')
      → rollback_tx E J i x h' ≡ returned h''
      → (check_account_nonce E J A i x addr nonce h ≡ returned true)
        × ((m : ℕ)
            → check_account_nonce E J A i x addr m h'' ≡ returned (m == (nonce + 1) % 2 ^ 64))
  unfolding check_account_nonce last_nonce
  check_account_nonce-rollback_tx i x addr nonce h h' h'' buffer run rolled =
      let (checked, wrote) = set_account_nonce_inversion i x addr nonce h h' buffer run in
      let (before, set) = write_nonce_inversion i x addr nonce h h' buffer wrote in
      let (trans, loaded, shown) = set_in_block_lem i _ _ before h' set in
      let seen : Helper.get E J i x (key_of_account_nonce addr) h''
          ≡ returned (A.encode_nonce nonce) =
        ground (
          arith,
          get-rollback_tx E J i x h' h'' trans rolled loaded i x (key_of_account_nonce addr),
          shown,
        ) in
      (checked, λ m. rw (seen, A.encode_nonce_nonempty, A.decode_nonce-encode_nonce))
