-- ===== src/Helper/Accounts.antt =====
-- common/statedbhelper/statedbhelper.go: nonces, balances and token lists of accounts.
pub mod Nonces
use bcbchain.Base.{
  Bytes, GoMap, insert, is_empty, bytes_eq, ℕ, suc, ◌+◌, ◌%◌, ◌^◌, Bool, true, false, Option, none,
  some, List, [], ◌∷◌, ◌++◌, ◌==◌, ◌||◌, ◌≡◌, if◌then◌else◌, Outcome, returned, panicked, ◌>>=◌,
  ◌>>◌,
}
use bcbchain.Base.Int.{ℤ, pos}
use bcbchain.Db.{LevelDb, Json}
use bcbchain.Statedb.Database
use bcbchain.Helper
use bcbchain.Helper.{Helper, Trans, load, store, or_panic}
use bcbchain.Helper.Keys.{key_of_account, key_of_account_nonce, key_of_account_token}

-- jsoniter's encodings of the values of an account.
pub record AccountJson : Type 0 where
  pub encode_nonce : ℕ → Bytes
  pub decode_nonce : Bytes → Option ℕ
  pub encode_balance : Bytes → ℤ → Bytes
  pub decode_balance : Bytes → Option ℤ
  pub encode_keys : List Bytes → Bytes
  pub decode_keys : Bytes → Option (List Bytes)
  pub decode_nonce-encode_nonce : (n : ℕ) → decode_nonce (encode_nonce n) ≡ some n
  pub decode_balance-encode_balance :
      (token : Bytes) (v : ℤ) → decode_balance (encode_balance token v) ≡ some v
  pub decode_keys-encode_keys : (l : List Bytes) → decode_keys (encode_keys l) ≡ some l
  pub encode_nonce_nonempty : (n : ℕ) → is_empty (encode_nonce n) ≡ false
  pub encode_balance_nonempty : (token : Bytes) (v : ℤ) → is_empty (encode_balance token v) ≡ false
  pub encode_keys_nonempty : (l : List Bytes) → is_empty (encode_keys l) ≡ false

-- Whether a list of keys has a key: the loop of `AddAccountToken`.
unfoldable pub contains : Bytes → List Bytes → Bool
contains k [] = false
contains k (j ∷ l) = bytes_eq j k || contains k l

module _ (E : LevelDb) (J : Json) (A : AccountJson) where
  open A use {encode_nonce, decode_nonce, encode_balance, decode_balance, encode_keys, decode_keys}

  -- A list of keys that is stored under a key, empty if there is none.
  unfoldable pub stored_keys : Bytes → Outcome (List Bytes)
  stored_keys value = if is_empty value then returned [] else or_panic (decode_keys value)

  -- The last nonce of an account, from the stored value.
  unfoldable pub last_nonce : Bytes → Outcome ℕ
  last_nonce value = if is_empty value then returned 0 else or_panic (decode_nonce value)

  -- `CheckAccountNonce`: true for a nil error. The sum wraps, as in uint64.
  unfoldable pub check_account_nonce : ℤ → ℕ → Bytes → ℕ → Helper E → Outcome Bool
  unfolding last_nonce
  check_account_nonce trans_id tx_id ex_addr nonce h = do
    value ← Helper.get E J trans_id tx_id (key_of_account_nonce ex_addr) h
    last ← last_nonce value
    returned (nonce == (last + 1) % 2 ^ 64)

  -- `trans.Transaction.Set`: a write to the block, around the `Tx`.
  abbrev pub set_in_block : ℤ → Bytes → Bytes → Helper E → Outcome (Helper E)
  set_in_block trans_id key value =
      Helper.with_trans E J trans_id
        λ trans. returned (record trans { transaction = Database.set key value trans.transaction })

  -- The part of `SetAccountNonce` that registers an account's first nonce.
  unfoldable pub register_nonce :
      ℤ → ℕ → Bytes → Bytes → Helper E → Outcome (GoMap Bytes × Helper E)
  unfolding stored_keys
  register_nonce trans_id tx_id ex_address data' h =
      if is_empty data'
      then (do
        value ← Helper.get E J trans_id tx_id (key_of_account ex_address) h
        keys ← stored_keys value
        let keys' = encode_keys (keys ++ key_of_account_nonce ex_address ∷ [])
        h' ← set_in_block trans_id (key_of_account ex_address) keys' h
        returned (insert (key_of_account ex_address) keys' [], h'))
      else returned ([], h)

  -- The writes of `SetAccountNonce` once the nonce is accepted: the nonce's buffer is returned.
  unfoldable pub write_nonce : ℤ → ℕ → Bytes → ℕ → Helper E → Outcome (GoMap Bytes × Helper E)
  unfolding register_nonce
  write_nonce trans_id tx_id ex_address nonce h = do
    data' ← Helper.get E J trans_id tx_id (key_of_account_nonce ex_address) h
    (nonce_buffer, h') ← register_nonce trans_id tx_id ex_address data' h
    h'' ← set_in_block trans_id (key_of_account_nonce ex_address) (encode_nonce nonce) h'
    returned (insert (key_of_account_nonce ex_address) (encode_nonce nonce) nonce_buffer, h'')

  -- `SetAccountNonce`: the nonce's buffer, or `none` for an error.
  unfoldable pub set_account_nonce :
      ℤ → ℕ → Bytes → ℕ → Helper E → Outcome (Option (GoMap Bytes) × Helper E)
  set_account_nonce trans_id tx_id ex_address nonce h = do
    valid ← check_account_nonce trans_id tx_id ex_address nonce h
    if valid
        then (do
          (nonce_buffer, h') ← write_nonce trans_id tx_id ex_address nonce h
          returned (some nonce_buffer, h'))
        else returned (none, h)

  -- `BalanceOf`
  unfoldable pub balance_of : ℤ → ℕ → Bytes → Bytes → Helper E → Outcome ℤ
  balance_of trans_id tx_id addr token h = do
    value ← Helper.get E J trans_id tx_id (key_of_account_token addr token) h
    if is_empty value then returned (pos 0) else or_panic (decode_balance value)

  -- `SetBalance`
  unfoldable pub set_balance : ℤ → ℕ → Bytes → Bytes → ℤ → Helper E → Outcome (Helper E)
  set_balance trans_id tx_id addr token value =
      Helper.set E J trans_id tx_id (key_of_account_token addr token) (encode_balance token value)

  -- `AddAccountToken`
  unfoldable pub add_account_token : ℤ → ℕ → Bytes → Bytes → Helper E → Outcome (Helper E)
  unfolding stored_keys contains
  add_account_token trans_id tx_id addr token h = do
    value ← Helper.get E J trans_id tx_id (key_of_account addr) h
    keys ← stored_keys value
    let new_token = key_of_account_token addr token
    if contains new_token keys
        then returned h
        else Helper.set E J trans_id tx_id (key_of_account addr)
            (encode_keys (keys ++ new_token ∷ [])) h
