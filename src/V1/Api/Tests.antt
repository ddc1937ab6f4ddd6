-- ===== src/V1/Api/Tests.antt =====
-- A transfer through the API on a small state.
use bcbchain.Base.{codes, lookup, insert, bytes_eq, bytes_lt, [], ◌∷◌, ◌≡◌, refl, some}
use bcbchain.Base.Int.{pos, ◌+ℤ◌, ◌-ℤ◌}
use bcbchain.Db.{value_of}
use bcbchain.Db.Sample.{encode_entries, decode_entries, decode_number}
use bcbchain.Statedb.Tx
use bcbchain.Helper.Keys.{key_of_account, key_of_account_token}
use bcbchain.Helper.Sample.{encode_integer, decode_integer}
use bcbchain.V1.Keys.{has_slash}
use bcbchain.V1.Reply.{TxState, done}
use bcbchain.V1.Types.{StateJson}
use bcbchain.V1.Sample.{sample_state}
use bcbchain.V1.State.{
  get, set, get_balance, set_balance, register_balance, add_child_key, get_child_keys, key_at,
  search_loop, search_strings, store_child_keys, with_child_key,
}
use bcbchain.V1.Balances.{held, amount}
use bcbchain.V1.Api.{TransferReceipt, transfer_token}
use bcbchain.V1.Api.Transfers.{held-transfer_token}

abbrev start : TxState
start = record {
  state_db = λ k. value_of (
      lookup k (
        (
          key_of_account_token (codes "a") (codes "t"),
          StateJson.encode_balance sample_state (codes "t") (pos 50),
        )
        ∷ []));
  tx = some (record { tx_id = 1; buffer = [] });
}

abbrev after : TxState
after = (transfer_token sample_state (codes "t") (codes "a") (codes "b") (pos 20) [] start).1

abbrev receipt : TransferReceipt
receipt = record { token = codes "t"; from = codes "a"; to = codes "b"; value = pos 20 }

transferred :
    transfer_token sample_state (codes "t") (codes "a") (codes "b") (pos 20) [] start
    ≡ (done (receipt ∷ []), after)
unfolding transfer_token bytes_eq get_balance get Tx.get lookup key_of_account_token encode_integer
    decode_integer ◌-ℤ◌ set_balance register_balance set Tx.set insert ◌+ℤ◌ bytes_lt key_of_account
    add_child_key get_child_keys key_at search_loop search_strings store_child_keys with_child_key
    encode_entries decode_number decode_entries
transferred = refl

held-transfer_token_example : held sample_state (codes "t") (codes "b") after ≡ pos 20
unfolding held amount lookup get Tx.get ◌+ℤ◌ bytes_eq key_of_account_token has_slash encode_integer
    decode_integer
held-transfer_token_example =
    (held-transfer_token sample_state (codes "t") (codes "a") (codes "b") (pos 20) [] (receipt ∷ [])
        start after transferred refl refl).2
      (codes "b")
