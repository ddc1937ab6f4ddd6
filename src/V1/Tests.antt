-- ===== src/V1/Tests.antt =====
-- Runs of the token contract on a small state.
use bcbchain.Base.{
  Bytes, GoMap, codes, lookup, insert, bytes_eq, bytes_lt, true, some, List, [], ◌∷◌, ◌≡◌, refl,
}
use bcbchain.Base.Int.{pos, ◌+ℤ◌, ◌-ℤ◌}
use bcbchain.Db.{value_of}
use bcbchain.Db.Sample.{encode_entries, decode_entries, decode_number}
use bcbchain.Statedb.Tx
use bcbchain.Statedb.Tx.{Tx}
use bcbchain.Helper.Keys.{key_of_account, key_of_account_token}
use bcbchain.Helper.Sample.{encode_integer, decode_integer}
use bcbchain.V1.Keys.{key_of_token, key_of_token_name, key_of_token_symbol, to_lower, has_slash}
use bcbchain.V1.Reply.{TxState, done}
use bcbchain.V1.Types.{IssueToken}
use bcbchain.V1.Sample.{sample_state, sample_big_number}
use bcbchain.V1.State.{
  get, set, get_balance, set_balance, register_balance, add_child_key, get_child_keys, key_at,
  search_loop, search_strings, store_child_keys, with_child_key, get_token, set_token, load,
}
use bcbchain.V1.Context.{InvokeContext, balance, token_supply, set_token_supply}
use bcbchain.V1.Balances.{held, amount}
use bcbchain.V1.Token.{transfer, batch_transfer, receive_all, scale, add_supply, burn}
use bcbchain.V1.Token.Success.{Succeeds, transfer-Succeeds}
use native.Mathlib.Omega.{arith}
use bcbchain.V1.Token.Transfers.{held-transfer}
use bcbchain.V1.Token.Batch.{held-batch_transfer, count}
use bcbchain.V1.Token.Supply.{add_supply-balances, burn-balances}
open sample_state use {encode_balance, encode_token}

abbrev token : IssueToken
token = record {
  address = codes "t";
  owner = codes "a";
  version = codes "1";
  name = codes "Tok";
  symbol = codes "TK";
  total_supply = pos 3000000000;
  add_supply_enabled = true;
  burn_enabled = true;
  gas_price = 1;
}

abbrev stored : GoMap Bytes
stored =
    (key_of_account_token (codes "a") (codes "t"), encode_balance (codes "t") (pos 3000000000))
    ∷ (key_of_token (codes "t"), encode_token token)
    ∷ []

abbrev start : TxState
start = record {
  state_db = λ k. value_of (lookup k stored);
  tx = some (record { tx_id = 1; buffer = [] });
}

abbrev by_owner : InvokeContext
by_owner = record { sender = codes "a"; owner = codes "a"; contract_address = codes "t" }

abbrev after_transfer : TxState
after_transfer = (transfer sample_state by_owner (codes "b") (pos 30) start).1

transfer_done :
    transfer sample_state by_owner (codes "b") (pos 30) start ≡ (done tt, after_transfer)
unfolding transfer bytes_eq balance get_balance get Tx.get lookup key_of_account_token
    encode_integer decode_integer ◌-ℤ◌ set_balance register_balance set Tx.set insert key_of_token
    ◌+ℤ◌ bytes_lt key_of_account amount add_child_key get_child_keys key_at search_loop
    search_strings store_child_keys with_child_key held encode_entries decode_number decode_entries
transfer_done = refl

held-transfer_example : held sample_state (codes "t") (codes "b") after_transfer ≡ pos 30
unfolding held amount lookup get Tx.get ◌+ℤ◌ bytes_eq key_of_account_token has_slash encode_integer
    decode_integer key_of_token
held-transfer_example =
    (held-transfer sample_state by_owner (codes "b") (pos 30) start after_transfer transfer_done
        refl refl).3
      (codes "b")

abbrev receivers : List Bytes
receivers = codes "b" ∷ codes "c" ∷ codes "b" ∷ []

abbrev after_batch : TxState
after_batch = (batch_transfer sample_state sample_big_number by_owner receivers (pos 10) start).1

batch_done :
    batch_transfer sample_state sample_big_number by_owner receivers (pos 10) start
    ≡ (done tt, after_batch)
unfolding batch_transfer receive_all scale bytes_eq balance get_balance get Tx.get lookup
    key_of_account_token encode_integer decode_integer ◌-ℤ◌ set_balance register_balance set Tx.set
    insert key_of_token ◌+ℤ◌ bytes_lt key_of_account amount add_child_key get_child_keys key_at
    search_loop search_strings store_child_keys with_child_key held encode_entries decode_number
    decode_entries
batch_done = refl

held-batch_transfer_example : held sample_state (codes "t") (codes "b") after_batch ≡ pos 20
unfolding held amount lookup get Tx.get ◌+ℤ◌ bytes_eq key_of_account_token has_slash encode_integer
    decode_integer count scale key_of_token
held-batch_transfer_example =
    (held-batch_transfer sample_state by_owner sample_big_number receivers (pos 10) start
        after_batch batch_done refl (refl, (refl, (refl, tt)))).1
      (codes "b")

abbrev after_add : TxState
after_add = (add_supply sample_state by_owner (pos 5) start).1

add_done : add_supply sample_state by_owner (pos 5) start ≡ (done tt, after_add)
unfolding add_supply token_supply set_token_supply get_token set_token load key_of_token_name
    key_of_token_symbol to_lower bytes_eq balance get_balance get Tx.get lookup key_of_account_token
    encode_integer decode_integer ◌-ℤ◌ set_balance register_balance set Tx.set insert key_of_token
    ◌+ℤ◌ bytes_lt key_of_account amount add_child_key get_child_keys key_at search_loop
    search_strings store_child_keys with_child_key held encode_entries decode_number decode_entries
add_done = refl

add_supply-balances_example : held sample_state (codes "t") (codes "a") after_add ≡ pos 3000000005
unfolding held amount lookup get Tx.get ◌+ℤ◌ bytes_eq key_of_account_token key_of_token has_slash
    encode_integer decode_integer get_token load encode_entries decode_entries
add_supply-balances_example =
    (add_supply-balances sample_state by_owner (pos 5) start after_add token add_done refl refl refl
        refl).2
      (codes "a")

abbrev after_burn : TxState
after_burn = (burn sample_state by_owner (pos 7) start).1

burn_done : burn sample_state by_owner (pos 7) start ≡ (done tt, after_burn)
unfolding burn token_supply set_token_supply get_token set_token load key_of_token_name
    key_of_token_symbol to_lower bytes_eq balance get_balance get Tx.get lookup key_of_account_token
    encode_integer decode_integer ◌-ℤ◌ set_balance register_balance set Tx.set insert key_of_token
    ◌+ℤ◌ bytes_lt key_of_account amount add_child_key get_child_keys key_at search_loop
    search_strings store_child_keys with_child_key held encode_entries decode_number decode_entries
burn_done = refl

burn-balances_example : held sample_state (codes "t") (codes "a") after_burn ≡ pos 2999999993
unfolding held amount lookup get Tx.get ◌+ℤ◌ ◌-ℤ◌ bytes_eq key_of_account_token key_of_token
    has_slash encode_integer decode_integer get_token load encode_entries decode_entries
burn-balances_example =
    (burn-balances sample_state by_owner (pos 7) start after_burn token burn_done refl refl refl
        refl).4
      (codes "a")

transfer-Succeeds_example : Succeeds (transfer sample_state by_owner (codes "b") (pos 30)) start
unfolding get_child_keys get Tx.get lookup bytes_eq key_of_account key_of_account_token key_of_token
    has_slash held amount encode_integer decode_integer encode_entries decode_entries
transfer-Succeeds_example =
    transfer-Succeeds sample_state by_owner (codes "b") (pos 30) start
      (record { tx_id = 1; buffer = [] }) refl ([], refl) ([], refl) refl (ground arith)
      (ground arith) refl
