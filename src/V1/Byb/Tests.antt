-- ===== src/V1/Byb/Tests.antt =====
-- Runs of the BYB contract on a small state.
use bcbchain.Base.{
  Bytes, GoMap, codes, lookup, insert, bytes_eq, bytes_lt, true, some, List, [], ◌∷◌, ◌≡◌, ◌⊎◌,
  refl, ◌<◌, arith, All, ◌++◌, length,
}
use bcbchain.Base.Decimal.{decimal}
use bcbchain.Base.Int.{pos, ◌+ℤ◌, ◌-ℤ◌}
use bcbchain.Db.{value_of}
use bcbchain.Db.Sample.{encode_entries, decode_entries, decode_number}
use bcbchain.Statedb.Tx
use bcbchain.Statedb.Tx.{Tx}
use bcbchain.Helper.Keys.{key_of_account, key_of_account_token}
use bcbchain.Helper.Sample.{encode_integer, decode_integer}
use bcbchain.V1.Keys.{key_of_token, key_of_token_name, key_of_token_symbol, to_lower, has_slash}
use bcbchain.V1.Reply.{TxState, done, pure}
use bcbchain.V1.Types.{IssueToken}
use bcbchain.V1.Sample.{sample_state}
use bcbchain.V1.State.{
  get, set, get_balance, set_balance, register_balance, add_child_key, get_child_keys, key_at,
  search_loop, search_strings, store_child_keys, with_child_key, get_token, set_token, load,
}
use bcbchain.V1.Balances.{held, amount}
use bcbchain.V1.Byb.Chromos.{
  BybBalance, calc_total_balance, trans_value, keep_rest, calc_transfer_loop,
  calc_transfer_byb_chromo, with_second, merged, take_added, add_to_old, not_zero, payee_balance,
}
use bcbchain.V1.Byb.Store.{
  TokenByb, key_of_byb, key_of_cur_chromo, has_address, get_black_hole, get_byb_stock_holders,
  get_byb_balance, register_byb, set_byb_balance, check_address,
}
use bcbchain.V1.Byb.Receipts.{BybReceipt, on_transfer, add_supply_receipt, burn_receipt}
use bcbchain.V1.Byb.Payments.{
  deduct_remainder, deduct_shares, calc_and_set_sender_balance, set_payee_balance, transfer,
}
use bcbchain.V1.Byb.Issue.{white, raise_supply, add_supply, burn_from, lower_supply, burn}
use bcbchain.V1.Byb.Rounds.{units, HasUnits}
use bcbchain.V1.Byb.Merging.{
  IsDistinct, IsPayment, has_chromo, SecondRound, calc_transfer_byb_chromo-exact,
}
use bcbchain.V1.Byb.Payees.{units-payee_balance}
use bcbchain.V1.Byb.Transfers.{held-transfer_byb}
use bcbchain.V1.Byb.Supply.{add_supply-amounts}
use bcbchain.V1.Byb.Numbers.{chromo_of, next_chromo-chromo_of}
use bcbchain.V1.Byb.Counting.{AreDistinct, make_chromos, make_chromos-AreDistinct}
use bcbchain.V1.Byb.Holders.{next_chromo}
use bcbchain.V1.Byb.Burning.{burn-amounts}
use bcbchain.V1.Byb.Sample.{sample_byb, sample_math}
open sample_byb use {encode_byb}
open sample_state use {encode_balance, encode_token}

abbrev of_chromo : Bytes → BybBalance
of_chromo c = record { chromo = c; value = pos 10 }

-- Three chromos of ten units each.
abbrev mixed : List BybBalance
mixed = of_chromo (codes "1") ∷ of_chromo (codes "2") ∷ of_chromo (codes "3") ∷ []

mixed-IsDistinct : IsDistinct mixed
unfolding IsDistinct has_chromo bytes_eq
mixed-IsDistinct = (refl, (refl, (refl, tt)))

-- Of ten units each chromo gives three, and the first one in the second round.
calc_transfer_byb_chromo-exact_example :
    (ns : List BybBalance) × (pay : List BybBalance) × (calc_transfer_byb_chromo sample_math mixed
        (pos 10)
      ≡ some (ns, pay))
    × All HasUnits pay
    × (IsPayment 10 mixed ns pay ⊎ ((units pay < 10) × SecondRound sample_math mixed 10 ns pay))
unfolding units
calc_transfer_byb_chromo-exact_example =
    calc_transfer_byb_chromo-exact sample_math mixed 10 (refl, (refl, (refl, tt))) mixed-IsDistinct
      (omega arith) (omega arith)

units-payee_balance_example : units (payee_balance mixed (of_chromo (codes "2") ∷ [])) ≡ 40
unfolding units
units-payee_balance_example =
    (units-payee_balance mixed (of_chromo (codes "2") ∷ []) (refl, (refl, (refl, tt))) (refl, tt)).1

abbrev token : IssueToken
token = record {
  address = codes "t";
  owner = codes "o";
  version = codes "1";
  name = codes "BYB";
  symbol = codes "BYB";
  total_supply = pos 3000000000;
  add_supply_enabled = true;
  burn_enabled = true;
  gas_price = 1;
}

abbrev whites : BybBalance
whites = record { chromo = codes "0"; value = pos 2999999970 }

abbrev stored : GoMap Bytes
stored =
    (key_of_byb (codes "a"), encode_byb mixed)
    ∷ (key_of_account_token (codes "a") (codes "t"), encode_balance (codes "t") (pos 30))
    ∷ (key_of_byb (codes "c"), encode_byb (whites ∷ []))
    ∷ (key_of_account_token (codes "c") (codes "t"), encode_balance (codes "t") (pos 2999999970))
    ∷ (key_of_token (codes "t"), encode_token token)
    ∷ []

abbrev start : TxState
start = record {
  state_db = λ k. value_of (lookup k stored);
  tx = some (record { tx_id = 1; buffer = [] });
}

abbrev by : Bytes → TokenByb
by sender = record {
  sender = sender;
  owner = codes "o";
  contract_acct = codes "c";
  contract_addr = codes "t";
  contract_address = codes "t";
}

-- What a user gets for ten units: four of the first chromo and three of each other.
abbrev parts : List BybBalance
parts =
    record { chromo = codes "1"; value = pos 4 }
    ∷ record { chromo = codes "2"; value = pos 3 }
    ∷ record { chromo = codes "3"; value = pos 3 }
    ∷ []

abbrev after_transfer : TxState
after_transfer =
    (transfer sample_state sample_byb sample_math (by (codes "a")) (codes "b") (pos 10) start).1

transfer_done :
    transfer sample_state sample_byb sample_math (by (codes "a")) (codes "b") (pos 10) start
    ≡ (done (on_transfer (by (codes "a")) (codes "a") (codes "b") parts), after_transfer)
unfolding transfer check_address has_address get_black_hole get_byb_stock_holders
    calc_and_set_sender_balance deduct_shares deduct_remainder calc_transfer_byb_chromo
    calc_transfer_loop trans_value keep_rest calc_total_balance merged with_second payee_balance
    take_added add_to_old not_zero set_payee_balance set_byb_balance register_byb get_byb_balance
    key_of_byb on_transfer bytes_eq get_balance get Tx.get lookup key_of_account_token
    encode_integer decode_integer ◌-ℤ◌ set_balance register_balance set Tx.set insert key_of_token
    ◌+ℤ◌ bytes_lt key_of_account add_child_key get_child_keys key_at search_loop search_strings
    store_child_keys with_child_key encode_entries decode_number decode_entries
transfer_done = refl

held-transfer_byb_example : held sample_state (codes "t") (codes "b") after_transfer ≡ pos 10
unfolding held amount lookup get Tx.get ◌+ℤ◌ ◌-ℤ◌ bytes_eq key_of_account_token key_of_byb has_slash
    calc_total_balance encode_integer decode_integer key_of_token get_byb_balance encode_entries
    decode_entries
held-transfer_byb_example =
    (held-transfer_byb sample_state sample_byb sample_math (by (codes "a")) (codes "b") (pos 10)
        start after_transfer mixed [] (on_transfer (by (codes "a")) (codes "a") (codes "b") parts)
        transfer_done refl refl (refl, (refl, (refl, tt))) mixed-IsDistinct tt refl refl).6
      (codes "b")

abbrev after_add : TxState
after_add = (add_supply sample_state sample_byb (by (codes "o")) (pos 5) start).1

abbrev add_receipts : List BybReceipt
add_receipts =
    on_transfer (by (codes "o")) [] (codes "c") (white (pos 5))
    ++ add_supply_receipt (codes "t") (pos 5) (pos 3000000005) ∷ []

add_done :
    add_supply sample_state sample_byb (by (codes "o")) (pos 5) start
    ≡ (done add_receipts, after_add)
unfolding add_supply raise_supply calc_total_balance set_byb_balance register_byb get_byb_balance
    key_of_byb on_transfer get_token set_token load key_of_token_name key_of_token_symbol to_lower
    bytes_eq get_balance get Tx.get lookup key_of_account_token encode_integer decode_integer ◌-ℤ◌
    set_balance register_balance set Tx.set insert key_of_token ◌+ℤ◌ bytes_lt key_of_account
    add_child_key get_child_keys key_at search_loop search_strings store_child_keys with_child_key
    encode_entries decode_number decode_entries
add_done = refl

add_supply-amounts_example : held sample_state (codes "t") (codes "c") after_add ≡ pos 2999999975
unfolding held amount lookup get Tx.get ◌+ℤ◌ bytes_eq key_of_account_token key_of_byb key_of_token
    has_slash calc_total_balance encode_integer decode_integer get_byb_balance get_token load
    encode_entries decode_entries
add_supply-amounts_example =
    (add_supply-amounts sample_state sample_byb (by (codes "o")) (pos 5) start after_add token
        whites [] add_receipts add_done refl refl refl refl refl).4
      (codes "c")

abbrev after_burn : TxState
after_burn = (burn sample_state sample_byb (by (codes "o")) (pos 7) start).1

abbrev burn_receipts : List BybReceipt
burn_receipts =
    on_transfer (by (codes "o")) (codes "c") [] (white (pos 7))
    ++ burn_receipt (codes "t") (pos 7) (pos 2999999993) ∷ []

burn_done :
    burn sample_state sample_byb (by (codes "o")) (pos 7) start ≡ (done burn_receipts, after_burn)
unfolding burn lower_supply burn_from calc_total_balance set_byb_balance register_byb
    get_byb_balance key_of_byb on_transfer get_token set_token load key_of_token_name
    key_of_token_symbol to_lower bytes_eq get_balance get Tx.get lookup key_of_account_token
    encode_integer decode_integer ◌-ℤ◌ set_balance register_balance set Tx.set insert key_of_token
    ◌+ℤ◌ bytes_lt key_of_account add_child_key get_child_keys key_at search_loop search_strings
    store_child_keys with_child_key encode_entries decode_number decode_entries
burn_done = refl

burn-amounts_example : held sample_state (codes "t") (codes "c") after_burn ≡ pos 2999999963
unfolding held amount lookup get Tx.get ◌-ℤ◌ ◌+ℤ◌ bytes_eq key_of_account_token key_of_byb
    key_of_token has_slash calc_total_balance encode_integer decode_integer get_byb_balance
    get_token load encode_entries decode_entries
burn-amounts_example =
    (burn-amounts sample_state sample_byb (by (codes "o")) (pos 7) start after_burn token whites []
        burn_receipts burn_done refl refl refl refl refl).6
      (codes "c")

-- The tenth chromo follows the ninth, and differs from it.
next_chromo-chromo_of_example : next_chromo (chromo_of 9) ≡ some (chromo_of 10)
next_chromo-chromo_of_example = next_chromo-chromo_of 9 (omega arith)

-- Nine chromos have been made.
abbrev nine : TxState
nine = record {
  state_db = λ k. value_of (lookup k ((key_of_cur_chromo, codes "9") ∷ []));
  tx = some (record { tx_id = 1; buffer = [] });
}

nine_stored : get key_of_cur_chromo nine ≡ chromo_of 9
unfolding get lookup Tx.get bytes_eq chromo_of decimal
nine_stored = refl

make_chromos-AreDistinct_example :
    (made : List Bytes) × (s' : TxState) × (make_chromos sample_state sample_byb 3 nine
      ≡ pure made s')
    × (length made ≡ 3)
    × AreDistinct made
make_chromos-AreDistinct_example =
    make_chromos-AreDistinct sample_state sample_byb 3 9 nine (record { tx_id = 1; buffer = [] })
      (omega arith) refl nine_stored
