-- ===== src/Deliver/Tests.antt =====
-- A run of the division of a fee over the sample database.
use bcbchain.Base.{
  map, ◌≤◌, codes, bytes_eq, lookup, insert, ◌+◌, ◌<◌, true, false, List, [], ◌∷◌, ◌≡◌, refl,
  length, Outcome, returned, panicked,
}
use bcbchain.Base.Int.{pos, ◌+ℤ◌, ◌-ℤ◌}
use bcbchain.Db.Sample.{sample_db, sample_json}
use bcbchain.Statedb.Snapshot
use bcbchain.Statedb.Tx
use bcbchain.Statedb.Tx.{Tx}
use bcbchain.Statedb.Database
use bcbchain.Helper.{load, store, find_tx, store_tx, read, get, set}
use bcbchain.Helper.Accounts.{balance_of, set_balance}
use bcbchain.Helper.Keys.{key_of_account_token}
use bcbchain.Helper.Sample.{sample_accounts, encode_integer, decode_integer}
use bcbchain.Base.{arith}
use bcbchain.Deliver.{
  KvPair, Gathered, gather_fees, gather_fee, add_fee, contains_text, has_prefix, Fee, Transfer,
  AppDeliver, distribute_fee, distribute_loop, pay_award, reward_address, reward_so_far, wrap_int64,
  nearest_int64,
}
use bcbchain.Deliver.Sample.{sample_receipts, app}
use bcbchain.Deliver.Gathering.{fee_in, tag_sum, gather_fees-sum}
use bcbchain.Deliver.Fees.{HasPoints, paid, sum, distribute_fee-paid}

abbrev fee : Fee
fee = record { token = codes "t"; from = codes "a"; value = pos 101 }

abbrev result_of :
    Outcome (List Transfer × AppDeliver sample_db) → List Transfer × AppDeliver sample_db
result_of (returned r) = r
result_of panicked = ([], app)

abbrev result : List Transfer × AppDeliver sample_db
result =
    result_of
      (distribute_fee sample_db sample_json sample_accounts sample_receipts fee true false app)

run :
    distribute_fee sample_db sample_json sample_accounts sample_receipts fee true false app
    ≡ returned (result.0, result.1)
unfolding distribute_fee distribute_loop pay_award reward_address reward_so_far wrap_int64
    nearest_int64 balance_of set_balance get set load store find_tx store_tx read Tx.get Tx.set
    Database.get Snapshot.get lookup insert bytes_eq key_of_account_token encode_integer
    decode_integer ◌+ℤ◌ ◌-ℤ◌
run = refl

-- Of 101, 20 and 80 are paid and 1 is lost.
distribute_fee-paid_example :
    (paid (result.0) ≤ 101)
    × (101 < paid (result.0) + length (result.0))
    × (length (result.0) ≡ 2)
    × (map (λ t. t.value) (result.0) ≡ pos 20 ∷ pos 80 ∷ [])
unfolding HasPoints sum
distribute_fee-paid_example =
    distribute_fee-paid sample_db sample_json sample_accounts sample_receipts fee true false
      (2000 ∷ 8000 ∷ []) 101 app (result.1) (result.0) run (refl, (refl, tt)) refl refl

-- Two fees of one sender and one of another, and a tag without a fee.
abbrev tags : List KvPair
tags =
    (codes "/1/std::fee", codes "a")
    ∷ (codes "/1/transfer", codes "b")
    ∷ (codes "std::fee", codes "b")
    ∷ (codes "/2/std::fee/", codes "a")
    ∷ []

abbrev gathered : Gathered
gathered = record {
  fees =
      (codes "a", record { token = codes "t"; from = codes "a"; value = pos 10 })
      ∷ (codes "b", record { token = codes "t"; from = codes "b"; value = pos 5 })
      ∷ [];
  fee_tags = [];
  total_fee = pos 15;
}

gather_fees-sum_example : gathered.total_fee ≡ pos (tag_sum sample_receipts tags)
unfolding gather_fees gather_fee add_fee wrap_int64 contains_text has_prefix insert lookup bytes_eq
    fee_in tag_sum ◌+ℤ◌
gather_fees-sum_example =
    (gather_fees-sum sample_receipts true tags gathered refl (refl, (refl, (refl, (refl, tt))))
      (ground arith)).0
