-- ===== src/Deliver.antt =====
-- abciapp/service/deliver/delivertx.go: the fees of a transaction are collected from its receipts
-- and divided among the rewarders. The children have the rest of the directory, and the proofs.
pub mod Fees
pub mod Gathering
pub mod Types
pub mod Blocks
pub mod Edges
pub mod Contracts
pub mod Turns
mod Sample
mod Tests
use bcbchain.Base.{
  Bytes, GoMap, codes, bytes_eq, is_empty, lookup, insert, ℕ, zero, suc, ◌+◌, ◌-◌, ◌%◌, Bool, true,
  false, not, ◌&&◌, ◌||◌, Option, none, some, List, [], ◌∷◌, ◌++◌, map, length, ◌==◌, ltb, leb,
  if◌then◌else◌, Outcome, returned, panicked, ◌>>=◌, ◌>>◌,
}
use bcbchain.Base.Sort.{sort_strings}
use bcbchain.Base.Decimal.{decimal}
use bcbchain.Base.Int.{ℤ, pos, negsuc, ◌+ℤ◌, ◌-ℤ◌, ltb_ℤ}
use bcbchain.Db.{LevelDb, Json}
use bcbchain.Helper.{Helper, or_panic}
use bcbchain.Helper.Accounts.{AccountJson, balance_of, set_balance, add_account_token}
use bcbchain.Base.{◌≡◌, ◌*◌, ◌/◌}

-- `std.Fee`, `std.Transfer`, and a rewarder of the strategy
pub record Fee : Type 0 where
  pub token : Bytes
  pub from : Bytes
  pub value : ℤ

pub record Transfer : Type 0 where
  pub token : Bytes
  pub from : Bytes
  pub to : Bytes
  pub value : ℤ

pub record Reward : Type 0 where
  pub name : Bytes
  pub reward_percent : Bytes
  pub address : Bytes

-- `common.KVPair`
abbrev pub KvPair : Type 0
KvPair = Bytes × Bytes

-- What comes from outside: the arithmetic of the sdk's bn package, floats, and the JSON of receipts.
pub record Receipts : Type 0 where
  -- `int64(percent * 100)` of `strconv.ParseFloat`
  pub percent : Bytes → Option ℤ
  -- `bn.N(value).MulI(percent).DivI(10000)`
  pub award : ℤ → ℤ → ℤ
  pub award-pos : (v p : ℕ) → award (pos v) (pos p) ≡ pos (v * p / 10000)
  -- the fee in the receipt of a tag
  pub decode_fee : Bytes → Option Fee
  -- the receipts "totalFee" and "transferFee"
  pub encode_total_fee : Fee → Bytes
  pub encode_transfer : Transfer → Bytes

-- The fields of `AppDeliver` that the fees need. `skips_tokens` is the soft fork V2_0_1_13780 at the
-- block's height.
pub record AppDeliver (E : LevelDb) : Type 0 where
  pub trans_id : ℤ
  pub tx_id : ℕ
  pub rewarder : Bytes
  pub reward_strategy : List Reward
  pub skips_tokens : Bool
  pub rewards : GoMap ℤ
  pub helper : Helper E

-- The bits of an int64 as a number with a sign.
unfoldable pub wrap_int64 : ℤ → ℤ
wrap_int64 (pos n) =
    let r = n % 18446744073709551616 in
    if ltb r 9223372036854775808 then pos r else negsuc (18446744073709551615 - r)
wrap_int64 (negsuc n) =
    let r = n % 18446744073709551616 in
    if ltb r 9223372036854775808 then negsuc r else pos (18446744073709551615 - r)

-- `strconv.ParseInt(award.String(), 10, 64)` without its error: the nearest int64.
unfoldable pub nearest_int64 : ℤ → ℤ
nearest_int64 (pos n) = if ltb n 9223372036854775808 then pos n else pos 9223372036854775807
nearest_int64 (negsuc n) =
    if ltb n 9223372036854775808 then negsuc n else negsuc 9223372036854775807

-- `strings.HasPrefix` and `strings.Contains`
unfoldable pub has_prefix : Bytes → Bytes → Bool
has_prefix s [] = true
has_prefix [] (c ∷ p) = false
has_prefix (d ∷ s) (c ∷ p) = d == c && has_prefix s p

unfoldable pub contains_text : Bytes → Bytes → Bool
unfolding has_prefix
contains_text [] p = has_prefix [] p
contains_text (c ∷ s) p = has_prefix (c ∷ s) p || contains_text s p

-- The fees by sender, the fees' tags and the total.
pub record Gathered : Type 0 where
  pub fees : GoMap Fee
  pub fee_tags : List KvPair
  pub total_fee : ℤ

abbrev pub nothing_gathered : Gathered
nothing_gathered = record { fees = []; fee_tags = []; total_fee = pos 0 }

-- The fee of a sender that may have paid before.
unfoldable pub add_fee : Fee → Option Fee → Fee
add_fee fee none = fee
add_fee fee (some before) = record fee { value = wrap_int64 (before.value +ℤ fee.value) }

-- The change that one fee makes to what is gathered.
unfoldable pub gather_fee : Bool → KvPair → Fee → Gathered → Gathered
gather_fee is_ok tag fee g = record {
  fees = insert (fee.from) (add_fee fee (lookup (fee.from) (g.fees))) (g.fees);
  fee_tags = if is_ok then g.fee_tags else g.fee_tags ++ tag ∷ [];
  total_fee = wrap_int64 (g.total_fee +ℤ fee.value);
}

module _ (R : Receipts) where
  -- `gatherFeesByFromAddr`
  unfoldable pub gather_fees : Bool → List KvPair → Gathered → Outcome Gathered
  gather_fees is_ok [] g = returned g
  gather_fees is_ok (tag ∷ tags) g =
      let skipped = gather_fees is_ok tags g in
      let gathered = or_panic (Receipts.decode_fee R (tag.1)) >>= λ fee.
      gather_fees is_ok tags (gather_fee is_ok tag fee g) in
      if contains_text (tag.0) (codes "std::fee") then gathered else skipped

module _ (E : LevelDb) (J : Json) (A : AccountJson) (R : Receipts) where
  -- The sender pays, where its payment was rolled back or was never made.
  unfoldable pub charge : Fee → AppDeliver E → Outcome (AppDeliver E)
  charge fee app = do
    old ← balance_of E J A (app.trans_id) (app.tx_id) (fee.from) (fee.token) (app.helper)
    helper ←
        set_balance E J A (app.trans_id) (app.tx_id) (fee.from) (fee.token) (old -ℤ fee.value)
          (app.helper)
    returned (record app { helper = helper })

  -- The address that a reward goes to.
  unfoldable pub reward_address : AppDeliver E → Reward → Bytes
  reward_address app reward =
      if is_empty (reward.address) && bytes_eq (reward.name) (codes "validators")
      then app.rewarder
      else reward.address

  -- `app.rewards[addr]`
  unfoldable pub reward_so_far : Bytes → GoMap ℤ → ℤ
  reward_so_far addr rewards = elim (lookup addr rewards) [ none ↦ pos 0 | some v ↦ v ]

  -- One award: to the balance, to the account's tokens and to the block's rewards.
  unfoldable pub pay_award : Fee → Bytes → ℤ → AppDeliver E → Outcome (AppDeliver E)
  pay_award fee addr award app = do
    old ← balance_of E J A (app.trans_id) (app.tx_id) addr (fee.token) (app.helper)
    paid ← set_balance E J A (app.trans_id) (app.tx_id) addr (fee.token) (old +ℤ award) (app.helper)
    helper ←
        (if app.skips_tokens
          then returned paid
          else add_account_token E J A (app.trans_id) (app.tx_id) addr (fee.token) paid)
    returned (record app {
      helper = helper;
      rewards =
          insert addr (wrap_int64 (reward_so_far addr (app.rewards) +ℤ nearest_int64 award))
            (app.rewards);
    })

  -- The loop of `distributeFee` from index `i`; a percentage that is no number ends it, and the
  -- error is not looked at.
  unfoldable pub distribute_loop :
      ℕ → ℕ → List Reward → Fee → ℤ → AppDeliver E → Outcome (List Transfer × AppDeliver E)
  distribute_loop count i [] fee left app = returned ([], app)
  distribute_loop count i (reward ∷ l) fee left app =
      elim (Receipts.percent R (reward.reward_percent)) [
        | none ↦ returned ([], app)
        | some p ↦
            let addr = reward_address app reward in
            let award = if i == count then left else Receipts.award R (fee.value) p in
            pay_award fee addr award app >>= λ app'.
            distribute_loop count (i + 1) l fee (wrap_int64 (left -ℤ nearest_int64 award)) app'
            >>= λ rest. returned (
              record { token = fee.token; from = fee.from; to = addr; value = award } ∷ rest.0,
              rest.1,
            )
      ]

  -- `distributeFee`
  unfoldable pub distribute_fee :
      Fee → Bool → Bool → AppDeliver E → Outcome (List Transfer × AppDeliver E)
  distribute_fee fee is_ok is_bvm app = do
    app' ← (if not is_ok || is_bvm then charge fee app else returned app)
    distribute_loop (length (app.reward_strategy)) 0 (app.reward_strategy) fee (fee.value) app'

  -- The tags "/n/i/transferFee" of one sender's rewards.
  unfoldable pub transfer_tags : ℕ → ℕ → List Transfer → List KvPair
  transfer_tags messages index [] = []
  transfer_tags messages index (t ∷ l) =
      (
        codes "/" ++ decimal messages ++ codes "/" ++ decimal index ++ codes "/transferFee",
        Receipts.encode_transfer R t,
      )
      ∷ transfer_tags messages (index + 1) l

  -- The loop of `emitFeeReceipts` over the senders.
  unfoldable pub emit_loop :
      ℕ
      → GoMap Fee
      → Bool
      → Bool
      → List Bytes
      → List KvPair
      → AppDeliver E
      → Outcome (List KvPair × AppDeliver E)
  emit_loop messages fees is_ok is_bvm [] tags app = returned (tags, app)
  emit_loop messages fees is_ok is_bvm (k ∷ keys) tags app = elim (lookup k fees) [
    | none ↦ returned (tags, app)
    | some fee ↦ distribute_fee fee is_ok is_bvm app >>= λ r.
        emit_loop messages fees is_ok is_bvm keys
          (tags
            ++ (
              codes "/" ++ decimal messages ++ codes "/0/totalFee",
              Receipts.encode_total_fee R fee,
            )
              ∷ transfer_tags messages 1 (r.0))
          (r.1)
  ]

  -- `emitFeeReceipts`, from the number of messages and the method of the last one.
  unfoldable pub emit_fee_receipts :
      ℕ → ℕ → List KvPair → Bool → AppDeliver E → Outcome ((List KvPair × ℤ) × AppDeliver E)
  emit_fee_receipts messages method_id tags is_ok app = do
    g ← gather_fees R is_ok tags nothing_gathered
    let is_bvm = method_id == 0 || method_id == 4294967295
    r ←
        emit_loop messages (g.fees) is_ok is_bvm (sort_strings (map (λ e. e.0) (g.fees)))
          (if is_ok then tags else g.fee_tags) app
    returned ((r.0, g.total_fee), r.1)
