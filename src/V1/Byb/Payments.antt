-- ===== src/V1/Byb/Payments.antt =====
-- abciapp_v1.0/contract/tokenbyb/tokenbyb.go: the transfers and the change of a chromo's owner.
use bcbchain.Base.{
  Bytes, bytes_eq, Bool, true, false, not, ◌||◌, Option, none, some, List, [], ◌∷◌, ◌++◌,
  if◌then◌else◌,
}
use bcbchain.Base.Int.{ℤ, pos, ◌-ℤ◌, ltb_ℤ, leb_ℤ, eqb_ℤ}
use bcbchain.V1.Reply.{
  invalid_parameter, unsupport_trans_to_self, insufficient_balance, invalid_balance,
  no_authorization, min_user_code, Op, ◌>>=◌, ◌>>◌, pure, fail_if, ignore_error, attempt,
}
use bcbchain.V1.Types.{StateJson}
use bcbchain.V1.Context.{required}
use bcbchain.V1.Byb.Chromos.{
  BybBalance, SafeMath, white_chromo, calc_total_balance, calc_transfer_byb_chromo, merged,
  payee_balance, find_chromo, take_chromo, without_chromo,
}
use bcbchain.V1.Byb.Store.{
  BybJson, TokenByb, AddressRole, committee, stock_holder, hole, get_byb_balance, set_byb_balance,
  check_address,
}
use bcbchain.V1.Byb.Receipts.{BybReceipt, change_ownership_receipt, on_transfer}

abbrev pub is_hole : AddressRole → Bool
is_hole hole = true
is_hole _ = false

abbrev pub is_stock_holder : AddressRole → Bool
is_stock_holder stock_holder = true
is_stock_holder _ = false

abbrev pub is_committee : AddressRole → Bool
is_committee committee = true
is_committee _ = false

-- A black hole pays in white chromos.
abbrev pub paid_out : AddressRole → ℤ → List BybBalance → List BybBalance
paid_out hole value payee = record { chromo = white_chromo; value = value } ∷ []
paid_out _ value payee = payee

module _ (J : StateJson) (B : BybJson) where
  -- The second round of `calcAndSetSenderBalance`, for the remainder of the first.
  unfoldable pub deduct_remainder :
      SafeMath
      → TokenByb
      → ℤ
      → AddressRole
      → ℤ
      → List BybBalance
      → List BybBalance
      → Op (List BybBalance)
  deduct_remainder M byb value sender_role surplus sender_new payee = do
    second ← required invalid_balance (calc_transfer_byb_chromo M sender_new surplus)
    set_byb_balance J B byb (byb.sender) (second.0)
    fail_if (not (eqb_ℤ (surplus -ℤ calc_total_balance (second.1)) (pos 0))) invalid_balance
    pure (paid_out sender_role value (merged payee (second.1)))

  -- The first round.
  unfoldable pub deduct_shares :
      SafeMath → TokenByb → ℤ → AddressRole → List BybBalance → Op (List BybBalance)
  unfolding deduct_remainder
  deduct_shares M byb value sender_role sender_byb = do
    first ← required invalid_balance (calc_transfer_byb_chromo M sender_byb value)
    let surplus = value -ℤ calc_total_balance (first.1)
    if eqb_ℤ surplus (pos 0)
        then (do
          set_byb_balance J B byb (byb.sender) (first.0)
          pure (paid_out sender_role value (first.1)))
        else deduct_remainder M byb value sender_role surplus (first.0) (first.1)

  -- `calcAndSetSenderBalance`
  unfoldable pub calc_and_set_sender_balance :
      SafeMath → TokenByb → ℤ → AddressRole → Op (List BybBalance)
  unfolding deduct_shares
  calc_and_set_sender_balance M byb value sender_role = do
    fail_if (eqb_ℤ value (pos 0)) invalid_parameter
    sender_byb ← get_byb_balance J B (byb.sender)
    let total_balance = calc_total_balance sender_byb
    fail_if (ltb_ℤ total_balance value) insufficient_balance
    if eqb_ℤ total_balance value
        then (do
          set_byb_balance J B byb (byb.sender) []
          pure (paid_out sender_role value sender_byb))
        else deduct_shares M byb value sender_role sender_byb

  -- `setPayeeBalance`
  unfoldable pub set_payee_balance : TokenByb → Bytes → List BybBalance → Op (Unit {0})
  set_payee_balance byb payee_addr added_byb = do
    old_byb ← get_byb_balance J B payee_addr
    set_byb_balance J B byb payee_addr (payee_balance old_byb added_byb)

  -- `Transfer`
  unfoldable pub transfer : SafeMath → TokenByb → Bytes → ℤ → Op (List BybReceipt)
  transfer M byb to value = do
    fail_if (leb_ℤ value (pos 0)) invalid_parameter
    fail_if (bytes_eq (byb.sender) to || bytes_eq (byb.contract_acct) to) unsupport_trans_to_self
    to_role ← check_address J B byb to
    fail_if (is_stock_holder to_role || is_committee to_role) invalid_parameter
    role ← check_address J B byb (byb.sender)
    fail_if (is_stock_holder role || is_committee role) invalid_parameter
    trans_byb ← calc_and_set_sender_balance M byb value role
    set_payee_balance byb to trans_byb
    pure (on_transfer byb (byb.sender) to trans_byb)

  -- `isStockHolderOwnTheChromo`
  unfoldable pub is_stock_holder_own_the_chromo : Bytes → Bytes → Op Bool
  is_stock_holder_own_the_chromo stock_holder_addr chromo = do
    owned_byb ← ignore_error [] (get_byb_balance J B stock_holder_addr)
    elim (find_chromo chromo owned_byb) [ none ↦ pure false | some token ↦ pure true ]

  -- `checkAndSetSenderChromoBybBalance`
  unfoldable pub check_and_set_sender_chromo : TokenByb → Bytes → ℤ → Op (List BybBalance)
  check_and_set_sender_chromo byb chromo value = do
    role ← check_address J B byb (byb.sender)
    fail_if (is_committee role) invalid_parameter
    sender_byb ← get_byb_balance J B (byb.sender)
    token ← required insufficient_balance (find_chromo chromo sender_byb)
    fail_if (ltb_ℤ (token.value) value) insufficient_balance
    set_byb_balance J B byb (byb.sender)
        (take_chromo (not (is_stock_holder role)) chromo value sender_byb)
    pure (record { chromo = if is_hole role then white_chromo else chromo; value = value } ∷ [])

  -- `TransferByChromo`
  unfoldable pub transfer_by_chromo : TokenByb → Bytes → Bytes → ℤ → Op (List BybReceipt)
  transfer_by_chromo byb chromo to value = do
    fail_if (leb_ℤ value (pos 0)) invalid_parameter
    fail_if (bytes_eq (byb.sender) to) unsupport_trans_to_self
    to_role ← check_address J B byb to
    fail_if (is_committee to_role) invalid_parameter
    owns ← (if is_stock_holder to_role then is_stock_holder_own_the_chromo to chromo else pure true)
    fail_if (not owns) invalid_parameter
    trans_byb ← check_and_set_sender_chromo byb chromo value
    set_payee_balance byb to trans_byb
    pure (on_transfer byb (byb.sender) to trans_byb)

  -- The entry that `changeChromoOwnership` moves; without one it is that of the zero values.
  abbrev pub entry_of : Option BybBalance → BybBalance
  entry_of none = record { chromo = []; value = pos 0 }
  entry_of (some token) = token

  -- `changeChromoOwnership`, whose `from` is the sender
  unfoldable pub change_chromo_of : TokenByb → Bytes → Bytes → Bytes → Op (List BybReceipt)
  change_chromo_of byb from to chromo = do
    owned_byb ← get_byb_balance J B from
    let trans_byb = entry_of (find_chromo chromo owned_byb)
    set_byb_balance J B byb (byb.sender) (without_chromo chromo owned_byb)
    holder_byb ← get_byb_balance J B to
    set_byb_balance J B byb to (holder_byb ++ trans_byb ∷ [])
    pure (
        on_transfer byb from to (trans_byb ∷ [])
        ++ change_ownership_receipt from to (trans_byb ∷ []) ∷ [])

  -- A role that could not be read is none, which is not that of a stock holder.
  abbrev pub holds_stock : Option AddressRole → Bool
  holds_stock none = false
  holds_stock (some role) = is_stock_holder role

  -- `ChangeChromoOwnership`
  unfoldable pub change_chromo_ownership : TokenByb → Bytes → Bytes → Op (List BybReceipt)
  unfolding change_chromo_of
  change_chromo_ownership byb chromo to_stock_holder = do
    fail_if (bytes_eq (byb.sender) to_stock_holder) unsupport_trans_to_self
    role ← attempt (check_address J B byb (byb.sender))
    fail_if (not (holds_stock role)) no_authorization
    to_role ← attempt (check_address J B byb to_stock_holder)
    fail_if (not (holds_stock to_role)) no_authorization
    owns ← is_stock_holder_own_the_chromo (byb.sender) chromo
    fail_if (not owns) min_user_code
    change_chromo_of byb (byb.sender) to_stock_holder chromo
