-- ===== src/V1/Api.antt =====
-- abciapp_v1.0/contract/smcapi/smcapi.go: the transfers of the contracts' API and their receipts.
pub mod Transfers
mod Tests
use bcbchain.Base.{
  Bytes, bytes_eq, is_empty, Bool, true, false, Option, none, some, List, [], ◌∷◌, ◌++◌,
  if◌then◌else◌,
}
use bcbchain.Base.Int.{ℤ, pos, ◌+ℤ◌, ◌-ℤ◌, ltb_ℤ, leb_ℤ}
use bcbchain.V1.Reply.{
  invalid_parameter, unsupport_trans_to_self, insufficient_balance, TxState, Op, ◌>>=◌, ◌>>◌, pure,
  fail_if, crash, ignore_error,
}
use bcbchain.V1.Types.{StateJson, IssueToken}
use bcbchain.V1.State.{get_balance, set_balance, get_genesis_token, get_token_addr_by_name}

-- `smc.ReceiptOfTransfer`, the receipt named "transfer".
pub record TransferReceipt : Type 0 where
  pub token : Bytes
  pub from : Bytes
  pub to : Bytes
  pub value : ℤ

module _ (J : StateJson) where
  -- The payer's half of `transferToken`, from the balance.
  abbrev pub take_from : Bytes → Bytes → ℤ → ℤ → Op (Unit {0})
  take_from token from value sender_bal = do
    fail_if (ltb_ℤ sender_bal value) insufficient_balance
    set_balance J from token (sender_bal -ℤ value)

  -- The payee's half, with the receipts afterwards.
  abbrev pub give_to :
      Bytes → Bytes → Bytes → ℤ → List TransferReceipt → ℤ → Op (List TransferReceipt)
  give_to token from to value receipts payee_bal = do
    set_balance J to token (payee_bal +ℤ value)
    pure (receipts ++ record { token = token; from = from; to = to; value = value } ∷ [])

  -- `transferToken`, from the receipts that the event handler holds.
  unfoldable pub transfer_token :
      Bytes → Bytes → Bytes → ℤ → List TransferReceipt → Op (List TransferReceipt)
  transfer_token token from to value receipts = do
    fail_if (leb_ℤ value (pos 0)) invalid_parameter
    fail_if (bytes_eq from to) unsupport_trans_to_self
    fail_if (is_empty token) invalid_parameter
    get_balance J from token >>= take_from token from value
    get_balance J to token >>= give_to token from to value receipts

  -- The name of the genesis token; a missing one is a nil pointer.
  abbrev pub genesis_name : Option IssueToken → Op Bytes
  genesis_name none = crash
  genesis_name (some t) = pure (t.name)

  -- `TransferToken`: an empty name stands for the genesis token.
  unfoldable pub transfer_token_by_name :
      Bytes → Bytes → Bytes → ℤ → List TransferReceipt → Op (List TransferReceipt)
  transfer_token_by_name token_name from to value receipts = do
    name ←
        (if is_empty token_name
          then ignore_error none (get_genesis_token J) >>= genesis_name
          else pure token_name)
    token ← ignore_error [] (get_token_addr_by_name J name)
    transfer_token token from to value receipts
