-- ===== src/V1/Byb/Receipts.antt =====
-- abciapp_v1.0/contract/tokenbyb/tokenbyb_events.go and the receipts of
-- abciapp_v1.0/contract/smcapi/smcapi.go that it packs. A method returns the receipts that it has
-- emitted: those of a method that fails are not added to a response.
use bcbchain.Base.{Bytes, ℕ, List, [], ◌∷◌}
use bcbchain.Base.Int.{ℤ}
use bcbchain.V1.Types.{IssueToken}
use bcbchain.V1.Byb.Chromos.{BybBalance, calc_total_balance}
use bcbchain.V1.Byb.Store.{TokenByb}

-- The receipts by the names that they are emitted under.
pub data BybReceipt : Type 0 where
  transfer_receipt : (token from to : Bytes) → (value : ℤ) → BybReceipt
  byb_transfer_receipt : (token from to : Bytes) → List BybBalance → BybReceipt
  new_token_receipt : IssueToken → (account_address : Bytes) → BybReceipt
  new_black_hole_receipt : (address : Bytes) → BybReceipt
  new_stock_holder_receipt : (address : Bytes) → List BybBalance → BybReceipt
  del_stock_holder_receipt : (address : Bytes) → BybReceipt
  change_ownership_receipt : (from to : Bytes) → List BybBalance → BybReceipt
  set_owner_receipt : (contract_addr new_owner : Bytes) → BybReceipt
  add_supply_receipt : (token : Bytes) → (value total_supply : ℤ) → BybReceipt
  burn_receipt : (token : Bytes) → (value total_supply : ℤ) → BybReceipt
  set_gas_price_receipt : (token : Bytes) → (gas_price : ℕ) → BybReceipt

-- `bybReceipt_onTransfer`: the standard receipt and the special one.
unfoldable pub on_transfer : TokenByb → Bytes → Bytes → List BybBalance → List BybReceipt
on_transfer byb from to trans_byb =
    transfer_receipt (byb.contract_address) from to (calc_total_balance trans_byb)
    ∷ byb_transfer_receipt (byb.contract_address) from to trans_byb
    ∷ []
