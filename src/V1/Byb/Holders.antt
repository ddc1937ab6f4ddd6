-- ===== src/V1/Byb/Holders.antt =====
-- abciapp_v1.0/contract/tokenbyb/tokenbyb.go: black holes and stock holders.
use bcbchain.Base.{
  Bytes, bytes_eq, is_empty, ℕ, ◌+◌, ◌%◌, ◌^◌, Bool, true, false, not, ◌&&◌, Option, none, some,
  List, [], ◌∷◌, ◌++◌, ◌==◌, ltb, length, if◌then◌else◌,
}
use bcbchain.Base.Decimal.{decimal}
use bcbchain.Base.Int.{ℤ, pos, ◌+ℤ◌, ◌-ℤ◌, leb_ℤ}
use bcbchain.V1.Reply.{
  low_level_error, invalid_parameter, no_authorization, beyond_maximum_stock_holders, byb_owned_byb,
  byb_holder_not_found, Op, ◌>>=◌, ◌>>◌, pure, fail_if, crash, ignore_error, attempt,
}
use bcbchain.V1.Types.{StateJson}
use bcbchain.V1.State.{get_balance}
use bcbchain.V1.Context.{required}
use bcbchain.V1.Byb.Chromos.{BybBalance, parse_uint}
use bcbchain.V1.Byb.Store.{
  BybJson, TokenByb, AddressRole, committee, hole, user, slice_of, get_byb_balance, set_byb_balance,
  get_black_hole, set_black_hole, get_byb_stock_holders, set_byb_stock_holders, get_cur_chromo,
  set_cur_chromo, check_address,
}
use bcbchain.V1.Byb.Receipts.{
  BybReceipt, new_black_hole_receipt, new_stock_holder_receipt, del_stock_holder_receipt,
  on_transfer,
}

abbrev pub max_stock_holder : ℕ
max_stock_holder = 100

abbrev pub is_user : AddressRole → Bool
is_user user = true
is_user _ = false

-- A role that could not be read is none, which is not a taken one.
abbrev pub is_taken : Option AddressRole → Bool
is_taken none = false
is_taken (some role) = not (is_user role)

abbrev pub is_committee_or_hole : AddressRole → Bool
is_committee_or_hole committee = true
is_committee_or_hole hole = true
is_committee_or_hole _ = false

-- The number of the next chromo: 1 at the start, none where the stored text is not a number.
unfoldable pub next_chromo : Bytes → Option Bytes
next_chromo cur_chromo =
    if is_empty cur_chromo
    then some (decimal 1)
    else if parse_uint 0 cur_chromo == 0
    then none
    else some (decimal ((parse_uint 0 cur_chromo + 1) % 2 ^ 64))

-- The list without a stock holder, none if it is not in it.
unfoldable pub without_holder : Bytes → List Bytes → Option (List Bytes)
without_holder addr [] = none
without_holder addr (holder ∷ holders) = elim (bytes_eq holder addr) [
  | true ↦ some holders
  | false ↦ elim (without_holder addr holders) [ none ↦ none | some l ↦ some (holder ∷ l) ]
]

-- What a stock holder's first entry becomes when a value is added to it.
unfoldable pub add_to_first : ℤ → List BybBalance → List BybBalance
add_to_first value [] = []
add_to_first value (item ∷ items) = record item { value = item.value +ℤ value } ∷ items

-- The first entry gets a new value; a missing one is an index out of range.
abbrev pub set_first {ℓ} :
    {A : Type ℓ} → (BybBalance → ℤ) → (List BybBalance → Op A) → List BybBalance → Op A
set_first f next [] = crash
set_first f next (item ∷ items) = next (record item { value = f item } ∷ items)

-- The chromo of the first entry.
abbrev pub first_chromo : List BybBalance → Op Bytes
first_chromo [] = crash
first_chromo (item ∷ items) = pure (item.chromo)

module _ (J : StateJson) (B : BybJson) where
  -- What `calcNewChromo` does with a new chromo.
  abbrev pub store_chromo : Option Bytes → Op (Option Bytes)
  store_chromo none = pure none
  store_chromo (some new) = ignore_error tt (set_cur_chromo J B new) >> pure (some new)

  -- `calcNewChromo`: the new chromo is stored, and an error of that is not looked at.
  unfoldable pub calc_new_chromo : Op (Option Bytes)
  calc_new_chromo = do cur_chromo ← get_cur_chromo J B; store_chromo (next_chromo cur_chromo)

  -- `makeByb`
  unfoldable pub make_byb : ℤ → Op (Option BybBalance)
  unfolding calc_new_chromo
  make_byb value = do
    chromo ← calc_new_chromo
    elim chromo [ none ↦ pure none | some c ↦ pure (some (record { chromo = c; value = value })) ]

  -- `updateBlackHole`
  unfoldable pub update_black_hole : Bytes → Op (Unit {0})
  update_black_hole black_hole = do
    holes ← get_black_hole J B
    set_black_hole J B (slice_of holes ++ black_hole ∷ [])

  -- `NewBlackHole`, where an error of `checkAddress` is not looked at
  unfoldable pub new_black_hole : TokenByb → Bytes → Op (List BybReceipt)
  unfolding update_black_hole
  new_black_hole byb black_hole = do
    fail_if (not (bytes_eq (byb.sender) (byb.owner))) no_authorization
    role ← attempt (check_address J B byb black_hole)
    fail_if (is_taken role) invalid_parameter
    update_black_hole black_hole
    pure (new_black_hole_receipt black_hole ∷ [])

  -- The new amounts of `makeStockHolderAndBybBalance`; a chromo that cannot be made is no error, and
  -- no amounts.
  unfoldable pub new_amounts : ℤ → List BybBalance → Op (Option (List BybBalance))
  unfolding make_byb
  new_amounts value [] = do
    made ← make_byb value
    elim made [ none ↦ pure none | some new ↦ pure (some (new ∷ [])) ]
  new_amounts value (item ∷ items) = pure (some (add_to_first value (item ∷ items)))

  -- `makeStockHolderAndBybBalance`
  unfoldable pub make_stock_holder : TokenByb → Bytes → ℤ → Op (List BybBalance)
  unfolding new_amounts
  make_stock_holder byb stock_holder_addr value = do
    role ← check_address J B byb stock_holder_addr
    fail_if (is_committee_or_hole role) invalid_parameter
    holders ← get_byb_stock_holders J B
    let addrs = slice_of holders
    fail_if (is_user role && ltb max_stock_holder (length addrs + 1)) beyond_maximum_stock_holders
    old ← get_byb_balance J B stock_holder_addr
    fail_if (is_user role && not (length old == 0)) invalid_parameter
    amounts ← new_amounts value old
    elim amounts [
      | none ↦ pure []
      | some new ↦
          if is_user role
          then set_byb_stock_holders J B (addrs ++ stock_holder_addr ∷ []) >> pure new
          else pure new
    ]

  -- `setOwnerAndStockHolderBalance`; its receipt has all amounts of the stock holder.
  unfoldable pub set_owner_and_stock_holder_balance :
      TokenByb → Bytes → List BybBalance → ℤ → ℤ → Op (List BybReceipt)
  set_owner_and_stock_holder_balance byb stock_holder_addr byb_balances value send_balance = do
    set_byb_balance J B byb stock_holder_addr byb_balances
    owner_balance ← get_byb_balance J B (byb.contract_acct)
    set_first (λ _. send_balance -ℤ value) (set_byb_balance J B byb (byb.contract_acct))
        owner_balance
    _ ← first_chromo byb_balances
    pure (on_transfer byb (byb.contract_acct) stock_holder_addr byb_balances)

  -- `NewStockHolder`
  unfoldable pub new_stock_holder : TokenByb → Bytes → ℤ → Op (Bytes × List BybReceipt)
  unfolding make_stock_holder set_owner_and_stock_holder_balance
  new_stock_holder byb stock_holder_addr value = do
    fail_if (not (bytes_eq (byb.sender) (byb.owner))) no_authorization
    fail_if (leb_ℤ value (pos 0)) invalid_parameter
    owner_balance ← get_balance J (byb.contract_acct) (byb.contract_address)
    fail_if (leb_ℤ owner_balance value) invalid_parameter
    byb_balances ← make_stock_holder byb stock_holder_addr value
    receipts ←
        set_owner_and_stock_holder_balance byb stock_holder_addr byb_balances value owner_balance
    chromo ← first_chromo byb_balances
    pure (chromo, receipts ++ new_stock_holder_receipt stock_holder_addr byb_balances ∷ [])

  -- `delStockHolder`; a list of stock holders that is nil is an error of its own.
  unfoldable pub delete_holder : Bytes → Op (Unit {0})
  delete_holder stock_holder_addr = do
    found ← get_byb_stock_holders J B
    holders ← required low_level_error found
    left ← required byb_holder_not_found (without_holder stock_holder_addr holders)
    set_byb_stock_holders J B left

  -- `DelStockHolder`
  unfoldable pub del_stock_holder : TokenByb → Bytes → Op (List BybReceipt)
  unfolding delete_holder
  del_stock_holder byb stock_holder_addr = do
    fail_if (not (bytes_eq (byb.sender) (byb.owner))) no_authorization
    balance ← get_byb_balance J B stock_holder_addr
    fail_if (not (length balance == 0)) byb_owned_byb
    delete_holder stock_holder_addr
    pure (del_stock_holder_receipt stock_holder_addr ∷ [])
