-- ===== src/V1/Byb/Store.antt =====
-- abciapp_v1.0/contract/tokenbyb/statedb.go and `checkAddress`: what the BYB contract keeps. A
-- `string` slice that is nil is none.
use bcbchain.Base.{
  Bytes, codes, bytes_eq, is_empty, Bool, false, ◌||◌, Option, none, some, List, [], ◌∷◌, ◌++◌, ◌≡◌,
  if◌then◌else◌,
}
use bcbchain.V1.Reply.{Op, ◌>>=◌, ◌>>◌, pure, decoded, done}
use bcbchain.V1.Types.{StateJson, IssueToken}
use bcbchain.Helper.Keys.{key_of_account}
use bcbchain.V1.Keys.{key_of_token}
use bcbchain.V1.State.{get, set, load, add_child_key, set_balance}
use bcbchain.V1.Byb.Chromos.{BybBalance, calc_total_balance}

abbrev pub key_of_black_hole : Bytes
key_of_black_hole = codes "/byb/blackholes"

abbrev pub key_of_stockholders : Bytes
key_of_stockholders = codes "/byb/stockholders"

abbrev pub key_of_cur_chromo : Bytes
key_of_cur_chromo = codes "/byb/curchromo"

-- `keyOfAccount(addr) + "/byb"`
unfoldable pub key_of_byb : Bytes → Bytes
unfolding key_of_account
key_of_byb addr = key_of_account addr ++ codes "/byb"

-- encoding/json's encodings of the contract's values.
pub record BybJson : Type 0 where
  pub encode_byb : List BybBalance → Bytes
  pub decode_byb : Bytes → Option (List BybBalance)
  pub encode_addresses : List Bytes → Bytes
  pub decode_addresses : Bytes → Option (Option (List Bytes))
  pub decode_byb-encode_byb : (l : List BybBalance) → decode_byb (encode_byb l) ≡ some l
  pub encode_byb_nonempty : (l : List BybBalance) → is_empty (encode_byb l) ≡ false
  pub decode_addresses-encode_addresses :
      (l : List Bytes) → decode_addresses (encode_addresses l) ≡ some (some l)
  pub encode_addresses_nonempty : (l : List Bytes) → is_empty (encode_addresses l) ≡ false

-- The fields of `TokenByb` and of the `SmcApi` in it that the contract uses: `Sender.Addr`,
-- `Owner.Addr`, `ContractAcct.Addr`, `*ContractAddr` and `State.ContractAddress`.
pub record TokenByb : Type 0 where
  pub sender : Bytes
  pub owner : Bytes
  pub contract_acct : Bytes
  pub contract_addr : Bytes
  pub contract_address : Bytes

pub data AddressRole : Type 0 where
  committee stock_holder hole user : AddressRole

abbrev pub slice_of : Option (List Bytes) → List Bytes
slice_of none = []
slice_of (some l) = l

-- A search through a slice of addresses.
unfoldable pub has_address : Bytes → List Bytes → Bool
has_address addr [] = false
has_address addr (a ∷ l) = bytes_eq addr a || has_address addr l

module _ (J : StateJson) (B : BybJson) where
  open B use {encode_byb, decode_byb, encode_addresses, decode_addresses}

  -- `setBlackHole`
  unfoldable pub set_black_hole : List Bytes → Op (Unit {0})
  set_black_hole black_holes = set key_of_black_hole (encode_addresses black_holes)

  -- `getBlackHole`
  unfoldable pub get_black_hole : Op (Option (List Bytes))
  get_black_hole s =
      let value = get key_of_black_hole s in
      if is_empty value then (done none, s) else decoded (decode_addresses value) s

  -- The registration of an account's first amounts.
  unfoldable pub register_byb : Bytes → Op (Unit {0})
  register_byb addr s =
      if is_empty (get (key_of_byb addr) s)
      then add_child_key J (key_of_account addr) (key_of_byb addr) s
      else (done tt, s)

  -- `setBybBalance`: the amounts, and their total as the account's balance.
  unfoldable pub set_byb_balance : TokenByb → Bytes → List BybBalance → Op (Unit {0})
  set_byb_balance byb addr balances = do
    register_byb addr
    set (key_of_byb addr) (encode_byb balances)
    set_balance J addr (byb.contract_address) (calc_total_balance balances)

  -- `getBybBalance`
  unfoldable pub get_byb_balance : Bytes → Op (List BybBalance)
  get_byb_balance addr s =
      let value = get (key_of_byb addr) s in
      if is_empty value then (done [], s) else decoded (decode_byb value) s

  -- `getBybStockHolders`
  unfoldable pub get_byb_stock_holders : Op (Option (List Bytes))
  get_byb_stock_holders s =
      let value = get key_of_stockholders s in
      if is_empty value then (done none, s) else decoded (decode_addresses value) s

  -- `setBybStockHolders`
  unfoldable pub set_byb_stock_holders : List Bytes → Op (Unit {0})
  set_byb_stock_holders stock_holders = set key_of_stockholders (encode_addresses stock_holders)

  -- `setCurChromo` and `getCurChromo`, which cannot fail
  unfoldable pub set_cur_chromo : Bytes → Op (Unit {0})
  set_cur_chromo chromo = set key_of_cur_chromo chromo

  unfoldable pub get_cur_chromo : Op Bytes
  get_cur_chromo s = (done (get key_of_cur_chromo s), s)

  -- `StateDB.GetToken`: it does not look at the Tx.
  unfoldable pub get_db_token : Bytes → Op (Option IssueToken)
  get_db_token contract_addr s =
      load (StateJson.decode_token J) (s.state_db (key_of_token contract_addr)) s

  -- `checkAddress`
  unfoldable pub check_address : TokenByb → Bytes → Op AddressRole
  check_address byb addr =
      if bytes_eq addr (byb.owner)
        || (bytes_eq addr (byb.contract_acct) || bytes_eq addr (byb.contract_addr))
      then pure committee
      else (do
        black_holes ← get_black_hole
        if has_address addr (slice_of black_holes) then pure hole else (do
          stock_holders ← get_byb_stock_holders
          if has_address addr (slice_of stock_holders) then pure stock_holder else pure user))
