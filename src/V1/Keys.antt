-- ===== src/V1/Keys.antt =====
-- abciapp_v1.0/statedb/statedbkey.go: the keys of tokens, contracts and reward strategies. The keys
-- of accounts are those of common/statedbhelper/statedbkey.go.
use mathlib.Core.List.{append_cancel_left}
use bcbchain.Base.{
  Bytes, codes, bytes_eq, bytes_ne, ◌+◌, Bool, true, false, ◌∷◌, [], ◌++◌, map, ◌≡◌, refl, ◌&&◌,
  ◌||◌, ◌==◌, leb, if◌then◌else◌, arith,
}
use bcbchain.Helper.Keys.{key_of_account, key_of_account_token}

abbrev pub key_of_genesis_token : Bytes
key_of_genesis_token = codes "/genesis/token"

abbrev pub key_of_token_all : Bytes
key_of_token_all = codes "/token/all/0"

abbrev pub key_of_contract_all : Bytes
key_of_contract_all = codes "/contract/all/0"

abbrev pub key_of_world_app_state : Bytes
key_of_world_app_state = codes "/world/appstate"

abbrev pub key_of_reward_strategys : Bytes
key_of_reward_strategys = codes "/rewardstrategys"

abbrev pub key_of_token_base_gas_price : Bytes
key_of_token_base_gas_price = codes "/token/basegasprice"

unfoldable pub key_of_contract : Bytes → Bytes
key_of_contract contract_addr = codes "/contract/" ++ contract_addr

unfoldable pub key_of_token : Bytes → Bytes
key_of_token contract_addr = codes "/token/" ++ contract_addr

unfoldable pub key_of_account_contracts : Bytes → Bytes
key_of_account_contracts ex_address = (codes "/account/ex/" ++ ex_address) ++ codes "/contracts"

-- `strings.ToLower` on ASCII: the names and symbols of tokens.
unfoldable pub to_lower : Bytes → Bytes
to_lower = map (λ c. if leb 65 c && leb c 90 then c + 32 else c)

unfoldable pub key_of_token_name : Bytes → Bytes
key_of_token_name name = codes "/token/name/" ++ to_lower name

unfoldable pub key_of_token_symbol : Bytes → Bytes
key_of_token_symbol symbol = codes "/token/symbol/" ++ to_lower symbol

-- Whether a text has a slash (byte 47). An address, in base 58, has none.
unfoldable pub has_slash : Bytes → Bool
has_slash [] = false
has_slash (c ∷ a) = c == 47 || has_slash a

has_slash-append : (a b : Bytes) → has_slash (a ++ 47 ∷ b) ≡ true
unfolding has_slash
has_slash-append [] b = refl
has_slash-append (c ∷ a) b = ground (arith, has_slash-append a b)

-- An account's list of keys is not a token's balance.
pub account_ne_token :
    (a b token : Bytes)
    → has_slash a ≡ false
    → bytes_eq (key_of_account a) (key_of_account_token b token) ≡ false
unfolding key_of_account key_of_account_token
account_ne_token a b token h = bytes_ne (key_of_account a) (key_of_account_token b token) λ e.
    let shape : a ≡ b ++ (codes "/token/" ++ token) =
      append_cancel_left (codes "/account/ex/") a _ e in
    absurd (ground (arith, has_slash-append b (codes "token/" ++ token)))

-- A token's key is not one with a further slash: the list of all tokens, a name or a symbol.
pub token_ne_slashed :
    (addr a b : Bytes)
    → has_slash addr ≡ false
    → bytes_eq (codes "/token/" ++ (a ++ 47 ∷ b)) (key_of_token addr) ≡ false
unfolding key_of_token
token_ne_slashed addr a b h = bytes_ne (codes "/token/" ++ (a ++ 47 ∷ b)) (key_of_token addr) λ e.
    let shape : a ++ 47 ∷ b ≡ addr = append_cancel_left (codes "/token/") (a ++ 47 ∷ b) addr e in
    absurd (ground (arith, has_slash-append a b))
