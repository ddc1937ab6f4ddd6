-- ===== src/Helper/Keys.antt =====
-- common/statedbhelper/statedbkey.go: the keys of the accounts.
use mathlib.Core.List.{append_cancel_left, append_cancel_right}
use bcbchain.Base.{Bytes, codes, ◌≡◌, ◌++◌}

abbrev pub key_of_reward_strategy : Bytes
key_of_reward_strategy = codes "/rewardstrategys"

unfoldable pub key_of_account : Bytes → Bytes
key_of_account ex_address = codes "/account/ex/" ++ ex_address

unfoldable pub key_of_account_nonce : Bytes → Bytes
key_of_account_nonce ex_address = (codes "/account/ex/" ++ ex_address) ++ codes "/account"

unfoldable pub key_of_account_token : Bytes → Bytes → Bytes
key_of_account_token ex_address contract_addr =
    (codes "/account/ex/" ++ ex_address) ++ (codes "/token/" ++ contract_addr)

module _ (a b : Bytes) where
  pub key_of_account_nonce_injective : key_of_account_nonce a ≡ key_of_account_nonce b → a ≡ b
  unfolding key_of_account_nonce
  key_of_account_nonce_injective e =
      append_cancel_left (codes "/account/ex/") a b (append_cancel_right _ _ (codes "/account") e)

  -- Two accounts never share the key of one token.
  pub key_of_account_token_injective :
      (token : Bytes) → key_of_account_token a token ≡ key_of_account_token b token → a ≡ b
  unfolding key_of_account_token
  key_of_account_token_injective token e =
      append_cancel_left (codes "/account/ex/") a b
        (append_cancel_right _ _ (codes "/token/" ++ token) e)

  -- An account's tokens have keys of their own.
  pub key_of_account_token_injective_token :
      (account : Bytes) → key_of_account_token account a ≡ key_of_account_token account b → a ≡ b
  unfolding key_of_account_token
  key_of_account_token_injective_token account e =
      append_cancel_left (codes "/token/") a b
        (append_cancel_left (codes "/account/ex/" ++ account) _ _ e)
