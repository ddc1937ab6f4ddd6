-- ===== src/V1/Balances.antt =====
-- The balances that abciapp_v1.0/contract/contract.go reads, and what `SetBalance` does to them.
use bcbchain.Base.{
  Bytes, bytes_eq, bytes_eq_iff, bytes_ne, is_empty, false, Option, none, some, ◌≡◌, refl, sym, ap,
  ◌∙◌, if◌then◌else◌, arith, Bool-cases, Option-cases, inl, inr,
}
use bcbchain.Base.Int.{ℤ, pos}
use bcbchain.Helper.Keys.{key_of_account, key_of_account_token, key_of_account_token_injective}
use bcbchain.V1.Keys.{has_slash, account_ne_token}
use bcbchain.V1.Reply.{TxState, done, ignore_error, decoded, >>=_inversion}
use bcbchain.V1.Types.{StateJson}
use bcbchain.V1.State.{get, set, get_balance, set_balance, register_balance}
use bcbchain.V1.Context.{balance}
use bcbchain.V1.Frame.{Keeps, set-Keeps, get-set, >>=-Keeps, add_child_key-Keeps}

abbrev or_zero : Option ℤ → ℤ
or_zero none = pos 0
or_zero (some v) = v

decoded-or_zero :
    (o : Option ℤ) (s : TxState) → ignore_error (pos 0) (decoded o) s ≡ (done (or_zero o), s)
decoded-or_zero none s = refl
decoded-or_zero (some v) s = refl

module _ (J : StateJson) where
  open J use {
    encode_balance, decode_balance, decode_balance-encode_balance, encode_balance_nonempty,
  }

  -- The balance that a stored value stands for, 0 where there is none.
  unfoldable pub amount : Bytes → ℤ
  amount value = if is_empty value then pos 0 else or_zero (decode_balance value)

  -- What an account has of a token.
  unfoldable pub held : Bytes → Bytes → TxState → ℤ
  held token addr s = amount (get (key_of_account_token addr token) s)

  -- A read of a balance cannot fail, and changes nothing.
  pub balance-eq-held :
      (addr token : Bytes) (s : TxState) → balance J addr token s ≡ (done (held token addr s), s)
  unfolding balance get_balance held amount
  balance-eq-held addr token s =
      elim (Bool-cases (is_empty (get (key_of_account_token addr token) s))) [
        | inl e ↦ rw (e, balance, amount) refl
        | inr e ↦
            rw (e, amount)
              (decoded-or_zero (decode_balance (get (key_of_account_token addr token) s)) s)
      ]

  -- A read that reports no error gives the balance.
  pub get_balance_done :
      (addr token : Bytes) (s s' : TxState) (v : ℤ)
      → get_balance J addr token s ≡ (done v, s')
      → (v ≡ held token addr s) × (s' ≡ s)
  unfolding get_balance held amount
  get_balance_done addr token s s' v run =
      elim (Bool-cases (is_empty (get (key_of_account_token addr token) s))) [
        | inl e ↦ ground (arith, e)
        | inr e ↦ elim (Option-cases (decode_balance (get (key_of_account_token addr token) s))) [
          | inl none' ↦ absurd (ground (arith, e, none'))
          | inr (w, some') ↦ ground (arith, e, some')
        ]
      ]

  register_balance-Keeps :
      (addr token k : Bytes)
      → bytes_eq (key_of_account addr) k ≡ false
      → Keeps k (register_balance J addr token)
  unfolding register_balance
  register_balance-Keeps addr token k other s =
      elim (Bool-cases (is_empty (get (key_of_account_token addr token) s))) [
        | inl e ↦ rw e (
            add_child_key-Keeps J (key_of_account addr) (key_of_account_token addr token) k other s)
        | inr e ↦ rw e refl
      ]

  -- `SetBalance` writes the list of the account's keys and the balance, nothing else.
  pub set_balance-Keeps :
      (addr token : Bytes) (v : ℤ) (k : Bytes)
      → bytes_eq (key_of_account addr) k ≡ false
      → bytes_eq (key_of_account_token addr token) k ≡ false
      → Keeps k (set_balance J addr token v)
  unfolding set_balance
  set_balance-Keeps addr token v k p q =
      >>=-Keeps k (register_balance J addr token) _ (register_balance-Keeps addr token k p)
        (λ _. set-Keeps (key_of_account_token addr token) (encode_balance token v) k q)

  held-set_own :
      (addr token : Bytes) (v : ℤ) (s s' : TxState) {b : Unit {0}}
      → set_balance J addr token v s ≡ (done b, s')
      → held token addr s' ≡ v
  unfolding set_balance held amount
  held-set_own addr token v s s' run =
      let (u, s₁, first, second) =
        >>=_inversion (register_balance J addr token)
          (λ _. set (key_of_account_token addr token) (encode_balance token v)) s run in
      rw
        (
          get-set (key_of_account_token addr token) (encode_balance token v) s₁ s' second
              (encode_balance_nonempty token v),
          amount,
          encode_balance_nonempty token v,
          decode_balance-encode_balance token v,
        )
        refl

  -- After `SetBalance` the account has the new amount, and every other account what it had.
  pub held-set_balance :
      (addr token : Bytes) (v : ℤ) (s s' : TxState) {u : Unit {0}}
      → set_balance J addr token v s ≡ (done u, s')
      → has_slash addr ≡ false
      → (b : Bytes) → held token b s' ≡ (if bytes_eq addr b then v else held token b s)
  unfolding held
  held-set_balance addr token v s s' run base58 b = elim (Bool-cases (bytes_eq addr b)) [
    | inl same ↦ ground (arith, bytes_eq_iff addr b, held-set_own addr token v s s' run)
    | inr other ↦ rw other (
        ap amount (
          ap (λ r. get (key_of_account_token b token) (r.1)) (sym run)
          ∙ set_balance-Keeps addr token v (key_of_account_token b token)
              (account_ne_token addr b token base58)
              (bytes_ne (key_of_account_token addr token) (key_of_account_token b token) λ e.
                ground (arith, bytes_eq_iff addr b, key_of_account_token_injective addr b token e))
              s))
  ]
