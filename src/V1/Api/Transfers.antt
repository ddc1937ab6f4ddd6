-- ===== src/V1/Api/Transfers.antt =====
-- What `transferToken` of abciapp_v1.0/contract/smcapi/smcapi.go does to balances and receipts.
use bcbchain.Base.{
  Bytes, bytes_eq, bytes_eq_iff, is_empty, false, List, [], ◌∷◌, ◌++◌, ◌≡◌, sym, ap, ◌∙◌,
  if◌then◌else◌, arith,
}
use bcbchain.Base.Int.{ℤ, pos, ◌+ℤ◌, ◌-ℤ◌, ◌≤ℤ◌, ltb_ℤ, leb_ℤ}
use bcbchain.V1.Keys.{has_slash}
use bcbchain.V1.Reply.{
  passed_guard, TxState, Op, done, ◌>>=◌, ◌>>◌, pure, fail_if, >>=_inversion, invalid_parameter,
  unsupport_trans_to_self, insufficient_balance,
}
use bcbchain.V1.Types.{StateJson}
use bcbchain.V1.State.{get_balance, set_balance}
use bcbchain.V1.Balances.{held, held-set_balance, get_balance_done}
use bcbchain.V1.Api.{TransferReceipt, take_from, give_to, transfer_token}

module _ (J : StateJson) where
  -- A read of a balance that is done gives the balance and changes nothing.
  read_then {ℓ} :
      {A : Type ℓ} (addr token : Bytes) (f : ℤ → Op A) (s s' : TxState) {a : A}
      → (get_balance J addr token >>= f) s ≡ (done a, s')
      → f (held J token addr s) s ≡ (done a, s')
  read_then addr token f s s' run =
      let (v, s₁, e, rest) = >>=_inversion (get_balance J addr token) f s run in
      let (value_eq, state_eq) = get_balance_done J addr token s s₁ v e in
      (λ i. f (sym value_eq i) (sym state_eq i)) ∙ rest

  -- If transferToken succeeds and the two addresses have no slash, the payer had the value,
  -- exactly one transfer receipt with the token, the accounts and the value is added, the payer
  -- has that much less, the payee that much more, and every other account what it had.
  pub held-transfer_token :
      (token from to : Bytes) (value : ℤ) (receipts receipts' : List TransferReceipt)
      (s s' : TxState)
      → transfer_token J token from to value receipts s ≡ (done receipts', s')
      → has_slash from ≡ false
      → has_slash to ≡ false
      → (value ≤ℤ held J token from s)
        × (receipts'
            ≡ receipts ++ record { token = token; from = from; to = to; value = value } ∷ [])
        × ((b : Bytes)
            → held J token b s' ≡ (
                if bytes_eq from b
                then held J token from s -ℤ value
                else if bytes_eq to b
                then held J token to s +ℤ value
                else held J token b s))
  unfolding transfer_token
  held-transfer_token token from to value receipts receipts' s s' run base58 base58' =
      let credit = get_balance J to token >>= give_to J token from to value receipts in
      let debit = get_balance J from token >>= take_from J token from value in
      let (positive, r₁) =
        passed_guard (leb_ℤ value (pos 0)) invalid_parameter
          (fail_if (bytes_eq from to) unsupport_trans_to_self
            >> (fail_if (is_empty token) invalid_parameter >> (debit >> credit)))
          s s' run in
      let (different, r₂) =
        passed_guard (bytes_eq from to) unsupport_trans_to_self
          (fail_if (is_empty token) invalid_parameter >> (debit >> credit)) s s' r₁ in
      let (named, r₃) = passed_guard (is_empty token) invalid_parameter (debit >> credit) s s' r₂ in
      let (u, s₁, paid, got) = >>=_inversion debit (λ _. credit) s r₃ in
      let paid' = read_then from token (take_from J token from value) s s₁ paid in
      let old = held J token from s in
      let (enough, taken) =
        passed_guard (ltb_ℤ old value) insufficient_balance
          (set_balance J from token (old -ℤ value)) s s₁ paid' in
      let left = held-set_balance J from token (old -ℤ value) s s₁ taken base58 in
      let got' = read_then to token (give_to J token from to value receipts) s₁ s' got in
      let more = held J token to s₁ +ℤ value in
      let receipt : TransferReceipt = record {
        token = token;
        from = from;
        to = to;
        value = value;
      } in
      let (u₂, s₂, given, last) =
        >>=_inversion (set_balance J to token more) (λ _. pure (receipts ++ receipt ∷ [])) s₁
          got' in
      let reached = held-set_balance J to token more s₁ s₂ given base58' in
      let end : s₂ ≡ s' = ap (λ r. r.1) last in
      let stored : receipts ++ receipt ∷ [] ≡ receipts' = cc in
      (
        ground (arith, enough),
        sym stored,
        λ b.
            ap (held J token b) (sym end)
            ∙ ground (
              arith,
              reached b,
              left b,
              left to,
              different,
              bytes_eq_iff from b,
              bytes_eq_iff from to,
              bytes_eq_iff to b,
            ),
      )
