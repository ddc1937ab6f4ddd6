-- ===== src/V1/Token/Transfers.antt =====
-- What the transfers of abciapp_v1.0/contract/tokentemplet/tokentemplet.go do to the balances.
use bcbchain.Base.{
  Bytes, bytes_eq, bytes_eq_iff, ℕ, suc, false, List, [], ◌∷◌, ◌≡◌, sym, ap, ◌∙◌, if◌then◌else◌,
  arith,
}
use bcbchain.Base.Int.{ℤ, pos, ◌+ℤ◌, ◌-ℤ◌, ◌≤ℤ◌, ltb_ℤ, -ℤ_parts}
use bcbchain.V1.Keys.{has_slash}
use bcbchain.V1.Reply.{
  passed_guard, TxState, Op, done, ◌>>=◌, ◌>>◌, fail_if, >>=_inversion, continue,
  insufficient_balance, invalid_balance, invalid_parameter, unsupport_trans_to_self,
}
use bcbchain.V1.Types.{StateJson}
use bcbchain.V1.State.{set_balance}
use bcbchain.V1.Context.{InvokeContext, balance}
use bcbchain.V1.Balances.{held, balance-eq-held, held-set_balance}
use bcbchain.V1.Token.{pay, pay_from, receive, receive_to, transfer}

-- How often an account is in a list of receivers.
unfoldable pub count : Bytes → List Bytes → ℕ
count b [] = 0
count b (a ∷ l) = let rest = count b l in if bytes_eq a b then suc rest else rest

module _ (J : StateJson) (ctx : InvokeContext) where
  abbrev pub has : Bytes → TxState → ℤ
  has addr s = held J (ctx.contract_address) addr s

  pub balance_then :
      (addr : Bytes) (f : ℤ → Op (Unit {0})) (s s' : TxState) {u : Unit {0}}
      → (balance J addr (ctx.contract_address) >>= f) s ≡ (done u, s')
      → f (has addr s) s ≡ (done u, s')
  balance_then addr f s s' run =
      ap (λ r. continue (r.0) f (r.1)) (sym (balance-eq-held J addr (ctx.contract_address) s)) ∙ run

  pub held-pay :
      (from : Bytes) (value : ℤ) (s s' : TxState) {u : Unit {0}}
      → pay J ctx from value s ≡ (done u, s')
      → has_slash from ≡ false
      → (value ≤ℤ has from s)
        × ((b : Bytes) → has b s' ≡ (if bytes_eq from b then has from s -ℤ value else has b s))
  held-pay from value s s' run base58 =
      let new = has from s -ℤ value in
      let write = set_balance J from (ctx.contract_address) new in
      let r₁ = balance_then from (pay_from J ctx from value) s s' run in
      let (enough, r₂) =
        passed_guard (ltb_ℤ new (pos 0)) insufficient_balance
          (fail_if (ltb_ℤ (has from s) new) invalid_balance >> write) s s' r₁ in
      let (sound, r₃) = passed_guard (ltb_ℤ (has from s) new) invalid_balance write s s' r₂ in
      (
        ground (arith, -ℤ_parts (has from s) value, enough),
        held-set_balance J from (ctx.contract_address) new s s' r₃ base58,
      )

  pub held-receive :
      (to : Bytes) (value : ℤ) (s s' : TxState) {u : Unit {0}}
      → receive J ctx to value s ≡ (done u, s')
      → has_slash to ≡ false
      → (b : Bytes) → has b s' ≡ (if bytes_eq to b then has to s +ℤ value else has b s)
  held-receive to value s s' run base58 =
      let new = has to s +ℤ value in
      let r₁ = balance_then to (receive_to J ctx to value) s s' run in
      let (sound, r₂) =
        passed_guard (ltb_ℤ new (has to s)) invalid_balance
          (set_balance J to (ctx.contract_address) new) s s' r₁ in
      held-set_balance J to (ctx.contract_address) new s s' r₂ base58

  -- If Transfer succeeds and the two addresses have no slash, the value is not negative, the
  -- sender had it and is not the receiver; the sender has that much less, the receiver that much
  -- more, and every other account what it had.
  pub held-transfer :
      (to : Bytes) (value : ℤ) (s s' : TxState) {u : Unit {0}}
      → transfer J ctx to value s ≡ (done u, s')
      → has_slash (ctx.sender) ≡ false
      → has_slash to ≡ false
      → (pos 0 ≤ℤ value)
        × (value ≤ℤ has (ctx.sender) s)
        × (bytes_eq (ctx.sender) to ≡ false)
        × ((b : Bytes)
            → has b s' ≡ (
                if bytes_eq (ctx.sender) b
                then has (ctx.sender) s -ℤ value
                else if bytes_eq to b
                then has to s +ℤ value
                else has b s))
  unfolding transfer
  held-transfer to value s s' run base58 base58' =
      let sender = ctx.sender in
      let both = pay J ctx sender value >> receive J ctx to value in
      let (positive, r₁) =
        passed_guard (ltb_ℤ value (pos 0)) invalid_parameter
          (fail_if (bytes_eq sender to) unsupport_trans_to_self >> both) s s' run in
      let (different, r₂) =
        passed_guard (bytes_eq sender to) unsupport_trans_to_self both s s' r₁ in
      let (u, s₁, paid, received) =
        >>=_inversion (pay J ctx sender value) (λ _. receive J ctx to value) s r₂ in
      let (enough, left) = held-pay (ctx.sender) value s s₁ paid base58 in
      (
        ground arith,
        enough,
        different,
        λ b. ground (
          arith,
          held-receive to value s₁ s' received base58' b,
          left b,
          left to,
          different,
          bytes_eq_iff (ctx.sender) b,
          bytes_eq_iff (ctx.sender) to,
          bytes_eq_iff to b,
        ),
      )
