-- ===== src/V1/Token/Batch.antt =====
-- What `BatchTransfer` of abciapp_v1.0/contract/tokentemplet/tokentemplet.go does to the balances.
use bcbchain.Base.{
  Bytes, bytes_eq, bytes_eq_iff, ℕ, suc, false, Option, none, some, List, [], ◌∷◌, ◌≡◌, refl, sym,
  ap, subst, ◌∙◌, bytes_eq→eq, length, All, if◌then◌else◌, arith, Bool-cases, inl, inr, ltb,
}
use bcbchain.Base.Int.{ℤ, pos, ◌+ℤ◌, ◌-ℤ◌, ◌≤ℤ◌, ltb_ℤ, +ℤ_parts, eq_of_parts}
use bcbchain.V1.Keys.{has_slash}
use bcbchain.V1.Reply.{
  passed_guard, TxState, Op, done, ◌>>=◌, ◌>>◌, fail_if, >>=_inversion, decoded, invalid_parameter,
  unsupport_trans_to_self, out_of_range,
}
use bcbchain.V1.Types.{StateJson}
use bcbchain.V1.Context.{InvokeContext}
use bcbchain.V1.Token.{
  pay, receive, receive_all, batch_transfer, scale, BigNumber, max_accounts_for_batch,
}
use bcbchain.V1.Token.Transfers.{has, held-pay, held-receive}

-- How often an account is in a list of receivers.
unfoldable pub count : Bytes → List Bytes → ℕ
count b [] = 0
count b (a ∷ l) = let rest = count b l in if bytes_eq a b then suc rest else rest

+ℤ_zero : (a : ℤ) → a +ℤ pos 0 ≡ a
+ℤ_zero a = ground (arith, +ℤ_parts a (pos 0), eq_of_parts (a +ℤ pos 0) a)

+ℤ_assoc : (a b c : ℤ) → (a +ℤ b) +ℤ c ≡ a +ℤ (b +ℤ c)
+ℤ_assoc a b c = ground (
  arith,
  +ℤ_parts a b,
  +ℤ_parts (a +ℤ b) c,
  +ℤ_parts b c,
  +ℤ_parts a (b +ℤ c),
  eq_of_parts ((a +ℤ b) +ℤ c) (a +ℤ (b +ℤ c)),
)

-- Inversion of a result that must be there.
decoded_inversion :
    (o : Option ℤ) (f : ℤ → Op (Unit {0})) (s s' : TxState) {u : Unit {0}}
    → (decoded o >>= f) s ≡ (done u, s')
    → (a : ℤ) × (o ≡ some a) × (f a s ≡ (done u, s'))
decoded_inversion none f s s' run = cc
decoded_inversion (some a) f s s' run = (a, refl, run)

module _ (J : StateJson) (ctx : InvokeContext) where
  -- Each account of the list receives as often as it stands there; the sender is not among them.
  held-receive_all :
      (to_list : List Bytes) (value : ℤ) (s s' : TxState) {u : Unit {0}}
      → receive_all J ctx to_list value s ≡ (done u, s')
      → All (λ to. has_slash to ≡ false) to_list
      → (count (ctx.sender) to_list ≡ 0)
        × ((b : Bytes) → has J ctx b s' ≡ has J ctx b s +ℤ scale (count b to_list) value)
  unfolding receive_all count scale
  held-receive_all [] value s s' run base58 =
      (refl, λ b. ap (λ r. has J ctx b (r.1)) (sym run) ∙ sym (+ℤ_zero (has J ctx b s)))
  held-receive_all (to ∷ to_list) value s s' run (slash, rest) =
      let others = receive_all J ctx to_list value in
      let (different, r₁) =
        passed_guard (bytes_eq (ctx.sender) to) unsupport_trans_to_self
          (receive J ctx to value >> others) s s' run in
      let (u, s₁, received, r₂) = >>=_inversion (receive J ctx to value) (λ _. others) s r₁ in
      let (absent, later) = held-receive_all to_list value s₁ s' r₂ rest in
      (
        ground (arith, bytes_eq_iff (ctx.sender) to, bytes_eq_iff to (ctx.sender)),
        λ b. ground (
          arith,
          later b,
          held-receive J ctx to value s s₁ received slash b,
          bytes_eq_iff to b,
          +ℤ_assoc (has J ctx b s) value (scale (count b to_list) value),
        ),
      )

  -- The sender's own count is 0, so that it only pays.
  credited :
      (to_list : List Bytes) (value : ℤ) (s s₁ : TxState) (b : Bytes) (sum : ℤ)
      → count (ctx.sender) to_list ≡ 0
      → sum ≡ scale (length to_list) value
      → has J ctx b s₁
        ≡ (if bytes_eq (ctx.sender) b then has J ctx (ctx.sender) s -ℤ sum else has J ctx b s)
      → has J ctx b s₁ +ℤ scale (count b to_list) value ≡ (
          if bytes_eq (ctx.sender) b
          then has J ctx b s -ℤ scale (length to_list) value
          else has J ctx b s +ℤ scale (count b to_list) value)
  unfolding scale
  credited to_list value s s₁ b sum absent total left =
      elim (Bool-cases (bytes_eq (ctx.sender) b)) [
        | inl same ↦
            let e = bytes_eq→eq (ctx.sender) b same in
            rw (left, same, sym e, absent, scale, total)
              (+ℤ_zero (has J ctx (ctx.sender) s -ℤ scale (length to_list) value))
        | inr other ↦ rw (left, other) refl
      ]

  -- If BatchTransfer succeeds and the addresses have no slash, the sender had the value once for
  -- each entry of the list and has lost exactly that, and every other account has got the value
  -- as often as it stands in the list, 0 times for an account outside it.
  pub held-batch_transfer :
      (B : BigNumber) (to_list : List Bytes) (value : ℤ) (s s' : TxState)
      → batch_transfer J B ctx to_list value s ≡ (done tt, s')
      → has_slash (ctx.sender) ≡ false
      → All (λ to. has_slash to ≡ false) to_list
      → (scale (length to_list) value ≤ℤ has J ctx (ctx.sender) s)
        × ((b : Bytes)
            → has J ctx b s' ≡ (
                if bytes_eq (ctx.sender) b
                then has J ctx b s -ℤ scale (length to_list) value
                else has J ctx b s +ℤ scale (count b to_list) value))
  unfolding batch_transfer scale
  held-batch_transfer B to_list value s s' run base58 slashes =
      let sender = ctx.sender in
      let product = BigNumber.multi B value (length to_list) in
      let move : ℤ → Op (Unit {0}) =
        λ sum. pay J ctx sender sum >> receive_all J ctx to_list value in
      let checked : ℤ → Op (Unit {0}) = λ sum. fail_if (ltb_ℤ sum value) out_of_range >> move sum in
      let short = ltb max_accounts_for_batch (length to_list) in
      let (positive, r₁) =
        passed_guard (ltb_ℤ value (pos 0)) invalid_parameter
          (fail_if short out_of_range >> (decoded product >>= checked)) s s' run in
      let (few, r₂) = passed_guard short out_of_range (decoded product >>= checked) s s' r₁ in
      let (sum, is_product, r₃) = decoded_inversion product checked s s' r₂ in
      let (big, r₄) = passed_guard (ltb_ℤ sum value) out_of_range (move sum) s s' r₃ in
      let (u, s₁, paid, received) =
        >>=_inversion (pay J ctx sender sum) (λ _. receive_all J ctx to_list value) s r₄ in
      let (enough, left) = held-pay J ctx sender sum s s₁ paid base58 in
      let (absent, got) = held-receive_all to_list value s₁ s' received slashes in
      let total : sum ≡ scale (length to_list) value =
        BigNumber.multi-eq-some B value (length to_list) sum is_product in
      (
        subst (λ x. x ≤ℤ has J ctx sender s) total enough,
        λ b. got b ∙ credited to_list value s s₁ b sum absent total (left b),
      )
