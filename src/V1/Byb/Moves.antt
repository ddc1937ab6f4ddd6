-- ===== src/V1/Byb/Moves.antt =====
-- What the transfers of abciapp_v1.0/contract/tokenbyb/tokenbyb.go do to the accounts.
use bcbchain.Base.{
  Bytes, ℕ, ◌+◌, ◌-◌, ◌≤◌, ◌<◌, Bool, true, false, not, List, [], ◌≡◌, inl, inr, refl, sym, ap,
  subst, ◌∙◌, All, arith, if◌then◌else◌, Bool-cases,
}
use bcbchain.Base.Int.{ℤ, pos, ◌-ℤ◌, ltb_ℤ, eqb_ℤ}
use bcbchain.V1.Reply.{
  TxState, Op, done, ◌>>=◌, ◌>>◌, pure, fail_if, continue, >>=_inversion, passed_guard,
  done_injective, invalid_parameter, insufficient_balance, invalid_balance,
}
use bcbchain.V1.Types.{StateJson}
use bcbchain.V1.Context.{required}
use bcbchain.V1.Byb.Chromos.{BybBalance, SafeMath, calc_total_balance, merged}
use bcbchain.V1.Byb.Store.{
  BybJson, TokenByb, AddressRole, committee, stock_holder, user, hole, get_byb_balance,
  set_byb_balance,
}
use bcbchain.V1.Byb.Payments.{
  paid_out, deduct_remainder, deduct_shares, calc_and_set_sender_balance,
}
use bcbchain.V1.Byb.Rounds.{NotNegative, units}
use bcbchain.V1.Byb.Entries.{calc_total_balance-eq, pos_sub}
use bcbchain.V1.Byb.Remainder.{HasUnits-NotNegative}
use bcbchain.V1.Byb.Merging.{IsDistinct, IsPayment, SecondRound, calc_transfer_byb_chromo-exact}
use bcbchain.V1.Byb.Stored.{Owns}

-- A payment out of a list of amounts: what is left, and what is paid.
pub record Paid (value : ℕ) (l left out : List BybBalance) : Type 0 where
  pub left_amounts : All NotNegative left
  pub out_amounts : All NotNegative out
  pub conserved : units left + value ≡ units l
  pub exact : units out ≡ value

paid_out-Paid :
    (role : AddressRole) (value : ℕ) (l left out : List BybBalance)
    → Paid value l left out
    → Paid value l left (paid_out role (pos value) out)
paid_out-Paid committee value l left out p = p
paid_out-Paid stock_holder value l left out p = p
paid_out-Paid user value l left out p = p
paid_out-Paid hole value l left out p = record {
  left_amounts = p.left_amounts;
  out_amounts = (refl, tt);
  conserved = p.conserved;
  exact = unfold units in omega arith;
}

-- The branch of an operation that was taken.
taken {ℓ} :
    {A : Type ℓ} (m k : Op A) (c : Bool) (s s' : TxState) {a : A}
    → c ≡ true
    → (if c then m else k) s ≡ (done a, s')
    → m s ≡ (done a, s')
taken m k true s s' e run = run
taken m k false s s' e run = cc

not_taken {ℓ} :
    {A : Type ℓ} (m k : Op A) (c : Bool) (s s' : TxState) {a : A}
    → c ≡ false
    → (if c then m else k) s ≡ (done a, s')
    → k s ≡ (done a, s')
not_taken m k true s s' e run = cc
not_taken m k false s s' e run = run

IsPayment-Paid :
    {value : ℕ} {l left out : List BybBalance} → IsPayment value l left out → Paid value l left out
IsPayment-Paid {left = left} {out = out} p = record {
  left_amounts = HasUnits-NotNegative left (p.left_units);
  out_amounts = HasUnits-NotNegative out (p.out_units);
  conserved = p.conserved;
  exact = p.exact;
}

module _ (J : StateJson) (B : BybJson) (M : SafeMath) (byb : TokenByb) where
  -- The sender's amounts are read, and the operation goes on with them.
  pub owned_then {ℓ} :
      {A : Type ℓ} (addr : Bytes) (l : List BybBalance) (f : List BybBalance → Op A) (s : TxState)
      → Owns J B addr l s
      → (get_byb_balance J B addr >>= f) s ≡ f l s
  owned_then addr l f s owns = ap (λ r. continue (r.0) f (r.1)) owns

  -- The sender's amounts are set to what is left, and nothing else happens.
  abbrev pub Leaves : ℕ → List BybBalance → List BybBalance → TxState → TxState → Type 0
  Leaves value l out s s' =
      (left : List BybBalance) × (set_byb_balance J B byb (byb.sender) left s ≡ (done tt, s'))
      × Paid value l left out

  write_then :
      (left out out' : List BybBalance) (s s' : TxState)
      → (set_byb_balance J B byb (byb.sender) left >> pure out') s ≡ (done out, s')
      → (set_byb_balance J B byb (byb.sender) left s ≡ (done tt, s')) × (out ≡ out')
  write_then left out out' s s' run =
      let (u, s₁, first, rest) =
        >>=_inversion (set_byb_balance J B byb (byb.sender) left) (λ _. pure out') s run in
      let (same, same') = done_injective out' out s₁ s' rest in
      (first ∙ ap (λ x. (done tt, x)) (sym same'), same)

  -- The second round sets the sender's amounts before its last check, which it passes.
  remainder_Leaves :
      (value : ℕ) (role : AddressRole) (ns pay l out : List BybBalance) (s s' : TxState)
      → deduct_remainder J B M byb (pos value) role (pos (value - units pay)) ns pay s
        ≡ (done out, s')
      → SecondRound M l value ns pay
      → Leaves value l out s s'
  unfolding deduct_remainder
  remainder_Leaves value role ns pay l out s s' run (ns', pay', second, exact, payment) =
      let rest : List BybBalance × List BybBalance → Op (List BybBalance) = λ r.
        set_byb_balance J B byb (byb.sender) (r.0)
        >> (fail_if (not (eqb_ℤ (pos (value - units pay) -ℤ calc_total_balance (r.1)) (pos 0)))
              invalid_balance
            >> pure (paid_out role (pos value) (merged pay (r.1)))) in
      let r₁ : rest (ns', pay') s ≡ (done out, s') =
        ap (λ o. (required invalid_balance o >>= rest) s) (sym second) ∙ run in
      let check = not (eqb_ℤ (pos (value - units pay) -ℤ calc_total_balance pay') (pos 0)) in
      let result = paid_out role (pos value) (merged pay pay') in
      let (u, s₁, write, r₂) =
        >>=_inversion (set_byb_balance J B byb (byb.sender) ns')
          (λ _. fail_if check invalid_balance >> pure result) s r₁ in
      let (ok, r₃) = passed_guard check invalid_balance (pure result) s₁ s' r₂ in
      let (same, same') = done_injective result out s₁ s' r₃ in
      (
        ns',
        write ∙ ap (λ x. (done tt, x)) (sym same'),
        rw same (paid_out-Paid role value l ns' (merged pay pay') (IsPayment-Paid payment)),
      )

  shares_Leaves :
      (value : ℕ) (role : AddressRole) (l out : List BybBalance) (s s' : TxState)
      → deduct_shares J B M byb (pos value) role l s ≡ (done out, s')
      → All NotNegative l
      → IsDistinct l
      → 0 < value
      → value ≤ units l
      → Leaves value l out s s'
  unfolding deduct_shares
  shares_Leaves value role l out s s' run h distinct hv le =
      let (ns, pay, first, paid, rounds) =
        calc_transfer_byb_chromo-exact M l value h distinct hv le in
      let rest : List BybBalance × List BybBalance → Op (List BybBalance) = λ r.
        if eqb_ℤ (pos value -ℤ calc_total_balance (r.1)) (pos 0)
        then (set_byb_balance J B byb (byb.sender) (r.0) >> pure (paid_out role (pos value) (r.1)))
        else deduct_remainder J B M byb (pos value) role (pos value -ℤ calc_total_balance (r.1))
            (r.0) (r.1) in
      let r₁ : rest (ns, pay) s ≡ (done out, s') =
        ap (λ o. (required invalid_balance o >>= rest) s) (sym first) ∙ run in
      let total : calc_total_balance pay ≡ pos (units pay) =
        calc_total_balance-eq pay (HasUnits-NotNegative pay paid) in
      let both = set_byb_balance J B byb (byb.sender) ns >> pure (paid_out role (pos value) pay) in
      let finish : ℤ → Op (List BybBalance) = λ x.
        if eqb_ℤ x (pos 0) then both else deduct_remainder J B M byb (pos value) role x ns pay in
      let bounded : units pay ≤ value = elim rounds [
        | inl payment ↦ omega (arith, payment.exact)
        | inr (less, _) ↦ omega arith
      ] in
      let surplus : pos value -ℤ calc_total_balance pay ≡ pos (value - units pay) =
        ap (λ t. pos value -ℤ t) total ∙ pos_sub value (units pay) bounded in
      let r₂ : finish (pos (value - units pay)) s ≡ (done out, s') =
        subst (λ x. finish x s ≡ (done out, s')) surplus r₁ in
      elim rounds [
        | inl payment ↦
            let r₃ =
              taken both
                (deduct_remainder J B M byb (pos value) role (pos (value - units pay)) ns pay)
                (eqb_ℤ (pos (value - units pay)) (pos 0)) s s' (ground (arith, payment.exact)) r₂ in
            let (write, same) = write_then ns out (paid_out role (pos value) pay) s s' r₃ in
            (ns, write, rw same (paid_out-Paid role value l ns pay (IsPayment-Paid payment)))
        | inr (less, second) ↦
            let r₃ =
              not_taken both
                (deduct_remainder J B M byb (pos value) role (pos (value - units pay)) ns pay)
                (eqb_ℤ (pos (value - units pay)) (pos 0)) s s' (ground arith) r₂ in
            remainder_Leaves value role ns pay l out s s' r₃ second
      ]

  -- calcAndSetSenderBalance sets the sender's amounts to what is left, and gives amounts that come to
  -- the value.
  pub calc_and_set_Leaves :
      (value : ℕ) (role : AddressRole) (l out : List BybBalance) (s s' : TxState)
      → calc_and_set_sender_balance J B M byb (pos value) role s ≡ (done out, s')
      → Owns J B (byb.sender) l s
      → All NotNegative l
      → IsDistinct l
      → (0 < value) × (value ≤ units l) × Leaves value l out s s'
  unfolding calc_and_set_sender_balance
  calc_and_set_Leaves value role l out s s' run owns h distinct =
      let rest : List BybBalance → Op (List BybBalance) = λ sender_byb.
        fail_if (ltb_ℤ (calc_total_balance sender_byb) (pos value)) insufficient_balance
        >> (if eqb_ℤ (calc_total_balance sender_byb) (pos value)
            then (set_byb_balance J B byb (byb.sender) []
                >> pure (paid_out role (pos value) sender_byb))
            else deduct_shares J B M byb (pos value) role sender_byb) in
      let (nonzero, r₁) =
        passed_guard (eqb_ℤ (pos value) (pos 0)) invalid_parameter
          (get_byb_balance J B (byb.sender) >>= rest) s s' run in
      let r₂ : rest l s ≡ (done out, s') = sym (owned_then (byb.sender) l rest s owns) ∙ r₁ in
      let total = calc_total_balance-eq l h in
      let all = set_byb_balance J B byb (byb.sender) [] >> pure (paid_out role (pos value) l) in
      let some' = deduct_shares J B M byb (pos value) role l in
      let (enough, r₃) =
        passed_guard (ltb_ℤ (calc_total_balance l) (pos value)) insufficient_balance
          (if eqb_ℤ (calc_total_balance l) (pos value) then all else some') s s' r₂ in
      let enough' : ltb_ℤ (pos (units l)) (pos value) ≡ false =
        subst (λ x. ltb_ℤ x (pos value) ≡ false) total enough in
      let positive : 0 < value = ground arith in
      let le : value ≤ units l = ground arith in
      (
        positive,
        le,
        elim (Bool-cases (eqb_ℤ (calc_total_balance l) (pos value))) [
          | inl e ↦
              let same : units l ≡ value =
                ground (arith, subst (λ x. eqb_ℤ x (pos value) ≡ true) total e) in
              let (write, result) =
                write_then [] out (paid_out role (pos value) l) s s'
                  (taken all some' (eqb_ℤ (calc_total_balance l) (pos value)) s s' e r₃) in
              (
                [],
                write,
                rw result (
                    paid_out-Paid role value l [] l (record {
                      left_amounts = tt;
                      out_amounts = h;
                      conserved = unfold units in omega (arith, same);
                      exact = same;
                    })),
              )
          | inr e ↦
              shares_Leaves value role l out s s'
                (not_taken all some' (eqb_ℤ (calc_total_balance l) (pos value)) s s' e r₃) h
                distinct positive le
        ],
      )
