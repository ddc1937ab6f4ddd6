-- ===== src/V1/Byb/Transfers.antt =====
-- What `Transfer` of abciapp_v1.0/contract/tokenbyb/tokenbyb.go does to the balances.
use bcbchain.Base.{
  Bytes, bytes_eq, bytes_eq_iff, ℕ, ◌+◌, ◌-◌, ◌≤◌, false, ◌||◌, List, ◌≡◌, sym, ap, subst, ◌∙◌, All,
  arith, if◌then◌else◌,
}
use bcbchain.Base.Int.{ℤ, pos, pos_part, ◌+ℤ◌, ◌-ℤ◌, ◌≤ℤ◌, leb_ℤ}
use bcbchain.V1.Keys.{has_slash}
use bcbchain.V1.Reply.{
  TxState, Op, done, ◌>>=◌, ◌>>◌, pure, fail_if, >>=_inversion, passed_guard, done_injective,
  invalid_parameter, unsupport_trans_to_self,
}
use bcbchain.V1.Types.{StateJson}
use bcbchain.V1.Balances.{held}
use bcbchain.V1.Byb.Chromos.{BybBalance, SafeMath, calc_total_balance, payee_balance}
use bcbchain.V1.Byb.Store.{BybJson, TokenByb, AddressRole, check_address, set_byb_balance}
use bcbchain.V1.Byb.Receipts.{BybReceipt, on_transfer}
use bcbchain.V1.Byb.Payments.{
  is_stock_holder, is_committee, calc_and_set_sender_balance, set_payee_balance, transfer,
}
use bcbchain.V1.Byb.Rounds.{NotNegative, units}
use bcbchain.V1.Byb.Entries.{calc_total_balance-eq, pos_sub, pos_add}
use bcbchain.V1.Byb.Merging.{IsDistinct}
use bcbchain.V1.Byb.Payees.{units-payee_balance}
use bcbchain.V1.Byb.Stored.{Owns, Owns-kept, set_byb_balance_done, check_address-Reads}
use bcbchain.V1.Byb.Moves.{owned_then, calc_and_set_Leaves}

both_moves :
    (sender to b : Bytes) (v v₁ v₂ left left' more more' : ℤ)
    → bytes_eq sender to ≡ false
    → v₁ ≡ (if bytes_eq sender b then left else v)
    → v₂ ≡ (if bytes_eq to b then more else v₁)
    → left ≡ left'
    → more ≡ more'
    → v₂ ≡ (if bytes_eq sender b then left' else if bytes_eq to b then more' else v)
both_moves sender to b v v₁ v₂ left left' more more' other e e' p q =
    ground (arith, bytes_eq_iff sender to, bytes_eq_iff sender b, bytes_eq_iff to b)

minus : (a b c : ℕ) → a + b ≡ c → a ≡ c - b
minus a b c h = omega arith

module _ (J : StateJson) (B : BybJson) (M : SafeMath) (byb : TokenByb) where
  abbrev pub has : Bytes → TxState → ℤ
  has b s = held J (byb.contract_address) b s

  -- setPayeeBalance adds to the payee's balance what the paid amounts come to.
  pub held-set_payee_balance :
      (to : Bytes) (out m : List BybBalance) (s s' : TxState) {u : Unit {0}}
      → set_payee_balance J B byb to out s ≡ (done u, s')
      → Owns J B to m s
      → All NotNegative m
      → All NotNegative out
      → has_slash to ≡ false
      → (b : Bytes) → has b s' ≡ (if bytes_eq to b then pos (units m + units out) else has b s)
  unfolding set_payee_balance
  held-set_payee_balance to out m s s' run owns h h' base58 b =
      let store : List BybBalance → Op (Unit {0}) =
        λ old. set_byb_balance J B byb to (payee_balance old out) in
      let r₁ : store m s ≡ (done tt, s') = sym (owned_then J B M byb to m store s owns) ∙ run in
      let (owned, total) = set_byb_balance_done J B byb to (payee_balance m out) s s' r₁ base58 in
      let (all, sum, each) = units-payee_balance m out h h' in
      total b
      ∙ ap (λ v. if bytes_eq to b then v else has b s)
          (calc_total_balance-eq (payee_balance m out) all ∙ ap pos sum)

  -- An address's role, read before a test of it and the rest.
  role_then {ℓ} :
      {A : Type ℓ} (addr : Bytes) (f : AddressRole → Op A) (s s' : TxState) {a : A}
      → (check_address J B byb addr >>= f) s ≡ (done a, s')
      → (role : AddressRole) × (f role s ≡ (done a, s'))
  role_then addr f s s' run =
      let (role, s₁, e, rest) = >>=_inversion (check_address J B byb addr) f s run in
      let same : s₁ ≡ s = sym (ap (λ r. r.1) e) ∙ check_address-Reads J B byb addr s in
      (role, ap (f role) (sym same) ∙ rest)

  paid_and_received :
      (role : AddressRole) (to : Bytes) (value : ℕ) (s s' : TxState) (l m : List BybBalance)
      (receipts : List BybReceipt)
      → (calc_and_set_sender_balance J B M byb (pos value) role >>= λ out.
            set_payee_balance J B byb to out >> pure (on_transfer byb (byb.sender) to out))
          s
        ≡ (done receipts, s')
      → Owns J B (byb.sender) l s
      → Owns J B to m s
      → All NotNegative l
      → IsDistinct l
      → All NotNegative m
      → has_slash (byb.sender) ≡ false
      → has_slash to ≡ false
      → bytes_eq (byb.sender) to ≡ false
      → (value ≤ units l)
        × (out : List BybBalance) × (receipts ≡ on_transfer byb (byb.sender) to out)
        × (calc_total_balance out ≡ pos value)
        × ((b : Bytes)
            → has b s' ≡ (
                if bytes_eq (byb.sender) b
                then pos (units l - value)
                else if bytes_eq to b
                then pos (units m + value)
                else has b s))
  paid_and_received role to value s s' l m receipts run owns owns' h distinct h' base58 base58'
        other =
      let (out, s₁, paid, r₁) =
        >>=_inversion (calc_and_set_sender_balance J B M byb (pos value) role)
          (λ out. set_payee_balance J B byb to out >> pure (on_transfer byb (byb.sender) to out)) s
          run in
      let (positive, le, (left, write, split)) =
        calc_and_set_Leaves J B M byb value role l out s s₁ paid owns h distinct in
      let (u, s₂, received, r₂) =
        >>=_inversion (set_payee_balance J B byb to out)
          (λ _. pure (on_transfer byb (byb.sender) to out)) s₁ r₁ in
      let (same, same') = done_injective (on_transfer byb (byb.sender) to out) receipts s₂ s' r₂ in
      let m₁ = Owns-kept J B byb (byb.sender) left s s₁ write base58 to m other base58' owns' in
      let (left_owned, after_paying) =
        set_byb_balance_done J B byb (byb.sender) left s s₁ write base58 in
      let rest : calc_total_balance left ≡ pos (units l - value) =
        calc_total_balance-eq left (split.left_amounts)
        ∙ ap pos (minus (units left) value (units l) (split.conserved)) in
      let more : pos (units m + units out) ≡ pos (units m + value) =
        ap (λ x. pos (units m + x)) (split.exact) in
      let after_receiving =
        held-set_payee_balance to out m s₁ s₂ received m₁ h' (split.out_amounts) base58' in
      (
        le,
        out,
        same,
        calc_total_balance-eq out (split.out_amounts) ∙ ap pos (split.exact),
        λ b.
            ap (has b) same'
            ∙ both_moves (byb.sender) to b (has b s) (has b s₁) (has b s₂) (calc_total_balance left)
                (pos (units l - value)) (pos (units m + units out)) (pos (units m + value)) other
                (after_paying b) (after_receiving b) rest more,
      )

  -- If Transfer succeeds, the two addresses have no slash, no amount of theirs is negative and
  -- the sender has each chromo once, then the value is at least one unit, the sender had it and
  -- is not the receiver. The transfer receipts are for amounts that come to the value. The
  -- sender's balance is the total of the sender's amounts less the value, the receiver's the
  -- total of the receiver's amounts and the value, and every other balance is what it was.
  pub held-transfer_byb :
      (to : Bytes) (value : ℤ) (s s' : TxState) (l m : List BybBalance) (receipts : List BybReceipt)
      → transfer J B M byb to value s ≡ (done receipts, s')
      → Owns J B (byb.sender) l s
      → Owns J B to m s
      → All NotNegative l
      → IsDistinct l
      → All NotNegative m
      → has_slash (byb.sender) ≡ false
      → has_slash to ≡ false
      → (pos 1 ≤ℤ value)
        × (value ≤ℤ calc_total_balance l)
        × (bytes_eq (byb.sender) to ≡ false)
        × (out : List BybBalance) × (receipts ≡ on_transfer byb (byb.sender) to out)
        × (calc_total_balance out ≡ value)
        × ((b : Bytes)
            → has b s' ≡ (
                if bytes_eq (byb.sender) b
                then calc_total_balance l -ℤ value
                else if bytes_eq to b
                then calc_total_balance m +ℤ value
                else has b s))
  unfolding transfer
  held-transfer_byb to value s s' l m receipts run owns owns' h distinct h' base58 base58' =
      let pay : AddressRole → Op (List BybReceipt) = λ role.
        calc_and_set_sender_balance J B M byb value role >>= λ out.
        set_payee_balance J B byb to out >> pure (on_transfer byb (byb.sender) to out) in
      let check : AddressRole → Op (List BybReceipt) =
        λ role. fail_if (is_stock_holder role || is_committee role) invalid_parameter >> pay role in
      let from_sender = check_address J B byb (byb.sender) >>= check in
      let check_to : AddressRole → Op (List BybReceipt) = λ role.
        fail_if (is_stock_holder role || is_committee role) invalid_parameter >> from_sender in
      let same_account = bytes_eq (byb.sender) to || bytes_eq (byb.contract_acct) to in
      let (positive, r₁) =
        passed_guard (leb_ℤ value (pos 0)) invalid_parameter
          (fail_if same_account unsupport_trans_to_self >> (check_address J B byb to >>= check_to))
          s s' run in
      let (different, r₂) =
        passed_guard same_account unsupport_trans_to_self (check_address J B byb to >>= check_to) s
          s' r₁ in
      let (to_role, r₃) = role_then to check_to s s' r₂ in
      let (free_to, r₄) =
        passed_guard (is_stock_holder to_role || is_committee to_role) invalid_parameter from_sender
          s s' r₃ in
      let (role, r₅) = role_then (byb.sender) check s s' r₄ in
      let (free, r₆) =
        passed_guard (is_stock_holder role || is_committee role) invalid_parameter (pay role) s s'
          r₅ in
      let n = pos_part value in
      let value_eq : value ≡ pos n = ground arith in
      let other : bytes_eq (byb.sender) to ≡ false = ground arith in
      let total = calc_total_balance-eq l h in
      let total' = calc_total_balance-eq m h' in
      let pay_value : ℤ → Op (List BybReceipt) = λ v.
        calc_and_set_sender_balance J B M byb v role >>= λ out.
        set_payee_balance J B byb to out >> pure (on_transfer byb (byb.sender) to out) in
      let (le, out, receipts_eq, out_eq, after) =
        paid_and_received role to n s s' l m receipts
          (subst (λ v. pay_value v s ≡ (done receipts, s')) value_eq r₆) owns owns' h distinct h'
          base58 base58' other in
      let lowered : pos (units l - n) ≡ calc_total_balance l -ℤ value = sym (
        ap (λ x. x -ℤ value) total
        ∙ (ap (λ v. pos (units l) -ℤ v) value_eq ∙ pos_sub (units l) n le)) in
      let raised : pos (units m + n) ≡ calc_total_balance m +ℤ value = sym (
        ap (λ x. x +ℤ value) total'
        ∙ (ap (λ v. pos (units m) +ℤ v) value_eq ∙ pos_add (units m) n)) in
      (
        ground arith,
        subst (λ x. value ≤ℤ x) (sym total)
            (subst (λ v. v ≤ℤ pos (units l)) (sym value_eq) (omega arith)),
        other,
        out,
        receipts_eq,
        out_eq ∙ sym value_eq,
        λ b.
            after b
            ∙ (ap
                  (λ x.
                    if bytes_eq (byb.sender) b
                    then x
                    else if bytes_eq to b
                    then pos (units m + n)
                    else has b s)
                  lowered
                ∙ ap
                    (λ x.
                      if bytes_eq (byb.sender) b
                      then calc_total_balance l -ℤ value
                      else if bytes_eq to b
                      then x
                      else has b s)
                    raised),
      )
