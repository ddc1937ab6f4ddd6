-- ===== src/V1/Byb/Splitting.antt =====
-- `calcTransferBybChromo` of abciapp_v1.0/contract/tokenbyb/tokenbyb.go does not fail on amounts that
-- are not negative and a value up to their total, and how much it transfers.
use bcbchain.Base.{
  ℕ, suc, ◌+◌, ◌-◌, ◌*◌, ◌≤◌, ◌<◌, some, List, [], ◌∷◌, ◌≡◌, ◌⊎◌, inl, inr, refl, sym, ap, subst,
  ◌∙◌, length, All, arith, Bool-cases, ◌==◌,
}
use bcbchain.Base.Int.{pos}
use bcbchain.V1.Byb.Chromos.{BybBalance, SafeMath, trans_value, add_sender, calc_transfer_loop}
use bcbchain.V1.Byb.Rounds.{
  NotNegative, HasUnits, units, count_nonzero, GivesShare, trans_value_lem,
}
use bcbchain.V1.Byb.Entries.{
  SubChromos, pos_add, pos_part-cases, pos_sub, sub_both, sub_nil, sub_skip,
}
use bcbchain.V1.Byb.Shares.{
  loop_zero, loop_keep, loop_give, units_cons, units_zero, count_zero, count_suc, given_entry,
  rest_of, shares_cons, one_cons, sub_cons,
}

-- What a list is split into by a round, from what has been transferred before.
pub record IsSplit (value total trans : ℕ) (cs ns pay : List BybBalance) : Type 0 where
  pub keeps : All HasUnits ns
  pub paid : All HasUnits pay
  pub conserved : units ns + units pay ≡ units cs
  pub bounded : trans + units pay ≤ value
  -- a round that does not reach the value misses less than a unit for each entry that is left
  pub shares :
      (trans + units pay ≡ value)
      ⊎ (value * units cs + length ns ≤ total * units pay + total * length ns)
  pub one_each : (trans + units pay ≡ value) ⊎ (count_nonzero cs ≤ units pay)
  pub pay_sub : SubChromos pay cs
  pub kept_sub : (trans + units pay ≡ value) ⊎ SubChromos ns pay

module _ (M : SafeMath) (value total : ℕ) (ht : 0 < total) (hv : value ≤ total) where
  abbrev Runs : ℕ → List BybBalance → Type 0
  Runs trans cs =
      (ns : List BybBalance) × (pay : List BybBalance) × (calc_transfer_loop M (pos value)
          (pos total) (pos trans) cs
        ≡ some (ns, pay))
      × IsSplit value total trans cs ns pay

  runs_zero :
      (c : BybBalance) (cs : List BybBalance) (trans : ℕ)
      → c.value ≡ pos 0
      → Runs trans cs
      → Runs trans (c ∷ cs)
  unfolding calc_transfer_loop
  runs_zero c cs trans e (ns, pay, run, split) = (
    ns,
    pay,
    loop_zero M (pos value) (pos total) (pos trans) c cs (rw e (ground arith)) ∙ run,
    record {
      keeps = split.keeps;
      paid = split.paid;
      conserved = split.conserved ∙ sym (units_zero c cs e);
      bounded = split.bounded;
      shares = rw (units_zero c cs e) (split.shares);
      one_each = rw (count_zero c cs e) (split.one_each);
      pay_sub = sub_skip (split.pay_sub);
      kept_sub = split.kept_sub;
    },
  )

  runs_keep :
      (c : BybBalance) (cs : List BybBalance) (n : ℕ)
      → c.value ≡ pos (suc n)
      → Runs value cs
      → Runs value (c ∷ cs)
  runs_keep c cs n e (ns, pay, run, split) =
      let none_paid : units pay ≡ 0 = omega (arith, split.bounded) in
      (
        c ∷ ns,
        pay,
        loop_keep M (pos value) (pos total) (pos value) c cs (rw e (ground arith))
              (rw (pos_sub value value (omega arith)) (ground arith))
            ∙ ap (add_sender c) run,
        record {
          keeps = ((rw e refl, rw e (omega arith)), split.keeps);
          paid = split.paid;
          conserved =
              omega (arith, split.conserved, units_cons c ns (suc n) e, units_cons c cs (suc n) e);
          bounded = split.bounded;
          shares = inl (omega (arith, none_paid));
          one_each = inl (omega (arith, none_paid));
          pay_sub = sub_skip (split.pay_sub);
          kept_sub = inl (omega (arith, none_paid));
        },
      )

  runs_give :
      (c : BybBalance) (cs : List BybBalance) (n trans t : ℕ)
      → c.value ≡ pos (suc n)
      → trans < value
      → trans_value M (pos value) (pos total) (pos (value - trans)) (pos (suc n)) ≡ some (pos t)
      → 0 < t
      → t ≤ suc n
      → GivesShare value total (value - trans) (suc n) t
      → Runs (trans + t) cs
      → Runs trans (c ∷ cs)
  runs_give c cs n trans t e less given ht ho share (ns, pay, run, split) =
      let own = units_cons c cs (suc n) e in
      let gives = units_cons (given_entry c t) pay t refl in
      let (ns', rest, kept, sum, sub, size) = rest_of c ns (suc n) t e ho (split.keeps) in
      (
        ns',
        given_entry c t ∷ pay,
        loop_give M (pos value) (pos total) (pos trans) c cs (pos t) (rw e (ground arith))
              (rw (pos_sub value trans (omega arith)) (ground arith))
              (rw (pos_sub value trans (omega arith)) (ground arith))
              (rw (e, pos_sub value trans (omega arith)) given)
            ∙ rw (pos_add trans t, run, rest) refl,
        record {
          keeps = kept;
          paid = ((refl, ht), split.paid);
          conserved = omega (arith, split.conserved, own, gives, sum);
          bounded = omega (arith, split.bounded, gives);
          shares =
              rw (own, gives)
                (shares_cons value total trans (suc n) t (units cs) (units pay) (length ns)
                  (length ns') share size (split.bounded) less (split.shares));
          one_each =
              rw (count_suc c cs n e, gives)
                (one_cons value trans t (units pay) (count_nonzero cs) ht (split.one_each));
          pay_sub = sub_both refl (split.pay_sub);
          kept_sub = rw gives (sub_cons value trans t (units pay) (sub pay) (split.kept_sub));
        },
      )

  start-IsSplit : (trans : ℕ) → trans ≤ value → IsSplit value total trans [] [] []
  unfolding units count_nonzero
  start-IsSplit trans h = record {
    keeps = tt;
    paid = tt;
    conserved = omega arith;
    bounded = omega arith;
    shares = inr (omega arith);
    one_each = inr (omega arith);
    pay_sub = sub_nil;
    kept_sub = inr sub_nil;
  }

  start : (trans : ℕ) → trans ≤ value → Runs trans []
  unfolding calc_transfer_loop
  start trans h = ([], [], refl, start-IsSplit trans h)

  -- The loop does not fail, and splits the list.
  pub runs : (cs : List BybBalance) (trans : ℕ) → All NotNegative cs → trans ≤ value → Runs trans cs
  runs [] trans h le = start trans le
  runs (c ∷ cs) trans (h, hs) le = elim (pos_part-cases (c.value) h) [
    | inl e ↦ runs_zero c cs trans e (runs cs trans hs le)
    | inr (n, e) ↦ elim (Bool-cases (trans == value)) [
      | inl full ↦
          let eq : value ≡ trans = ground arith in
          subst (λ x. Runs x (c ∷ cs)) eq (runs_keep c cs n e (runs cs value hs (omega arith)))
      | inr more ↦
          let less : trans < value = ground arith in
          let (t, given, ht', ho, hs', share) =
            trans_value_lem M value total (value - trans) (suc n) ht hv (omega arith)
              (omega arith) in
          runs_give c cs n trans t e less given ht' ho share (runs cs (trans + t) hs (omega arith))
    ]
  ]
