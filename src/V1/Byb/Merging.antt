-- ===== src/V1/Byb/Merging.antt =====
-- The lists that `calcAndSetSenderBalance` and `setPayeeBalance` of
-- abciapp_v1.0/contract/tokenbyb/tokenbyb.go put together, and their totals.
use bcbchain.Base.{
  Bytes, bytes_eq, bytes_eq_iff, ℕ, ◌+◌, ◌-◌, ◌≤◌, ◌<◌, Bool, true, false, ◌||◌, some, List, [],
  ◌∷◌, ◌≡◌, ◌⊎◌, inl, inr, refl, ap, ◌∙◌, All, arith, Bool-cases, ◌==◌,
}
use bcbchain.Base.Int.{ℤ, pos, pos_part, neg_part, ◌+ℤ◌}
use bcbchain.V1.Byb.Chromos.{BybBalance, SafeMath, calc_transfer_byb_chromo, with_second, merged}
use bcbchain.V1.Byb.Rounds.{NotNegative, HasUnits, units}
use bcbchain.V1.Byb.Entries.{SubChromos, sub_nil, sub_skip, sub_both}
use bcbchain.V1.Byb.Splitting.{IsSplit}
use bcbchain.V1.Byb.Remainder.{calc_transfer_byb_chromo-IsSplit, calc_transfer_byb_chromo-remainder}

unfoldable pub has_chromo : Bytes → List BybBalance → Bool
has_chromo chromo [] = false
has_chromo chromo (c ∷ cs) = bytes_eq chromo (c.chromo) || has_chromo chromo cs

-- Each chromo has at most one amount.
unfoldable pub IsDistinct : List BybBalance → Type 0
IsDistinct [] = Unit
IsDistinct (c ∷ cs) = (has_chromo (c.chromo) cs ≡ false) × IsDistinct cs

sub_absent :
    (chromo : Bytes) (bs cs : List BybBalance)
    → SubChromos bs cs
    → has_chromo chromo cs ≡ false
    → has_chromo chromo bs ≡ false
unfolding has_chromo
sub_absent chromo _ cs sub_nil h = refl
sub_absent chromo bs (c ∷ cs) (sub_skip s) h = sub_absent chromo bs cs s (ground arith)
sub_absent chromo (b ∷ bs) (c ∷ cs) (sub_both e s) h = ground (arith, sub_absent chromo bs cs s, e)

sub-IsDistinct : (bs cs : List BybBalance) → SubChromos bs cs → IsDistinct cs → IsDistinct bs
unfolding IsDistinct
sub-IsDistinct _ cs sub_nil h = tt
sub-IsDistinct bs (c ∷ cs) (sub_skip s) (h, hs) = sub-IsDistinct bs cs s hs
sub-IsDistinct (b ∷ bs) (c ∷ cs) (sub_both e s) (h, hs) =
    (rw e (sub_absent (c.chromo) bs cs s h), sub-IsDistinct bs cs s hs)

with_second_absent :
    (ch : BybBalance) (sr : List BybBalance)
    → has_chromo (ch.chromo) sr ≡ false
    → with_second ch sr ≡ ch
unfolding with_second has_chromo
with_second_absent ch [] h = refl
with_second_absent ch (r ∷ sr) h = ground (arith, with_second_absent ch sr)

with_second_other :
    (ch r : BybBalance) (sr : List BybBalance)
    → bytes_eq (r.chromo) (ch.chromo) ≡ false
    → with_second ch (r ∷ sr) ≡ with_second ch sr
unfolding with_second
with_second_other ch r sr h =
    ground (arith, bytes_eq_iff (r.chromo) (ch.chromo), bytes_eq_iff (ch.chromo) (r.chromo))

with_second_same :
    (ch r : BybBalance) (sr : List BybBalance)
    → bytes_eq (ch.chromo) (r.chromo) ≡ true
    → (with_second ch (r ∷ sr)).value ≡ ch.value +ℤ r.value
unfolding with_second
with_second_same ch r sr h = rw h refl

pub add_parts :
    (a b : ℤ)
    → neg_part a ≡ 0
    → neg_part b ≡ 0
    → (pos_part (a +ℤ b) ≡ pos_part a + pos_part b) × (neg_part (a +ℤ b) ≡ 0)
unfolding ◌+ℤ◌
add_parts a b h h' = ground arith

with_second-HasUnits :
    (ch : BybBalance) (sr : List BybBalance)
    → HasUnits ch
    → All HasUnits sr
    → HasUnits (with_second ch sr)
unfolding with_second
with_second-HasUnits ch [] h h' = h
with_second-HasUnits ch (r ∷ sr) h (u, us) =
    ground (arith, with_second-HasUnits ch sr h us, add_parts (ch.value) (r.value) (h.0) (u.0))

pub merged-HasUnits :
    (pay sr : List BybBalance) → All HasUnits pay → All HasUnits sr → All HasUnits (merged pay sr)
unfolding merged
merged-HasUnits [] sr h h' = tt
merged-HasUnits (c ∷ pay) sr (u, us) h' =
    (with_second-HasUnits c sr u h', merged-HasUnits pay sr us h')

merged_other :
    (r : BybBalance) (pay sr : List BybBalance)
    → has_chromo (r.chromo) pay ≡ false
    → merged pay (r ∷ sr) ≡ merged pay sr
unfolding merged has_chromo
merged_other r [] sr h = refl
merged_other r (c ∷ pay) sr h =
    rw (with_second_other c r sr (ground arith), merged_other r pay sr (ground arith)) refl

merged_nil : (pay : List BybBalance) → merged pay [] ≡ pay
unfolding merged with_second
merged_nil [] = refl
merged_nil (c ∷ pay) = ap (λ l. c ∷ l) (merged_nil pay)

-- Nothing of the second round is lost.
pub units-merged :
    (sr pay : List BybBalance)
    → SubChromos sr pay
    → IsDistinct pay
    → All HasUnits pay
    → All HasUnits sr
    → units (merged pay sr) ≡ units pay + units sr
unfolding units merged IsDistinct
units-merged _ pay sub_nil d h h' = rw (merged_nil pay) (omega arith)
units-merged sr (c ∷ pay) (sub_skip s) (d, ds) (h, hs) h' =
    rw (with_second_absent c sr (sub_absent (c.chromo) sr pay s d))
      (omega (arith, units-merged sr pay s ds hs h'))
units-merged (r ∷ sr) (c ∷ pay) (sub_both e s) (d, ds) (h, hs) (h', hs') =
    rw
      (
        with_second_same c r sr (ground (arith, bytes_eq_iff (c.chromo) (r.chromo), e)),
        (add_parts (c.value) (r.value) (h.0) (h'.0)).0,
        merged_other r pay sr (rw e d),
      )
      (omega (arith, units-merged sr pay s ds hs hs'))

sub_trans : (xs bs cs : List BybBalance) → SubChromos xs bs → SubChromos bs cs → SubChromos xs cs
sub_trans _ bs cs sub_nil s = sub_nil
sub_trans _ (_ ∷ _) [] (sub_skip _) s = elim s [ ]
sub_trans (_ ∷ _) (_ ∷ _) [] (sub_both e _) s = elim s [ ]
sub_trans xs bs (c ∷ cs) s (sub_skip s') = sub_skip (sub_trans xs bs cs s s')
sub_trans xs (b ∷ bs) (c ∷ cs) (sub_skip s) (sub_both e s') = sub_skip (sub_trans xs bs cs s s')
sub_trans (a ∷ xs) (b ∷ bs) (c ∷ cs) (sub_both e s) (sub_both e' s') =
    sub_both (e ∙ e') (sub_trans xs bs cs s s')

-- What the two rounds together come to.
pub record IsPayment (value : ℕ) (cs left out : List BybBalance) : Type 0 where
  pub left_units : All HasUnits left
  pub out_units : All HasUnits out
  pub conserved : units left + value ≡ units cs
  pub exact : units out ≡ value

module _ (M : SafeMath) (cs : List BybBalance) (value : ℕ) where
  -- The second round, where the first leaves a remainder.
  abbrev pub SecondRound : List BybBalance → List BybBalance → Type 0
  SecondRound ns pay =
      (ns' : List BybBalance) × (pay' : List BybBalance) × (calc_transfer_byb_chromo M ns
          (pos (value - units pay))
        ≡ some (ns', pay'))
      × (units pay' ≡ value - units pay)
      × IsPayment value cs ns' (merged pay pay')

  second_round :
      (ns pay : List BybBalance)
      → IsSplit value (units cs) 0 cs ns pay
      → IsDistinct cs
      → units pay < value
      → value ≤ units cs
      → SecondRound ns pay
  second_round ns pay split distinct less le =
      let (ns', pay', run, split', exact) =
        calc_transfer_byb_chromo-remainder M cs ns pay value split less le in
      let ns_sub : SubChromos ns pay = elim (split.kept_sub) [
        | inl e ↦ absurd (omega arith)
        | inr s ↦ s
      ] in
      let total =
        units-merged pay' pay (sub_trans pay' ns pay (split'.pay_sub) ns_sub)
          (sub-IsDistinct pay cs (split.pay_sub) distinct) (split.paid) (split'.paid) in
      (
        ns',
        pay',
        run,
        exact,
        record {
          left_units = split'.keeps;
          out_units = merged-HasUnits pay pay' (split.paid) (split'.paid);
          conserved = omega (arith, split.conserved, split'.conserved, exact);
          exact = omega (arith, total, exact);
        },
      )

  -- For amounts that are not negative, with each chromo once, and a value between one and their
  -- total, the rounds of calcAndSetSenderBalance do not fail: the first pays the value exactly,
  -- or less, and then the second pays the rest exactly. What is left and what is paid have at
  -- least one unit in each entry, and what is left and the value are together the old total.
  pub calc_transfer_byb_chromo-exact :
      All NotNegative cs
      → IsDistinct cs
      → 0 < value
      → value ≤ units cs
      → (ns : List BybBalance) × (pay : List BybBalance) × (calc_transfer_byb_chromo M cs
            (pos value)
          ≡ some (ns, pay))
        × All HasUnits pay
        × (IsPayment value cs ns pay ⊎ ((units pay < value) × SecondRound ns pay))
  calc_transfer_byb_chromo-exact h distinct hv le =
      let (ns, pay, run, split) = calc_transfer_byb_chromo-IsSplit M cs value h hv le in
      (
        ns,
        pay,
        run,
        split.paid,
        elim (Bool-cases (units pay == value)) [
          | inl e ↦ inl (record {
            left_units = split.keeps;
            out_units = split.paid;
            conserved = ground (arith, split.conserved);
            exact = ground arith;
          })
          | inr e ↦
              let less : units pay < value = ground (arith, split.bounded) in
              inr (less, second_round ns pay split distinct less le)
        ],
      )
