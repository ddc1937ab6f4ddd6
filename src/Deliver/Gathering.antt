-- ===== src/Deliver/Gathering.antt =====
-- What the fees that `gatherFeesByFromAddr` of abciapp/service/deliver/delivertx.go gathers add up to.
use bcbchain.Base.{
  Bytes, GoMap, codes, bytes_eq, insert, lookup, ℕ, ◌+◌, ◌<◌, Bool, true, Option, none, some, List,
  [], ◌∷◌, ◌==◌, if◌then◌else◌, returned, ◌≡◌, refl, sym, ap, ◌∙◌, arith, All, Bool-cases,
  Option-cases, inl, inr,
}
use bcbchain.Base.Int.{ℤ, pos, pos_part, neg_part, ◌+ℤ◌, +ℤ_parts, eq_of_parts}
use bcbchain.Deliver.{
  Fee, KvPair, Receipts, Gathered, nothing_gathered, wrap_int64, add_fee, gather_fee, gather_fees,
  contains_text,
}

abbrev pub int64_bound : ℕ
int64_bound = 9223372036854775808

-- What the senders pay together.
unfoldable pub fee_sum : GoMap Fee → ℕ
fee_sum [] = 0
fee_sum ((k, fee) ∷ m) = pos_part (fee.value) + fee_sum m

-- The fee in a tag; none in a tag of another kind.
unfoldable pub fee_in : Receipts → KvPair → Option Fee
unfolding contains_text
fee_in R tag =
    if contains_text (tag.0) (codes "std::fee") then Receipts.decode_fee R (tag.1) else none

abbrev pub paid_by : Option Fee → ℕ
paid_by none = 0
paid_by (some fee) = pos_part (fee.value)

abbrev pub is_paid : Option Fee → Bool
is_paid none = true
is_paid (some fee) = neg_part (fee.value) == 0

unfoldable pub tag_sum : Receipts → List KvPair → ℕ
unfolding fee_in
tag_sum R [] = 0
tag_sum R (tag ∷ tags) = paid_by (fee_in R tag) + tag_sum R tags

wrap_sum :
    (a b : ℤ)
    → neg_part a ≡ 0
    → neg_part b ≡ 0
    → pos_part a + pos_part b < int64_bound
    → wrap_int64 (a +ℤ b) ≡ pos (pos_part a + pos_part b)
wrap_sum a b ha hb small =
    let e : a +ℤ b ≡ pos (pos_part a + pos_part b) =
      ground (arith, +ℤ_parts a b, eq_of_parts (a +ℤ b) (pos (pos_part a + pos_part b))) in
    rw e (unfold wrap_int64 in ground arith)

-- The fees gathered so far are not negative.
abbrev Paid : GoMap Fee → Type 0
Paid = All (λ e. neg_part ((e.1).value) ≡ 0)

add_fee_done :
    (k : Bytes) (fee : Fee) (m : GoMap Fee) (o : Option Fee)
    → lookup k m ≡ o
    → Paid m
    → neg_part (fee.value) ≡ 0
    → fee_sum m + pos_part (fee.value) < int64_bound
    → Paid (insert k (add_fee fee o) m)
      × (fee_sum (insert k (add_fee fee o) m) ≡ fee_sum m + pos_part (fee.value))
unfolding insert lookup fee_sum add_fee
add_fee_done k fee [] none found paid positive small = ((positive, tt), omega arith)
add_fee_done k fee [] (some f) found paid positive small = cc
add_fee_done k fee ((j, f) ∷ m) o found (first, paid) positive small =
    elim (Bool-cases (bytes_eq j k)) [
      | inl same ↦
          let old : some f ≡ o = ground (arith, same) in
          let e = wrap_sum (f.value) (fee.value) first positive (omega arith) in
          rw (same, sym old, e) ((refl, paid), omega arith)
      | inr other ↦
          let (paid', sum') =
            add_fee_done k fee m o (ground (arith, other)) paid positive (omega arith) in
          rw other ((first, paid'), omega arith)
    ]

module _ (R : Receipts) (is_ok : Bool) where
  gather-sum :
      (tags : List KvPair) (g g' : Gathered) (n : ℕ)
      → gather_fees R is_ok tags g ≡ returned g'
      → All (λ tag. is_paid (fee_in R tag) ≡ true) tags
      → Paid (g.fees)
      → g.total_fee ≡ pos n
      → fee_sum (g.fees) ≡ n
      → n + tag_sum R tags < int64_bound
      → (g'.total_fee ≡ pos (n + tag_sum R tags)) × (fee_sum (g'.fees) ≡ n + tag_sum R tags)
  unfolding gather_fees tag_sum
  gather-sum [] g g' n run all paid total sum small =
      let e : g ≡ g' = cc in
      (
        ap (λ x. x.total_fee) (sym e) ∙ (total ∙ ap pos (omega arith)),
        ap (λ x. fee_sum (x.fees)) (sym e) ∙ (sum ∙ omega arith),
      )
  gather-sum (tag ∷ tags) g g' n run (here, rest) paid total sum small =
      elim (Bool-cases (contains_text (tag.0) (codes "std::fee"))) [
        | inr other ↦
            let no : fee_in R tag ≡ none = unfold fee_in in rw other refl in
            let step : gather_fees R is_ok (tag ∷ tags) g ≡ gather_fees R is_ok tags g =
              rw other refl in
            let zero' = ap paid_by no in
            let (total', sum') =
              gather-sum tags g g' n (sym step ∙ run) rest paid total sum (omega arith) in
            (total' ∙ ap pos (omega arith), sum' ∙ omega arith)
        | inl is_fee ↦ elim (Option-cases (Receipts.decode_fee R (tag.1))) [
          | inl none' ↦ absurd (ground (arith, is_fee, none'))
          | inr (fee, e) ↦
              let yes : fee_in R tag ≡ some fee = unfold fee_in in rw is_fee e in
              let positive : neg_part (fee.value) ≡ 0 = ground (arith, ap is_paid yes) in
              let amount = ap paid_by yes in
              let next = gather_fee is_ok tag fee g in
              let step : gather_fees R is_ok (tag ∷ tags) g ≡ gather_fees R is_ok tags next =
                rw (is_fee, e) refl in
              let (paid', sum') =
                add_fee_done (fee.from) fee (g.fees) (lookup (fee.from) (g.fees)) refl paid positive
                  (omega arith) in
              let whole : wrap_int64 (g.total_fee +ℤ fee.value) ≡ pos (n + pos_part (fee.value)) =
                ap (λ x. wrap_int64 (x +ℤ fee.value)) total
                ∙ wrap_sum (pos n) (fee.value) refl positive (omega arith) in
              let (total₂, sum₂) =
                gather-sum tags next g' (n + pos_part (fee.value)) (sym step ∙ run) rest
                  (unfold gather_fee in paid') (unfold gather_fee in whole)
                  (unfold gather_fee in omega arith) (omega arith) in
              (total₂ ∙ ap pos (omega arith), sum₂ ∙ omega arith)
        ]
      ]

  -- If gatherFeesByFromAddr returns for tags whose fees are not negative and add up to less than
  -- 2^63, the total fee is the sum of the fees in the tags, and so are the fees of all senders
  -- together.
  pub gather_fees-sum :
      (tags : List KvPair) (g : Gathered)
      → gather_fees R is_ok tags nothing_gathered ≡ returned g
      → All (λ tag. is_paid (fee_in R tag) ≡ true) tags
      → tag_sum R tags < int64_bound
      → (g.total_fee ≡ pos (tag_sum R tags)) × (fee_sum (g.fees) ≡ tag_sum R tags)
  unfolding fee_sum
  gather_fees-sum tags g run all small =
      let (total, sum) = gather-sum tags nothing_gathered g 0 run all tt refl refl (omega arith) in
      (total ∙ ap pos (omega arith), sum ∙ omega arith)
