-- ===== src/V1/Rewards/Shares.antt =====
-- What the rewards of `CalcdRewards` of abciapp_v1.0/contract/stubapi/invokecontext.go add up to.
use bcbchain.Base.{
  Bytes, GoMap, lookup, insert, lookup-insert, ℕ, ◌+◌, ◌-◌, ◌%◌, ◌≤◌, ◌<◌, Bool, true, false, not,
  ◌&&◌, Option, none, some, List, [], ◌∷◌, ◌≡◌, refl, sym, ap, ◌∙◌, arith, Option-cases, inl, inr,
}
use bcbchain.Helper.Accounts.{contains}
use bcbchain.V1.Types.{RewardStrategy, Rewarder}
use bcbchain.V1.Rewards.{
  two_64, FloorQuotient, reward_value, target, reward_loop, reward_of, settle, calcd_rewards,
}

-- The sum of the rewards.
unfoldable pub total : GoMap ℕ → ℕ
total [] = 0
total ((k, r) ∷ m) = r + total m

total-insert_new :
    (k : Bytes) (r : ℕ) (m : GoMap ℕ) → lookup k m ≡ none → total (insert k r m) ≡ total m + r
unfolding total insert lookup
total-insert_new k r [] h = omega arith
total-insert_new k r ((j, s) ∷ m) h = ground (arith, total-insert_new k r m)

total-insert_more :
    (k : Bytes) (d : ℕ) (m : GoMap ℕ) → total (insert k (reward_of k m + d) m) ≡ total m + d
unfolding total insert lookup reward_of
total-insert_more k d [] = omega arith
total-insert_more k d ((j, s) ∷ m) = ground (arith, total-insert_more k d m)

reward_of-le : (k : Bytes) (m : GoMap ℕ) → reward_of k m ≤ total m
unfolding total lookup reward_of
reward_of-le k [] = omega arith
reward_of-le k ((j, s) ∷ m) = ground (arith, reward_of-le k m)

-- The items pay different accounts, and none of those seen.
unfoldable pub distinct : Bytes → List Rewarder → List Bytes → Bool
unfolding contains target
distinct rewarder [] seen = true
distinct rewarder (item ∷ l) seen =
    not (contains (target rewarder item) seen) && distinct rewarder l (target rewarder item ∷ seen)

abbrev share : Option ℕ → ℕ
share none = 0
share (some r) = r

-- The sum of the items' rewards, without a machine's bound.
unfoldable pub shares : FloorQuotient → ℕ → List Rewarder → ℕ
shares Q value [] = 0
shares Q value (item ∷ l) = share (reward_value Q value item) + shares Q value l

-- Only seen accounts have rewards so far.
abbrev OnlySeen : List Bytes → GoMap ℕ → Type 0
OnlySeen seen m = (k : Bytes) → contains k seen ≡ false → lookup k m ≡ none

reward_loop-total :
    (Q : FloorQuotient) (value : ℕ) (rewarder : Bytes) (l : List Rewarder) (m m' : GoMap ℕ)
    (sum sum' : ℕ) (seen : List Bytes)
    → reward_loop Q value rewarder l m sum ≡ some (m', sum')
    → distinct rewarder l seen ≡ true
    → OnlySeen seen m
    → sum + shares Q value l < two_64
    → (sum' ≡ sum + shares Q value l) × (total m' ≡ total m + shares Q value l)
unfolding reward_loop distinct shares
reward_loop-total Q value rewarder [] m m' sum sum' seen run d only small =
    (ground arith, ground arith)
reward_loop-total Q value rewarder (item ∷ l) m m' sum sum' seen run d only small =
    elim (Option-cases (reward_value Q value item)) [
      | inl none' ↦ absurd (ground (arith, none'))
      | inr (r, e) ↦
          let t = target rewarder item in
          let new : contains t seen ≡ false = ground arith in
          let fits : sum + r + shares Q value l < two_64 = ground (arith, ap share e) in
          let same : (sum + r) % two_64 ≡ sum + r = omega arith in
          let (sum_eq, total_eq) =
            reward_loop-total Q value rewarder l (insert t r m) m' ((sum + r) % two_64) sum'
              (t ∷ seen)
              (ap
                  (λ o. elim o [
                    | none ↦ none
                    | some r ↦ reward_loop Q value rewarder l (insert t r m) ((sum + r) % two_64)
                  ])
                  (sym e)
                ∙ run)
              (ground arith)
              (λ k h. unfold contains in ground (arith, lookup-insert t k r m, only k))
              (rw same fits) in
          let added = total-insert_new t r m (only t new) in
          (ground (arith, ap share e), ground (arith, ap share e))
    ]

-- If CalcdRewards succeeds on a fee below 2^64, with items that pay different accounts and
-- rewards that add up to less than 2^64, the rewards together are the fee, whatever the division
-- of floats does.
pub calcd_rewards-total :
    (Q : FloorQuotient) (strategy : RewardStrategy) (value : ℕ) (rewarder : Bytes)
    (rewards : GoMap ℕ)
    → calcd_rewards Q strategy value rewarder ≡ some rewards
    → distinct rewarder (strategy.strategy) [] ≡ true
    → value < two_64
    → shares Q value (strategy.strategy) < two_64
    → total rewards ≡ value
unfolding calcd_rewards settle
calcd_rewards-total Q strategy value rewarder rewards run d bound small =
    elim (Option-cases (reward_loop Q value rewarder (strategy.strategy) [] 0)) [
      | inl none' ↦ absurd (ground (arith, none'))
      | inr ((m, sum), e) ↦
          let (sum_eq, total_eq) =
            reward_loop-total Q value rewarder (strategy.strategy) [] m 0 sum [] e d
              (λ k h. unfold lookup in refl) (omega arith) in
          let full : total m ≡ sum = unfold total in omega arith in
          let more = total-insert_more rewarder (value - sum) m in
          let less = reward_of-le rewarder m in ground (arith, e)
    ]
