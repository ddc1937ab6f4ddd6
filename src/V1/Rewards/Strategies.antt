-- ===== src/V1/Rewards/Strategies.antt =====
-- `UpdateRewardStrategy` and `GetStrategy` of abciapp_v1.0/contract/stubapi/invokecontext.go:
-- which strategy is in effect at which height.
use mathlib.Core.List.{append-nil, append_assoc}
use bcbchain.Base.{
  is_empty, ℕ, ◌≤◌, ◌<◌, true, false, List, [], ◌∷◌, ◌++◌, ◌==◌, leb, if◌then◌else◌, ◌≡◌, refl, sym,
  ap, ◌∙◌, arith, Bool-cases, inl, inr,
}
use bcbchain.V1.Types.{RewardStrategy}
use bcbchain.V1.Rewards.{better, pick, keep_step, keep, kept, updated, no_strategy, all_before}

-- In the stored list each strategy has rewarders and comes into effect after those before it, the
-- first one after height 0.
unfoldable pub Ascends : ℕ → List RewardStrategy → Type 0
Ascends low [] = Unit
Ascends low (s ∷ l) =
    (low < s.effect_height) × (is_empty (s.strategy) ≡ false) × Ascends (s.effect_height) l

pick-append :
    (height : ℕ) (result : RewardStrategy) (a b : List RewardStrategy)
    → pick height result (a ++ b) ≡ pick height (pick height result a) b
unfolding pick
pick-append height result [] b = refl
pick-append height result (s ∷ a) b = pick-append height (better height result s) a b

-- Behind the first strategy that is still to come, all are kept.
pub keep-later :
    (block_height low : ℕ) (result : List RewardStrategy) (pre : RewardStrategy)
    (l : List RewardStrategy)
    → block_height < low
    → pre.effect_height ≡ 0
    → Ascends low l
    → keep block_height result pre l ≡ (result ++ l, pre)
unfolding keep keep_step Ascends
keep-later block_height low result pre [] late none_left asc =
    ap (λ r. (r, pre)) (sym (append-nil result))
keep-later block_height low result pre (s ∷ l) late none_left (above, full, asc) =
    let step : keep_step block_height result pre s ≡ (result ++ s ∷ [], pre) = ground arith in
    ap (λ r. keep block_height (r.0) (r.1) l) step
    ∙ (keep-later block_height (s.effect_height) (result ++ s ∷ []) pre l (omega arith) none_left
          asc
        ∙ ap (λ r. (r, pre)) (append_assoc result (s ∷ []) l))

-- A strategy in effect is what the loop takes first.
better-first :
    (height : ℕ) (pre : RewardStrategy)
    → pre.effect_height ≤ height
    → better height no_strategy pre ≡ pre
unfolding better
better-first height pre now = ground arith

-- The list from the first strategy on that is still to come.
pick-future :
    (block_height height : ℕ) (pre s : RewardStrategy) (l : List RewardStrategy)
    → block_height ≤ height
    → pre.effect_height ≤ block_height
    → (pre.effect_height ≡ 0 → pre ≡ no_strategy)
    → pre.effect_height < s.effect_height
    → leb (s.effect_height) block_height ≡ false
    → Ascends (s.effect_height) l
    → pick height no_strategy (kept (keep block_height [] pre (s ∷ l))) ≡ pick height pre (s ∷ l)
unfolding pick kept keep
pick-future block_height height pre s l later now fresh above future asc =
    elim (Bool-cases (pre.effect_height == 0)) [
      | inl zero' ↦
          let step : keep_step block_height [] pre s ≡ (s ∷ [], pre) =
            unfold keep_step in ground arith in
          ap (λ r. pick height no_strategy (kept (keep block_height (r.0) (r.1) l))) step
          ∙ (ap (λ r. pick height no_strategy (kept r))
                (keep-later block_height (s.effect_height) (s ∷ []) pre l (ground arith)
                  (ground arith) asc)
              ∙ ap (λ r. pick height r (s ∷ l)) (sym (fresh (ground arith))))
      | inr some' ↦
          let used : RewardStrategy = record pre { effect_height = 0 } in
          let step : keep_step block_height [] pre s ≡ (pre ∷ s ∷ [], used) =
            unfold keep_step in ground arith in
          ap (λ r. pick height no_strategy (kept (keep block_height (r.0) (r.1) l))) step
          ∙ (ap (λ r. pick height no_strategy (kept r))
                (keep-later block_height (s.effect_height) (pre ∷ s ∷ []) used l (ground arith) refl
                  asc)
              ∙ ap (λ r. pick height (better height r s) l) (better-first height pre (omega arith)))
    ]

-- What stays shows the same strategy at every height from the current one on.
pick-keep :
    (block_height height : ℕ) (pre : RewardStrategy) (l : List RewardStrategy)
    → block_height ≤ height
    → pre.effect_height ≤ block_height
    → (pre.effect_height ≡ 0 → pre ≡ no_strategy)
    → (is_empty (pre.strategy) ≡ (pre.effect_height == 0))
    → Ascends (pre.effect_height) l
    → pick height no_strategy (kept (keep block_height [] pre l)) ≡ pick height pre l
unfolding pick kept keep better Ascends
pick-keep block_height height pre [] later now fresh shape asc =
    elim (Bool-cases (pre.effect_height == 0)) [
      | inl zero' ↦ rw (zero', kept) (sym (fresh (ground arith)))
      | inr some' ↦ rw (some', kept) (better-first height pre (omega arith))
    ]
pick-keep block_height height pre (s ∷ l) later now fresh shape (above, full, asc) =
    elim (Bool-cases (leb (s.effect_height) block_height)) [
      | inl past ↦
          let step : keep_step block_height [] pre s ≡ ([], s) = unfold keep_step in ground arith in
          let next : better height pre s ≡ s = ground arith in
          ap (λ r. pick height no_strategy (kept (keep block_height (r.0) (r.1) l))) step
          ∙ (pick-keep block_height height s l later (ground arith) (λ e. absurd (omega arith))
                (ground arith) asc
              ∙ ap (λ r. pick height r l) (sym next))
      | inr future ↦ pick-future block_height height pre s l later now fresh above future asc
    ]

pick_bound :
    (height bound : ℕ) (result : RewardStrategy) (l : List RewardStrategy)
    → all_before bound l ≡ true
    → result.effect_height < bound
    → (pick height result l).effect_height < bound
unfolding pick better all_before
pick_bound height bound result [] before low = low
pick_bound height bound result (s ∷ l) before low =
    pick_bound height bound (better height result s) l (ground arith) (ground arith)

better_newer :
    (height : ℕ) (result new : RewardStrategy)
    → result.effect_height < new.effect_height
    → pick height result (new ∷ []) ≡ (if leb (new.effect_height) height then new else result)
unfolding pick better
better_newer height result new low = ground arith

-- If the stored strategies ascend and CheckEffectHeight accepts the new one, which has rewarders,
-- then after UpdateRewardStrategy, at every height from the current one on, the loop of
-- GetStrategy picks the new strategy once it is in effect, and before that what it picked without
-- the update.
pub pick-updated :
    (block_height height : ℕ) (new : RewardStrategy) (l : List RewardStrategy)
    → Ascends 0 l
    → all_before (new.effect_height) l ≡ true
    → block_height < new.effect_height
    → is_empty (new.strategy) ≡ false
    → block_height ≤ height
    → pick height no_strategy (updated block_height new l)
      ≡ (if leb (new.effect_height) height then new else pick height no_strategy l)
unfolding updated
pick-updated block_height height new l asc before late full later =
    pick-append height no_strategy (kept (keep block_height [] no_strategy l)) (new ∷ [])
    ∙ (ap (λ r. pick height r (new ∷ []))
          (pick-keep block_height height no_strategy l later (omega arith) (λ _. refl) refl asc)
        ∙ better_newer height (pick height no_strategy l) new
            (pick_bound height (new.effect_height) no_strategy l before (omega arith)))
