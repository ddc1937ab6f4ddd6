-- ===== src/V1/Rewards/Order.antt =====
-- The order of the strategies that `UpdateRewardStrategy` of
-- abciapp_v1.0/contract/stubapi/invokecontext.go stores.
use bcbchain.Base.{
  is_empty, ℕ, ◌<◌, true, false, List, [], ◌∷◌, ◌++◌, ◌==◌, leb, ◌≡◌, refl, sym, ap, ◌∙◌, subst,
  arith, Bool-cases, inl, inr,
}
use bcbchain.V1.Types.{RewardStrategy}
use bcbchain.V1.Rewards.{keep_step, keep, kept, updated, no_strategy, all_before}
use bcbchain.V1.Rewards.Strategies.{Ascends, keep-later}

-- Ascending, and all before a height.
abbrev Within : ℕ → List RewardStrategy → Type 0
Within bound l = Ascends 0 l × (all_before bound l ≡ true)

-- The strategy at hand: none, or one with rewarders.
abbrev Held : RewardStrategy → Type 0
Held pre = is_empty (pre.strategy) ≡ (pre.effect_height == 0)

Within-first :
    (bound : ℕ) (pre s : RewardStrategy) (l : List RewardStrategy)
    → Held pre
    → pre.effect_height < s.effect_height
    → is_empty (s.strategy) ≡ false
    → Ascends (s.effect_height) l
    → all_before bound (s ∷ l) ≡ true
    → (block_height : ℕ) → leb (s.effect_height) block_height ≡ false
    → Within bound (kept (keep block_height [] pre (s ∷ l)))
unfolding keep kept
Within-first bound pre s l shape above full asc before block_height future =
    elim (Bool-cases (pre.effect_height == 0)) [
      | inl zero' ↦
          let step : keep_step block_height [] pre s ≡ (s ∷ [], pre) =
            unfold keep_step in ground arith in
          let final : kept (
                keep block_height ((keep_step block_height [] pre s).0)
                  ((keep_step block_height [] pre s).1) l)
              ≡ s ∷ l =
            ap (λ r. kept (keep block_height (r.0) (r.1) l)) step
            ∙ ap kept (
                keep-later block_height (s.effect_height) (s ∷ []) pre l (ground arith)
                  (ground arith) asc) in
          subst (Within bound) (sym final) (unfold Ascends in (ground arith, full, asc), before)
      | inr some' ↦
          let used : RewardStrategy = record pre { effect_height = 0 } in
          let step : keep_step block_height [] pre s ≡ (pre ∷ s ∷ [], used) =
            unfold keep_step in ground arith in
          let final : kept (
                keep block_height ((keep_step block_height [] pre s).0)
                  ((keep_step block_height [] pre s).1) l)
              ≡ pre ∷ s ∷ l =
            ap (λ r. kept (keep block_height (r.0) (r.1) l)) step
            ∙ ap kept (
                keep-later block_height (s.effect_height) (pre ∷ s ∷ []) used l (ground arith) refl
                  asc) in
          subst (Within bound) (sym final) (
            (unfold Ascends in (ground arith, ground arith, (above, full, asc))),
            (unfold all_before in ground arith),
          )
    ]

Within-keep :
    (block_height bound : ℕ) (pre : RewardStrategy) (l : List RewardStrategy)
    → Held pre
    → pre.effect_height < bound
    → Ascends (pre.effect_height) l
    → all_before bound l ≡ true
    → Within bound (kept (keep block_height [] pre l))
unfolding keep kept Ascends all_before
Within-keep block_height bound pre [] shape low asc before =
    elim (Bool-cases (pre.effect_height == 0)) [
      | inl zero' ↦ rw (zero', kept) (tt, refl)
      | inr some' ↦ rw (some', kept, all_before) ((ground arith, ground arith, tt), ground arith)
    ]
Within-keep block_height bound pre (s ∷ l) shape low (above, full, asc) before =
    elim (Bool-cases (leb (s.effect_height) block_height)) [
      | inl past ↦
          let step : keep_step block_height [] pre s ≡ ([], s) = unfold keep_step in ground arith in
          subst (λ r. Within bound (kept (keep block_height (r.0) (r.1) l))) (sym step)
            (Within-keep block_height bound s l (ground arith) (ground arith) asc (ground arith))
      | inr future ↦ Within-first bound pre s l shape above full asc before block_height future
    ]

Ascends-append :
    (low : ℕ) (new : RewardStrategy) (l : List RewardStrategy)
    → Ascends low l
    → all_before (new.effect_height) l ≡ true
    → low < new.effect_height
    → is_empty (new.strategy) ≡ false
    → Ascends low (l ++ new ∷ [])
unfolding Ascends all_before
Ascends-append low new [] asc before above full = (above, full, tt)
Ascends-append low new (s ∷ l) (first, rest, asc) before above full =
    (first, rest, Ascends-append (s.effect_height) new l asc (ground arith) (ground arith) full)

-- If the stored strategies ascend, each with rewarders and the first in effect after height 0,
-- and CheckEffectHeight accepts the new one, which has rewarders, then the list that
-- UpdateRewardStrategy stores ascends in the same sense.
pub updated-Ascends :
    (block_height : ℕ) (new : RewardStrategy) (l : List RewardStrategy)
    → Ascends 0 l
    → all_before (new.effect_height) l ≡ true
    → block_height < new.effect_height
    → is_empty (new.strategy) ≡ false
    → Ascends 0 (updated block_height new l)
unfolding updated
updated-Ascends block_height new l asc before late full =
    let (asc', before') =
      Within-keep block_height (new.effect_height) no_strategy l refl (omega arith) asc before in
    Ascends-append 0 new (kept (keep block_height [] no_strategy l)) asc' before' (omega arith) full
