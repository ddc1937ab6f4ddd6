-- ===== src/V1/Byb/Counting.antt =====
-- `calcNewChromo` of abciapp_v1.0/contract/tokenbyb/tokenbyb.go, called again and again over one
-- state.
use bcbchain.Base.{
  Bytes, is_empty, ℕ, zero, suc, ◌+◌, ◌^◌, ◌<◌, All, All-map, false, some, List, [], ◌∷◌, length,
  ◌≡◌, refl, ap, ◌∙◌, arith,
}
use bcbchain.Db.{value_of}
use bcbchain.Statedb.Tx
use bcbchain.Statedb.Tx.{Tx}
use bcbchain.V1.Reply.{TxState, Op, done, ◌>>=◌, pure}
use bcbchain.V1.Types.{StateJson}
use bcbchain.V1.State.{get, set}
use bcbchain.V1.Frame.{get-set}
use bcbchain.V1.Byb.Chromos.{parse_uint}
use bcbchain.V1.Byb.Store.{BybJson, key_of_cur_chromo, get_cur_chromo, set_cur_chromo}
use bcbchain.V1.Byb.Holders.{next_chromo, calc_new_chromo, store_chromo}
use bcbchain.V1.Byb.Numbers.{
  chromo_of, decimal_nonempty, parse_uint-chromo_of, next_chromo-chromo_of,
}

-- No text stands twice in a list.
unfoldable pub AreDistinct : List Bytes → Type 0
AreDistinct [] = Unit
AreDistinct (c ∷ l) = All (λ d. ¬ (c ≡ d)) l × AreDistinct l

-- A `Tx` is open, and `n` chromos have been made.
pub record Counts (n : ℕ) (s : TxState) : Type 0 where
  pub open_tx : Tx
  pub is_open : s.tx ≡ some open_tx
  pub stored : get key_of_cur_chromo s ≡ chromo_of n

chromo_of_nonempty : (n : ℕ) → suc n < 2 ^ 64 → is_empty (chromo_of (suc n)) ≡ false
unfolding chromo_of
chromo_of_nonempty n small = decimal_nonempty n small

-- A write through an open `Tx` is done, and leaves one open.
set-open :
    (key value : Bytes) (s : TxState) (t : Tx)
    → s.tx ≡ some t
    → (s' : TxState) × (t' : Tx) × (set key value s ≡ (done tt, s')) × (s'.tx ≡ some t')
unfolding set
set-open key value s t e =
    (record s { tx = some (Tx.set key value t) }, Tx.set key value t, simp (set, e) refl, refl)

module _ (J : StateJson) (B : BybJson) where
  calc_new_chromo-eq :
      (s : TxState)
      → calc_new_chromo J B s ≡ store_chromo J B (next_chromo (get key_of_cur_chromo s)) s
  unfolding calc_new_chromo get_cur_chromo
  calc_new_chromo-eq s = refl

  calc_new_chromo-Counts :
      (n : ℕ) (s : TxState)
      → suc n < 2 ^ 64
      → Counts n s
      → (s' : TxState) × (calc_new_chromo J B s ≡ pure (some (chromo_of (suc n))) s')
        × Counts (suc n) s'
  unfolding set_cur_chromo
  calc_new_chromo-Counts n s small counts =
      let (s', t', written, is_open) =
        set-open key_of_cur_chromo (chromo_of (suc n)) s (counts.open_tx) (counts.is_open) in
      (
        s',
        calc_new_chromo-eq s
            ∙ (ap (λ o. store_chromo J B o s)
                  (ap next_chromo (counts.stored) ∙ next_chromo-chromo_of n small)
                ∙ rw written refl),
        record {
          open_tx = t';
          is_open = is_open;
          stored =
              get-set key_of_cur_chromo (chromo_of (suc n)) s s' written
                (chromo_of_nonempty n small);
        },
      )

  -- A number of new chromos, one after the other; the text of a failed one is empty.
  unfoldable pub make_chromos : ℕ → Op (List Bytes)
  make_chromos zero = pure []
  make_chromos (suc k) = do
    chromo ← calc_new_chromo J B
    rest ← make_chromos k
    pure (value_of chromo ∷ rest)

  -- What a number of calls leave: as many texts, all of them numbers behind `n` and different.
  record Made (k n : ℕ) (s : TxState) : Type 0 where
    left : TxState
    made : List Bytes
    run : make_chromos k s ≡ pure made left
    count : length made ≡ k
    later : All (λ d. n < parse_uint 0 d) made
    distinct : AreDistinct made

  make_chromos-Made : (k n : ℕ) (s : TxState) → n + k < 2 ^ 64 → Counts n s → Made k n s
  unfolding make_chromos AreDistinct
  make_chromos-Made zero n s small counts = record {
    left = s;
    made = [];
    run = refl;
    count = refl;
    later = tt;
    distinct = tt;
  }
  make_chromos-Made (suc k) n s small counts =
      let (s₁, run₁, counts₁) = calc_new_chromo-Counts n s (omega arith) counts in
      let rest = make_chromos-Made k (suc n) s₁ (omega arith) counts₁ in
      let number : parse_uint 0 (chromo_of (suc n)) ≡ suc n =
        parse_uint-chromo_of (suc n) (omega arith) in
      record {
        left = rest.left;
        made = chromo_of (suc n) ∷ rest.made;
        run = rw (run₁, rest.run) refl;
        count = ap suc (rest.count);
        later = (
          omega (arith, number),
          All-map (λ d. suc n < parse_uint 0 d) (λ d. n < parse_uint 0 d) (rest.made)
              (λ d less. omega (arith, less)) (rest.later),
        );
        distinct = (
          All-map (λ d. suc n < parse_uint 0 d) (λ d. ¬ (chromo_of (suc n) ≡ d)) (rest.made)
              (λ d less same. omega (arith, less, number, ap (parse_uint 0) same)) (rest.later),
          rest.distinct,
        );
      }

  -- If a Tx is open and the stored text of the counter is that of n chromos, then calling
  -- calcNewChromo k times, one after the other, does not fail, if n + k is below 2^64, and the k
  -- texts that it returns are all different.
  pub make_chromos-AreDistinct :
      (k n : ℕ) (s : TxState) (t : Tx)
      → n + k < 2 ^ 64
      → s.tx ≡ some t
      → get key_of_cur_chromo s ≡ chromo_of n
      → (made : List Bytes) × (s' : TxState) × (make_chromos k s ≡ pure made s')
        × (length made ≡ k)
        × AreDistinct made
  make_chromos-AreDistinct k n s t small is_open stored =
      let all =
        make_chromos-Made k n s small
          (record { open_tx = t; is_open = is_open; stored = stored }) in
      (all.made, all.left, all.run, all.count, all.distinct)
