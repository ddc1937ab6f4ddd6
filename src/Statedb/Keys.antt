-- ===== src/Statedb/Keys.antt =====
-- The reserved keys of the two databases (statedb/statedb.go, statedb/snapshot.go), and
-- which of them differ.
use mathlib.Core.List.{append_cancel_left, append_cancel_right, reverse-append}
use bcbchain.Base.{
  Bytes, codes, ℕ, zero, suc, ◌≡◌, ◌≢◌, sym, ap, ◌∙◌, [], ◌∷◌, ◌++◌, reverse, arith,
}
use bcbchain.Base.Decimal.{decimal, decimal_injective}

abbrev pub key_of_last_transaction_id : Bytes
key_of_last_transaction_id = codes "$last_transaction_id"

abbrev pub key_of_max_snapshot_count : Bytes
key_of_max_snapshot_count = codes "$max_snapshot_count"

pub key_of_origin_data : ℕ → Bytes
key_of_origin_data transaction_id = (codes "$" ++ decimal transaction_id) ++ codes "$origin_data"

pub key_of_new_data : ℕ → Bytes
key_of_new_data transaction_id = (codes "$" ++ decimal transaction_id) ++ codes "$new_data"

-- Equal texts are equal from their ends.
backwards : (p q s t : Bytes) → p ++ s ≡ q ++ t → reverse s ++ reverse p ≡ reverse t ++ reverse q
backwards p q s t e = sym (reverse-append p s) ∙ ap reverse e ∙ reverse-append q t

-- The byte at a place, 0 behind the end.
abbrev byte_at : ℕ → Bytes → ℕ
byte_at n [] = 0
byte_at zero (c ∷ s) = c
byte_at (suc n) (c ∷ s) = byte_at n s

pub key_of_last-ne-key_of_max : key_of_last_transaction_id ≢ key_of_max_snapshot_count
key_of_last-ne-key_of_max e = absurd (omega (arith, ap (byte_at 1) e))

module _ (i j : ℕ) where
  pub key_of_origin_data_injective : key_of_origin_data i ≡ key_of_origin_data j → i ≡ j
  unfolding key_of_origin_data
  key_of_origin_data_injective e =
      decimal_injective i j
        (append_cancel_left (codes "$") _ _ (append_cancel_right _ _ (codes "$origin_data") e))

  pub key_of_new_data_injective : key_of_new_data i ≡ key_of_new_data j → i ≡ j
  unfolding key_of_new_data
  key_of_new_data_injective e =
      decimal_injective i j
        (append_cancel_left (codes "$") _ _ (append_cancel_right _ _ (codes "$new_data") e))

  pub key_of_origin_data-ne-key_of_new_data : key_of_origin_data i ≢ key_of_new_data j
  unfolding key_of_origin_data key_of_new_data
  key_of_origin_data-ne-key_of_new_data e = absurd (
      omega
        (arith, ap (byte_at 5) (backwards (codes "$" ++ decimal i) (codes "$" ++ decimal j) _ _ e)))

module _ (i : ℕ) where
  pub key_of_origin_data-ne-key_of_last : key_of_origin_data i ≢ key_of_last_transaction_id
  unfolding key_of_origin_data
  key_of_origin_data-ne-key_of_last e =
      absurd (omega (arith, ap (byte_at 0) (backwards (codes "$" ++ decimal i) [] _ _ e)))

  pub key_of_new_data-ne-key_of_last : key_of_new_data i ≢ key_of_last_transaction_id
  unfolding key_of_new_data
  key_of_new_data-ne-key_of_last e =
      absurd (omega (arith, ap (byte_at 0) (backwards (codes "$" ++ decimal i) [] _ _ e)))

  pub key_of_origin_data-ne-key_of_max : key_of_origin_data i ≢ key_of_max_snapshot_count
  unfolding key_of_origin_data
  key_of_origin_data-ne-key_of_max e =
      absurd (omega (arith, ap (byte_at 0) (backwards (codes "$" ++ decimal i) [] _ _ e)))

  pub key_of_new_data-ne-key_of_max : key_of_new_data i ≢ key_of_max_snapshot_count
  unfolding key_of_new_data
  key_of_new_data-ne-key_of_max e =
      absurd (omega (arith, ap (byte_at 0) (backwards (codes "$" ++ decimal i) [] _ _ e)))
