-- ===== src/V1/Byb/Numbers.antt =====
-- The numbers of chromos in abciapp_v1.0/contract/tokenbyb, printed and read back.
use bcbchain.Base.{
  Bytes, is_empty, ℕ, suc, ◌+◌, ◌-◌, ◌*◌, ◌%◌, ◌^◌, ◌<◌, ◌==◌, true, false, some, zero, [], ◌∷◌,
  ◌≡◌, refl, sym, ◌∙◌, arith, Bool-cases, inl, inr,
}
use bcbchain.Base.Decimal.{decimal, Reads, decimal-Reads}
use bcbchain.V1.Byb.Chromos.{parse_uint}
use bcbchain.V1.Byb.Holders.{next_chromo}

parse_uint-Reads : (acc : ℕ) (s : Bytes) (n : ℕ) → Reads (2 ^ 64) acc s n → parse_uint acc s ≡ n
unfolding parse_uint Reads
parse_uint-Reads acc [] n read = read
parse_uint-Reads acc (c ∷ s) n (low, high, small, read) =
    ground (arith, parse_uint-Reads (acc * 10 + (c - 48)) s n read)

pub parse_uint-decimal : (n : ℕ) → n < 2 ^ 64 → parse_uint 0 (decimal n) ≡ n
parse_uint-decimal n small = parse_uint-Reads 0 (decimal n) n (decimal-Reads (2 ^ 64) n small)

-- The text that is stored when a number of chromos has been made.
unfoldable pub chromo_of : ℕ → Bytes
chromo_of zero = []
chromo_of (suc n) = decimal (suc n)

empty-parse_uint : (s : Bytes) → is_empty s ≡ true → parse_uint 0 s ≡ 0
unfolding parse_uint
empty-parse_uint [] e = refl
empty-parse_uint (c ∷ s) e = cc

pub decimal_nonempty : (n : ℕ) → suc n < 2 ^ 64 → is_empty (decimal (suc n)) ≡ false
decimal_nonempty n small = elim (Bool-cases (is_empty (decimal (suc n)))) [
  | inl e ↦
      let nothing : suc n ≡ 0 =
        sym (parse_uint-decimal (suc n) small) ∙ empty-parse_uint (decimal (suc n)) e in
      absurd (omega arith)
  | inr e ↦ e
]

-- For fewer than 2^64 - 1 chromos, calcNewChromo reads back the number that it has stored and
-- stores the next one: after n chromos the stored text, which is empty at the start and then the
-- decimal number n, becomes the decimal number n + 1.
pub next_chromo-chromo_of :
    (n : ℕ) → suc n < 2 ^ 64 → next_chromo (chromo_of n) ≡ some (chromo_of (suc n))
unfolding next_chromo chromo_of
next_chromo-chromo_of zero small = refl
next_chromo-chromo_of (suc n) small =
    let positive : (suc n == 0) ≡ false = ground arith in
    let counted : (suc n + 1) % 2 ^ 64 ≡ suc (suc n) = omega arith in
    rw
      (
        next_chromo,
        decimal_nonempty n (omega arith),
        parse_uint-decimal (suc n) (omega arith),
        positive,
        counted,
      )
      refl

pub parse_uint-chromo_of : (n : ℕ) → n < 2 ^ 64 → parse_uint 0 (chromo_of n) ≡ n
unfolding parse_uint chromo_of
parse_uint-chromo_of zero small = refl
parse_uint-chromo_of (suc n) small = parse_uint-decimal (suc n) small
