-- ===== src/V1/Byb/Chromos.antt =====
-- abciapp_v1.0/contract/tokenbyb/tokenbyb.go: the computations on lists of amounts by chromo.
use bcbchain.Base.{
  Bytes, codes, bytes_eq, ℕ, ◌+◌, ◌-◌, ◌*◌, ◌/◌, ◌^◌, ◌<◌, Bool, true, false, ◌&&◌, Option, none,
  some, List, [], ◌∷◌, ◌++◌, ◌≡◌, leb, if◌then◌else◌,
}
use bcbchain.Base.Int.{ℤ, pos, ◌+ℤ◌, ◌-ℤ◌, ltb_ℤ, eqb_ℤ}

-- `smc.Chromo` is a string.
pub record BybBalance : Type 0 where
  pub chromo : Bytes
  pub value : ℤ

abbrev pub white_chromo : Bytes
white_chromo = codes "0"

-- bclib's bignumber over math/big: `SafeMul` and `SafeDiv`, exact on numbers that are not negative.
pub record SafeMath : Type 0 where
  pub mul : ℤ → ℤ → ℤ
  pub div : ℤ → ℤ → ℤ
  pub mul-pos : (a b : ℕ) → mul (pos a) (pos b) ≡ pos (a * b)
  pub div-pos : (a b : ℕ) → 0 < b → div (pos a) (pos b) ≡ pos (a / b)

-- `calcTotalBalance`
unfoldable pub calc_total_balance : List BybBalance → ℤ
calc_total_balance [] = pos 0
calc_total_balance (x ∷ chromoinfo) = x.value +ℤ calc_total_balance chromoinfo

-- What an entry gives up in `calcTransferBybChromo`: its share of the value, at least one unit and
-- at most what is still to be transferred; none for a share above the entry's own value.
unfoldable pub trans_value : SafeMath → ℤ → ℤ → ℤ → ℤ → Option ℤ
trans_value M value total_balance surplus own =
    let share = SafeMath.div M (SafeMath.mul M value own) total_balance in
    if ltb_ℤ own share
    then none
    else some
        (if ltb_ℤ surplus share then surplus else if eqb_ℤ share (pos 0) then pos 1 else share)

-- An entry's remainder is kept for the sender, if there is any.
unfoldable pub keep_rest : BybBalance → ℤ → List BybBalance → List BybBalance
keep_rest c given sender_new =
    if ltb_ℤ (pos 0) (c.value -ℤ given)
    then record { chromo = c.chromo; value = c.value -ℤ given } ∷ sender_new
    else sender_new

abbrev pub add_sender :
    BybBalance
    → Option (List BybBalance × List BybBalance)
    → Option (List BybBalance × List BybBalance)
add_sender c none = none
add_sender c (some (sender_new, payee)) = some (c ∷ sender_new, payee)

abbrev pub add_both :
    BybBalance
    → ℤ
    → Option (List BybBalance × List BybBalance)
    → Option (List BybBalance × List BybBalance)
add_both c given none = none
add_both c given (some (sender_new, payee)) =
    some (keep_rest c given sender_new, record { chromo = c.chromo; value = given } ∷ payee)

-- The loop of `calcTransferBybChromo`, with what has been transferred so far.
unfoldable pub calc_transfer_loop :
    SafeMath → ℤ → ℤ → ℤ → List BybBalance → Option (List BybBalance × List BybBalance)
calc_transfer_loop M value total_balance total_trans [] = some ([], [])
calc_transfer_loop M value total_balance total_trans (c ∷ sender_byb) =
    let surplus = value -ℤ total_trans in
    elim (eqb_ℤ (c.value) (pos 0)) [
      | true ↦ calc_transfer_loop M value total_balance total_trans sender_byb
      | false ↦ elim (eqb_ℤ surplus (pos 0)) [
        | true ↦ add_sender c (calc_transfer_loop M value total_balance total_trans sender_byb)
        | false ↦ elim (ltb_ℤ surplus (pos 0)) [
          | true ↦ none
          | false ↦ elim (trans_value M value total_balance surplus (c.value)) [
            | none ↦ none
            | some given ↦
                add_both c given
                  (calc_transfer_loop M value total_balance (total_trans +ℤ given) sender_byb)
          ]
        ]
      ]
    ]

-- `calcTransferBybChromo`: what the sender keeps and what the payee gets, none for the error.
unfoldable pub calc_transfer_byb_chromo :
    SafeMath → List BybBalance → ℤ → Option (List BybBalance × List BybBalance)
calc_transfer_byb_chromo M sender_byb value =
    calc_transfer_loop M value (calc_total_balance sender_byb) (pos 0) sender_byb

-- The entry of the second round that is added to one of the first.
unfoldable pub with_second : BybBalance → List BybBalance → BybBalance
with_second ch [] = ch
with_second ch (sr ∷ sr_payee) =
    let rest = with_second ch sr_payee in
    if bytes_eq (ch.chromo) (sr.chromo) then record ch { value = ch.value +ℤ sr.value } else rest

-- The loop at the end of `calcAndSetSenderBalance`
unfoldable pub merged : List BybBalance → List BybBalance → List BybBalance
merged [] sr_payee = []
merged (ch ∷ payee) sr_payee = with_second ch sr_payee ∷ merged payee sr_payee

-- The first entry of a chromo: its value, and the list with that value reset to zero.
unfoldable pub take_added : Bytes → List BybBalance → Option (ℤ × List BybBalance)
take_added chromo [] = none
take_added chromo (n ∷ added) = elim (bytes_eq chromo (n.chromo)) [
  | true ↦ some (n.value, record n { value = pos 0 } ∷ added)
  | false ↦ elim (take_added chromo added) [ none ↦ none | some (v, added') ↦ some (v, n ∷ added') ]
]

-- The first loop of `setPayeeBalance`: the old entries with what is added to them, and what is left.
unfoldable pub add_to_old : List BybBalance → List BybBalance → List BybBalance × List BybBalance
add_to_old [] added = ([], added)
add_to_old (c ∷ old) added = elim (take_added (c.chromo) added) [
  | none ↦ let rest = add_to_old old added in (c ∷ rest.0, rest.1)
  | some (v, added') ↦
      let rest = add_to_old old added' in (record c { value = c.value +ℤ v } ∷ rest.0, rest.1)
]

-- The second loop: the entries that have not been reset.
unfoldable pub not_zero : List BybBalance → List BybBalance
not_zero [] = []
not_zero (n ∷ added) =
    let rest = not_zero added in if eqb_ℤ (n.value) (pos 0) then rest else n ∷ rest

-- The list that `setPayeeBalance` stores.
unfoldable pub payee_balance : List BybBalance → List BybBalance → List BybBalance
payee_balance old_byb added_byb =
    let both = add_to_old old_byb added_byb in both.0 ++ not_zero (both.1)

-- The search of `checkAndSetSenderChromoBybBalance`: the first entry of a chromo.
unfoldable pub find_chromo : Bytes → List BybBalance → Option BybBalance
find_chromo chromo [] = none
find_chromo chromo (token ∷ byb) =
    let rest = find_chromo chromo byb in if bytes_eq (token.chromo) chromo then some token else rest

-- Its second loop: the value is taken from that entry, which goes away at zero if `drop_zero`.
unfoldable pub take_chromo : Bool → Bytes → ℤ → List BybBalance → List BybBalance
take_chromo drop_zero chromo value [] = []
take_chromo drop_zero chromo value (token ∷ byb) =
    let rest = take_chromo drop_zero chromo value byb in
    let left = token.value -ℤ value in
    if bytes_eq (token.chromo) chromo
    then (if drop_zero && eqb_ℤ left (pos 0) then byb else record token { value = left } ∷ byb)
    else token ∷ rest

-- The loop of `changeChromoOwnership`: the list without the first entry of a chromo.
unfoldable pub without_chromo : Bytes → List BybBalance → List BybBalance
without_chromo chromo [] = []
without_chromo chromo (token ∷ byb) =
    let rest = without_chromo chromo byb in
    if bytes_eq (token.chromo) chromo then byb else token ∷ rest

-- `strconv.ParseUint` in base 10 with 64 bits, without its error.
unfoldable pub parse_uint : ℕ → Bytes → ℕ
parse_uint n [] = n
parse_uint n (c ∷ s) =
    let next = n * 10 + (c - 48) in
    let rest = parse_uint next s in
    if leb 48 c && leb c 57 then (if leb (2 ^ 64) next then 2 ^ 64 - 1 else rest) else 0
