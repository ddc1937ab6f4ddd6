-- ===== src/V1/Byb/Sample.antt =====
-- Encodings and arithmetic that meet the laws of `BybJson` and `SafeMath`, for the tests.
use bcbchain.Base.{Bytes, ◌*◌, ◌/◌, Option, none, some, List, [], ◌∷◌, ◌≡◌, refl, ap, ◌∙◌}
use bcbchain.Base.Int.{ℤ, pos}
use bcbchain.Helper.Sample.{sample_accounts}
use bcbchain.V1.Byb.Chromos.{BybBalance, SafeMath}
use bcbchain.V1.Byb.Store.{BybJson}
open sample_accounts use {
  encode_balance, decode_balance, encode_keys, decode_keys, decode_keys-encode_keys,
  decode_balance-encode_balance, encode_keys_nonempty,
}

-- Each entry as two texts.
abbrev flat : List BybBalance → List Bytes
flat [] = []
flat (c ∷ cs) = c.chromo ∷ encode_balance [] (c.value) ∷ flat cs

abbrev entry : Bytes → Option ℤ → Option (List BybBalance) → Option (List BybBalance)
entry chromo (some v) (some cs) = some (record { chromo = chromo; value = v } ∷ cs)
entry chromo _ _ = none

abbrev entries : List Bytes → Option (List BybBalance)
entries [] = some []
entries (chromo ∷ []) = none
entries (chromo ∷ value ∷ texts) = entry chromo (decode_balance value) (entries texts)

abbrev entries_of : Option (List Bytes) → Option (List BybBalance)
entries_of none = none
entries_of (some texts) = entries texts

abbrev addresses_of : Option (List Bytes) → Option (Option (List Bytes))
addresses_of none = none
addresses_of (some l) = some (some l)

pub entries-flat : (l : List BybBalance) → entries (flat l) ≡ some l
entries-flat [] = refl
entries-flat (c ∷ cs) = rw (decode_balance-encode_balance [] (c.value), entries-flat cs) refl

abbrev pub sample_byb : BybJson
sample_byb = record {
  encode_byb = λ l. encode_keys (flat l);
  decode_byb = λ v. entries_of (decode_keys v);
  encode_addresses = encode_keys;
  decode_addresses = λ v. addresses_of (decode_keys v);
  decode_byb-encode_byb = λ l. ap entries_of (decode_keys-encode_keys (flat l)) ∙ entries-flat l;
  encode_byb_nonempty = λ l. encode_keys_nonempty (flat l);
  decode_addresses-encode_addresses = λ l. ap addresses_of (decode_keys-encode_keys l);
  encode_addresses_nonempty = encode_keys_nonempty;
}

abbrev mul : ℤ → ℤ → ℤ
mul (pos a) (pos b) = pos (a * b)
mul _ _ = pos 0

abbrev quotient : ℤ → ℤ → ℤ
quotient (pos a) (pos b) = pos (a / b)
quotient _ _ = pos 0

abbrev pub sample_math : SafeMath
sample_math = record { mul = mul; div = quotient; mul-pos = λ a b. refl; div-pos = λ a b h. refl }
