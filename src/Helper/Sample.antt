-- ===== src/Helper/Sample.antt =====
-- Concrete encodings of the values of accounts, which show that the assumptions can be met.
use bcbchain.Base.{
  Bytes, GoMap, is_empty, zero, suc, ◌≡◌, refl, ap, ◌∙◌, false, Option, none, some, List, [], ◌∷◌,
  map,
}
use bcbchain.Base.Int.{ℤ, pos, negsuc}
use bcbchain.Db.Sample.{
  decode_number, decode_number-one, encode_entries, decode_all, decode_all-encode,
  encode_entries_nonempty,
}
use bcbchain.Helper.Accounts.{AccountJson}

unfoldable pub encode_integer : ℤ → Bytes
encode_integer (pos n) = 0 ∷ n ∷ []
encode_integer (negsuc n) = 1 ∷ n ∷ []

unfoldable pub decode_integer : Bytes → Option ℤ
decode_integer (zero ∷ n ∷ []) = some (pos n)
decode_integer (suc s ∷ n ∷ []) = some (negsuc n)
decode_integer _ = none

pub decode_integer-encode : (v : ℤ) → decode_integer (encode_integer v) ≡ some v
unfolding decode_integer encode_integer
decode_integer-encode (pos n) = refl
decode_integer-encode (negsuc n) = refl

pub encode_integer_nonempty : (v : ℤ) → is_empty (encode_integer v) ≡ false
unfolding encode_integer
encode_integer_nonempty (pos n) = refl
encode_integer_nonempty (negsuc n) = refl

abbrev pub as_entries : List Bytes → GoMap Bytes
as_entries = map (λ k. (k, []))

abbrev pub entry_keys : GoMap Bytes → List Bytes
entry_keys = map (λ e. e.0)

pub entry_keys-as_entries : (l : List Bytes) → entry_keys (as_entries l) ≡ l
entry_keys-as_entries [] = refl
entry_keys-as_entries (k ∷ l) = ap (◌∷◌ k) (entry_keys-as_entries l)

abbrev pub decode_list : Bytes → Option (List Bytes)
decode_list s = elim (decode_all s) [ none ↦ none | some m ↦ some (entry_keys m) ]

pub decode_list-encode : (l : List Bytes) → decode_list (encode_entries (as_entries l)) ≡ some l
decode_list-encode l =
    ap {B = Option (List Bytes)} (λ o. elim o [ none ↦ none | some m ↦ some (entry_keys m) ])
      (decode_all-encode (as_entries l))
    ∙ ap some (entry_keys-as_entries l)

abbrev pub sample_accounts : AccountJson
sample_accounts = record {
  encode_nonce = λ n. n ∷ [];
  decode_nonce = decode_number;
  encode_balance = λ token v. encode_integer v;
  decode_balance = decode_integer;
  encode_keys = λ l. encode_entries (as_entries l);
  decode_keys = decode_list;
  decode_nonce-encode_nonce = decode_number-one;
  decode_balance-encode_balance = λ token v. decode_integer-encode v;
  decode_keys-encode_keys = decode_list-encode;
  encode_nonce_nonempty = λ n. refl;
  encode_balance_nonempty = λ token v. encode_integer_nonempty v;
  encode_keys_nonempty = λ l. encode_entries_nonempty (as_entries l);
}
