-- ===== src/V1/Sample.antt =====
-- Encodings that meet the laws of `StateJson` and a multiplication that meets that of `BigNumber`,
-- for the tests.
use bcbchain.Base.{
  Bytes, ℕ, Bool, true, false, Option, none, some, List, [], ◌∷◌, ◌==◌, ◌≡◌, refl, ap, ◌∙◌,
}
use bcbchain.Base.Int.{ℤ, pos}
use bcbchain.Db.Sample.{decode_number}
use bcbchain.Helper.Sample.{sample_accounts}
use bcbchain.V1.Types.{IssueToken, Contract, StateJson}
use bcbchain.V1.Token.{BigNumber, scale}
open sample_accounts use {
  encode_balance, decode_balance, encode_keys, decode_keys, decode_keys-encode_keys,
  decode_balance-encode_balance, encode_keys_nonempty,
}

abbrev flag : Bool → ℕ
flag true = 1
flag false = 0

abbrev decode_address : Bytes → Option Bytes
decode_address [] = none
decode_address (c ∷ a) = some a

abbrev encode_token : IssueToken → Bytes
encode_token t = encode_keys (
    t.address
    ∷ t.owner
    ∷ t.version
    ∷ t.name
    ∷ t.symbol
    ∷ encode_balance [] (t.total_supply)
    ∷ (flag (t.add_supply_enabled) ∷ [])
    ∷ (flag (t.burn_enabled) ∷ [])
    ∷ (t.gas_price ∷ [])
    ∷ [])

abbrev with_supply :
    Bytes → Bytes → Bytes → Bytes → Bytes → ℕ → ℕ → ℕ → Option ℤ → Option IssueToken
with_supply a o v n y add burn gas none = none
with_supply a o v n y add burn gas (some supply) = some (record {
  address = a;
  owner = o;
  version = v;
  name = n;
  symbol = y;
  total_supply = supply;
  add_supply_enabled = add == 1;
  burn_enabled = burn == 1;
  gas_price = gas;
})

abbrev token_of : Option (List Bytes) → Option IssueToken
token_of (some (a ∷ o ∷ v ∷ n ∷ y ∷ supply ∷ (add ∷ []) ∷ (burn ∷ []) ∷ (gas ∷ []) ∷ [])) =
    with_supply a o v n y add burn gas (decode_balance supply)
token_of _ = none

abbrev decode_token : Bytes → Option IssueToken
decode_token value = token_of (decode_keys value)

flag_eq : (b : Bool) → (flag b == 1) ≡ b
flag_eq true = refl
flag_eq false = refl

pub decode_token-encode : (t : IssueToken) → decode_token (encode_token t) ≡ some t
decode_token-encode t =
    let build : Option ℤ → Option IssueToken =
      with_supply (t.address) (t.owner) (t.version) (t.name) (t.symbol)
        (flag (t.add_supply_enabled)) (flag (t.burn_enabled)) (t.gas_price) in
    ap token_of (
      decode_keys-encode_keys (
        t.address
        ∷ t.owner
        ∷ t.version
        ∷ t.name
        ∷ t.symbol
        ∷ encode_balance [] (t.total_supply)
        ∷ (flag (t.add_supply_enabled) ∷ [])
        ∷ (flag (t.burn_enabled) ∷ [])
        ∷ (t.gas_price ∷ [])
        ∷ []))
    ∙ (ap build (decode_balance-encode_balance [] (t.total_supply))
        ∙ rw (flag_eq (t.add_supply_enabled), flag_eq (t.burn_enabled)) refl)

-- Only addresses, owners and heights of a contract are kept: no law asks for more.
abbrev encode_contract : Contract → Bytes
encode_contract c =
    encode_keys (
      c.address ∷ c.owner ∷ c.name ∷ c.version ∷ (c.effect_height ∷ []) ∷ (c.lose_height ∷ []) ∷ [])

abbrev contract_of : Option (List Bytes) → Option Contract
contract_of (some (a ∷ o ∷ n ∷ v ∷ (effect ∷ []) ∷ (lose ∷ []) ∷ [])) = some (record {
  address = a;
  owner = o;
  name = n;
  version = v;
  code_hash = [];
  methods = [];
  effect_height = effect;
  lose_height = lose;
  chain_version = pos 0;
  org_id = [];
})
contract_of _ = none

abbrev pub sample_state : StateJson
sample_state = record {
  encode_balance = encode_balance;
  decode_balance = decode_balance;
  encode_keys = encode_keys;
  decode_keys = decode_keys;
  encode_token = encode_token;
  decode_token = decode_token;
  encode_contract = encode_contract;
  decode_contract = λ v. contract_of (decode_keys v);
  encode_address = λ a. 0 ∷ a;
  decode_address = decode_address;
  encode_strategys = λ l. [];
  decode_strategys = λ v. none;
  encode_price = λ n. n ∷ [];
  decode_price = decode_number;
  decode_block_height = decode_number;
  decode_rewarders = λ v. [];
  decode_balance-encode_balance = decode_balance-encode_balance;
  encode_balance_nonempty = sample_accounts.encode_balance_nonempty;
  decode_token-encode_token = decode_token-encode;
  encode_token_nonempty = λ t. encode_keys_nonempty (
      t.address
      ∷ t.owner
      ∷ t.version
      ∷ t.name
      ∷ t.symbol
      ∷ encode_balance [] (t.total_supply)
      ∷ (flag (t.add_supply_enabled) ∷ [])
      ∷ (flag (t.burn_enabled) ∷ [])
      ∷ (t.gas_price ∷ [])
      ∷ []);
}

pub some_injective : (a b : ℤ) → some a ≡ some b → b ≡ a
some_injective a b e = cc

abbrev pub sample_big_number : BigNumber
sample_big_number = record {
  multi = λ v n. some (scale n v);
  multi-eq-some = λ v n r e. some_injective (scale n v) r e;
}
