-- ===== src/V1/Reply.antt =====
-- abciapp_v1.0/bcerrors and the results of the operations of abciapp_v1.0: a value or an error code,
-- with the state that is left either way. A contract that fails leaves what it has written so far;
-- its caller rolls the Tx back.
use bcbchain.Base.{ap, sym, Bool, true, false, ◌≡◌, refl, Bytes, Option, none, some, if◌then◌else◌}
use native.Mathlib.Omega.{arith}
use bcbchain.Statedb.Tx.{Tx}

-- The error codes that the modelled operations return, by the words of their names.
pub data ErrorCode : Type 0 where
  low_level_error : ErrorCode
  invalid_parameter : ErrorCode
  unsupport_trans_to_self : ErrorCode
  insufficient_balance : ErrorCode
  invalid_balance : ErrorCode
  out_of_range : ErrorCode
  no_authorization : ErrorCode
  invalid_supply : ErrorCode
  invalid_gas_price : ErrorCode
  invalid_gas_limit : ErrorCode
  invalid_fee : ErrorCode
  no_token : ErrorCode
  no_genesis : ErrorCode
  no_strategys : ErrorCode
  invalid_addr : ErrorCode
  unsupport_add_supply : ErrorCode
  unsupport_burn : ErrorCode
  not_find_contract : ErrorCode
  dup_name : ErrorCode
  dup_symbol : ErrorCode
  min_user_code : ErrorCode
  beyond_maximum_stock_holders : ErrorCode
  byb_initialized : ErrorCode
  byb_owned_byb : ErrorCode
  byb_holder_not_found : ErrorCode

-- `crashed` is a run-time panic.
pub data Reply {ℓ} (A : Type ℓ) : Type ℓ where
  done : A → Reply A
  failed : ErrorCode → Reply A
  crashed : Reply A

-- What an operation of a contract reads and writes: the values that `StateDB.Get` shows, and the
-- transaction's `Tx`. The copies of a `TxState` share its `Tx`.
pub record TxState : Type 0 where
  pub state_db : Bytes → Bytes
  pub tx : Option Tx

abbrev pub Op {ℓ} : Type ℓ → Type ℓ
Op A = TxState → Reply A × TxState

-- The rest of an operation behind a reply.
abbrev pub continue {ℓ κ} :
    {A : Type ℓ} {B : Type κ} → Reply A → (A → Op B) → TxState → Reply B × TxState
continue (done a) f s = f a s
continue (failed e) f s = (failed e, s)
continue crashed f s = (crashed, s)

infixl 5 ◌>>=◌ ◌>>◌
abbrev pub ◌>>=◌ {ℓ κ} : {A : Type ℓ} {B : Type κ} → Op A → (A → Op B) → Op B
◌>>=◌ m f s = continue ((m s).0) f ((m s).1)

abbrev pub ◌>>◌ {ℓ} : {B : Type ℓ} → Op (Unit {0}) → Op B → Op B
m >> k = m >>= λ _. k

abbrev pub pure {ℓ} : {A : Type ℓ} → A → Op A
pure a s = (done a, s)

abbrev pub fail {ℓ} : {A : Type ℓ} → ErrorCode → Op A
fail e s = (failed e, s)

-- `if cond { smcError.ErrorCode = e; return }`
abbrev pub fail_if : Bool → ErrorCode → Op (Unit {0})
fail_if c e s = if c then (failed e, s) else (done tt, s)

abbrev pub crash {ℓ} : {A : Type ℓ} → Op A
crash s = (crashed, s)

-- A result whose error is not looked at: `value, _ := f()`.
abbrev pub value_or {ℓ} : {A : Type ℓ} → A → Reply A → Reply A
value_or default (done a) = done a
value_or default (failed e) = done default
value_or default crashed = crashed

abbrev pub ignore_error {ℓ} : {A : Type ℓ} → A → Op A → Op A
ignore_error default m s = (value_or default ((m s).0), (m s).1)

-- The value of a result whose error is not reported: none where there is an error.
abbrev pub value_if_ok {ℓ} : {A : Type ℓ} → Reply A → Reply (Option A)
value_if_ok (done a) = done (some a)
value_if_ok (failed e) = done none
value_if_ok crashed = crashed

abbrev pub attempt {ℓ} : {A : Type ℓ} → Op A → Op (Option A)
attempt m s = (value_if_ok ((m s).0), (m s).1)

-- The result of a decoding.
abbrev pub decoded {ℓ} : {A : Type ℓ} → Option A → Op A
decoded none = fail low_level_error
decoded (some a) = pure a

continue_inversion {ℓ κ} :
    {A : Type ℓ} {B : Type κ} (r : Reply A) (f : A → Op B) (s : TxState) {b : B} {s' : TxState}
    → continue r f s ≡ (done b, s')
    → (a : A) × (r ≡ done a) × (f a s ≡ (done b, s'))
continue_inversion (done a) f s h = (a, refl, h)
continue_inversion (failed e) f s h = cc
continue_inversion crashed f s h = cc

-- Inversion of a bind that is done.
pub >>=_inversion {ℓ κ} :
    {A : Type ℓ} {B : Type κ} (m : Op A) (f : A → Op B) (s : TxState) {b : B} {s' : TxState}
    → (m >>= f) s ≡ (done b, s')
    → (a : A) × (s₁ : TxState) × (m s ≡ (done a, s₁)) × (f a s₁ ≡ (done b, s'))
>>=_inversion m f s h =
    let (a, e, rest) = continue_inversion ((m s).0) f ((m s).1) h in
    (a, (m s).1, (λ i. (e i, (m s).1)), rest)

-- Inversion of a guard that is passed.
pub fail_if_inversion :
    (c : Bool) (e : ErrorCode) (s s' : TxState) {b : Unit {0}}
    → fail_if c e s ≡ (done b, s')
    → (c ≡ false) × (s' ≡ s)
fail_if_inversion true e s s' h = cc
fail_if_inversion false e s s' h = (refl, ground arith)

-- Inversion of a guard and what follows it.
pub passed_guard {ℓ} :
    {A : Type ℓ} (c : Bool) (e : ErrorCode) (rest : Op A) (s s' : TxState) {a : A}
    → (fail_if c e >> rest) s ≡ (done a, s')
    → (c ≡ false) × (rest s ≡ (done a, s'))
passed_guard true e rest s s' run = cc
passed_guard false e rest s s' run = (refl, run)

abbrev value_of_reply {ℓ} : {A : Type ℓ} → A → Reply A → A
value_of_reply default (done a) = a
value_of_reply default _ = default

pub done_injective {ℓ} :
    {A : Type ℓ} (a b : A) (s s' : TxState) → pure a s ≡ (done b, s') → (b ≡ a) × (s' ≡ s)
done_injective a b s s' e = (ap (λ r. value_of_reply a (r.0)) (sym e), ap (λ r. r.1) (sym e))
