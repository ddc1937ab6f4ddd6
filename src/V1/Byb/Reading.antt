-- ===== src/V1/Byb/Reading.antt =====
-- Which keys of abciapp_v1.0/contract/tokenbyb/statedb.go differ, and operations that only read.
use mathlib.Core.List.{append_cancel_left, append_cancel_right}
use bcbchain.Base.{
  Bytes, codes, bytes_eq, bytes_ne, is_empty, ℕ, suc, ◌+◌, ◌≤◌, Bool, true, false, ◌==◌, Option,
  none, some, [], ◌∷◌, ◌++◌, ◌≡◌, refl, ap, ◌∙◌, inl, inr, if◌then◌else◌, arith, Bool-cases,
}
use bcbchain.Helper.Keys.{key_of_account, key_of_account_token}
use bcbchain.V1.Keys.{has_slash}
use bcbchain.V1.Reply.{Reply, TxState, Op, done, failed, crashed, ◌>>=◌, continue, decoded}
use bcbchain.V1.Byb.Store.{key_of_byb}

pub slashes : Bytes → ℕ
slashes [] = 0
slashes (c ∷ a) = let rest = slashes a in if c == 47 then suc rest else rest

pub slashes-append : (a b : Bytes) → slashes (a ++ b) ≡ slashes a + slashes b
unfolding slashes
slashes-append [] b = omega arith
slashes-append (c ∷ a) b = ground (arith, slashes-append a b)

pub slashes_none : (a : Bytes) → has_slash a ≡ false → slashes a ≡ 0
unfolding slashes has_slash
slashes_none [] h = refl
slashes_none (c ∷ a) h = ground (arith, slashes_none a)

pub slashes_byb : (a : Bytes) → has_slash a ≡ false → slashes (key_of_byb a) ≡ 4
unfolding key_of_byb key_of_account slashes
slashes_byb a h =
    rw (slashes-append (codes "/account/ex/" ++ a) (codes "/byb"), slashes_none a h) refl

pub slashes_token : (a token : Bytes) → 5 ≤ slashes (key_of_account_token a token)
unfolding key_of_account_token slashes
slashes_token a token =
    rw (slashes-append (codes "/account/ex/" ++ a) (codes "/token/" ++ token)) (omega arith)

pub slashes_account : (a : Bytes) → has_slash a ≡ false → slashes (key_of_account a) ≡ 3
unfolding key_of_account slashes
slashes_account a h = rw (slashes_none a h) refl

pub some_byb : (b : Bytes) → 4 ≤ slashes (key_of_byb b)
unfolding key_of_byb key_of_account slashes
some_byb b = rw (slashes-append (codes "/account/ex/" ++ b) (codes "/byb")) (omega arith)

-- The key of an account's amounts is no other key that `setBybBalance` writes.
pub byb_ne_token :
    (a b token : Bytes)
    → has_slash a ≡ false
    → bytes_eq (key_of_byb a) (key_of_account_token b token) ≡ false
byb_ne_token a b token h =
    bytes_ne (key_of_byb a) (key_of_account_token b token)
      λ e. absurd (omega (arith, slashes_byb a h, slashes_token b token, ap slashes e))

pub token_ne_byb :
    (a b token : Bytes)
    → has_slash b ≡ false
    → bytes_eq (key_of_account_token a token) (key_of_byb b) ≡ false
token_ne_byb a b token h =
    bytes_ne (key_of_account_token a token) (key_of_byb b)
      λ e. absurd (omega (arith, slashes_byb b h, slashes_token a token, ap slashes e))

pub account_ne_byb :
    (a b : Bytes) → has_slash a ≡ false → bytes_eq (key_of_account a) (key_of_byb b) ≡ false
account_ne_byb a b h =
    bytes_ne (key_of_account a) (key_of_byb b)
      λ e. absurd (omega (arith, slashes_account a h, some_byb b, ap slashes e))

pub byb_injective : (a b : Bytes) → key_of_byb a ≡ key_of_byb b → a ≡ b
unfolding key_of_byb key_of_account
byb_injective a b e =
    append_cancel_left (codes "/account/ex/") a b (append_cancel_right _ _ (codes "/byb") e)

-- The operation changes nothing.
abbrev pub Reads {ℓ} : {A : Type ℓ} → Op A → Type 0
Reads m = (s : TxState) → (m s).1 ≡ s

pub continue-Reads {ℓ κ} :
    {A : Type ℓ} {B : Type κ} (r : Reply A) (f : A → Op B)
    → ((a : A) → Reads (f a))
    → (s : TxState) → (continue r f s).1 ≡ s
continue-Reads (done a) f h s = h a s
continue-Reads (failed e) f h s = refl
continue-Reads crashed f h s = refl

pub >>=-Reads {ℓ κ} :
    {A : Type ℓ} {B : Type κ} (m : Op A) (f : A → Op B)
    → Reads m
    → ((a : A) → Reads (f a))
    → Reads (m >>= f)
>>=-Reads m f h h' s = continue-Reads ((m s).0) f h' ((m s).1) ∙ h s

pub decoded-Reads {ℓ} : {A : Type ℓ} (o : Option A) → Reads (decoded o)
decoded-Reads none s = refl
decoded-Reads (some a) s = refl

pub if-Reads {ℓ} :
    {A : Type ℓ} (c : Bool) (m k : Op A) → Reads m → Reads k → Reads (if c then m else k)
if-Reads true m k h h' = h
if-Reads false m k h h' = h'

-- A value that is looked up and decoded.
abbrev pub look_up {ℓ} : {A : Type ℓ} → A → (Bytes → Option A) → Bytes → Op A
look_up default decode value s =
    if is_empty value then (done default, s) else decoded (decode value) s

pub look_up-Reads {ℓ} :
    {A : Type ℓ} (default : A) (decode : Bytes → Option A) (value : Bytes)
    → Reads (look_up default decode value)
look_up-Reads default decode value s = elim (Bool-cases (is_empty value)) [
  | inl e ↦ rw e refl
  | inr e ↦ rw e (decoded-Reads (decode value) s)
]

pub decoded_reply {ℓ} :
    {A : Type ℓ} (o : Option A) (s s' : TxState) → (decoded o s).0 ≡ (decoded o s').0
decoded_reply none s s' = refl
decoded_reply (some a) s s' = refl

pub look_up_reply {ℓ} :
    {A : Type ℓ} (default : A) (decode : Bytes → Option A) (value : Bytes) (s s' : TxState)
    → (look_up default decode value s).0 ≡ (look_up default decode value s').0
look_up_reply default decode value s s' = elim (Bool-cases (is_empty value)) [
  | inl e ↦ rw e refl
  | inr e ↦ rw e (decoded_reply (decode value) s s')
]
