-- ===== src/V1/Frame.antt =====
-- Which keys the writes of abciapp_v1.0/statedb/txstate.go leave alone.
use bcbchain.Base.{
  Bytes, bytes_eq, bytes_eq_refl, is_empty, List, lookup-insert, false, Option, none, some, ◌≡◌,
  refl, ◌∙◌, arith, Option-cases, Bool-cases, inl, inr,
}
use bcbchain.Statedb.Tx
use bcbchain.Statedb.Tx.{Tx}
use bcbchain.V1.Reply.{TxState, Op, Reply, done, failed, crashed, ◌>>=◌, continue, decoded}
use bcbchain.V1.Types.{StateJson}
use bcbchain.V1.State.{get, set, get_child_keys, add_child_key, with_child_key, store_child_keys}

-- Whatever the operation's result, the value of the key is the old one.
abbrev pub Keeps {ℓ} : {A : Type ℓ} → Bytes → Op A → Type 0
Keeps k m = (s : TxState) → get k ((m s).1) ≡ get k s

pub set-Keeps : (key value k : Bytes) → bytes_eq key k ≡ false → Keeps k (set key value)
unfolding get set Tx.get Tx.set
set-Keeps key value k other s = elim (Option-cases (s.tx)) [
  | inl closed ↦ rw closed refl
  | inr (t, e) ↦ ground (arith, e, lookup-insert key k value t.buffer)
]

-- A write that is done is what a read of the key returns.
pub get-set :
    (key value : Bytes) (s s' : TxState) {b : Unit {0}}
    → set key value s ≡ (done b, s')
    → is_empty value ≡ false
    → get key s' ≡ value
unfolding get set Tx.get Tx.set
get-set key value s s' run full = elim (Option-cases (s.tx)) [
  | inl closed ↦ absurd (ground (arith, closed))
  | inr (t, e) ↦ ground (arith, e, bytes_eq_refl key, lookup-insert key key value t.buffer)
]

continue-Keeps {ℓ κ} :
    {A : Type ℓ} {B : Type κ} (k : Bytes) (r : Reply A) (f : A → Op B)
    → ((a : A) → Keeps k (f a))
    → (s : TxState) → get k ((continue r f s).1) ≡ get k s
continue-Keeps k (done a) f rest s = rest a s
continue-Keeps k (failed e) f rest s = refl
continue-Keeps k crashed f rest s = refl

pub >>=-Keeps {ℓ κ} :
    {A : Type ℓ} {B : Type κ} (k : Bytes) (m : Op A) (f : A → Op B)
    → Keeps k m
    → ((a : A) → Keeps k (f a))
    → Keeps k (m >>= f)
>>=-Keeps k m f first rest s = continue-Keeps k ((m s).0) f rest ((m s).1) ∙ first s

decoded-Keeps {ℓ} : {A : Type ℓ} (k : Bytes) (o : Option A) → Keeps k (decoded o)
decoded-Keeps k none s = refl
decoded-Keeps k (some a) s = refl

module _ (J : StateJson) where
  pub get_child_keys-Keeps : (key k : Bytes) → Keeps k (get_child_keys J key)
  unfolding get_child_keys
  get_child_keys-Keeps key k s = elim (Bool-cases (is_empty (get key s))) [
    | inl e ↦ rw e refl
    | inr e ↦ rw e (decoded-Keeps k (StateJson.decode_keys J (get key s)) s)
  ]

  store_child_keys-Keeps :
      (key k : Bytes) (o : Option (List Bytes))
      → bytes_eq key k ≡ false
      → Keeps k (store_child_keys J key o)
  unfolding store_child_keys
  store_child_keys-Keeps key k none other s = refl
  store_child_keys-Keeps key k (some keys) other s =
      set-Keeps key (StateJson.encode_keys J keys) k other s

  pub add_child_key-Keeps :
      (key child k : Bytes) → bytes_eq key k ≡ false → Keeps k (add_child_key J key child)
  unfolding add_child_key
  add_child_key-Keeps key child k other =
      >>=-Keeps k (get_child_keys J key)
        (λ keys. store_child_keys J key (with_child_key keys child)) (get_child_keys-Keeps key k)
        (λ keys. store_child_keys-Keeps key k (with_child_key keys child) other)
