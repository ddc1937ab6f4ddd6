-- ===== src/V1/Token/Success.antt =====
-- When `Transfer` of abciapp_v1.0/contract/tokentemplet/tokentemplet.go succeeds.
use bcbchain.Base.{
  Bytes, bytes_eq, bytes_eq_iff, bytes_ne, is_empty, Bool, false, Option, none, some, List, [], ◌≡◌,
  refl, sym, ap, ◌∙◌, if◌then◌else◌, arith, Bool-cases, inl, inr, codes,
}
use mathlib.Core.List.{append_cancel_left}
use bcbchain.Base.Int.{ℤ, pos, ◌+ℤ◌, ◌-ℤ◌, ◌≤ℤ◌, ltb_ℤ, -ℤ_parts, +ℤ_parts}
use bcbchain.Statedb.Tx
use bcbchain.Statedb.Tx.{Tx}
use bcbchain.Helper.Keys.{key_of_account, key_of_account_token}
use bcbchain.V1.Keys.{has_slash, account_ne_token}
use bcbchain.V1.Reply.{
  ErrorCode, low_level_error, insufficient_balance, invalid_balance, invalid_parameter,
  unsupport_trans_to_self, TxState, Op, Reply, done, failed, ◌>>=◌, ◌>>◌, fail_if, continue,
  decoded,
}
use bcbchain.V1.Types.{StateJson}
use bcbchain.V1.State.{
  get, set, get_child_keys, store_child_keys, with_child_key, add_child_key, register_balance,
  set_balance,
}
use bcbchain.V1.Context.{InvokeContext, balance}
use bcbchain.V1.Balances.{balance-eq-held, set_balance-Keeps}
use bcbchain.V1.Token.{pay, pay_from, receive, receive_to, transfer}
use bcbchain.V1.Token.Transfers.{has}

-- The operation is done, and the state still has a `Tx`.
abbrev pub Succeeds : Op (Unit {0}) → TxState → Type 0
Succeeds m s = (s' : TxState) × (m s ≡ (done tt, s')) × ((t : Tx) × (s'.tx ≡ some t))

set-Succeeds :
    (key value : Bytes) (s : TxState) (t : Tx) → s.tx ≡ some t → Succeeds (set key value) s
unfolding set
set-Succeeds key value s t open' =
    (record s { tx = some (Tx.set key value t) }, rw open' refl, (Tx.set key value t, refl))

>>-Succeeds :
    (m k : Op (Unit {0})) (s : TxState)
    → Succeeds m s
    → ((s₁ : TxState) (t : Tx) → m s ≡ (done tt, s₁) → s₁.tx ≡ some t → Succeeds k s₁)
    → Succeeds (m >> k) s
>>-Succeeds m k s (s₁, e, (t, open')) next =
    let (s₂, e₂, open₂) = next s₁ t e open' in
    (s₂, ap (λ r. continue (r.0) (λ _. k) (r.1)) e ∙ e₂, open₂)

abbrev reply_of {ℓ} : {A : Type ℓ} → Option A → Reply A
reply_of none = failed low_level_error
reply_of (some a) = done a

decoded-eq {ℓ} : {A : Type ℓ} (o : Option A) (s : TxState) → decoded o s ≡ (reply_of o, s)
decoded-eq none s = refl
decoded-eq (some a) s = refl

module _ (J : StateJson) where
  -- The account's list of keys can be read.
  abbrev pub Listed : Bytes → TxState → Type 0
  Listed addr s = (keys : List Bytes) × (get_child_keys J (key_of_account addr) s ≡ (done keys, s))

  store-Succeeds :
      (key : Bytes) (o : Option (List Bytes)) (s : TxState) (t : Tx)
      → s.tx ≡ some t
      → Succeeds (store_child_keys J key o) s
  unfolding store_child_keys set
  store-Succeeds key none s t open' = (s, refl, (t, open'))
  store-Succeeds key (some keys) s t open' =
      let t' = Tx.set key (StateJson.encode_keys J keys) t in
      (record s { tx = some t' }, rw open' refl, (t', refl))

  register-Succeeds :
      (addr token : Bytes) (s : TxState) (t : Tx)
      → s.tx ≡ some t
      → Listed addr s
      → Succeeds (register_balance J addr token) s
  unfolding register_balance add_child_key
  register-Succeeds addr token s t open' (keys, listed) =
      elim (Bool-cases (is_empty (get (key_of_account_token addr token) s))) [
        | inl new ↦
            let o = with_child_key keys (key_of_account_token addr token) in
            let (s', e, left) = store-Succeeds (key_of_account addr) o s t open' in
            (
              s',
              rw new (
                  ap
                    (λ r.
                      continue (r.0)
                        (λ keys.
                          store_child_keys J (key_of_account addr)
                            (with_child_key keys (key_of_account_token addr token)))
                        (r.1))
                    listed
                  ∙ e),
              left,
            )
        | inr old ↦ (s, rw old refl, (t, open'))
      ]

  set_balance-Succeeds :
      (addr token : Bytes) (v : ℤ) (s : TxState) (t : Tx)
      → s.tx ≡ some t
      → Listed addr s
      → Succeeds (set_balance J addr token v) s
  unfolding set_balance
  set_balance-Succeeds addr token v s t open' listed =
      let write = set (key_of_account_token addr token) (StateJson.encode_balance J token v) in
      >>-Succeeds (register_balance J addr token) write s
        (register-Succeeds addr token s t open' listed)
        (λ s₁ t₁ e open₁.
          set-Succeeds (key_of_account_token addr token) (StateJson.encode_balance J token v) s₁ t₁
            open₁)

  -- What the stored value says, apart from the state.
  child_reply : Bytes → Reply (List Bytes)
  child_reply value = if is_empty value then done [] else reply_of (StateJson.decode_keys J value)

  get_child_keys-eq :
      (key : Bytes) (s : TxState) → get_child_keys J key s ≡ (child_reply (get key s), s)
  unfolding get_child_keys child_reply
  get_child_keys-eq key s = elim (Bool-cases (is_empty (get key s))) [
    | inl e ↦ rw (e, child_reply) refl
    | inr e ↦ rw (e, child_reply) (decoded-eq (StateJson.decode_keys J (get key s)) s)
  ]

  Listed-get :
      (addr : Bytes) (s s' : TxState)
      → get (key_of_account addr) s' ≡ get (key_of_account addr) s
      → Listed addr s
      → Listed addr s'
  Listed-get addr s s' same (keys, listed) =
      let key = key_of_account addr in
      let reply : child_reply (get key s') ≡ done keys =
        ap child_reply same ∙ ap (λ r. r.0) (sym (get_child_keys-eq key s) ∙ listed) in
      (keys, get_child_keys-eq key s' ∙ ap (λ r. (r, s')) reply)

  Listed-set_balance :
      (addr other token : Bytes) (v : ℤ) (s s' : TxState)
      → set_balance J addr token v s ≡ (done tt, s')
      → bytes_eq addr other ≡ false
      → has_slash other ≡ false
      → Listed other s
      → Listed other s'
  unfolding key_of_account
  Listed-set_balance addr other token v s s' run different base58 listed =
      let key = key_of_account other in
      let apart : bytes_eq (key_of_account addr) key ≡ false =
        bytes_ne (key_of_account addr) key λ e. absurd (
          ground (
            arith,
            bytes_eq_iff addr other,
            append_cancel_left (codes "/account/ex/") addr other e,
          )) in
      let apart' : bytes_eq (key_of_account_token addr token) key ≡ false =
        bytes_ne (key_of_account_token addr token) key λ e. absurd (
          ground (
            arith,
            bytes_eq_iff key (key_of_account_token addr token),
            account_ne_token other addr token base58,
          )) in
      Listed-get other s s'
        (ap (λ r. get key (r.1)) (sym run) ∙ set_balance-Keeps J addr token v key apart apart' s)
        listed

-- A passed guard is not seen.
guard_passed :
    (c : Bool) (e : ErrorCode) (m : Op (Unit {0})) (s : TxState) (r : Reply (Unit {0}) × TxState)
    → c ≡ false
    → m s ≡ r
    → (fail_if c e >> m) s ≡ r
guard_passed c e m s r passed run = rw passed run

module _ (J : StateJson) (ctx : InvokeContext) where
  balance_run :
      (addr : Bytes) (f : ℤ → Op (Unit {0})) (s : TxState) (r : Reply (Unit {0}) × TxState)
      → f (has J ctx addr s) s ≡ r
      → (balance J addr (ctx.contract_address) >>= f) s ≡ r
  balance_run addr f s r run =
      ap (λ r. continue (r.0) f (r.1)) (balance-eq-held J addr (ctx.contract_address) s) ∙ run

  pay_run :
      (from : Bytes) (value : ℤ) (s : TxState) (r : Reply (Unit {0}) × TxState)
      → pos 0 ≤ℤ value
      → value ≤ℤ has J ctx from s
      → set_balance J from (ctx.contract_address) (has J ctx from s -ℤ value) s ≡ r
      → pay J ctx from value s ≡ r
  pay_run from value s r positive enough run =
      let old = has J ctx from s in
      let new = old -ℤ value in
      let write = set_balance J from (ctx.contract_address) new in
      balance_run from (pay_from J ctx from value) s r (
        guard_passed (ltb_ℤ new (pos 0)) insufficient_balance
          (fail_if (ltb_ℤ old new) invalid_balance >> write) s r
          (ground (arith, -ℤ_parts old value))
          (guard_passed (ltb_ℤ old new) invalid_balance write s r
            (ground (arith, -ℤ_parts old value)) run))

  receive_run :
      (to : Bytes) (value : ℤ) (s : TxState) (r : Reply (Unit {0}) × TxState)
      → pos 0 ≤ℤ value
      → set_balance J to (ctx.contract_address) (has J ctx to s +ℤ value) s ≡ r
      → receive J ctx to value s ≡ r
  receive_run to value s r positive run =
      let old = has J ctx to s in
      balance_run to (receive_to J ctx to value) s r (
        guard_passed (ltb_ℤ (old +ℤ value) old) invalid_balance
          (set_balance J to (ctx.contract_address) (old +ℤ value)) s r
          (ground (arith, +ℤ_parts old value)) run)

  -- If a Tx is open, the lists of keys of the sender and of the receiver can be read, the
  -- receiver has no slash and is not the sender, and the value is neither negative nor above what
  -- the sender has, then Transfer succeeds and leaves a Tx open.
  pub transfer-Succeeds :
      (to : Bytes) (value : ℤ) (s : TxState) (t : Tx)
      → s.tx ≡ some t
      → Listed J (ctx.sender) s
      → Listed J to s
      → has_slash to ≡ false
      → pos 0 ≤ℤ value
      → value ≤ℤ has J ctx (ctx.sender) s
      → bytes_eq (ctx.sender) to ≡ false
      → Succeeds (transfer J ctx to value) s
  unfolding transfer
  transfer-Succeeds to value s t open' listed listed' base58 positive enough different =
      let sender = ctx.sender in
      let token = ctx.contract_address in
      let new = has J ctx sender s -ℤ value in
      let (s₁, run₁, (t₁, open₁)) = set_balance-Succeeds J sender token new s t open' listed in
      let (s₂, run₂, left) =
        set_balance-Succeeds J to token (has J ctx to s₁ +ℤ value) s₁ t₁ open₁
          (Listed-set_balance J sender to token new s s₁ run₁ different base58 listed') in
      let paid = pay_run sender value s (done tt, s₁) positive enough run₁ in
      let received = receive_run to value s₁ (done tt, s₂) positive run₂ in
      let both = pay J ctx sender value >> receive J ctx to value in
      let run = ap (λ r. continue (r.0) (λ _. receive J ctx to value) (r.1)) paid ∙ received in
      (
        s₂,
        guard_passed (ltb_ℤ value (pos 0)) invalid_parameter
            (fail_if (bytes_eq sender to) unsupport_trans_to_self >> both) s (done tt, s₂)
            (ground arith)
            (guard_passed (bytes_eq sender to) unsupport_trans_to_self both s (done tt, s₂)
              different run),
        left,
      )
