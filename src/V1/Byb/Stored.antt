-- ===== src/V1/Byb/Stored.antt =====
-- What `setBybBalance` of abciapp_v1.0/contract/tokenbyb/statedb.go leaves, and the reads that
-- change nothing.
use bcbchain.Base.{
  Bytes, bytes_eq, bytes_eq_iff, bytes_ne, is_empty, false, ◌||◌, Option, none, List, [], ◌≡◌, refl,
  sym, ap, ◌∙◌, inl, inr, if◌then◌else◌, arith, Bool-cases,
}
use bcbchain.Helper.Keys.{key_of_account, key_of_account_token}
use bcbchain.V1.Keys.{has_slash, account_ne_token}
use bcbchain.V1.Reply.{TxState, Op, done, ◌>>=◌, ◌>>◌, pure, >>=_inversion}
use bcbchain.V1.Types.{StateJson}
use bcbchain.V1.State.{get, set, set_balance}
use bcbchain.V1.Frame.{Keeps, set-Keeps, get-set, >>=-Keeps, add_child_key-Keeps}
use bcbchain.V1.Balances.{held, amount, set_balance-Keeps, held-set_balance}
use bcbchain.V1.Byb.Chromos.{BybBalance, calc_total_balance}
use bcbchain.V1.Byb.Store.{
  BybJson, TokenByb, AddressRole, committee, hole, stock_holder, user, slice_of, has_address,
  key_of_byb, key_of_black_hole, key_of_stockholders, register_byb, set_byb_balance,
  get_byb_balance, get_black_hole, get_byb_stock_holders, check_address,
}
use bcbchain.V1.Byb.Reading.{
  >>=-Reads, Reads, account_ne_byb, byb_injective, byb_ne_token, if-Reads, look_up, look_up-Reads,
  look_up_reply, token_ne_byb,
}

module _ (J : StateJson) (B : BybJson) where
  open B use {encode_byb, decode_byb, decode_byb-encode_byb, encode_byb_nonempty}

  get_black_hole-Reads : Reads (get_black_hole J B)
  unfolding get_black_hole
  get_black_hole-Reads s =
      look_up-Reads none (BybJson.decode_addresses B) (get key_of_black_hole s) s

  get_byb_stock_holders-Reads : Reads (get_byb_stock_holders J B)
  unfolding get_byb_stock_holders
  get_byb_stock_holders-Reads s =
      look_up-Reads none (BybJson.decode_addresses B) (get key_of_stockholders s) s

  -- checkAddress reads alone.
  pub check_address-Reads : (byb : TokenByb) (addr : Bytes) → Reads (check_address J B byb addr)
  unfolding check_address
  check_address-Reads byb addr =
      let holders : Option (List Bytes) → Op AddressRole =
        λ h. if has_address addr (slice_of h) then pure stock_holder else pure user in
      let rest = get_byb_stock_holders J B >>= holders in
      let holes : Option (List Bytes) → Op AddressRole =
        λ h. if has_address addr (slice_of h) then pure hole else rest in
      if-Reads
        (bytes_eq addr (byb.owner)
          || (bytes_eq addr (byb.contract_acct) || bytes_eq addr (byb.contract_addr)))
        (pure committee) (get_black_hole J B >>= holes) (λ s. refl)
        (>>=-Reads (get_black_hole J B) holes get_black_hole-Reads λ h.
          if-Reads (has_address addr (slice_of h)) (pure hole) rest (λ s. refl)
            (>>=-Reads (get_byb_stock_holders J B) holders get_byb_stock_holders-Reads λ h'.
              if-Reads (has_address addr (slice_of h')) (pure stock_holder) (pure user) (λ s. refl)
                (λ s. refl)))

  -- An account's stored amounts.
  abbrev pub Owns : Bytes → List BybBalance → TxState → Type 0
  Owns addr l s = get_byb_balance J B addr s ≡ (done l, s)

  pub Owns-get :
      (addr : Bytes) (l : List BybBalance) (s s' : TxState)
      → get (key_of_byb addr) s' ≡ get (key_of_byb addr) s
      → Owns addr l s
      → Owns addr l s'
  unfolding get_byb_balance
  Owns-get addr l s s' e owns =
      let reply =
        ap (λ v. (look_up [] decode_byb v s').0) e
        ∙ (look_up_reply [] decode_byb (get (key_of_byb addr) s) s' s ∙ ap (λ r. r.0) owns) in
      λ i. (reply i, look_up-Reads [] decode_byb (get (key_of_byb addr) s') s' i)

  Owns-set :
      (addr : Bytes) (l : List BybBalance) (s s' : TxState) {u : Unit {0}}
      → set (key_of_byb addr) (encode_byb l) s ≡ (done u, s')
      → Owns addr l s'
  unfolding get_byb_balance
  Owns-set addr l s s' run =
      rw
        (
          get-set (key_of_byb addr) (encode_byb l) s s' run (encode_byb_nonempty l),
          encode_byb_nonempty l,
          decode_byb-encode_byb l,
        )
        refl

  register_byb-Keeps :
      (addr k : Bytes) → bytes_eq (key_of_account addr) k ≡ false → Keeps k (register_byb J B addr)
  unfolding register_byb
  register_byb-Keeps addr k other s = elim (Bool-cases (is_empty (get (key_of_byb addr) s))) [
    | inl e ↦ rw e (add_child_key-Keeps J (key_of_account addr) (key_of_byb addr) k other s)
    | inr e ↦ rw e refl
  ]

  pub set_byb_balance-Keeps :
      (byb : TokenByb) (addr : Bytes) (l : List BybBalance) (k : Bytes)
      → bytes_eq (key_of_account addr) k ≡ false
      → bytes_eq (key_of_byb addr) k ≡ false
      → bytes_eq (key_of_account_token addr (byb.contract_address)) k ≡ false
      → Keeps k (set_byb_balance J B byb addr l)
  unfolding set_byb_balance
  set_byb_balance-Keeps byb addr l k p q r =
      let total = set_balance J addr (byb.contract_address) (calc_total_balance l) in
      >>=-Keeps k (register_byb J B addr) (λ _. set (key_of_byb addr) (encode_byb l) >> total)
        (register_byb-Keeps addr k p)
        (λ _.
          >>=-Keeps k (set (key_of_byb addr) (encode_byb l)) (λ _. total)
            (set-Keeps (key_of_byb addr) (encode_byb l) k q)
            (λ _. set_balance-Keeps J addr (byb.contract_address) (calc_total_balance l) k p r))

  -- The amounts of another account stay.
  pub Owns-kept :
      (byb : TokenByb) (addr : Bytes) (l : List BybBalance) (s s' : TxState) {u : Unit {0}}
      → set_byb_balance J B byb addr l s ≡ (done u, s')
      → has_slash addr ≡ false
      → (b : Bytes) (m : List BybBalance) → bytes_eq addr b ≡ false
      → has_slash b ≡ false
      → Owns b m s
      → Owns b m s'
  Owns-kept byb addr l s s' run base58 b m other base58' owns =
      Owns-get b m s s'
        (ap (λ r. get (key_of_byb b) (r.1)) (sym run)
          ∙ set_byb_balance-Keeps byb addr l (key_of_byb b) (account_ne_byb addr b base58)
              (bytes_ne (key_of_byb addr) (key_of_byb b)
                λ e. ground (arith, bytes_eq_iff addr b, byb_injective addr b e))
              (token_ne_byb addr b (byb.contract_address) base58') s)
        owns

  -- After setBybBalance the account has the new amounts, and their total as its balance; every other
  -- balance is what it was.
  pub set_byb_balance_done :
      (byb : TokenByb) (addr : Bytes) (l : List BybBalance) (s s' : TxState) {u : Unit {0}}
      → set_byb_balance J B byb addr l s ≡ (done u, s')
      → has_slash addr ≡ false
      → Owns addr l s'
        × ((b : Bytes)
            → held J (byb.contract_address) b s' ≡ (
                if bytes_eq addr b
                then calc_total_balance l
                else held J (byb.contract_address) b s))
  unfolding set_byb_balance held
  set_byb_balance_done byb addr l s s' run base58 =
      let token = byb.contract_address in
      let total = set_balance J addr token (calc_total_balance l) in
      let write = set (key_of_byb addr) (encode_byb l) in
      let (u₁, s₁, first, rest) =
        >>=_inversion (register_byb J B addr) (λ _. write >> total) s run in
      let (u₂, s₂, second, third) = >>=_inversion write (λ _. total) s₁ rest in
      let same : (b : Bytes)
          → get (key_of_account_token b token) s₂ ≡ get (key_of_account_token b token) s =
        λ b.
          ap (λ r. get (key_of_account_token b token) (r.1)) (sym second)
          ∙ (set-Keeps (key_of_byb addr) (encode_byb l) (key_of_account_token b token)
                (byb_ne_token addr b token base58) s₁
              ∙ (ap (λ r. get (key_of_account_token b token) (r.1)) (sym first)
                  ∙ register_byb-Keeps addr (key_of_account_token b token)
                      (account_ne_token addr b token base58) s)) in
      (
        Owns-get addr l s₂ s'
            (ap (λ r. get (key_of_byb addr) (r.1)) (sym third)
              ∙ set_balance-Keeps J addr token (calc_total_balance l) (key_of_byb addr)
                  (account_ne_byb addr addr base58) (token_ne_byb addr addr token base58) s₂)
            (Owns-set addr l s₁ s₂ second),
        λ b.
            held-set_balance J addr token (calc_total_balance l) s₂ s' third base58 b
            ∙ ap (λ v. if bytes_eq addr b then calc_total_balance l else amount J v) (same b),
      )
