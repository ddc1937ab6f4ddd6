-- ===== src/V1/Byb/Supply.antt =====
-- What `AddSupply` of abciapp_v1.0/contract/tokenbyb/tokenbyb.go does to the supply and to the
-- contract's account.
use bcbchain.Base.{
  Bytes, codes, bytes_eq, bytes_eq_iff, false, not, List, [], ◌∷◌, ◌++◌, ◌≡◌, refl, sym, subst, ap,
  ◌∙◌, arith, if◌then◌else◌,
}
use bcbchain.Base.Int.{ℤ, pos, ◌+ℤ◌, ◌≤ℤ◌, ltb_ℤ, leb_ℤ}
use bcbchain.Helper.Keys.{key_of_account, key_of_account_token}
use bcbchain.V1.Keys.{has_slash, key_of_token}
use bcbchain.V1.Reply.{
  TxState, Op, done, ◌>>=◌, ◌>>◌, pure, fail_if, continue, >>=_inversion, passed_guard,
  done_injective, invalid_parameter, no_authorization, invalid_supply, unsupport_add_supply,
  invalid_addr,
}
use bcbchain.V1.Types.{StateJson, IssueToken}
use bcbchain.V1.State.{get, get_token, set_token}
use bcbchain.V1.Context.{required}
use bcbchain.V1.Balances.{held}
use bcbchain.V1.Token.Storage.{
  set_token-Keeps_account, Stored, Stored-get, Stored-set_token, held-set_token,
}
use bcbchain.V1.Byb.Chromos.{BybBalance, calc_total_balance}
use bcbchain.V1.Byb.Store.{BybJson, TokenByb, key_of_byb, get_byb_balance, set_byb_balance}
use bcbchain.V1.Byb.Receipts.{BybReceipt, add_supply_receipt, on_transfer}
use bcbchain.V1.Byb.Holders.{set_first}
use bcbchain.V1.Byb.Issue.{white, raise_supply, add_supply}
use bcbchain.V1.Byb.Stored.{Owns, Owns-get, set_byb_balance_done, set_byb_balance-Keeps}

module _ (J : StateJson) (B : BybJson) (byb : TokenByb) where
  -- Writing a token leaves the amounts alone.
  pub Owns-set_token :
      (t : IssueToken) (s s' : TxState) {u : Unit {0}}
      → set_token J t s ≡ (done u, s')
      → (addr : Bytes) (l : List BybBalance) → Owns J B addr l s
      → Owns J B addr l s'
  unfolding key_of_byb key_of_account
  Owns-set_token t s s' run addr l owns =
      Owns-get J B addr l s s'
        (ap (λ r. get (key_of_byb addr) (r.1)) (sym run)
          ∙ set_token-Keeps_account J t (addr ++ codes "/byb") s)
        owns

  -- Writing amounts leaves the token alone.
  Stored-set_byb :
      (addr : Bytes) (l : List BybBalance) (s s' : TxState) (t : IssueToken) {u : Unit {0}}
      → set_byb_balance J B byb addr l s ≡ (done u, s')
      → Stored J (byb.contract_addr) t s
      → Stored J (byb.contract_addr) t s'
  unfolding key_of_token key_of_account key_of_account_token key_of_byb bytes_eq
  Stored-set_byb addr l s s' t run stored =
      Stored-get J (byb.contract_addr) t s s'
        (ap (λ r. get (key_of_token (byb.contract_addr)) (r.1)) (sym run)
          ∙ set_byb_balance-Keeps J B byb addr l (key_of_token (byb.contract_addr)) refl refl refl
              s)
        stored

  -- The balance of the contract's account is new, every other one what it was.
  abbrev pub Sets : ℤ → TxState → TxState → Type 0
  Sets new s s' =
      (b : Bytes)
      → held J (byb.contract_address) b s'
        ≡ (if bytes_eq (byb.contract_acct) b then new else held J (byb.contract_address) b s)

  pub token_then {ℓ} :
      {A : Type ℓ} (f : IssueToken → Op A) (s : TxState) (t : IssueToken)
      → Stored J (byb.contract_addr) t s
      → (get_token J (byb.contract_addr) >>= λ found. required invalid_addr found >>= f) s ≡ f t s
  token_then f s t stored =
      ap (λ r. continue (r.0) (λ found. required invalid_addr found >>= f) (r.1)) stored

  -- The write to the contract's account, from the first amount.
  pub first_amount :
      (new : BybBalance) (items : List BybBalance) (s s' : TxState) {u : Unit {0}}
      → set_byb_balance J B byb (byb.contract_acct) (new ∷ items) s ≡ (done u, s')
      → has_slash (byb.contract_acct) ≡ false
      → (t : IssueToken) → Stored J (byb.contract_addr) t s
      → Stored J (byb.contract_addr) t s'
        × Owns J B (byb.contract_acct) (new ∷ items) s'
        × Sets (calc_total_balance (new ∷ items)) s s'
  first_amount new items s s' run base58 t stored =
      let (owns, balances) =
        set_byb_balance_done J B byb (byb.contract_acct) (new ∷ items) s s' run base58 in
      (Stored-set_byb (byb.contract_acct) (new ∷ items) s s' t run stored, owns, balances)

  -- What follows a read of the account's amounts.
  pub amounts_then {ℓ} :
      {A : Type ℓ} (f : List BybBalance → Op A) (s : TxState) (l : List BybBalance)
      → Owns J B (byb.contract_acct) l s
      → (get_byb_balance J B (byb.contract_acct) >>= f) s ≡ f l s
  amounts_then f s l owns = ap (λ r. continue (r.0) f (r.1)) owns

  -- `SetToken` of a token with another supply.
  pub supply_set :
      (t : IssueToken) (supply : ℤ) (s s' : TxState) {u : Unit {0}}
      → set_token J (record t { total_supply = supply }) s ≡ (done u, s')
      → t.address ≡ byb.contract_addr
      → has_slash (byb.contract_addr) ≡ false
      → Stored J (byb.contract_addr) (record t { total_supply = supply }) s'
        × ((b : Bytes) → held J (byb.contract_address) b s' ≡ held J (byb.contract_address) b s)
  supply_set t supply s s' run own base58 =
      let new : IssueToken = record t { total_supply = supply } in
      (
        subst (λ a. Stored J a new s') own
            (Stored-set_token J new s s' run (subst (λ a. has_slash a ≡ false) (sym own) base58)),
        held-set_token J new s s' run (byb.contract_address),
      )

  raised-amounts :
      (value : ℤ) (s s' : TxState) (t : IssueToken) (item : BybBalance) (items : List BybBalance)
      (raised : ℤ × List BybReceipt)
      → raise_supply J B byb value s ≡ (done raised, s')
      → Stored J (byb.contract_addr) t s
      → t.address ≡ byb.contract_addr
      → has_slash (byb.contract_addr) ≡ false
      → has_slash (byb.contract_acct) ≡ false
      → Owns J B (byb.contract_acct) (item ∷ items) s
      → Stored J (byb.contract_addr) (record t { total_supply = t.total_supply +ℤ value }) s'
        × Owns J B (byb.contract_acct) (record item { value = item.value +ℤ value } ∷ items) s'
        × Sets (calc_total_balance (record item { value = item.value +ℤ value } ∷ items)) s s'
  unfolding raise_supply
  raised-amounts value s s' t item items raised run stored own base58 base58' owns =
      let result : ℤ → ℤ × List BybReceipt =
        λ x. (x, on_transfer byb [] (byb.contract_acct) (white value)) in
      let credit : ℤ → List BybBalance → Op (ℤ × List BybReceipt) = λ x l.
        set_first (λ i. i.value +ℤ value) (set_byb_balance J B byb (byb.contract_acct)) l
        >> pure (result x) in
      let write : IssueToken → Op (ℤ × List BybReceipt) = λ token.
        set_token J (record token { total_supply = token.total_supply +ℤ value })
        >> (get_byb_balance J B (byb.contract_acct) >>= credit (token.total_supply +ℤ value)) in
      let check : IssueToken → Op (ℤ × List BybReceipt) = λ token.
        fail_if (ltb_ℤ (token.total_supply +ℤ value) (token.total_supply)) invalid_supply
        >> write token in
      let enabled : IssueToken → Op (ℤ × List BybReceipt) =
        λ token. fail_if (not (token.add_supply_enabled)) unsupport_add_supply >> check token in
      let (on, r₁) =
        passed_guard (not (t.add_supply_enabled)) unsupport_add_supply (check t) s s'
          (sym (token_then enabled s t stored) ∙ run) in
      let new_supply = t.total_supply +ℤ value in
      let (grows, r₂) =
        passed_guard (ltb_ℤ new_supply (t.total_supply)) invalid_supply (write t) s s' r₁ in
      let new : IssueToken = record t { total_supply = new_supply } in
      let (u, s₁, written, r₃) =
        >>=_inversion (set_token J new)
          (λ _. get_byb_balance J B (byb.contract_acct) >>= credit new_supply) s r₂ in
      let (stored₁, same₁) = supply_set t new_supply s s₁ written own base58 in
      let owns₁ = Owns-set_token new s s₁ written (byb.contract_acct) (item ∷ items) owns in
      let more : BybBalance = record item { value = item.value +ℤ value } in
      let (u₂, s₂, credited, r₄) =
        >>=_inversion (set_byb_balance J B byb (byb.contract_acct) (more ∷ items))
          (λ _. pure (result new_supply)) s₁
          (sym (amounts_then (credit new_supply) s₁ (item ∷ items) owns₁) ∙ r₃) in
      let (_, same) = done_injective (result new_supply) raised s₂ s' r₄ in
      let (stored₂, owns₂, balances) = first_amount more items s₁ s₂ credited base58' new stored₁ in
      (
        rw same stored₂,
        rw same owns₂,
        λ b. rw same (
            balances b
            ∙ ap
                (λ x.
                  if bytes_eq (byb.contract_acct) b then calc_total_balance (more ∷ items) else x)
                (same₁ b)),
      )

  -- If AddSupply succeeds on a stored token whose address is that of the contract, the addresses
  -- have no slash and the contract's account has a list of amounts that is not empty, then the
  -- sender is the owner and the value at least one unit; the stored supply has grown by the value
  -- with the other fields kept, the first amount of the account too, its balance is the total of
  -- the amounts, and every other balance is what it was.
  pub add_supply-amounts :
      (value : ℤ) (s s' : TxState) (t : IssueToken) (item : BybBalance) (items : List BybBalance)
      (receipts : List BybReceipt)
      → add_supply J B byb value s ≡ (done receipts, s')
      → Stored J (byb.contract_addr) t s
      → t.address ≡ byb.contract_addr
      → has_slash (byb.contract_addr) ≡ false
      → has_slash (byb.contract_acct) ≡ false
      → Owns J B (byb.contract_acct) (item ∷ items) s
      → (byb.sender ≡ byb.owner)
        × (pos 1 ≤ℤ value)
        × Stored J (byb.contract_addr) (record t { total_supply = t.total_supply +ℤ value }) s'
        × Owns J B (byb.contract_acct) (record item { value = item.value +ℤ value } ∷ items) s'
        × Sets (calc_total_balance (record item { value = item.value +ℤ value } ∷ items)) s s'
  unfolding add_supply
  add_supply-amounts value s s' t item items receipts run stored own base58 base58' owns =
      let finish : ℤ × List BybReceipt → Op (List BybReceipt) = λ raised.
        pure (raised.1 ++ add_supply_receipt (byb.contract_address) value (raised.0) ∷ []) in
      let (positive, r₁) =
        passed_guard (leb_ℤ value (pos 0)) invalid_parameter
          (fail_if (not (bytes_eq (byb.sender) (byb.owner))) no_authorization
            >> (raise_supply J B byb value >>= finish))
          s s' run in
      let (allowed, r₂) =
        passed_guard (not (bytes_eq (byb.sender) (byb.owner))) no_authorization
          (raise_supply J B byb value >>= finish) s s' r₁ in
      let (raised, s₁, raise, r₃) = >>=_inversion (raise_supply J B byb value) finish s r₂ in
      let (_, same) =
        done_injective (raised.1 ++ add_supply_receipt (byb.contract_address) value (raised.0) ∷ [])
          receipts s₁ s' r₃ in
      let (kept, owned, balances) =
        raised-amounts value s s₁ t item items raised raise stored own base58 base58' owns in
      (
        ground (arith, allowed, bytes_eq_iff (byb.sender) (byb.owner)),
        ground arith,
        rw same kept,
        rw same owned,
        rw same balances,
      )
