-- ===== src/Deliver/Types.antt =====
-- abciapp/service/deliver: the state of a block that is being delivered (deliver.go), the
-- transactions and responses, and the functions of delivertx.go that need no state.
use bcbchain.Base.{
  Bytes, GoMap, codes, insert_all, ℕ, zero, suc, ◌%◌, ◌^◌, ◌-◌, ◌/◌, Bool, true, false, ◌||◌,
  Option, none, some, List, [], ◌∷◌, ◌++◌, reverse, if◌then◌else◌, Outcome, returned, panicked, ◌≡◌,
}
use bcbchain.Base.Int.{ℤ, pos, negsuc}
use bcbchain.Db.{LevelDb}
use bcbchain.Helper.{Helper}
use bcbchain.Deliver.{KvPair, Reward, AppDeliver, contains_text, has_prefix}

-- The fields of `abci.Header` and `abci.RequestBeginBlock` that are used.
pub record Header : Type 0 where
  pub height : ℕ
  pub last_app_hash : Bytes
  pub proposer_address : Bytes
  pub reward_address : Bytes

pub record RequestBeginBlock : Type 0 where
  pub hash : Bytes
  pub header : Header

-- `abci.AppState`
pub record AppState : Type 0 where
  pub block_height : ℕ
  pub app_hash : Bytes
  pub txs_hash_list : List Bytes
  pub rewards : List KvPair
  pub fee : ℕ
  pub chain_version : ℤ
  pub begin_block : Option RequestBeginBlock

-- `types.Transaction`, with the method of each message
pub record Transaction : Type 0 where
  pub nonce : ℕ
  pub gas_limit : ℤ
  pub note : Bytes
  pub method_ids : List ℕ

-- What the contracts answer, and what they have written to the transaction's `Tx` by then.
pub record Response : Type 0 where
  pub code : ℕ
  pub log : Bytes
  pub result_data : Bytes
  pub tags : List KvPair
  pub gas_used : ℤ
  pub fee : ℤ

pub record Invocation : Type 0 where
  pub response : Response
  pub writes : List (GoMap Bytes)

pub record ResponseDeliverTx : Type 0 where
  pub code : ℕ
  pub log : Bytes
  pub result_data : Bytes
  pub tags : List KvPair
  pub gas_limit : ℕ
  pub gas_used : ℕ
  pub fee : ℕ

-- `uint64(x)` of an int64
unfoldable pub to_uint64 : ℤ → ℕ
to_uint64 (pos n) = n % 2 ^ 64
to_uint64 (negsuc n) = 2 ^ 64 - 1 - n % 2 ^ 64

-- The contracts that are called by smcrunctl/adapter, with bclib's parsers, addresses, hashes and
-- encodings. `V` and `G` are the validators and the side chain's genesis in a response of EndBlock.
pub record Node (E : LevelDb) (V G : Type 0) : Type 0 where
  -- bclib's `CodeOK`, `ErrDeliverTx` and `MaxSizeNote`
  pub code_ok : ℕ
  pub err_deliver_tx : ℕ
  pub max_size_note : ℕ
  pub invoke : Helper E → ℕ → Bytes → Transaction → Bytes → Bytes → Invocation
  pub parse_v2 : Bytes → Option (Transaction × Bytes)
  pub parse_v3 : Bytes → Option (Transaction × Bytes)
  pub address : Bytes → Bytes
  pub calc_code_hash : Bytes → Bytes
  pub md5 : Bytes → Bytes
  pub sha3 : Bytes → Bytes
  -- `bytes.EqualFold`
  pub equal_fold : Bytes → Bytes → Bool
  pub equal_fold_refl : (a : Bytes) → equal_fold a a ≡ true
  -- `ResponseDeliverTx.String()`
  pub show : ResponseDeliverTx → Bytes
  pub encode_app_state : AppState → Bytes
  pub decode_app_state : Bytes → Option AppState
  -- the strategy that `GetRewardStrategy` finds in its stored list for a height
  pub reward_strategy : Helper E → ℤ → ℕ → ℕ → List Reward
  -- `GetAllValidators`, and the receipt of a side chain's genesis
  pub validators : Helper E → ℤ → ℕ → List V
  pub side_chain_genesis : Bytes → Option G

-- `AppDeliver`: the fields of the fees are in `fees`.
pub record BlockDeliver (E : LevelDb) (V G : Type 0) : Type 0 where
  pub fees : AppDeliver E
  pub block_hash : Bytes
  pub block_header : Header
  pub app_state : AppState
  pub hash_list : List Bytes
  pub sponser : Bytes
  pub fee : ℤ
  pub ud_validator : Bool
  pub validators : List V
  pub sc_genesis : Option G

-- `strings.HasSuffix`
unfoldable pub has_suffix : Bytes → Bytes → Bool
has_suffix s p = has_prefix (reverse s) (reverse p)

-- `hasUpdateValidatorReceipt`
unfoldable pub has_update_validator_receipt : List KvPair → Bool
unfolding has_suffix
has_update_validator_receipt [] = false
has_update_validator_receipt (r ∷ tags) =
    (has_suffix (r.0) (codes "governance.newValidator")
      || has_suffix (r.0) (codes "governance.setPower"))
    || has_update_validator_receipt tags

-- `hasSideChainGenesisReceipt`
unfoldable pub side_chain_genesis_receipt : List KvPair → Option KvPair
side_chain_genesis_receipt [] = none
side_chain_genesis_receipt (r ∷ tags) =
    let rest = side_chain_genesis_receipt tags in
    if contains_text (r.0) (codes "netgovernance.genesisSideChain") then some r else rest

-- The method of the last message; without a message the index is out of range.
unfoldable pub last_method : List ℕ → Outcome ℕ
last_method [] = panicked
last_method (m ∷ []) = returned m
last_method (m ∷ k ∷ l) = last_method (k ∷ l)

-- `binary.BigEndian.PutUint64`, for a number of bytes
unfoldable pub big_endian : ℕ → ℕ → Bytes
big_endian zero n = []
big_endian (suc k) n = big_endian k (n / 256) ++ (n % 256) ∷ []

unfoldable pub concat : List Bytes → Bytes
concat [] = []
concat (h ∷ l) = h ++ concat l

-- `combineBuffer`
unfoldable pub combine_buffer : GoMap Bytes → GoMap Bytes → GoMap Bytes
combine_buffer nonce_buffer tx_buffer = insert_all nonce_buffer tx_buffer

-- What a text or a response adds to the hashed text.
abbrev pub text_of : Option Bytes → Bytes
text_of none = []
text_of (some t) = t
