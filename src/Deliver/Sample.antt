-- ===== src/Deliver/Sample.antt =====
-- Concrete contracts, transactions and encodings, which show that the assumptions about them can be
-- met.
use bcbchain.Base.{
  Bytes, codes, bytes_eq, bytes_eq_refl, length, Option, none, some, [], ◌∷◌, if◌then◌else◌, true,
  ◌*◌, ◌/◌, refl,
}
use bcbchain.Base.Int.{ℤ, pos}
use bcbchain.Db.Sample.{sample_db}
use bcbchain.Helper.{Helper}
use bcbchain.Deliver.{Receipts, AppDeliver}
use bcbchain.Deliver.Types.{AppState, Transaction, Response, Node}
use bcbchain.Deliver.Edges.{no_app_state}
use bcbchain.Deliver.Contracts.{ContractCalls, plain_response}

-- A percentage is a text of one byte.
abbrev pub percent : Bytes → Option ℤ
percent [] = none
percent (c ∷ s) = some (pos (c * 100))

abbrev pub award : ℤ → ℤ → ℤ
award (pos v) (pos p) = pos (v * p / 10000)
award _ _ = pos 0

abbrev pub sample_receipts : Receipts
sample_receipts = record {
  percent = percent;
  award = award;
  award-pos = λ v p. refl;
  decode_fee = λ from. some (record { token = codes "t"; from = from; value = pos 5 });
  encode_total_fee = λ fee. fee.token;
  encode_transfer = λ t. t.to;
}

abbrev pub opened : Helper sample_db
opened = record {
  state_db = record {
    sdb = [];
    snapshot_db = [];
    committable_transaction = some 1;
    last_committable_transaction_id = 1;
    last_rollback_transaction_id = 0;
  };
  transaction_map =
      (
        pos 1,
        record {
          transaction = record {
            transaction_id = 1;
            buffer = [];
            committable = true;
            last_tx_id = 1;
          };
          tx_map = (1, record { tx_id = 1; buffer = [] }) ∷ [];
        },
      )
      ∷ [];
  current_committable_transaction = some (pos 1);
}

abbrev pub app : AppDeliver sample_db
app = record {
  trans_id = pos 1;
  tx_id = 1;
  rewarder = codes "r";
  reward_strategy =
      record { name = codes "validators"; reward_percent = 20 ∷ []; address = [] }
      ∷ record { name = codes "fund"; reward_percent = 80 ∷ []; address = codes "f" }
      ∷ [];
  skips_tokens = true;
  rewards = [];
  helper = opened;
}

-- The first byte of a text is the nonce, and the rest is the note; an empty text is no transaction.
abbrev pub parse_sample : Bytes → Option (Transaction × Bytes)
parse_sample [] = none
parse_sample (n ∷ s) =
    some (record { nonce = n; gas_limit = pos 10; note = s; method_ids = 1 ∷ [] }, codes "p")

-- A height and a hash.
abbrev decode_state : Bytes → Option AppState
decode_state [] = none
decode_state (h ∷ s) = some (record no_app_state { block_height = h; app_hash = s })

-- Notes decide whether the contracts fail; either way they have written by then.
abbrev pub answer : Bytes → Response
answer note = record (plain_response (if bytes_eq note (codes "!") then 500 else 200) []) {
  fee = pos 7;
}

abbrev pub sample_node : Node sample_db Bytes Bytes
sample_node = record {
  code_ok = 200;
  err_deliver_tx = 600;
  max_size_note = 4;
  invoke = λ h tx_id sender t pub_key hash. record {
    response = answer (t.note);
    writes = ((codes "k", t.note) ∷ []) ∷ [];
  };
  parse_v2 = λ tx. none;
  parse_v3 = parse_sample;
  address = λ key. key;
  calc_code_hash = λ tx. tx;
  md5 = λ s. length s ∷ [];
  sha3 = λ s. length s ∷ [];
  equal_fold = bytes_eq;
  equal_fold_refl = bytes_eq_refl;
  show = λ r. r.code ∷ [];
  encode_app_state = λ s. s.block_height ∷ s.app_hash;
  decode_app_state = decode_state;
  reward_strategy = λ h trans_id tx_id height. [];
  validators = λ h trans_id tx_id. [];
  side_chain_genesis = λ s. none;
}

abbrev pub sample_calls : ContractCalls sample_db
sample_calls = record {
  err_logic = 500;
  init_or_update = λ h trans_id tx_id header addr owner is_upgrade. record {
    response = plain_response 200 [];
    writes = [];
  };
  mine_contract = λ h trans_id tx_id header addr owner. record {
    response = plain_response 200 [];
    writes = [];
  };
  std_key_of_mine_contracts = codes "/contract/mines";
  decode_contract = λ s. none;
  encode_contract = λ c. c.address;
  decode_effective = λ s. some [];
  decode_mines = λ s. some [];
  encode_mines = λ l. [];
  parse_int = λ s. pos 0;
}
