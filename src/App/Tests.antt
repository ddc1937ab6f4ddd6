-- ===== src/App/Tests.antt =====
-- Runs over services that count.
use bcbchain.Base.{Bytes, codes, bytes_eq, ℕ, ◌+◌, true, none, some, [], ◌∷◌, ◌≡◌, refl, returned}
use bcbchain.Base.Int.{ℤ, pos}
use bcbchain.App.{
  begin_v2, genesis_version, Application, Services, TxAnswer, split_at, deliver_tx, commit,
  end_block, begin_block, current_version, dispatch, dispatch_parts, dispatch_tx, apply_update,
  announce,
}
use bcbchain.App.Dispatch.{is_served, deliver_tx-refused}
use bcbchain.App.Upgrades.{
  delivers, next, stop, deliver_each, run_block, run_block-version, Steps-begin_block,
}

-- The store counts the calls, and version 1 announces version 2 at the end of each block.
abbrev answer : Bytes → TxAnswer
answer tx = record { code = 200; log = []; tx_hash = []; rest = tx }

abbrev sample : Services ℕ
sample = record {
  err_logic = 500;
  calc_code_hash = λ tx. tx;
  check_v1 = λ tx is_upgraded s. returned (answer tx, s);
  check_v2 = λ tx s. returned (answer tx, s);
  deliver_v1 = λ tx is_upgraded s. returned (answer tx, s + 1);
  deliver_v2 = λ tx s. returned (answer tx, s + 1);
  new_v1 = λ s. returned s;
  init_v1 = λ req s. returned (req, s);
  init_v2 = λ req s. returned (req, s);
  begin_v1 = λ req s. returned (req, s + 1);
  begin_v1_to_v2 = λ req s. returned (req, s + 1);
  begin_v2 = λ req s. returned (req, s + 1);
  end_v1 = λ req s. returned (record { chain_version = pos 2; rest = req }, s);
  end_v2 = λ req s. returned (record { chain_version = pos 2; rest = req }, s);
  commit_v1 = λ s. returned ([], s);
  commit_v2 = λ s. returned ([], s);
  rollback_v2 = λ s. returned (none, s);
  stored_chain_version = λ s. returned (pos 0);
  genesis_value = λ s. [];
  decode_version = λ s. none;
}

abbrev at_version : ℤ → ℤ → ℕ → Application ℕ
at_version v u n = record {
  chain_version = some v;
  update_chain_version = u;
  has_v1 = true;
  store = n;
}

-- A version 2 transaction on a chain that is not upgraded.
deliver_tx-refused_example :
    deliver_tx ℕ sample (codes "a.v2.b.c.d") (at_version (pos 0) (pos 0) 0)
    ≡ returned (
      record {
        code = 500;
        log = codes "invalid transaction";
        tx_hash = codes "a.v2.b.c.d";
        rest = [];
      },
      at_version (pos 0) (pos 0) 0,
    )
unfolding is_served split_at bytes_eq
deliver_tx-refused_example =
    deliver_tx-refused ℕ sample (codes "a.v2.b.c.d") (pos 0) (at_version (pos 0) (pos 0) 0) refl
      refl

upgrading :
    run_block ℕ sample [] (codes "a.v1.b.c.d" ∷ []) [] (at_version (pos 0) (pos 0) 0)
    ≡ returned (
      record { chain_version = pos 2; rest = [] },
      at_version (pos 0) (pos 2) 2,
      at_version (pos 2) (pos 0) 2,
    )
unfolding begin_block deliver_each deliver_tx dispatch_tx dispatch_parts dispatch split_at bytes_eq
    current_version end_block announce commit apply_update
upgrading = refl

-- The block that announces version 2 is still one of version 0.
run_block-version_example :
    ((at_version (pos 0) (pos 2) 2).chain_version ≡ some (pos 0))
    × ((at_version (pos 2) (pos 0) 2).chain_version ≡ some (pos 2))
    × ((at_version (pos 2) (pos 0) 2).update_chain_version ≡ pos 0)
run_block-version_example =
    run_block-version ℕ sample [] [] (codes "a.v1.b.c.d" ∷ []) (pos 0)
      (at_version (pos 0) (pos 0) 0) (at_version (pos 0) (pos 2) 2) (at_version (pos 2) (pos 0) 2)
      (record { chain_version = pos 2; rest = [] }) refl refl upgrading

delivered :
    deliver_tx ℕ sample (codes "a.v3.b.c.d") (at_version (pos 2) (pos 0) 2)
    ≡ returned (
      record (answer (codes "a.v3.b.c.d")) { tx_hash = codes "a.v3.b.c.d" },
      at_version (pos 2) (pos 0) 3,
    )
unfolding deliver_tx dispatch_tx dispatch_parts dispatch split_at bytes_eq current_version
delivered = refl

begun :
    begin_block ℕ sample [] (at_version (pos 2) (pos 0) 3)
    ≡ returned ([], at_version (pos 2) (pos 0) 5)
unfolding begin_block begin_v2 genesis_version current_version
begun = refl

-- The next block is begun by version 2, after version 1 is told.
Steps-begin_block_example :
    ((at_version (pos 2) (pos 0) 3).chain_version ≡ some (pos 2))
    × (begin_v2 ℕ sample [] (at_version (pos 2) (pos 0) 3)
        ≡ returned ([], at_version (pos 2) (pos 0) 5))
Steps-begin_block_example =
    Steps-begin_block ℕ sample (pos 2) (at_version (pos 2) (pos 0) 2) (at_version (pos 2) (pos 0) 3)
      (at_version (pos 2) (pos 0) 5) [] [] refl refl
      (next _ _ _ (delivers (codes "a.v3.b.c.d") _ _ _ delivered) (stop _)) begun
