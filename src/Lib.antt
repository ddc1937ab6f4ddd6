-- ===== src/Lib.antt =====
-- A verification library of bcbchain, the application side of a block chain on Tendermint (ABCI).
-- It models the chain's own core: the layered state database, the access to it that the rest of the
-- program goes through, the delivery of blocks with their transactions and fees, and the token
-- contracts and rewards of version 1 over their own access to that state.
--
-- The parts and their files
--   Base.*     shared names, byte strings, Go maps, sorting, decimal numbers, integers, panics.
--   Db         the key-value database and the JSON encodings, which the repository does not hold:
--              records of operations with the laws that are relied on; Db.Sample meets them.
--   Statedb    statedb/*.go. Statedb.Tx is tx.go, Statedb.Snapshot is snapshot.go, Statedb.Database
--              is statedb.go and transaction.go, and Statedb.Buffer is the sorted text of a buffer.
--              Statedb.Database.Spec has the abstract state: a view and a stack of earlier views.
--   Helper     common/statedbhelper/statedbhelper.go: open transactions and their Tx by id, reads
--              and writes; Helper.Keys is statedbkey.go, Helper.Accounts the nonces and balances.
--   Deliver    abciapp/service/deliver. Deliver itself has the fees of delivertx.go, Deliver.Types
--              its data, Deliver.Blocks the rest of delivertx.go, Deliver.Edges the checks of
--              begin_block.go and commit.go. Deliver.Contracts calls a contract and forbids one, and
--              Deliver.Turns has the contracts that are called at the beginning and the end of a
--              block, with BCBeginBlock and EndBlock. What a contract answers and writes is an
--              argument, as calls leave the program through smcrunctl/adapter. Transactions and
--              hashes are read and made by other packages, which are arguments, too.
--   App        abciapp/app/application.go: dispatch to the versions and the chain version. It calls the
--              services of both versions, which are an interface there; Deliver models those of
--              version 2 for blocks and their transactions.
--   V1         abciapp_v1.0. V1.Reply has the error codes and the results, V1.Types is
--              types/types.statedb.go, V1.Keys and V1.State are statedb/statedbkey.go and
--              statedb/txstate.go, V1.Context is contract/stubapi/invokecontext.go with
--              contract/contract.go, V1.Api has the transfers of contract/smcapi/smcapi.go,
--              V1.Token is contract/tokentemplet/tokentemplet.go, and V1.Rewards has the fees and
--              the reward strategies of invokecontext.go, where division of floats is an argument.
--              V1.Byb is contract/tokenbyb: Chromos has the computations on amounts by chromo, Store
--              is its statedb.go, Receipts its receipts, and Payments, Holders and Issue its methods.
--
-- How code and model correspond. A struct is a record with the fields' names; a method takes the
-- object and returns the new one; a pointer that is only followed to another object of the same
-- call is passed as an argument. `panic` is the outcome `panicked`. Go strings and byte slices are
-- lists of bytes, in which nil and empty coincide. A Go map is an association list with each key
-- once, whose order stands for the order of a `range`. The counters of transactions (int64) are
-- numbers that grow by one for a block and are taken to stay below 2^63. `check_max_count` recurs
-- on the id that its loop counts down, and `rollback_loop` on the number of transactions, so that
-- no fuel is needed. An operation of a version 1 contract is a function on the `TxState` that returns
-- a value, an error code or a crash, with the state it leaves: a failed contract leaves its writes to
-- the caller's rollback. `sort.SearchStrings` runs on the length of its list as fuel, which is enough
-- as each round makes the range shorter. Lower case is that of ASCII.
--
-- Not modelled: the agency contract and the other contracts of version 1, the genesis block,
-- checks and queries, soft forks, hyperledger/burrow (a copy of another project),
-- the code generators and parsers of smccheck, building and running of contract containers
-- (smcbuilder, smcdocker, smcrunctl), RPC servers, command lines, logging and configuration.
pub mod Base
pub mod Db
pub mod Statedb
pub mod Helper
pub mod Deliver
pub mod App
pub mod V1
