-- ===== src/V1/Byb.antt =====
-- abciapp_v1.0/contract/tokenbyb: the contract of the BYB token, whose units carry a chromo. The
-- amounts are in Chromos, statedb.go is Store, tokenbyb_events.go is Receipts, and the methods are
-- in Payments, Holders and Issue.
pub mod Numbers
pub mod Counting
pub mod Chromos
pub mod Store
pub mod Receipts
pub mod Payments
pub mod Holders
pub mod Issue
pub mod Rounds
pub mod Entries
pub mod Shares
pub mod Splitting
pub mod Remainder
pub mod Merging
pub mod Payees
pub mod Reading
pub mod Stored
pub mod Moves
pub mod Transfers
pub mod Supply
pub mod Burning
mod Sample
mod Tests
