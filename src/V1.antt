-- ===== src/V1.antt =====
-- abciapp_v1.0: the state that the contracts of version 1 see, the token contract
-- and the contract of the BYB token.
pub mod Reply
pub mod Keys
pub mod Types
pub mod State
pub mod Context
mod Sample
mod Tests
pub mod Token
pub mod Frame
pub mod Search
pub mod ChildKeys
pub mod Balances
pub mod Rewards
pub mod Api
pub mod Byb
