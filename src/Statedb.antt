-- ===== src/Statedb.antt =====
-- The layered state database, statedb/*.go: a database, a committable transaction that buffers the
-- writes of a block, the buffers of single transactions (`Tx`) over it, and the snapshots by which
-- committed blocks are rolled back. The operations are in the first children, one for each file.
pub mod Keys
pub mod Buffer
pub mod Tx
pub mod Snapshot
pub mod Database
