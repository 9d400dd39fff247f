-- ===== src/Core.antt =====
-- The package core/: the chain's data, its database, the mempool, and what is done with them.
pub mod Types
pub mod Errors
pub mod Store
pub mod Crypto
pub mod Mempool
pub mod Utxo
pub mod Merkle
pub mod Validate
pub mod Chain
pub mod Propose
pub mod Transfer
pub mod Genesis
pub mod Received
pub mod Account
pub mod Tests
