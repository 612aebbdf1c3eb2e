-- ===== src/Lite.antt =====
-- lite: what the node does with the chain's client. Lite/Tx is the sending of transactions, Lite/Grants
-- the check of a hot key's grants.
pub mod Tx
pub mod Grants
