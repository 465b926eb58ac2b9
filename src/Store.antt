-- ===== src/Store.antt =====
-- The single table, as far as DynamoDB documents it: items, keys, and transactional writes.
pub mod Item
pub mod Key
pub mod Table
pub mod Transact
