-- ===== src/Infra.antt =====
-- infra/scripts: what builds the deployed code.
pub mod SharedLayer
