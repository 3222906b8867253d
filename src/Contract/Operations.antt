-- ===== src/Contract/Operations.antt =====
-- web/src/api/schema.ts, `operations`.
pub mod Access
pub mod Lines
pub mod Fleet
