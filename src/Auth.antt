-- ===== src/Auth.antt =====
-- Sign-in state and gating: web/src/app/auth.
pub mod Context
pub mod Provider
pub mod Guard
