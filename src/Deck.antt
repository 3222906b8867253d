-- ===== src/Deck.antt =====
-- The deck map: web/src/features/deck.
pub mod Naming
pub mod Layout
pub mod Session
pub mod Save
pub mod Panel
pub mod View
