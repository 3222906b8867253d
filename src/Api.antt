-- ===== src/Api.antt =====
-- The data layer: web/src/api and the raw fetch helpers of the features.
pub mod Http
pub mod Query
pub mod Keys
pub mod Hooks
pub mod Refresh
