-- ===== src/Contract.antt =====
-- The contract between the client and the API: web/src/api/schema.ts as data, the client's requests, and
-- the bodies that they send.
pub mod Shape
pub mod Schemas
pub mod Operations
pub mod Paths
pub mod Conforms
pub mod Bodies
pub mod Requests
pub mod HttpCalls
pub mod Templates
pub mod Sending
pub mod Forms
pub mod Calls
pub mod Declared
pub mod Saves
pub mod Submissions
