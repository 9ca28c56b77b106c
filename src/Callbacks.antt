-- ===== src/Callbacks.antt =====
-- The callbacks of the mobile money operators: api/handlers.
pub mod Payload
pub mod Adapters
pub mod Handler
mod Examples
