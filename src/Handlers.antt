-- ===== src/Handlers.antt =====
-- internal/handlers: the REST handlers over the database.
pub mod Action
pub mod Host
pub mod Log
pub mod Items
pub mod Process
pub mod Response
pub mod Sync
pub mod History
pub mod Health
pub mod Example
