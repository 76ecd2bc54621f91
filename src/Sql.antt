-- ===== src/Sql.antt =====
-- The database: the tables of internal/db/migrations/001_init.sql, the statements and queries that
-- the service issues, and the driver (database/sql over SQLite), which is a parameter.
pub mod Table
pub mod Schema
pub mod Statement
pub mod Query
pub mod Engine
pub mod Memory
