-- ===== src/Database.antt =====
-- backend/pkg/database: the row types, the tables and the operations on them. `Api` is what
-- access control asks of a database, and `Access` fills it by the tables.
pub mod Models
pub mod Api
pub mod Tables
pub mod Roles
pub mod Grants
pub mod Access
pub mod Registries
pub mod Keys
pub mod Users
pub mod Groups
pub mod Artifacts
pub mod Counters
pub mod Dump
