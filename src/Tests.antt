-- ===== src/Tests.antt =====
-- The theorems at concrete inputs.
mod Rbac
mod Roles
mod Proxy
mod Accounts
mod Limits
mod Migrations
mod Backups
mod Logins
mod Artifacts
mod Storage
mod Docker
mod Dump
mod Vulnerability
