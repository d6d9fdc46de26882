-- ===== src/Rbac.antt =====
-- backend/pkg/rbac/rbac.go: roles, permissions and the decisions on registries. The definitions
-- stand in Types, Static, Access and Roles; what is proved of them stands in the other children.
pub mod Types
pub mod Static
pub mod Access
pub mod Roles
pub mod SystemRoles
pub mod Grants
pub mod Effective
pub mod Scope
pub mod Changes
