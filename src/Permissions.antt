-- ===== src/Permissions.antt =====
-- app/auth/permissions.py: scopes, grants and the containment of delegated keys.
pub mod Scopes
pub mod Fnmatch
pub mod Glob
pub mod Context
pub mod Within
pub mod Validation
pub mod Delegation
pub mod Policy
pub mod Tests
