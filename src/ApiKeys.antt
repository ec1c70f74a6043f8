-- ===== src/ApiKeys.antt =====
-- app/auth/api_keys.py: the text of a key, the checks of its record, its usage and the caches.
pub mod Plain
pub mod Checks
pub mod Grants
pub mod Patterns
pub mod Record
pub mod Access
pub mod Usage
pub mod Rate
pub mod Cache
pub mod Fresh
pub mod AccessTests
pub mod Tests
