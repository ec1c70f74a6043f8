-- ===== src/Pagination.antt =====
-- app/http/pagination.py: the page bar of the list views.
pub mod Context
pub mod Items
pub mod Bounds
pub mod Tests
