-- ===== src/Routing.antt =====
-- app/smtp/matcher.py: mailbox addresses and the domain rules that accept them.
pub mod Address
pub mod Matcher
pub mod Valid
pub mod Parsing
pub mod Suffixes
pub mod Matching
pub mod Tests
