-- ===== src/Smtp.antt =====
-- app/smtp/handler.py: the commands of an SMTP session.
pub mod Session
pub mod Handler
pub mod Limits
pub mod Safety
pub mod Reach
pub mod Replies
pub mod Tests
