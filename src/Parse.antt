-- ===== src/Parse.antt =====
-- src/parse.
pub mod Number
