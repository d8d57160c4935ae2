-- ===== src/Intentions.antt =====
-- mypalace/intentions: intentions that fire on a message, a time or a context. Texts that are searched
-- are ASCII texts, as code points. Times are seconds.
pub mod Triggers
pub mod Service
pub mod Tests
