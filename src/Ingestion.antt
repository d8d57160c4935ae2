-- ===== src/Ingestion.antt =====
-- mypalace/retrieval/ingestion.py: candidates are compared with what is stored, and then written,
-- skipped or put in the place of a memory that they contradict. The extraction by the language model
-- is not modelled: a candidate is given.
pub mod Contradiction
pub mod Pipeline
pub mod Tests
