-- ===== src/Dynamics.antt =====
-- mypalace/dynamics: how well a memory is remembered, and the service that keeps count of it.
pub mod Floats
pub mod Fsrs
pub mod Service
pub mod Tests
