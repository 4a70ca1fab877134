-- ===== src/Probes.antt =====
-- src/probes: the userspace side of the two probes.
pub mod ProcLifecycle
pub mod Oom
pub mod Tests
