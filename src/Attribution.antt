-- ===== src/Attribution.antt =====
-- src/core/attribution: from cgroup ids to Slurm jobs, steps and tasks.
pub mod Path
pub mod Resolver
pub mod Files
pub mod Root
pub mod Watcher
pub mod Tests
