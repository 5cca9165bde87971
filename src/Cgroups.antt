-- ===== src/Cgroups.antt =====
-- internal/cgroups: control groups, and what their collectors share.
pub mod Races
pub mod Reads
pub mod Group
pub mod Usage
pub mod Stat
pub mod Roots
pub mod Cpu
pub mod Memory
pub mod Classifier
pub mod Observer
pub mod Io
