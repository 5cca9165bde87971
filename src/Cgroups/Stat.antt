-- ===== src/Cgroups/Stat.antt =====
-- internal/cgroups/cgroupsutil: the two formats of the statistics of a group.
pub mod Flat
pub mod Named
