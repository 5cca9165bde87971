-- ===== src/Examples.antt =====
-- The theorems at concrete inputs.
mod Kernel
mod Cgroups
mod Network
mod Files
mod Slices
mod Procs
mod Walks
mod Answers
