-- ===== src/Kernel.antt =====
-- internal/kernel: errors in the kernel's log.
pub mod LogEntry
pub mod Matchers
pub mod Classifier
pub mod Collector
