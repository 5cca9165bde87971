-- ===== src/Slab.antt =====
-- internal/slab: the sizes of the kernel's slabs.
pub mod Info
pub mod Details
