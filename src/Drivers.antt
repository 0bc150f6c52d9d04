-- ===== src/Drivers.antt =====
-- The unprivileged drivers of userspace/drivers.
pub mod Net
pub mod Block
pub mod Screen
