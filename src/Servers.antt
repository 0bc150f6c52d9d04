-- ===== src/Servers.antt =====
-- The user-space servers of userspace: memory, scheduling policy and files. Each is a table and a handler
-- of one message; the loop around the handler receives, handles and replies.
pub mod Mem
pub mod Policy
pub mod Files
