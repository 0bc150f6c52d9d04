-- ===== src/Tests.antt =====
-- The theorems at concrete inputs.
mod Caps
mod Memory
mod Threads
mod Processes
mod Syscalls
mod Servers
mod Spaces
mod Boots
mod Devices
