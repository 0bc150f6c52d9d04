-- ===== src/Lib.antt =====
-- A verification of the core of moonlightOS: the kernel's capability system, message passing, scheduler,
-- memory management, process management and console, as C code in kernel/src with headers in
-- kernel/include, and the servers and drivers of userspace.
--
-- The parts, and the files that model them:
--   Types          kernel/include/types.h: error codes, limits, the IPC message
--   Cheri          kernel/include/cheri.h, kernel/src/cheri.c: hardware capabilities as a struct, and the
--                  copy through one, with memcpy of kernel/src/minilib.c
--   Cap            kernel/include/cap.h, kernel/src/cap.c: capabilities, derivation, retype
--   Cnode          kernel/include/cnode.h, kernel/src/cnode.c: tables of capabilities
--   Alloc          kernel/include/alloc.h, kernel/src/alloc.c: frames by cache colour
--   Tcb            kernel/include/tcb.h, kernel/src/tcb.c: threads
--   Sched          kernel/include/sched.h, kernel/src/sched.c: time partitions and scheduling contexts
--   Endpoint       kernel/include/endpoint.h, kernel/src/endpoint.c: synchronous messages
--   Notification   kernel/include/notification.h, kernel/src/notification.c: asynchronous badges
--   Irq            kernel/include/irq.h, kernel/src/irq.c: interrupt lines
--   Iommu          kernel/include/iommu.h, kernel/src/iommu.c: windows of devices
--   Mdb            kernel/include/revoke.h, kernel/src/revoke.c: the derivation tree
--   Process        kernel/include/process.h, kernel/src/process.c: creating and destroying processes
--   Vspace         kernel/include/vspace.h, kernel/src/vspace.c: page tables
--   Syscall        kernel/include/syscall.h, kernel/src/syscall.c: the dispatcher
--   Elf            kernel/include/elf.h, kernel/src/elf.c: the check of an ELF file
--   Hardening      kernel/include/hardening.h, kernel/src/hardening.c: the canary, canonical addresses
--   Minilib        kernel/src/minilib.c: memset and memcmp
--   Dice           boot/dice.c: the measurement of the kernel
--   Boot           kernel/src/boot.c: the windows, the address space and the processes of the boot
--   Vga            kernel/include/vga.h, kernel/src/vga.c: characters on the screen
--   Servers.Mem    userspace/mem_server/server.c: handing out memory
--   Servers.Policy userspace/sched_server/server.c: admitting tasks
--   Servers.Files  userspace/vfs_server/server.c: files and descriptors
--   Drivers.Net    userspace/drivers/virtio_net.c: the network driver and its windows
--   Drivers.Block  userspace/drivers/block.c: the block driver
--   Drivers.Screen userspace/drivers/vga.c: the display driver
--   Prelude        shared names, arrays, counted loops, bits
--   Tests          the theorems at concrete inputs
-- A function of the code has the name of its file's prefix removed: cnode_copy is Cnode.copy,
-- sched_pick_next is Sched.pick_next, mdb_revoke is Mdb.revoke. Below a component, a file holds the
-- definitions of a specification and the proofs about one side of it.
--
-- How the parts interact: Cnode copies, mints, moves and deletes values of Cap; Endpoint blocks and
-- wakes the threads of Tcb; Sched picks among them; Process takes a frame from Alloc, binds a context
-- of Sched, records the frame in Mdb and, to destroy a process, cleans Endpoint, Cnode and Mdb; Syscall
-- looks a capability up in the caller's table and dispatches on it to Cnode, Endpoint, Tcb, Sched, Mdb and
-- Vspace. A pointer in a capability is an address, and a parameter of Syscall, the layout of memory, says
-- which object stands there. The servers are tables with a handler of one message, and what they ask of the
-- kernel is a parameter; Servers.Mem uses the colours of Alloc, the admissions of Servers.Policy are compared
-- with the test of Sched, and Drivers.Net maps its windows in Iommu. Vspace takes the pages of its tables from
-- Alloc, and Boot puts Sched, Vspace, Mdb and Process together.
--
-- State and integers. A C struct is a record and an array a function of the index; a function that
-- changes an object takes it and returns it, with its error first. A pointer is an optional address
-- where NULL is passed or two pointers may be equal, as in Cnode; where every caller passes the address
-- of a global, the check for NULL is left out. Numbers are natural numbers, with the wrap of the
-- machine type written out where the code's arithmetic may leave it; an int of the screen is a word of 32
-- bits in two's complement, also where it overflows. An access that the code does not check makes the
-- result `none`.
--
-- Fuel. The loop of alloc_frame that aligns a frame has 16 rounds, since colours repeat every 16 pages.
-- The loops of mdb_revoke have one more round than the table has nodes, since each round removes a node
-- of the forest. That of mdb_delete has as many, which is enough if the children of the parent are a list
-- in the table; that of mdb_is_descendant is on fuel too. Both give `none` at the end of the fuel.
-- The loop that cleans a queue has one round for each entry. Other loops are counted.
--
-- What is not modelled. Of the two builds, that for RISC-V is modelled where they differ, and the one without
-- CHERI hardware, which replaces compiler built-ins by the struct of kernel/include/cheri.h. Of the boot, the
-- output, the trap test, the display, the retype of the first capability and the capabilities of the servers
-- are left out. Assembly, cache flushes, guard pages, the search for the display on the bus and serial output
-- change hardware state only. sha256 and moonlight_retype are parameters. NULL checks are as said above, and names of partitions, ready queues and free lists, which
-- nothing reads, are left out of their records.
pub mod Prelude
pub mod Types
pub mod Cheri
pub mod Boot
pub mod Cap
pub mod Cnode
pub mod Alloc
pub mod Tcb
pub mod Sched
pub mod Endpoint
pub mod Mdb
pub mod Process
pub mod Notification
pub mod Irq
pub mod Iommu
pub mod Vspace
pub mod Syscall
pub mod Minilib
pub mod Dice
pub mod Hardening
pub mod Elf
pub mod Vga
pub mod Servers
pub mod Drivers
pub mod Tests
