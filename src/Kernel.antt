-- ===== src/Kernel.antt =====
-- kernel/ and lib/malloc.c: processes, signals, system calls, time, the requests to block devices,
-- the hard disk, terminals, formatted output and small pieces of memory.
pub mod Mktime
pub mod Task
pub mod Sched
pub mod Timer
pub mod Signal
pub mod Sys
pub mod Exit
pub mod Fork
pub mod Block
pub mod Tty
pub mod Malloc
pub mod Hd
pub mod Printf
pub mod Examples
mod Tests
mod DeviceTests
