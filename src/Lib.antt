-- ===== src/Lib.antt =====
-- Linux 0.11: a model of the kernel's process, memory, file and block code, and theorems on it.
--
-- The kernel has one task table (`task[]`), whose entries point to pages that the memory manager
-- hands out. `schedule` picks who runs; a task gives up the processor in `sleep_on`, on a wait queue,
-- until `wake_up`. `fork` copies a task and shares its pages, which are copied on the first write;
-- `do_exit` gives all back, and `sys_waitpid` reaps the zombie. System calls on names walk directories
-- to an inode; those on descriptors lead to files, pipes, devices and terminals. Inodes and data are
-- read in blocks through the buffer cache, which asks the block layer, which orders requests for
-- the drivers.
--
-- Base: shared names, integers, bits, loops, outcomes and a pigeonhole lemma.
-- Kernel/Task: `struct task_struct` and the globals of include/linux/sched.h and kernel/sched.c.
-- Kernel/Sched (Pick, Kept, Queue): kernel/sched.c. `schedule`, `sleep_on`, `interruptible_sleep_on`,
--   `wake_up`, `sys_alarm`, `sys_nice` and the calls that read a field, under these names.
-- Kernel/Timer (Delays, Order): kernel/sched.c. `add_timer` and `do_timer`.
-- Kernel/Signal (Mask, Frame): kernel/signal.c, whole.
-- Kernel/Sys (Ids, Sessions): kernel/sys.c but `sys_uname`.
-- Kernel/Exit (Kill, Wait, Death): kernel/exit.c, whole.
-- Kernel/Fork (Pid): kernel/fork.c but the floating-point registers and the entries of the GDT.
-- Kernel/Block (Elevator): kernel/blk_drv/ll_rw_blk.c and `end_request` of kernel/blk_drv/blk.h.
-- Kernel/Mktime (Calendar): kernel/mktime.c, whole.
-- Mm (Pages, CopyOnWrite, Fork): mm/memory.c: `get_free_page`, `free_page`, `free_page_tables`,
--   `copy_page_tables`, `put_page`, `un_wp_page`, `do_wp_page`, `write_verify`, `mem_init`.
-- Fs/Buffer (Get, Read, Lookup, Choose): fs/buffer.c but `buffer_init` and `check_disk_change`.
-- Fs/Pipe (Ring, Fifo, Write): `read_pipe` and `write_pipe` of fs/pipe.c.
-- Fs/Files (Dup): fs/fcntl.c, `sys_close` of fs/open.c and `sys_pipe` of fs/pipe.c.
-- Fs/Bitmap (Bit, Claim): fs/bitmap.c, whole.
-- Fs/Structs: `struct m_inode` and `struct super_block` of include/linux/fs.h.
-- Fs/State: the state of the file system (cache, inodes, super blocks, files, task), its commands,
--   which are written with do blocks, and `get_super` and `wait_on_super` of fs/super.c.
-- Fs/Truncate: fs/truncate.c, whole.
-- Fs/Inode (Table, Disk, Scan, Blocks): fs/inode.c, whole; Table has `iget`, `iput` and the inodes
--   without users.
-- Fs/Namei (Entry, Access, Match, Walk, Open, Make, Remove): fs/namei.c, whole; Entry has
--   `find_entry` and `add_entry`, Walk `get_dir` and `namei`, Open `open_namei`, Make `sys_mknod`,
--   `sys_mkdir` and `sys_link`, Remove `sys_rmdir` and `sys_unlink`.
-- Fs/Data: fs/file_dev.c and fs/block_dev.c.
-- Fs/ReadWrite (Seek): fs/read_write.c and fs/char_dev.c.
-- Fs/Open (Mode): fs/open.c but `sys_close`.
-- Fs/Exec (Args, Layout): `count`, `copy_strings` and `create_tables` of fs/exec.c.
-- Fs/Super: fs/super.c. Fs/Stat: fs/stat.c. Fs/Ioctl: fs/ioctl.c.
-- Kernel/Tty (Queue, Cooked, Drained, Read, Write, Ioctl, Termios): include/linux/tty.h,
--   kernel/chr_drv/tty_io.c and kernel/chr_drv/tty_ioctl.c.
-- Kernel/Printf (Number, Format): kernel/vsprintf.c.
-- Kernel/Malloc (Chain): lib/malloc.c.
-- Kernel/Hd (Geometry): kernel/blk_drv/hd.c but `sys_setup` and `hd_init`.
--
-- Interfaces. `Driver` is what a block driver and the others do while a task waits for a buffer;
-- `World` adds to it the waits for inodes and super blocks; `Devices` is the code that `sys_read` and
-- `sys_write` call for terminals, ports and memory; `TtyWorld` is what comes in while a task sleeps
-- on a terminal, and its `write`; `Controller` is what the registers of the disk controller answer.
--
-- Conventions. A pointer is a number, NULL is 0, and a function stands for the memory that pointers
-- of one kind lead to, so aliases are kept. A function that changes state takes the state and returns
-- the new one; `Outcome` says whether it returns, panics, ends the task or never returns. What other
-- tasks, interrupts and drivers do while a function sleeps is an argument, which may do anything to
-- the state. The kernel is not preempted, so no other task runs between two sleeps; interrupts that come
-- between them are not modelled. Messages of `printk` are left out.
--
-- Fuel. The loop of `schedule` is given two rounds, which are enough if every task has a priority
-- from 1 to 2^30 and no negative counter. `find_empty_process` is given 65 rounds, since 64 tasks have at most 64 numbers.
-- `read_pipe` and `write_pipe` need a round more than the bytes they move, and one for each sleep.
-- The walk of `find_buffer` and that of `getblk` over the free list have a round more than there are
-- buffers. `get_hash_table`, `getblk` and `make_request` may repeat as often as others take the
-- buffer or the request away; their fuel is an argument, and no theorem says that they return.
-- The loop of `do_timer` has a round for every entry of the table of timers; more are needed only if
-- the functions that it calls add timers without a delay.
-- Loops of the file system that wait for others, and walks over chains of buffers or through
-- directories, are given `fuel` of `World`, and hang without it; a loop over a count has that count.
-- The loops of `copy_to_cooked` are given a fuel, of which 1024 is enough, the size of a queue, if the
-- `write` of the terminal adds no input.
--
-- Not modelled: `change_ldt` and `do_execve` of fs/exec.c; the floppy, RAM disk, console
-- and serial drivers, traps and boot code, which are about device registers; the floppy timers of
-- kernel/sched.c; demand loading and page sharing of mm/memory.c; include/string.h, which is assembly.
pub mod Base
pub mod Mm
pub mod Kernel
pub mod Fs
