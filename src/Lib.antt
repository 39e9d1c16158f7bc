-- ===== src/Lib.antt =====
-- The kernel of this repository, xv6 for RISC-V with four more schedulers, `waitx`, `setPriority`,
-- user alarms and tracing, as definitions with proofs.
--
-- The parts and where they stand:
--
-- Base      lists, options, Boolean tests and integers; `Returns` and `Allows`, for a function that
--           may panic: that it does not and the result is right, and that the result is right if it
--           does not
-- Proc      kernel/proc.h: `struct proc` as a record, the table `proc[NPROC]` as a list, a pointer to
--           an entry as its index, null as nothing
-- Sched     kernel/proc.c, `scheduler`: one pass of the branches FCFS (Sched/Fcfs), PBS (Sched/Pbs),
--           LBS with `getrand` (Sched/Lottery), and for MLFQ (Sched/Mlfq) `remove_from_queue`, the
--           ageing (Mlfq/Ageing) and the serving of the queues 0 to 3 (Mlfq/Serve). Sched/Select says
--           what a choice by rank is, and Sched/Scan follows the locks of a scan
-- Kalloc    kernel/kalloc.c: `kinit`, `freerange`, `kfree`, `kalloc`, on the physical memory in which
--           the free list is linked
-- Lifecycle kernel/proc.c: `allocpid`, `allocproc`, `freeproc` (Lifecycle/Alloc); `sleep`, `wakeup`,
--           `kill`, `setkilled`, `yield`, `reparent`, the end of `exit`, `setPriority`, `updateTime`
--           (Lifecycle/Wakeup); `wait`, `waitx` and `sys_waitx` (Lifecycle/Wait); the alarms of
--           kernel/trap.c, `sys_sigalarm`, `sys_sigreturn` (Lifecycle/Alarm)
-- Pipe      kernel/pipe.c: `pipewrite`, `piperead`, `pipeclose`
-- Ring      the contents of a ring buffer, for Pipe and Uart
-- Uart      kernel/uart.c: `uartstart`, `uartputc`, `uartintr`
-- Spinlock  kernel/spinlock.c: `push_off`, `pop_off`, `holding`, and `acquire` and `release` as steps
--           of the processors, among those of other locks (Spinlock/Depth)
-- Sleeplock kernel/sleeplock.c: the lock, and `sleep` and `wakeup` on it as steps of its processes
-- Console   kernel/console.c: `consoleintr`, the line editor; `consoleread` and `consolewrite`
--           (Console/Read)
-- Strings   kernel/string.c: `memset`, `memmove`, `memcpy`; and in Strings/Null `memcmp`, `strncmp`,
--           `strncpy`, `safestrcpy`, `strlen`
-- Log       kernel/log.c: `commit` and `recover_from_log` on a disk whose power may fail at any write
--           (Log/Install, Log/Header, Log/Commit, Log/Recovery), and `begin_op`, `log_write` and
--           `end_op`, which share out the log's blocks (Log/Space)
-- Bio       kernel/bio.c: `binit`, `bget`, `brelse`, `bpin`, `bunpin`, the list of buffers
-- Vm        kernel/vm.c: `copyin`, `copyout`, `copyinstr`; the page tables, `walk`, `walkaddr`,
--           `mappages`, `kvmmap` (Vm/Table); `uvmcreate`, `uvmunmap`, `uvmdealloc`, `uvmalloc`,
--           `uvmcopy`, `uvmclear`, `uvmfirst` (Vm/Space)
-- Files     kernel/file.c and kernel/sysfile.c: the open files and the descriptors, `filealloc`,
--           `filedup`, `fileclose`, `fdalloc`, `sys_dup`, `sys_close`, `sys_pipe`, the end of
--           `sys_open`; `pipealloc` of kernel/pipe.c; the loops of `fork` and `exit` over the
--           descriptors. What a last close hands to `pipeclose` or `iput` is a value
-- Fs        kernel/fs.c: the blocks of an inode, `balloc`, `bfree`, `bmap`, `itrunc` and what `iupdate`
--           copies for it (Fs/Blocks), and path names, `skipelem` and `namex` (Fs/Paths). The contents
--           of the bitmap's blocks are kept as bits, and those of the other blocks as words, but for the inode, of which size and
--           addresses are kept
-- Syscall   kernel/syscall.c: `fetchaddr`, `argraw`, `argint`, `argaddr`
-- Print     user/printf.c: `printint`, `printptr`, `vprintf`; `atoi` of user/ulib.c
-- Wc        user/wc.c: `wc`; `strchr` of user/ulib.c
-- Grep      user/grep.c: the matcher of regular expressions
--
-- How they interact: the process table takes its pages from the allocator through the record
-- `Memory` of Lifecycle/Memory, which Kalloc fills; the page tables stand in the physical memory
-- of Kalloc, from which their tables and pages come; an interrupt of the UART hands its
-- characters to the console; `allocproc` puts a new process into the queue 0 of Sched/Mlfq; the
-- schedulers take the locks of the entries as `Spinlock` has them, with a panic as the value
-- `none`.
--
-- Bounds: the counters of the UART wrap at 2 ^ 64; those of a pipe and of the console and the
-- test of the ageing wrap at 2 ^ 32, as do the times of `waitx`; an `int` that may be negative is
-- an integer without overflow, on which the code relies, and `nextpid`, the counts of ticks and
-- those of `wc` are numbers without overflow; a page has 4096 bytes. The loop of the ageing runs
-- on fuel, the length of its queue, which is enough since a round that goes on takes the next
-- index, and that of control-U in the console on 128, the size of the buffer, since each round
-- takes one character back; `copyin`, `copyout` and `copyinstr` run on the number of bytes, of
-- which a round copies one at least; `namex` on one more than the path's length, of which a round
-- takes one character at least; the outer loop of `balloc` on one round for each block of the
-- bitmap; and `strlen` on more than the string's length. The loop of `printint` runs on 32, the
-- binary digits of its number, and that of `uartstart` on 32, the size of the buffer. The loops
-- of the page tables run on their number of pages, with addresses that do not pass 2 ^ 64. The
-- other loops are recursions on the table, on a list or on a count.
--
-- The disk of the log writes whole blocks in the order of the program. `Machine.power` counts the
-- writes until the power fails; the disk does not change after that. A recovery starts from the
-- disk alone.
--
-- A part of the code that holds a lock is one atomic step. The alarms take the scheduler of the
-- build as an argument, since only RR, LBS and MLFQ compile them; a timer interrupt that comes in
-- the kernel is not counted. Parameters are the code that is not modelled: what happens to the
-- table and the queues between two switches (`swtch`), `walkaddr` for the copies between user and
-- kernel, which Vm/Table/Copy fills with that of the page tables, the looks at which the UART is
-- idle and the characters it has, the arguments and strings of `vprintf`, `copyin` and `copyout`
-- for a pipe and the console, `dirlookup` for a path, the linker's address of the end of the
-- kernel. A loop that sleeps is modelled up to the sleep, and starts again as another call.
--
-- Not modelled: the round-robin branch and the queue 4 of MLFQ; `fork` but for its descriptors,
-- `growproc`; the table of inodes, `readi` and `writei`, the directories, `fileread` and
-- `filewrite`; `freewalk`, `uvmfree` and the kernel's own page table; the user programs but for
-- `wc` and that matcher; start-up, devices and assembly, which are hardware.
pub mod Base
pub mod Ring
pub mod Proc
pub mod Sched
pub mod Kalloc
pub mod Lifecycle
pub mod Uart
pub mod Pipe
pub mod Spinlock
pub mod Strings
pub mod Console
pub mod Log
pub mod Bio
pub mod Vm
pub mod Files
pub mod Fs
pub mod Syscall
pub mod Print
pub mod Wc
pub mod Grep
pub mod Sleeplock
