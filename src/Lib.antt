-- ===== src/Lib.antt =====
-- Sophon, an operating system for the Raspberry Pi: the scheduler, the process manager, the virtual
-- file system, the table of modules and system calls, the page tables and page allocators, and their
-- libraries, as functions on explicit state.
--
-- How the parts interact. A timer interrupt or a system call enters the kernel with interrupts
-- masked. The scheduler (modules/round-robin) keeps the queue of ready tasks and hands the core on.
-- The process manager (modules/pm) keeps tasks and processes, and its mutexes and condition variables
-- put tasks to sleep and wake them through the scheduler. The VFS (modules/vfs) finds a path in the
-- root file system, which is a file tree in memory (libs/vfs), or in what is mounted on it, such as
-- the devices (modules/dev), and keeps the open files of each process. A user program reaches both by a
-- system call that names a module: the kernel (sophon/src/modules) looks the name up and calls the
-- handler that the module registered, with interrupts masked. The locks of user programs (libs/sync)
-- are such calls to the process manager. The kernel maps pages with the tables of libs/memory, for
-- which the physical page allocator gives the frames.
--
-- Files.
--   Base and below        Boolean tests, lists, texts, maps, and `Outcome`: a result or a panic.
--   Kernel                The state that scheduler and process manager share; libs/sched,
--                         libs/interrupt; the structs of modules/round-robin and modules/pm.
--   Scheduler             modules/round-robin/src/lib.rs, function by function.
--     Invariant           What the queue, the current task and the run states say of each other.
--     Blocking, Fairness  sleep, wake_up, register_new_task; timer_tick as a rotation.
--   Proc                  modules/pm/src/task.rs and proc.rs.
--     Waking              The loop that wakes the waiters of a lock or a monitor.
--     Create, Exit        Process::create; Task::exit and Process::exit.
--     Locks               modules/pm/src/locks.rs, with its invariant and its contended cases.
--     Calls               handle_module_call of modules/pm/src/lib.rs; Rescheduling, Kept and Foreign:
--                         what its calls leave of the locks of others.
--   RamFs                 libs/vfs/src/ramfs.rs; Names gives paths a meaning as lists of names.
--   Vfs.State             The structs of libs/vfs/src/lib.rs and the state of modules/vfs.
--   Vfs.RootFs, DevFs     modules/vfs/src/rootfs.rs, modules/dev/src/lib.rs.
--   Vfs.Nodes             The trait FileSystem: a call goes to the file system of its node.
--   Vfs.Paths, Mount      modules/vfs/src/fs.rs, modules/vfs/src/mount.rs.
--   Vfs.Cwd, Segments     The data of a process in modules/vfs/src/lib.rs, its working directory and
--                         canonicalize; what splitting and joining a path do.
--   Vfs.Files             The calls of modules/vfs/src/lib.rs; Reading has the loop of exec in
--                         sophon/src/task/syscall.rs.
--   Memory.Address, Page  libs/memory/src/address.rs and page.rs, on 64-bit words.
--   Memory.Bits, Powers   Bitwise operations; trailing_zeros and next_power_of_two.
--   Memory.Physical       sophon/src/memory/physical/physical_page_resource.rs: Lists says what table
--                         and memory stand for; Split and Allocate have the loops of allocation, Fill
--                         that of release_contiguous, Frames acquire and release.
--   Memory.Bitmap         libs/memory/src/bitmap_page_allocator.rs: Cells and Acquire say what a search
--                         takes, Splits and Units what it leaves of all the bits, Array that the bits
--                         of the table are independent.
--   Memory.FreeList       libs/memory/src/free_list_allocator.rs: Refill has the cutting of new pages
--                         into cells, Reuse what is freed and allocated again.
--   Memory.Flags          libs/bitflags/src/lib.rs and the flags of libs/memory/src/page_table/mod.rs.
--   Memory.Entry          libs/memory/src/page_table/mod.rs, an entry; Words: what its word
--                         keeps of address and flags.
--   Memory.Tables         libs/memory/src/page_table/page_table.rs.
--     Index, Walk, Agree  The indices of an address; a walk, and what it depends on.
--     Grow, Enter, Leaf   The tables that a walk adds; the last entry.
--     Mapping, Identity   map_page and identity_map.
--     Clear, Unmap        unmap, with the tables that it gives back; RoundTrip has both together.
--     Enable              enable_temporarily and its guard.
--     Sbrk                sbrk of sophon/src/memory/utils.rs.
--   Modules               sophon/src/modules/mod.rs and services.rs, libs/kernel-module/src/call.rs.
--     Syscalls            sophon/src/task/syscall.rs and the stubs of libs/syscall/src/syscall.rs.
--     Registering         What registration makes of the table; Processes: calls to modules/pm.
--     Sync                libs/sync/src/lib.rs; Lifetime: what a lock leaves in the kernel.
--   Requests              libs/syscall/src/lib.rs and the requests of libs/syscall and libs/vfs as words.
--
-- How it is modelled.
--   * A function that may panic returns `Outcome`. A debug assertion counts as an assertion, and a
--     pointer to an object that is not there as a panic.
--   * There is one core, as in sophon/src/modules (num_cores is 1), but the functions of the
--     scheduler take the core as an argument. A function that does not return hands back the task
--     that goes on in user mode; what a sleeping caller does when it is woken is a further round.
--   * TASKS, PROCS and the kernel heap are functions from ids or addresses to options. A `BTreeMap`
--     that is printed or listed is the list of its entries in ascending order.
--   * Text is a list of Unicode scalar values, and its bytes are those of UTF-8.
--   * Counters and offsets are natural numbers: those of tasks and processes grow by one per task,
--     and an offset is at most the length of a file that is in memory.
--   * Recursion on a path runs on fuel one more than the length of the path, and every step takes a
--     character off it; the reading loop runs on one more than the number of bytes left. A run out of
--     fuel is a panic.
--   * What goes on in the kernel's heap when a task or a process is dropped at its exit (the mutex and
--     the condition variable of its monitor are destroyed) is not modelled.
--   * The monitors of tasks and processes are their value and their waiters: the mutex inside a
--     monitor is free whenever the kernel, with interrupts masked, takes it.
--   * Device drivers (modules/pl011) are a parameter, `Drivers`. What the VFS does when a process is
--     registered is a parameter of `create`.
--   * An address is a number below 2 ^ 64; a sum or a difference that leaves the words is a panic, as
--     in a build with overflow checks, and a shift loses the bits past the end. Physical memory is the
--     word at each address. The loops of the page allocator recurse on the size classes that are left,
--     and release_contiguous on one more than the pages of the range, of which each round takes at
--     least one. Its guards against a cell that is misaligned or too large, which are endless loops,
--     are panics here.
--   * The bitmap allocator's search recurses on the size classes that are left, and so does that of the
--     free-list allocator. Its loop over new pages runs on one more than their bytes, its release of
--     large cells on 2 ^ 43, as many as there can be, and alloc_cell_slow calls itself once at most.
--   * A page table has four levels, which the walks spell out. Its entries are the words of memory, the
--     addresses it maps are below 2 ^ 48, and the allocator of frames is a parameter: `Supply` says
--     that it gives distinct, aligned frames that no table uses. The cache of translations is not state.
--   * The functions of the kernel that a system call may reach besides the table of modules are the
--     parameter `others` of `handle_syscall`; the text at an address of a user program is a parameter.
--   * A user program's call that puts its task to sleep leaves (`leaves`, `switches`). What a lock
--     protects is kept in the lock, and a guard holds the lock.
--
-- Not modelled: boot, the ELF loader, device tree, interrupt controller, timer and drivers, exception
-- entry, the loading of module code, halt, the set-up of exec's address space, the release of
-- a process's page table, the two heaps over the free-list allocator, the programs of user space, and
-- the tools. They are registers and assembly, or wait for later work.
pub mod Base
pub mod Kernel
pub mod Scheduler
pub mod Proc
pub mod RamFs
pub mod Vfs
pub mod Memory
pub mod Requests
pub mod Modules
