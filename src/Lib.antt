-- ===== src/Lib.antt =====
-- CKI runs a container's own kernel beside the host's kernel, kept apart by page tables and
-- process-context identifiers. This library models the two C programs that make and run such a
-- container, and the parts of the container's kernel that keep its page tables and call the module,
-- and proves what it says at the end.
--
-- The kernel module, source/cki_kmod/pkm_main.c, is Pkm. Its structures are records with the
-- source's field names (Pkm/State), its requests' arguments stand in Pkm/Abi, and the calls that a
-- container makes in Pkm/Rkcall. A function of the module is a function from a world to an outcome
-- (Pkm/World): `done` with a result, `oops` for a fault such as a read through NULL, or `spin` for
-- `while (1);`. A world has the memory that the module fills, its globals, and a log of what it
-- took, gave back and did. The functions of Linux that the module calls are the record `Kernel`, a
-- parameter of all the definitions; what the proofs need of the page allocator, the direct map and the
-- lookup of eventfds is Pkm/Laws.
--
--   Pkm/Mmio     the virtio-mmio network device: the queue macros, init_virtio_net,
--                handle_rkcall_mmio_read, handle_rkcall_mmio_write and their helpers
--   Pkm/Memory   mem_check
--   Pkm/Boot     create_boot_pgtbl, create_boot_params, init_ctxs, create_cpus, and what frees them
--   Pkm/Create   pkm_dev_ioctl_create_cntr with its labels, pkm_cntr_release, deinit_virtio_net
--   Pkm/Start    pkm_cntr_ioctl_start, handle_rkcall_init_late, handle_rkcall_halt, virtio_wakeup
--   Pkm/Vring    get_phys_base, get_vring_info, set_vring_efds, virtio_ptable_queue_proc
--   Pkm/Ioctl    the request switches pkm_cntr_ioctl and pkm_dev_ioctl, pkm_init and pkm_exit
--   Pkm/Threads  the launcher's threads at one container, in any order of rounds and requests
--   Pkm/Lifetime a container from its creation over the turns of these threads to its release
--
-- The launcher, source/launcher/cki_launcher/main.c, is Launcher. Its calls of the operating system
-- are a log, and their answers a parameter, the record `Os` (Launcher/System). Launcher/Address has
-- phys2virt, Launcher/Exits the exits that a container makes and percpu_routine, Launcher/Tap
-- tap_open, and Launcher/Setup all the rest and main, with the loop over the segment file in
-- Launcher/Segments. The two programs meet in the requests of Pkm/Abi: a start request returns to
-- percpu_routine, and the exit for a ready queue asks the module for its rings and gives it its
-- eventfds.
--
-- The monitor of the page tables, arch/x86/pkernel/pkernel-monitor.c in
-- source/cki_kernel/kernel.patch, is Monitor. A command is a function from the monitor's state to
-- `done`, `bug` for a failed BUG_ON, `fault` for an access through NULL, or `spin` for a lock that
-- is never free (Monitor/State); the direct map is a parameter, and `DirectMap` says what is needed
-- of it. Monitor/Walk has get_pgeVaddr and the functions of its levels, and Monitor/Pages the rest,
-- from declare_ptp_and_walk_pt_entries to update_mapping; their recursion is on the level, so there
-- is no fuel. Monitor/Hardware is the walk of the processor, Monitor/Levels and Monitor/Updates the
-- changes that are permitted, Monitor/Layers the order of the levels, Monitor/Reach and
-- Monitor/Tables the sequences of operations, Monitor/Processors the steps of several processors,
-- each with its own CR3, in any order, where the check and the store of update_mapping are two
-- steps, and Monitor/Calls, Monitor/Loop and Monitor/Init the initial walk.
--
-- The container's kernel, arch/x86/pkernel/pkernel.c in the same patch, is Guest: pk_init, the
-- registry of event handlers, and the calls by which its driver reaches the module's device; its
-- late start and the hooks that decide something are Guest/Hooks. It meets the module in the boot
-- parameters (Guest/Boot), in the registers of a call (Guest/Calls), in the events that a round of
-- the run loop hands over (Guest/Events), in the first call of its late start (Guest/Late) and in
-- the end that a refused write of a register asks for (Guest/Registers), and it meets the monitor in
-- the entries that it sets (Guest/Mapping). The numbers of registers and the paging code of Linux
-- are a parameter, the record `Linux`. What a call of the module answers pk_init_late is not an
-- input of it, since the source drops the answers.
--
-- Machine integers are natural numbers with their wrap-around written out (Base/Word), and
-- Base/Bits has the laws of the bit operations. The run loop takes the container's behaviour as a
-- list, one element for each round: the context with which it comes back, what it leaves in memory,
-- of which the boot table and the boot parameters are read again at the release, and the wake-ups
-- that other threads deliver meanwhile. What it could write over the module's own structures is not
-- modelled. The theorems hold for every such list, so no bound is lost; a list that ends while the
-- container runs is the outcome `running`. Where threads take turns, a round of the loop is one
-- turn: what two processors do to the device within one round is not interleaved. The launcher's
-- endless loops run for a number of rounds, and `running` means that the number was used up; a
-- segment file of n lines takes n + 1 rounds of its loop. A `strcpy` past the end of an array is
-- the outcome `overflow`.
--
-- Not modelled: the assembly of pkm_asm.S, whose effect is the context of each round; the hooks of
-- pkernel.c that hand their arguments on, make one call or mask bits of cpuid; the rest of the
-- patch to Linux in source/cki_kernel, but for the constants and structures that the module shares
-- with it; the benchmark programs under apps, which are other projects' code; and the scripts.
--
-- Scenarios has a small kernel, a container, a device and a launcher, on which its child modules
-- run each theorem: Scenarios/Containers a creation and a release, Scenarios/Lifetimes the requests
-- in between, Scenarios/Turns two threads, Scenarios/Drivers the container's kernel and its driver,
-- Scenarios/Hooks its hooks, Scenarios/Pages the monitor over a small page table, Scenarios/Races
-- two processors at it, Scenarios/Images the segment file, and Scenarios/Runs all the rest.
pub mod Base
pub mod Pkm
pub mod Launcher
pub mod Monitor
pub mod Guest
pub mod Scenarios
