-- ===== src/Lib.antt =====
-- Best-kernel: its pools and lock, page entries, signals, interrupt controllers, PCI configuration
-- space, files and system calls.
--
-- The kernel keeps its objects in pools of slots (class Hash), takes a lock around a pool (class
-- King, mutex), lays out page trees for processes (class Kingmem), runs threads and delivers signals
-- to them, and serves system calls, which work on the virtual filesystem and on page trees. Device
-- drivers reach the hardware through PCI configuration space, interrupts through the apics.
--
-- Files and code:
--   Memory   kernlib/mem.h: memcpy and memset, on memory as a function from addresses to bytes.
--   Frames   runtime/mem/core.h: the table of physical pages, get_free_phys, get_free_identity and
--            manipulate_phys, and over them malloc, mfree and mrealloc of kernlib/mem.h.
--   Regions  runtime/mem/core.h: vmtree_fetch, entryto_vm, vmtree_lay, mem_free, mem_realloc and
--            mem_remap, which join Paging and Frames; Regions/Teardown recursive_free and
--            get_pagetype_from_number.
--   Disks    drivers/nonvolatile_storage/README.cpp: the partitions, which are copied to slots of
--            Pool, and the requests to the drivers of disks and filesystems.
--   Ps2      drivers/ps2_controller.cpp; Ps2/Devices drivers/devices/ps2_keyboard.cpp and
--            ps2_mouse.cpp. A routine is a run on what the ports answer.
--   Pool     kontrol.h, class Hash: `alloc` and `free` over the check bytes; Pool/King `realloc`,
--            class King, the pool of threads and translate_ldt_entry.
--   Lock     kontrol.h, mutex(): a step relation with one step for each instruction, and one for a
--            write of the byte by another processor.
--   Apic     drivers/interrupts.cpp: the IO apic's pins; Apic/Timer the local apic's registers, and
--            Apic/Vectors init/interrupts.cpp, which routes devices through the pins and Tables.
--   Pci      drivers/pci.cpp: read, write and their boot versions, and the readers of configuration
--            space, over an interface for the two ports; Pci/Ranges get_bar_info,
--            and Pci/Enumeration set_device_ranges and pci_init.
--   Acpi     drivers/acpi/core.cpp and drivers/acpi/spec.h: the search for a table, the walk over the
--            structures of the MADT, which reads the IO apics of Apic, and test_ps2_controller.
--   Modules  runtime/syscalls/SYS_MODRM.cpp: the removal of a driver with all below it;
--            Modules/Insertion 035_SYS_MODINSERT.cpp, poll_solutions, recurse_modules and modinsert.
--   Paging   runtime/mem/core.h: memreq_template, mem_alloc, mem_map, map_identity, deallocate_vm,
--            mem_unmap, exchange_swap and the fault handlers.
--   Tasks    runtime/sched/core.h, runtime/sched/sched.cpp and kernlib/irhandlers.cpp: threads,
--            processes and signals; Tasks/Scheduler getnext_thread,
--            Tasks/Help get_some_help and sysret, and Tasks/Sacrifice BLOOD_LIBEL of
--            kernlib/BLOOD_LIBEL.cpp, and Tasks/Killing PKILL of kernlib/KILL.cpp.
--   Vfs      runtime/vfs/core.h: files, read, write and load_page; Vfs/Paths the lookup and open,
--            Vfs/Writeback writeback_cycle.
--   Syscall  runtime/syscalls: Syscall/Files the calls on files, Syscall/Control those on time,
--            memory and signals, Syscall/Naming those that name files (open, close, mount, chroot),
--            Syscall/Clock time.h and the identities, Syscall/FileMaps SYS_FMAP and SYS_FUNMAP,
--            Syscall/Threads SYS_THREAD with the stack of the new thread, Syscall/Execution exec,
--            Syscall/Loading SYS_EXEC, SYS_MODCTL and SYS_MODINSERT, and Syscall/Polls SYS_PING with
--            kernlib/report_IO.cpp.
--   Boot     init/setup_kernel.cpp: the memory map of the firmware (Boot/Caches, Boot/Addresses) and
--            the configuration of the pools (Boot/Names).
--   Tables   init/tables.cpp, setup_PAT of init/setup_MSRS.cpp and kernlib/pagerounds.cpp: descriptors
--            of the segment and interrupt tables, and counts of pages.
--   Base     what they share: tests into Bool, lists, words of 8 to 64 digits and their digits.
--
-- How the source is read: ustd_t has 32 digits, ulong_t and pointers 64, and each store wraps
-- around there. An argument that a call leaves out is 0. A shift that passes 31 is one of a 64-bit
-- value. What each file had to decide beyond this stands at its top.
--
-- Loops are recursion on the number of passes left, which the source's bound gives. Some
-- have fuel: Lock.run counts instructions, and what holds of every execution is stated on the step
-- relation; getnext_thread counts passes, as many as there are slots are enough where the loop ends;
-- the two searches of Frames count passes, and 4097 find a small page in an empty table
-- (Frames/Finds); report_IO counts passes, and one is enough where it ends. A wait for the PS/2
-- controller recurs on the list of its answers. The walk over the MADT counts structures, and one
-- pass more than there are is enough; a request to a disk counts passes, and two are enough
-- where it ends; the search for the ranges of a device takes six, unless a
-- call leaves 2 ^ 32 - 1; the search for an ACPI table takes 2 ^ 29 + 1 where it ends; the name of the init
-- system takes one pass more than it has bytes.
--
-- Parameters: what memory allocation, what the tree walk finds (vmto_entry, whose shifts have
-- counts beyond any word; what it writes is modelled; and vmto_phys), mount and open for some calls, exec for SYS_EXEC, module_ctl, the drivers of disks and
-- filesystems, the clock and the ports return. Calls that leave the modelled state stand in a log of
-- requests.
--
-- Not modelled: the rest of boot and firmware (init), the assembly that switches stacks and rings,
-- mount and recursive_insert of the filesystem, swap_process, and the body of module_ctl,
-- which are assembly, firmware calls, or not yet covered; and, of the modelled files, what their own
-- comments leave out.
pub mod Base
pub mod Memory
pub mod Pool
pub mod Lock
pub mod Apic
pub mod Acpi
pub mod Pci
pub mod Modules
pub mod Paging
pub mod Frames
pub mod Regions
pub mod Disks
pub mod Tasks
pub mod Ps2
pub mod Vfs
pub mod Syscall
pub mod Boot
pub mod Tables
