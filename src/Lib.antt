-- ===== src/Lib.antt =====
-- UlmerOS, a small kernel for x86_64 in C: its utility library, its memory management, and the parts
-- of scheduling, processes and file systems that stand on these.
--
-- Parts, files and sources (paths from the root of the repository):
--   Common: names shared by all parts; lists over machine numbers, the bits of a byte, positions in
--     blocks, and outcomes: a result, a failed assertion or kernel panic, a fault (an access through NULL
--     or a freed pointer, a division by zero, what C leaves undefined), or a loop that has used up its
--     fuel. The build with DEBUG
--     is modelled, in which assertions are checked (kernel/kernel/include/debug.h).
--   Util/Bitmap: kernel/libutil/bitmap.c. A bitmap is its size and its bytes.
--   Util/LinkedList: kernel/libutil/list.c. Items live in a heap from addresses to items; a free
--     removes an address. Chain says when a heap holds a list.
--   Util/Strings: kernel/libutil/string.c, strings as bytes in memory, and number printing;
--     Format is kernel/libutil/sprintf.c.
--   Boot: kernel/arch/x86_64/boot32, the 32-bit stage. Regions and Pagemap are mmap.c, Paging and Mapped
--     paging.c, Reserve and Release boot32mem.c and the end of kernel/arch/x86_64/x86_64/main.c.
--   Mm/Page: kernel/kernel/mm/page.c, the allocator of page frames: a bitmap, and the words of all
--     frames. It starts in any ready state; Boot shows how one comes about.
--   Mm/Heap: kernel/kernel/mm/heap.c, the kernel heap: the headers in memory, by address. Blocks and Chain
--     give the list of blocks that the headers stand for; Malloc and Free are about the two calls.
--   Arch/Vspace: kernel/arch/x86_64/x86_64/vspace.c, four-level page tables in those frames. Entries are
--     64-bit words with the fields of gpte_t.
--   Sched/Mutex: kernel/kernel/sched/mutex.c with the spin lock of kernel/kernel/sched/spinlock.c, as a step
--     relation on the places of any number of tasks.
--   Sched/Tasks: kernel/kernel/sched/sched.c and kernel/kernel/sched/task.c, which task runs next.
--   Sched/Cleanup: kernel/kernel/sched/tasklist.c, the passes that delete the tasks that were killed.
--   Sched/Interrupts: kernel/kernel/sched/interrupt.c, the handlers of interrupts.
--   Sched/Dispatch: kernel/arch/x86-common/x86/irq.c and kernel/kernel/sched/syscalls.c, what each interrupt of the
--     processor leads to, over the calls into the rest of the kernel.
--   Proc/Descriptors: the file descriptors of kernel/kernel/sched/proc.c, and the system calls of
--     kernel/kernel/fs/fs_syscall.c on them.
--   Proc/Userstack: kernel/kernel/sched/userstack.c, the stacks of a process.
--   Proc/Program: kernel/kernel/sched/loader.c, kernel/kernel/mm/sbrk.c and kernel/kernel/mm/pagefault.c, the
--     segments of a program, its heap, and which of stack, heap and program serves a page fault; Loading is
--     how a program is opened.
--   Fs/Ext2: kernel/kernel/fs/ext2fs.c, the reading side. Its Device is what vfs_seek and vfs_read of
--     kernel/kernel/fs/vfs.c give on the open descriptor; Blocks.Reads is what the driver relies on.
--   Fs/Ramdisk: kernel/kernel/fs/ramdisk.c under the file operations of kernel/kernel/fs/blkdev_ops.c.
--     Disk shows that its descriptor is what Fs/Ext2 relies on.
--   Fs/Partitions: kernel/kernel/fs/partscan.c, partition tables, and a partition as a disk of its own.
--   Fs/Vfs: kernel/kernel/fs/ffind.c and the calls of kernel/kernel/fs/vfs.c that look up paths. Directories and
--     files are numbered; what a file system does to fetch an entry's file is an argument.
--   Fs/Blockdevs: kernel/kernel/fs/blockdev.c and bd_open of kernel/kernel/fs/blkdev_ops.c, the registry of devices.
--   Bus/Pci: kernel/kernel/bus/pci.c and kernel/drivers/pc/pci.c, the configuration space of the PCI bus,
--     its scan, and the registration of drivers.
--   Drivers/Ata: kernel/drivers/pc/ata.c, reading blocks from a disk (Transfers) and which disks are
--     found (Slots). What a disk and the bus master answer to the writes is a parameter.
--   Init/Cmdline: kernel/kernel/init/cmdline.c, parsing the kernel's command line.
--
-- How they interact: the boot stage makes the bitmap that the page allocator begins with and the page
-- tables that the kernel's address space begins with; the page allocator calls the bitmap, the page tables call the page allocator, the
-- user stacks and page faults call both, and so does the kernel heap when it grows or shrinks. The ext2
-- driver reads through a descriptor, which a ramdisk or a partition of it provides. Registering a block
-- device, as the disk driver does for each disk that it finds at a controller on the PCI bus,
-- makes a node for it in the virtual file system; opening a file looks its path up there and
-- gives it a descriptor number.
--
-- Locks: a body that runs from taking a lock to releasing it is one function here, without the lock.
-- That a mutex keeps two tasks apart is the subject of Sched/Mutex.
--
-- Numbers are natural numbers; where the source wraps round, the remainder by 2 ^ 64 is written out. The
-- boot stage is compiled for 32 bits: its cast of a pointer to 64 bits extends the sign, and the theorems on
-- its page tables and reservations are about memory below 2^31. A shift of an int that does not fit is a fault.
-- Fuel: the walks along a list have one unit more than the list has items, reading a file has one for
-- each byte asked for, and listing a directory one for each byte of it; the theorems on them show
-- that this is enough. The loops of the kernel heap over its blocks have one unit more than the
-- break's address, the search for a string's end one for each address, printing a number one more than
-- the number, and looking up a path one more than it has characters. The loop that chooses a task takes
-- its fuel as an argument, and the theorem on it says how many rounds there are. The loop of
-- delete_stack takes its fuel as an argument. Scanning the memory map has one round more than the map
-- has bytes, and clearing a region's pages one more than there are pages. Reading from a disk has one round more
-- than there are blocks to read.
--
-- Not modelled: output, the processor's tables and registers, flushes of the TLB, serial port and keyboard,
-- the boot stage's heap and its copies of what the boot loader hands over, the C library port; and so far
-- starting a process, and mounting. Outside Mm/Heap, kmalloc's result is an argument
-- where its address or its old contents matter.
pub mod Boot
pub mod Common
pub mod Util
pub mod Mm
pub mod Arch
pub mod Fs
pub mod Sched
pub mod Proc
pub mod Init
pub mod Drivers
pub mod Bus
