-- ===== src/Lib.antt =====
-- LtKernel, a 32-bit x86 kernel, modelled function by function.
--
-- The kernel hands out physical frames from a bitmap, builds its heap on them, and keeps lists on
-- that heap; a second heap hands out whole pages, mapped in the page tables. The file system reads
-- an ext2 disk into the heap and keeps the files it has seen; processes get a thread each, which the
-- scheduler runs in turn; the system calls give programs handles on directories and files; the
-- kernel prints to the text screen. The parts call each other directly and share global state, which
-- the model passes along.
--
-- The files, with the code that each is about:
--   Frames      kernel/init/vmm.c: the bitmap `memBitmap`, GetFreePage, ReleasePage and the part of
--               InitVmm that fills the bitmap. A `Bitmap` is the list of its bytes.
--   Kmalloc     kernel/lib/kmalloc.c and kernel/init/heap.c: kmalloc, kfree, ksbrk, _splitBlock,
--               _kdefrag, _mod and HeapInit on `mem_block` headers, which are a function from
--               addresses; a heap that is well formed stands for a list of blocks.
--   Paging      kernel/init/vmm.c: the page tables, with the translation of the processor: GetPhysicalAddress,
--               AddPageToKernelPageDirectory, SetPageDirectoryEntry, SetPageTableEntry, CleanPageTable,
--               IsVirtualAddressAvailable. A `Machine` is the physical memory with the register cr3.
--   PageHeap    PageAlloc and PageFree of kernel/lib/kmalloc.c, PageHeapInit of kernel/init/heap.c, over
--               Frames and Paging
--   Spaces      kernel/init/vmm.c and kernel/user/thread.c: AddPageToPageDirectory,
--               CreateProcessPageDirectory, SaveCurrentMemoryMapping, RestoreMemoryMapping, ThreadPrepare
--   Descriptors kernel/init/gdt.c and kernel/init/idt.c: the descriptors and the tables that GdtInit and
--               IdtInit fill
--   Memory      kernel/lib/stdlib.c: MmCopy, MmSet, StrCpy, StrLen, StrCmp and FirstIndexOf on a
--               memory of bytes.
--   LinkedList  kernel/lib/list.c: every function, on a store of nodes; a use of NULL or of a node
--               that was freed is a `fault`.
--   Status      kernel/lib/status.h
--   Alloc       kmalloc and kfree as Ext2 sees them: an address that is not in use, or NULL; with a
--               count of the frees of memory that is not in use
--   Ext2        kernel/fs/ext2.c: ReadSuperBlock, ReadGroupDesc, Ext2ReadDiskOnDevice,
--               Ext2ReadInode and Ext2ReadFile, with every failure of an allocation or a read.
--               The state of Ext2ReadFile is the record `Reading` of its locals.
--   FileCache   kernel/fs/file.c and InitRoot of kernel/fs/fs_manager.c: CreateFile, OpenFile, IsCached,
--               BrowseAndCacheDirectory, OpenFileFromName, InitRootFile. A file is a record at an address
--               with the list of its children.
--   Elf         kernel/fs/elf.c: ElfCheckIdent, ElfInit and LoadElf over the bytes of a file; the pages that
--               it maps are a list, each with its frame and its bytes
--   Screen      kernel/drivers/screen.c: ScPrintChar, ScScrollUp, ScClear, ScSetColor, ScSetColorEx
--   Handles     kernel/lib/handle.c and the calls SysOpenDir, SysReadDir, SysGetProcDir and
--               SysSetProcDir of kernel/user/syscalls.c
--   Scheduler   kernel/scheduler.c and PmStartThread of kernel/user/process_manager.c, up to the
--               registers that a thread is started with; Scheduler/Frame is the stack of an interrupt,
--               with the pushes of the processor and of SAVE_REGS in kernel/init/int.asm
--   Tasks       kernel/user/process.c, kernel/user/thread.c and PmCreateKernelThread: CreateProcess,
--               CreateMainThread and InitThread, over Alloc, PageHeap and Scheduler
--   Ata         AtaRead and AtaWrite of kernel/drivers/ata.c over sectors
--   Debug       kernel/debug/ltdbgcom.c and kernel/debug/ltdbg.c: packets, requests and responses over the
--               bytes of the serial line, the commands, WaitForPacket and the interrupts that enter it. A
--               `Debugger` is the line, the heap, the memory and the locals of the handlers.
--   Keyboard    kernel/drivers/keyboard.c, kernel/drivers/kbmap.h, kernel/user/console.c and SysScanf of
--               kernel/user/syscalls.c; the scan codes that come while it waits are a list
--   Format      printInt and printBin of kernel/lib/stdio.c
--   Prelude     the names, tests, lists, words and results that all files share
-- In each, a function has the name of the C function in lower case with `_`, a loop has a function
-- of its own, and the theorems stand in child modules named for what they prove. Tests holds an
-- example for each theorem.
--
-- Numbers are natural; u8, u16 and u32 write out the wrap-around. Loops whose end is not given by
-- their data run on fuel, and running out of it is the outcome `stuck`: the walks of a list need
-- more fuel than it has nodes, those of the heap one unit for each block and one more, `printInt` 33
-- steps, the loop over a directory one more than it has entries, and LoadElf one more than a segment
-- has pages; the theorems say that this is enough. A division by zero, a write through NULL and a
-- read of a freed node are the outcome `fault`; a wait of SysScanf or of the debugger that nothing
-- ends is `stuck` too, and its loop takes one unit of fuel for each request.
--
-- Parameters: what `kmalloc` answers to the code above it and what the memory that it grants holds,
-- the answers of the disk (of `AtaRead` for Ext2, of `AtaReadSectorPio` for Ata, of Ext2ReadInode
-- and Ext2ReadFile for FileCache), the status of PmCreateProcess for Elf, the interrupt frames of
-- the scheduler, the scan codes of the keyboard, the fields and kinds of files that the directory
-- calls read, and the callbacks of lists. Ext2, Ata, FileCache and Tasks take an address of kmalloc
-- to be new; Kmalloc proves that it is. For Ext2 a read of the disk leaves the heap as it is: what
-- AtaRead allocates for itself is the subject of Ata. LoadElf at an address inside a page is a
-- `fault`.
--
-- Not modelled: code that only drives ports or prints (the port commands of the disk, serial port,
-- hardware cursor, interrupt controller, dumps), assembly, boot code and build files; the start of
-- paging.
pub mod Prelude
pub mod Status
pub mod Alloc
pub mod Frames
pub mod Kmalloc
pub mod Memory
pub mod LinkedList
pub mod Ext2
pub mod Screen
pub mod Handles
pub mod Format
pub mod Tasks
pub mod Ata
pub mod Debug
pub mod Descriptors
pub mod Elf
pub mod FileCache
pub mod Keyboard
pub mod PageHeap
pub mod Paging
pub mod Scheduler
pub mod Spaces
