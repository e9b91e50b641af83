-- ===== src/Lib.antt =====
-- A model of the kernel: its memory management, its disk, path and file layers with FAT16 and FAT32,
-- its tasks and processes, the ELF loader, the system commands, its screen and keyboard.
--
-- The parts, the files that model them, and the code:
--
--   Prelude      names that the other modules share; numbers of C on native numbers (a pointer or a
--                uint32_t is a number below 2^32, wrap-around is written `% 2 ^ 32`; an int that
--                can be negative is a ℤ), arrays as functions from indexes, error codes of
--                src/status.h, masks and shifts
--   Memory       src/memory/memory.c: memset, memcmp, memcpy
--   Str          src/string/string.c
--   Heap         src/memory/heap/heap.c: the block allocator. `HeapTable` is struct heap_table, with
--                the bytes in front of the table, which a bad free reaches; `Heap` is struct heap.
--                Each loop is a function of the rounds that it has left
--   KHeap        src/memory/heap/kheap.c: the allocator of the kernel, and the memory it gives out;
--                KHeap.Blocks is the kernel's heap as an `Allocator`, and when it grants a sequence of
--                requests, KHeap.Pages the same for the pages of a directory
--   Paging       src/memory/paging/paging.c: setting, reading and mapping pages in a directory that
--                lies in memory, and the translation of addresses; Paging.Build makes a directory
--   Disk         src/disk/disk.c and streamer.c. The disk controller is a parameter, `Controller`:
--                the words that the data port gives after a command, by the ATA interface
--   PathParser   src/fs/pparser.c. The allocator is a parameter, `Allocator`, which may fail;
--                PathParser.Blocks has the requests that a caller makes of it, one after the other
--   File         src/fs/file.c: the tables of file systems and of descriptors. A file system is an
--                interface, `FileSystem`, whose operations share their state with the allocator
--   Fat16        src/fs/fat/fat16.c: the structures of a volume, decoded from bytes. Fat16.Cluster has
--                the chains of clusters and the reads along them, Fat16.Directory the counting and
--                the root directory, Fat16.Name the names, Fat16.Item the items of a directory and
--                their search, Fat16.Descriptor the operations on files
--   Fat32        src/fs/fat/fat32.c: Fat32.Chain is about its table of clusters, Fat32.Name its names,
--                Fat32.Directory the walk along a path, Fat32.Handle the operations on files
--   Task         src/task/task.c: the list of tasks, in a store of tasks by their addresses, and
--                copies through the pages of a task (Task.CopyString)
--   Process      src/task/process.c: the table of processes, and the allocations of a process with
--                its pages; Process.Arguments and Process.Load have the arguments and the mapping;
--                Process.Start has the loading and the end of a process, over `Machine`, the
--                part of the kernel's state that they change
--   Elf          src/loader/formats/elf.c and elfloader.c: the checks of a header, and the spans of
--                the loaded segments; Elf.Load is elf_load, through the file layer
--   Idt          src/idt/idt.c and src/isr80h/isr80h.c: the interrupt descriptors, the callbacks, and
--                the table of system commands
--   Isr80h       src/isr80h/io.c, heap.c, misc.c and process.c: the system commands, over the state
--                of the kernel, with the items of the caller's stack as arguments
--   Terminal     src/terminal.c: the cells of the screen and the cursor
--   Gdt          src/gdt/gdt.c: segment descriptors; Gdt.Decode is the processor's reading of them
--   Keyboard     src/keyboard/keyboard.c: the ring of characters of a process; Keyboard.Classic is
--                src/keyboard/classic.c, the driver that fills it, and Keyboard.Drivers the list of
--                drivers and their start
--   Stdlib       programs/stdlib/src, the library of the user programs, which calls the kernel through
--                parameters: Stdlib.Itoa is about itoa, Stdlib.Tokens about strtok,
--                Stdlib.Command about peachos_parse_command, whose arguments' blocks
--                Stdlib.Argument describes, Stdlib.Readline about
--                peachos_terminal_readline
--
-- How they interact: the kernel heap hands the heap its table and area; the path parser allocates
-- through the kernel heap; the stream reads whole sectors from the disk and copies the bytes asked
-- for; FAT16 reads its table, its directories and its files through three streams, FAT32 through
-- one; a process is loaded through the file layer, as an ELF file or else as a binary, and maps
-- what it allocates in the directory of its task, and a task's strings are read through that
-- directory; the system commands call all of these with items of the stack of the current task; the
-- driver pushes to the ring that a process pops from; the tables of a page directory are read and
-- written as words of memory.
--
-- State is passed explicitly, and an operation returns what it returns in C together with the state
-- after it. `Option` stands for NULL, for a panic or for fuel that runs out, as the comment at the
-- definition says. Fuel is taken by loops that no bound ends: strlen, strcpy, print, the loop over
-- the parts of a path, the recursion of diskstreamer_read, the count of a directory's items, the
-- recursion of a FAT16 read, the loops of FAT32 over names, clusters and paths, and those of itoa
-- and strtok; the theorems say how much is enough.
--
-- A theorem that needs an allocation to succeed asks it of the requests that the call makes, in the
-- states that it makes them in. A task's pages and the bytes of its strings are kept apart, the words
-- of the directories and tables in one array and the other bytes in another: where the code writes
-- to a block, the theorems ask that the block be none of the memory of those tables.
--
-- Each X/Examples applies the theorems on X to concrete inputs.
--
-- Not modelled: the assembly and the ports, with the switch to a task, which a command that makes
-- it reports in its reply; the tables of operations of the two file systems, which `FileSystem`
-- stands for; the search for disks; the start of the kernel, which calls the other parts in order;
-- printf and the functions of the users' library that only make a system call; the shell, a loop
-- of calls of that library, and the tools that make a disk.
pub mod Disk
pub mod Elf
pub mod Fat16
pub mod Fat32
pub mod File
pub mod Gdt
pub mod Heap
pub mod Idt
pub mod Isr80h
pub mod KHeap
pub mod Keyboard
pub mod Memory
pub mod Paging
pub mod PathParser
pub mod Prelude
pub mod Process
pub mod Stdlib
pub mod Str
pub mod Task
pub mod Terminal
