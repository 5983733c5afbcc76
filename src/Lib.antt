-- ===== src/Lib.antt =====
-- mexOS is a 32-bit kernel in C. This library models the parts of it that decide something and
-- proves what makes them correct. Paths are from the repository's root.
--
-- The parts and the files that model them:
--
-- - Pmm (Pmm.antt and Pmm/): kernel/mm/pmm.c, the physical memory manager. The bitmap is the words
--   in memory from `bitmap_addr` on; `Pmm.Bitmap` has its operations and the two searches, `Pmm` the
--   functions that change the manager. `Pmm.Boot` has the calls that kernel/kernel.c makes.
-- - Sched (Sched/): kernel/sched/sched.c and sched.h. The queue is a list of task records, newest
--   first; a record's `ptr` is the address of the C structure, and `current` the address in
--   `current_task`. `switch_context` is assembly: the state records its calls. `Sched.Task` has the
--   queue and scheduling, `Sched.Create` creation and fork, `Sched.Life` exit, wait and destruction.
-- - Heap (Heap.antt and Heap/): kernel/mm/heap.c. The chain of headers is a list of blocks with their
--   addresses; the words outside the headers are a memory, which only the magic number of aligned
--   blocks is read from. A header that merging removes is no longer part of the memory.
-- - Vmm (Vmm/): kernel/mm/vmm.c and vmm.h, over the model of the physical memory manager. The memory
--   holds a word at each address the kernel uses, tables and pages alike; `x & ~0xFFF` and the tests of
--   single flags are written with division. `Vmm.Table` has one directory, `Vmm.Space` address spaces.
-- - Elf (Elf.antt and Elf/): kernel/core/elf.c and elf.h, over the models of paging and the file system.
--   The pages that it maps go to the directory it is given. The bytes that it copies go one by one to the
--   address space that is current: pointers wrap around, and a page that is not present ends the load
--   in a fault. That these bytes may be tables, or the file's buffer, is not followed. `Elf.Inside`
--   has what is checked of a program, `Elf.Stores` what is written.
-- - Basic (Basic.antt and Basic/): the program lines, expressions and LET of kernel/ui/basic.c and basic.h,
--   with the byte that `strncpy` of kernel/lib/string.c writes behind a row, which `Basic.Rows` derives
--   from the model of that routine. RUN, which may run itself without end, is left out with the console.
-- - Alloc.antt: what the scheduler and the ports use of the heap, an interface. `heap_allocator` is
--   the kernel's heap behind it, and Ipc/Memory.antt puts the ports on it.
-- - Ipc (Ipc/): kernel/ipc/ipc.c and ipc.h. `Ipc.Port` has the table of 256 ports, creation and
--   destruction, `Ipc.Send` the loops of `msg_send` and `msg_receive`. A port's ring holds 16 slots, one
--   of which stays empty. A call that sleeps goes on after what the kernel does meanwhile, a list
--   of functions on the state; the list's length bounds the rounds of the loop, and at its end the
--   caller is still asleep.
-- - Log (Log.antt and Log/): kernel/lib/log.c and log.h, the ring of 128 log entries. The time is an
--   argument of `log_write`, which takes it from the timer.
-- - Fs (Fs/): kernel/fs/fs.c and fs.h. `Fs.Node` has the table of 64 nodes and how a path leads to a
--   node, `Fs.Ops` the operations that stay in memory, `Fs.Disk` those that go to the disk when it is
--   enabled, over the functions of kernel/fs/diskfs.h as an interface, which `Diskfs.Dir.disk_fs` fills.
--   `cwd` is the text in the array of that name, which may be longer than the array.
-- - Diskfs (Diskfs/): kernel/fs/diskfs.c and diskfs.h, over the drives as an interface, `Drive`. An array
--   of bytes is a function; `Diskfs.Layout` has the structures and their bytes, `Diskfs.State` the
--   bitmaps and the inode table with its cache, `Diskfs.Data` reading and writing, whose loops get as
--   many rounds as there are bytes to move, `Diskfs.Dir` directories, format and mount.
-- - Text.antt: the C strings of fs.c and log.c as lists of characters, with `strncpy`, `strcmp` and
--   splitting at a character.
-- - Str (Str.antt and Str/): the memory routines and the decimal printer of kernel/lib/string.c, over a
--   memory of bytes. The printer's text is a list of characters.
--
-- Conventions. A `uint32_t` is a number with its wrap at 2 ^ 32 written out (Base/Words.antt). A
-- `pid_t` is its bit pattern. A null pointer is 0. Loops recur on the rounds left or on the list
-- that they walk; a loop that sleeps takes the list of what the kernel does until the task runs again.
-- Only `heap_get_fragmentation`, which may start over, has fuel: its rounds, `none` when they run out.
-- Memory that a component does not own is a parameter.
--
-- Not modelled: the system calls and the rest of kernel/lib/string.c; drivers, interrupt set-up and
-- the rest of the user interface, which are port, register and console input and output; assembly. Whether an allocation fails is what `kmalloc` returns.
pub mod Base
pub mod Text
pub mod Str
pub mod Log
pub mod Pmm
pub mod Alloc
pub mod Heap
pub mod Sched
pub mod Ipc
pub mod Fs
pub mod Diskfs
pub mod Vmm
pub mod Elf
pub mod Basic
