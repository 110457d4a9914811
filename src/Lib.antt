-- ===== src/Lib.antt =====
-- ReaverOS: a model of the parts of the kernel and its libraries that keep state of their own.
--
-- The kernel's containers are intrusive, and stand under everything else. kernel/util/avl_tree.h
-- holds the handle tables of the processes (kernel/scheduler/process.h), whose tokens the system
-- calls take and give. A mailbox (kernel/scheduler/mailbox.h) takes a handle out of one process's
-- table and puts it into another's. kernel/util/tree_heap.h holds the threads that wait for a core
-- (kernel/scheduler/types.h). The frames of kernel/memory/pmm.h fill the page tables of
-- kernel/arch/amd64/memory/vm.h, which give them back when a range is unmapped.
--
-- Files and what they are about:
--   Prelude: Boolean tests, options, lists, integers over the native numbers, and the outcome of a
--     run of kernel code: a value, a panic, a null dereference, or rounds that are used up.
--   Util/Handle: kernel/util/handle.h, the tests `is_a` and `has_permissions`.
--   Util/AvlTree: kernel/util/avl_tree.h. A pointer to an element is a location, a subtree with the
--     list of its ancestors; loops over `get_tree_parent` are recursions on that list. Iterator has
--     `iterator`, Search `find`, `lower_bound` and `upper_bound`, Insert and Erase the operations of
--     these names with their rebalancing, Links the packed word of a parent and a factor, Container
--     the class itself with its size, Destroy its destructor, Check the invariant checker that the
--     tests call. Elements, Balance, Order, Lookup, Traversal and Keyed hold the lemmas.
--   Scheduler/Process: `process` of kernel/scheduler/process.cpp, `register_for_token`,
--     `unregister_token` and `get_handle`; Scheduler/Start the system calls that release a token and
--     start a process; Scheduler/Mailbox kernel/scheduler/mailbox.cpp; Scheduler/System the state
--     that they share.
--   Scheduler/Instance: the scheduler of one core of kernel/scheduler/types.cpp, over the tree heap;
--     Rescheduling and Scheduling have the lemmas. Scheduler/Aggregate: `aggregate` of the same file,
--     which spreads threads over cores; Choice is about the child that it chooses.
--   Util/Fifo: kernel/util/fifo.h over a store of the links; Refine relates it to a list.
--   Util/IntrusivePtr: kernel/util/intrusive_ptr.h with the counts of the objects; Counts is about its
--     two steps, Operations about the constructors, assignments and the destructor.
--   Util/Mp: kernel/util/mp.cpp, the queues by which a core has others run a function; Stale is about
--     one queue, Counts and Rounds about a function for all cores.
--   Util/TreeHeap: kernel/util/tree_heap.h with the places of its elements; Find is about `_get_nth`,
--     Order and Down about the loops, Contents counts the elements, Laws has `push` and `pop`.
--   Memory/Pmm: kernel/memory/pmm.cpp, the stacks of free frames with their locks and counts; Layer
--     and Laws hold the lemmas. Pmm/Initialize is `initialize`, which cuts the memory map into
--     frames, with the lemmas in Tiling and Regions.
--   Memory/Vmo: kernel/memory/vmo.cpp, the memory objects; Commit is about their frames.
--   Memory/Vas: kernel/memory/vas.cpp and vmo_mapping.h, address spaces over the AVL tree and the page
--     tables; Ranges is about the tree of ranges, Pages about the tables, Mapped and Created about
--     `map_vmo` and the system call, Release about `unmap`.
--   Arch/PageTable: kernel/arch/amd64/memory/vm.cpp, the page tables as trees; Steps is about one
--     round of the loops, Mapping about the translation of addresses, Ready and Rounds about what a
--     round relies on and does, Sound about whole runs. PageTable/Unmap is `unmap` with its
--     invalidator; its child modules hold the lemmas in the same order.
--   Arch/Acpi: kernel/arch/common/acpi/acpi.cpp, the tables of the firmware; Checksum is about their
--     checks. Acpi/Madt is `parse_madt`: Entries and Nmi are about its two loops, Result about both,
--     Endless about entries of no length.
--   Time/Timer: kernel/time/time.cpp, the events of a timer in a tree heap; Served is about the events
--     that are due.
--   Elf: libraries/elf/src/elf.cpp, `try_parse`; Segments and Steps are about its loops,
--     Accepted about whole images.
--   Rosestd: libraries/rosestd, CString `memcmp`, `memchr`, `memset` and `strlen` of src/cstring.cpp,
--     StringView the comparison of include/string_view, CharConv `from_chars` and
--     CharConv/Writing `to_chars` of include/charconv.
--   Archive/Cpio: libraries/archive/src/cpio.cpp, `get_entry`, `try_cpio` and `operator[]`, by which
--     the kernel finds its first services; Laws and Opening hold the lemmas, Named those on the names.
--
-- Bounds and fuel: the loop of `register_for_token` ends when the timer gives a token that is not
-- in use; it has a number of rounds, and one such reading among them is enough. Loops over a tree
-- need no rounds, but for the destructor's, which ends within twice as many as there are elements
-- and one. The loops over the entries of an archive end within as many rounds as it has
-- characters and one, the loop of `to_chars` within 65, and that of `strlen` within one more than
-- the characters. The loops that cut a region of memory into frames have more rounds than the
-- region has bytes, and the loop over one page table has 514, more than it has entries. The loops
-- of the tree heap have as many rounds as the place or the size that they start from. The
-- commitment of a memory object has as many as the object has pages, and the loops over the
-- entries of a table one more than entries. The loop over the dynamic entries of an image has
-- more rounds than it has entries. Sizes, counts and addresses wrap at 2^64, but the pointers
-- into an archive or an image, which are taken to stay below it.
--
-- Parameters: the timer's readings, and its callbacks, which are taken to add no events, the
-- compiler's count of leading zero bits, the permission bits that the interface generator assigns,
-- what the schedulers below an aggregate do, and what taking the current thread off its core does.
--
-- Not modelled: interrupts, locks but those of the frame allocator (each system call runs as one
-- step), reference counts but those of the pointers themselves, to objects that hold no pointers,
-- the frames of new page tables but in `mapping_create`, the hardware under kernel/arch but its
-- page tables and the firmware's, the boot loader, the interface compiler, and the build system.
-- Of the standard library, formatting and the copying of memory are left out.
pub mod Prelude
pub mod Util
pub mod Scheduler
pub mod Rosestd
pub mod Archive
pub mod Memory
pub mod Arch
pub mod Time
pub mod Elf
