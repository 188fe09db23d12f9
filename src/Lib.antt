-- ===== src/Lib.antt =====
-- libcplus is a C library of building blocks for servers: a linked list of client pointers, a pool of
-- equal memory blocks, locks, time, and on top of them typed data, files, sockets, tasks and servers.
-- This development models the typed data, the list, the pool, the memory manager, the two kinds of
-- lock, and the time functions.
--
-- The parts and how they interact. A list (src/llist.c) takes its nodes from a pool (src/mempool.c),
-- or from the allocator, and wraps each public call in a read-write lock (src/rwlock.c), whose
-- deadlines src/systime.c computes. The lock's record is a client of Systime here; the list gets the
-- address that an allocation returns as an argument, so it works over the pool and over the allocator.
-- A typed value (src/data.c) keeps text and bytes in blocks from src/memmgr.c, guards itself with a spin
-- lock, and can point to a list as a group node; a list can keep such values under keys.
--
-- Which file models which part, by the functions' names:
--   Common    native numbers with their Boolean tests, lists measured by them, 32-bit integers, and
--             the result codes of cplus/cplus_typedef.h.
--   Heap      the nodes in memory (`struct llist_node`), `errno`, and commands that may fault; Returns
--             is total correctness: a command ends, without a fault and with enough fuel.
--   Llist     src/llist.c. Llist holds `struct linked_list` and the small static functions; Ops the
--             larger ones (`get_node_if`, `pop_of`, `push_at`, `get_set_if`, `llist_sort`, ...), Api
--             and Cursor the functions `cplus_llist_*`. Segment and Rep say what a heap and a struct
--             stand for; Links, Access and Walk are about pointers and the cursor; Push, PushInside, Pop,
--             Unlink and RemoveNode about the changes of the links. Insert, Remove, Get, Search, Find, Take,
--             Clear, Stale, Sort, Steps and New state what the public functions do. `current`, which in C
--             is the address of a link, is a Loc: the head link, or the next or prev link of a node.
--             Keyed has the functions that keep the objects of Data in a list under keys
--             (`cplus_llist_add_data`, `cplus_llist_find_data`, ...) with the objects in memory as a map
--             from addresses; Lookup is about keys, Added and Updated about these functions.
--   Mempool   src/mempool.c. Rep gives the list of free blocks that a pool stands for; Initialize,
--             Alloc and Free are the operations, Whole the life of a pool and the calls by index.
--   Memmgr    src/memmgr.c as built with __CPLUS_MEM_MANAGER__: the records of the live allocations, the tags
--             around each block, and the blocks that the allocator has given and not taken back. Rep says which records a manager has, Records is about adding
--             and finding one, Erase about erasing one, Checks about the tags and sizes, and Calls
--             about `cplus_mgr_malloc`, `cplus_mgr_realloc` and `cplus_mgr_free`. Data uses the functions
--             of the build without it.
--   Rwlock    src/rwlock.c: locking, unlocking and what the wrapper records, each call as one step. POSIX is the parameter
--             `pthread`, with its documented behaviour as the hypothesis IsPthread. Create gives the calls
--             that creating and deleting a lock makes, for each way in which they are answered.
--   Systime   src/systime.c: deadlines, the 32-bit tick, sleeping and the local time; how a `usleep` and each
--             `nanosleep` end is an argument.
--   Data      src/data.c. Data holds `struct data`, its types and Run, the outcome of an operation: it
--             ends with a result and an errno, spins for ever on the object's lock, or accesses memory
--             that is not its own (fault). Memory has blocks and what src/memmgr.c does with them, Text C
--             strings, `sscanf` and `snprintf` on integers, Words the conversions of C. Access has
--             `cplus_data_get_value` and `cplus_data_set_value`, GetAs `cplus_data_get_as_*` of the scalar
--             types, Dump those of strings and arrays, SetAs and Parse `cplus_data_set_as_*`, and Clone,
--             Key, New, Group and Swap what their names say. Where the source repeats a function
--             for each scalar type, the model has one function of the type and, by name, its instances.
--             The other files under Data are proofs: Bits, Blocks, Decimal, Print and Fill about
--             words and blocks; WellFormed and Update about what a writer keeps; Resize and Clones about
--             clones, RoundTrip and Texts about reading what was written, Readers and Results
--             about all branches of a conversion, Locking about calls that wait for ever, Keys
--             and KeyBytes about keys, Creation about new objects, Order about the byte swaps.
--   Spin      the macros DATA_SPIN_LOCK and DATA_SPIN_UNLOCK of src/data.c, and those of src/mempool.c,
--             among threads that take turns, each turn one access of the lock or of the
--             static variable; Exclusion and Broken are its proofs.
--
-- Parameters of Data. Floats is floating-point arithmetic, its formats and `%p`, which the compiler and
-- the C library give. A Malloc says of each allocation whether it succeeds and with which bytes. An address
-- that the caller may leave out is an Option, and a buffer the list of its bytes.
--
-- Bounds and fuel. The loops of src/memmgr.c run on fuel, which is enough above the number of records.
-- `uint32_t` wraps are written out; a list has fewer than 2^31 - 1 nodes, so that an
-- `int32_t` index reaches each. The manager's `int32_t` count is that of fewer than 2^31
-- records. Loops over the list run on fuel of one more than the node count, and
-- each theorem on them shows the loop ends. The loop of `get_node_of` gets the distance it has to walk
-- plus one. The sort's loops are bounded by the node count in the code. `get_tick` and the sleeping
-- loop take the list of the answers they will get.
--
-- Choices that C leaves open: words are little-endian with the widths of a 64-bit Linux; a number out of
-- range of `sscanf` is clamped as the GNU library does it.
--
-- Not modelled: the object tags that CHECK_OBJECT_TYPE asserts; the locking inside the list's calls,
-- each of which is one step here; calls of one read-write lock that overlap, where src/rwlock.c changes
-- its record after `pthread_rwlock_unlock` has let the lock go; `cplus_data_get_type_str`. The other files of src are
-- left aside: they are threads, sockets, files and logging.
pub mod Common
pub mod Data
pub mod Systime
pub mod Heap
pub mod Llist
pub mod Memmgr
pub mod Mempool
pub mod Rwlock
pub mod Spin
