-- ===== src/Lib.antt =====
-- A verification of memcached4chaos, a key-value cache in C++ after memcached: the code of
-- src/cache, from the hash function up to class DataCache, the messages between server and clients,
-- what a client sends and what a worker of the server does with it, and the thread pool of the local
-- driver.
--
-- The parts, each above the ones that it calls:
--   Messages    src/client-server/reqrep.hpp: the classes datarequested and datareplied, each built
--               in a buffer (write_request, write_reply) and read from one (read_request,
--               read_reply). Messages/Numbers is about numbers as bytes, Messages/Request and
--               Messages/Reply about a message that is written, sent and read.
--   Server      src/client-server/zmqserver.cpp: what a worker does with a message (worker_turn),
--               over Messages and DataCache. Server/Get and Server/Set are about a request for a
--               value and one to store it.
--   Client      src/client-server/zmqclient.cpp: the requests that a client sends
--               (worker_request, terminator). Client/Sent is about a request that a worker has
--               received, Client/Ask about one for a value, Client/Stop about the last one,
--               Client/RoundTrip about one that stores a value and one that asks for it,
--               Client/Strings about what the client has in its arrays.
--   Pool        src/local/threadpool.hpp, src/local/threadpool.cpp: class threadpool as a step
--               relation of its workers, the callers of add_task and the destructor. Pool/Owners
--               and Pool/Exclusive are about who has a slot, Pool/History about the order of the
--               tasks, Pool/Wakeups about the two condition variables, Pool/Progress about what a
--               worker can do, Pool/Lost about tasks without a routine. It stands by itself.
--   DataCache   src/cache/datacache.hpp: getItem, storeItem and deleteItem, as get_item, store_item
--               and delete_item. An int result is its 32-bit pattern: -1 is 2 ^ 32 - 1.
--               DataCache/Results is about their results, DataCache/Lookup about getItem in a sound
--               cache, DataCache/Written and DataCache/RoundTrip about storeItem before it.
--   Lru         src/cache/lru.hpp, src/cache/lru.cpp: class LRU_Lists. Lru/Monad holds its state, a
--               record LruLists with the hash table and the allocator inside, and the monad of a
--               run: a function of the state that may fail. Lru/Queue is item_link_q and
--               item_unlink_q, with Queue/Runs about the states they leave, Queue/Linked about
--               doubly linked lists on the heap, and Queue/Lists and Queue/Removal about a queue
--               as a list of items. Lru/Items is the methods that run under cache_lock
--               (do_item_alloc and the others, by their names) and Lru/Calls the public ones.
--               Lru/State is the invariant of the whole cache, `IsCache`; Lru/Requeue, Lru/Joined
--               and Lru/Parted are about how it changes, Lru/Update, Lru/Get, Lru/Fetch, Lru/Link,
--               Lru/Unlink, Lru/Release, Lru/Alloc, Lru/Store and Lru/Replace about the methods.
--   Assoc       src/cache/assoc.hpp, src/cache/assoc.cpp: class AssociativeArray. A `hash_item**`
--               is a Place: a cell of one of the two arrays, or the h_next of an item.
--               maintenance_round is one turn of the loop in assoc_maintenance_thread. Assoc/Chain
--               and Assoc/Cells hold lemmas on chains and places, Assoc/Find the invariant `Holds`,
--               Assoc/Insert, Assoc/Delete (over Assoc/Unlink and Assoc/Erase) and Assoc/Expand
--               the operations. Assoc/Growing is about a table that is being expanded, Assoc/Move
--               and Assoc/Round about one turn of the maintenance thread, Assoc/Maintenance about
--               all of them, Assoc/Fresh about the operations between two turns, Assoc/Items
--               about what an insertion and a deletion leave of the items.
--   Slabs       src/cache/slabs.hpp, src/cache/slabs.cpp: class SlabAllocator. Slabs/Table is about
--               the constructor, Slabs/Classes about the choice of a size class, Slabs/Stack about
--               chunks, Slabs/Page about pages, Slabs/Alloc about an allocation that needs one,
--               Slabs/Limit about the bounds of memory.
--   Hash        src/cache/hash.h, src/cache/hash.c: Hash/Mixing the macros, Hash/Mem how a key is
--               read, Hash/Little and Hash/Big the function on the two kinds of machine.
--   Float       the rounding of float, in src/cache/slabs.cpp.
--   System      src/cache/const_types.h: hash_item, as it stands at an address, and the environment.
--   Base, Word  shared names, tests on numbers, bits, arithmetic on 32-bit words.
--   Tests       the theorems on concrete inputs.
--
-- Memory. The heap gives the item at each address; a chunk is an address. An item and a key hold
-- their bytes as a function of the offset, so reads past an end are visible: they give whatever
-- stands there. The machine has 64-bit pointers, and hash_item takes 48 bytes.
--
-- The environment (System.Env) answers malloc, calloc, realloc, pthread_create and time(), each
-- call by its number, so a theorem holds for all their answers. Whatever a constructor does not
-- set is a parameter `raw` of it. T_MEMD_INITIAL_MALLOC is the parameter `faked`.
--
-- Fuel. The loop of the hash takes the key's length as its fuel, at most one turn for each byte.
-- The loop of slabs_clsid takes the number of classes; the constructor's loop has 199 turns at most,
-- as in the code. The searches along a chain take fuel as a parameter, return `none` when it is
-- spent, and more fuel than the chain has items is proved to be enough. The maintenance thread
-- takes its number of turns too: as many as there are buckets left to move are enough.
-- strlen takes fuel and returns `none` without a null byte within it.
--
-- Threads. A step of Pool is what a thread does under a mutex, or between two of them. The
-- destructor sets stop_flag in one step and broadcasts in another. A wait may end without a
-- broadcast. A routine is an address, and running it is one step. The pool has any number of slots;
-- the code has 10000.
--
-- Numbers are natural numbers; the wrap-around of unsigned types is written out, and so is the
-- rounding of float, in which the constructor of SlabAllocator computes the sizes of the classes. The
-- factor itself is a fraction, and 1.25, the one that is used, is a float.
--
-- Not modelled: the mutexes of the cache (each public method is one run, and so is a turn of the
-- maintenance thread), the parts that are compiled out (USE_SYSTEM_MALLOC, slabs_preallocate), the
-- field `killing`, which nothing reads, the sockets, threads and main programs of src/client-server
-- (a message is the bytes that one side hands to send and the other finds in memory), the driver
-- src/local/main.cpp, and the load programs under src/overload and src/testing.

pub mod Base
pub mod Word
pub mod Hash
pub mod System
pub mod Float
pub mod Slabs
pub mod Assoc
pub mod Lru
pub mod DataCache
pub mod Messages
pub mod Server
pub mod Client
pub mod Pool
pub mod Tests
