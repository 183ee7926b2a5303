-- ===== src/Lru.antt =====
-- cache/lru.hpp and cache/lru.cpp: items with reference counts, in the hash table and in one queue
-- for each size class, over the slab allocator.
pub mod Monad
pub mod Queue
pub mod Items
pub mod Calls
pub mod Update
pub mod State
pub mod Requeue
pub mod Joined
pub mod Link
pub mod Parted
pub mod Release
pub mod Unlink
pub mod Get
pub mod Fetch
pub mod Store
pub mod Replace
pub mod Alloc
