-- ===== src/Slabs/Alloc.antt =====
-- do_slabs_alloc where its class has no free chunk.
