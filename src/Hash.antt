-- ===== src/Hash.antt =====
-- cache/hash.c and the macros of cache/hash.h: Bob Jenkins' hash of a key of bytes.
-- The three registers are a triple; a key is what stands in memory from its first byte on, past
-- its end too, since the aligned branches read whole words.
pub mod Mixing
pub mod Mem
pub mod Little
pub mod Big
pub use Mixing.{Regs, IsWords, mix, finalmix}
