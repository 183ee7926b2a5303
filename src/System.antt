-- ===== src/System.antt =====
-- What the program takes from outside: the C library's malloc, calloc and realloc, and time().
-- And the machine that it runs on: addresses, and the struct of cache/const_types.h as it stands
-- at an address.
use memcached4chaos.Base.{
  ℕ, ◌+◌, ◌-◌, ◌^◌, ◌&&◌, ltb, leb, Bool, false, if◌then◌else◌, ◌==◌, ◌≢◌, ◌≡◌, arith,
}
use memcached4chaos.Hash.Mem.{Bytes}

abbrev pub Ptr : Type 0
Ptr = ℕ

abbrev pub null : Ptr
null = 0

-- A signed 32-bit number, by its bit pattern, as a size_t.
abbrev pub sign_extend : ℕ → ℕ
sign_extend n = if ltb n (2 ^ 31) then n else n + (2 ^ 64 - 2 ^ 32)

-- The answers of the environment, by the number of the call: `malloc n size` is what the n-th
-- allocation returns (`null` when it fails), `time n` what the n-th time(NULL) returns, and
-- `expansion n` whether calloc and the creation of a thread succeed, should the hash table grow.
pub record Env : Type 0 where
  pub malloc : (call size : ℕ) → Ptr
  pub time : (call : ℕ) → ℕ
  pub expansion : (call : ℕ) → Bool × Bool

-- struct _hash_item. `linked` and `slabbed` are the two bits of `iflag`; `body` is what stands
-- behind the header, the key and then the data.
pub record Item : Type 0 where
  pub next : Ptr
  pub prev : Ptr
  pub h_next : Ptr
  pub time : ℕ
  pub hv : ℕ
  pub nbytes : ℕ
  pub nkey : ℕ
  pub refcount : ℕ
  pub linked : Bool
  pub slabbed : Bool
  pub slabs_clsid : ℕ
  pub body : Bytes

-- what a chunk reads after memset(0)
abbrev pub zero_item : Item
zero_item = record {
  next = null;
  prev = null;
  h_next = null;
  time = 0;
  hv = 0;
  nbytes = 0;
  nkey = 0;
  refcount = 0;
  linked = false;
  slabbed = false;
  slabs_clsid = 0;
  body = λ _. 0;
}

-- sizeof(hash_item) on a 64-bit machine: three pointers, 18 bytes, padded to 8
abbrev pub sizeof_hash_item : ℕ
sizeof_hash_item = 48

-- the item that stands at each address
abbrev pub Heap : Type 0
Heap = Ptr → Item

-- A family changed at one index: an array cell or the item at an address.
unfoldable pub update {ℓ} : {A : Type ℓ} → (ℕ → A) → ℕ → A → ℕ → A
update f i a j = if j == i then a else f j

pub update_self {ℓ} : {A : Type ℓ} (f : ℕ → A) (i : ℕ) (a : A) → update f i a i ≡ a
unfolding update
update_self f i a = ground arith

pub update_ne {ℓ} : {A : Type ℓ} (f : ℕ → A) (i j : ℕ) (a : A) → j ≢ i → update f i a j ≡ f j
unfolding update
update_ne f i j a h = ground arith

-- memcpy(at, source, n), in a range of bytes that starts `at` bytes before
abbrev pub copy_in : ℕ → ℕ → Bytes → Bytes → Bytes
copy_in at n source body i = if leb at i && ltb i (at + n) then source (i - at) else body i
