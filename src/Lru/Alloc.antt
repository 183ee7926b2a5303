-- ===== src/Lru/Alloc.antt =====
-- do_item_alloc where the class has a free chunk: no item has to go.
use memcached4chaos.Base.{
  ℕ, ◌+◌, ◌%◌, ◌^◌, ◌<◌, ◌≡◌, ◌≢◌, ap, ◌∙◌, refl, arith, false, not, List, ◌∷◌, some, ◌==◌,
}
use mathlib.Core.Path.{subst}
use memcached4chaos.System.{
  sign_extend, Ptr, null, Env, Item, Heap, copy_in, sizeof_hash_item, update, update_self,
  update_ne,
}
use memcached4chaos.Slabs.{SlabAllocator, slabs_clsid, do_slabs_alloc, power_largest_max}
use memcached4chaos.Slabs.Stack.{IsValid, Known, free_chunks, do_slabs_alloc-pop}
use memcached4chaos.Assoc.Find.{Chains, Stored}
use memcached4chaos.Lru.Monad.{LruLists, ◌>>=◌, on_slabs}
use memcached4chaos.Lru.Items.{CString, obtain_chunk, do_item_alloc}
use memcached4chaos.Lru.Queue.Runs.{with_heap, load-ne, change-ne, assert-true}
use memcached4chaos.Lru.State.{IsCache, IsCache-frame, Agrees-refl}
use memcached4chaos.Lru.Release.{not_head}

-- the bytes that an item takes, and its class
abbrev pub total : CString → ℕ → ℕ
total key nbytes = (sizeof_hash_item + key.len + sign_extend nbytes) % 2 ^ 64

abbrev pub class_of : LruLists → CString → ℕ → ℕ
class_of s key nbytes = slabs_clsid s.slabs (total key nbytes)

-- what do_item_alloc writes
abbrev pub filled : ℕ → CString → ℕ → Item → Item
filled id key nbytes i = record i {
  slabs_clsid = id;
  next = null;
  prev = null;
  h_next = null;
  refcount = 1;
  linked = false;
  slabbed = false;
  nkey = key.len % 2 ^ 16;
  nbytes = nbytes;
  body = copy_in 0 key.len key.bytes i.body;
}

-- The class has a free chunk, which is in no item of the cache.
pub record HasChunk (s : LruLists) (chains : Chains) (id : ℕ) (it : Ptr) (rest : List Ptr)
    : Type 0 where
  pub class_known : Known id s.slabs
  pub class_valid : IsValid (s.slabs.slabclass id)
  pub class_small : s.slabs.power_largest < power_largest_max
  pub free : free_chunks (s.slabs.slabclass id) ≡ it ∷ rest
  pub some_chunk : it ≢ null
  pub outside : Stored s.assoc chains it → ⊥
  pub unused : (s.slabs.heap it).slabs_clsid ≡ 0

abbrev with_slabs : SlabAllocator → LruLists → LruLists
with_slabs a s = record s { slabs = a }

module _ (fuel : ℕ) ⦃env : Env⦄ where
  obtain-run :
      (ntotal id : ℕ) (s : LruLists) (it : Ptr) (a : SlabAllocator)
      → do_slabs_alloc ntotal id s.slabs ≡ some (it, a)
      → it ≢ null
      → obtain_chunk fuel ntotal id s ≡ some (it, with_slabs a s)
  unfolding obtain_chunk
  obtain-run ntotal id s it a got live =
      let here : (it == null) ≡ false = ground arith in
      rw (obtain_chunk, ◌>>=◌, on_slabs, got, here) refl

  alloc-run :
      (key : CString) (nbytes : ℕ) (s : LruLists) (it : Ptr) (a : SlabAllocator)
      → class_of s key nbytes ≢ 0
      → do_slabs_alloc (total key nbytes) (class_of s key nbytes) s.slabs ≡ some (it, a)
      → it ≢ null
      → (a.heap it).slabs_clsid ≡ 0
      → it ≢ s.heads (class_of s key nbytes)
      → do_item_alloc fuel key nbytes s
        ≡ some (
          it,
          with_heap
              (update a.heap it (filled (class_of s key nbytes) key nbytes (a.heap it)))
              (with_slabs a s),
        )
  unfolding do_item_alloc
  alloc-run key nbytes s it a class got live unused other =
      let id = class_of s key nbytes in
      let t = with_slabs a s in
      let held : (id == 0) ≡ false = ground arith in
      let chunk = obtain-run (total key nbytes) id s it a got live in
      let here : (it == null) ≡ false = ground arith in
      let opened = load-ne it t live in
      let a1 = assert-true ((a.heap it).slabs_clsid == 0) t (ground arith) in
      let a2 = assert-true (not (it == s.heads id)) t (ground arith) in
      let set = change-ne it (filled id key nbytes) t live in
      rw (do_item_alloc, ◌>>=◌, held, chunk, here, opened, a1, a2, set) refl

  -- With a free chunk in the class of an item do_item_alloc takes it, writes the key and the sizes
  -- there, and leaves the cache as it is.
  pub do_item_alloc-filled :
      (key : CString) (nbytes : ℕ) (s : LruLists) (chains : Chains) (queue : ℕ → List Ptr)
      (it : Ptr) (rest : List Ptr)
      → IsCache s chains queue
      → HasChunk s chains (class_of s key nbytes) it rest
      → (s' : LruLists) × (do_item_alloc fuel key nbytes s ≡ some (it, s'))
        × IsCache s' chains queue
        × (s'.slabs.heap it ≡ filled (class_of s key nbytes) key nbytes (s.slabs.heap it))
        × ((x : Ptr) → x ≢ it → s'.slabs.heap x ≡ s.slabs.heap x)
        × (s'.assoc ≡ s.assoc)
        × (s'.item_size_max ≡ s.item_size_max)
  do_item_alloc-filled key nbytes s chains queue it rest k c =
      let id = class_of s key nbytes in
      let (a, got, _, _, _, same, _) =
        do_slabs_alloc-pop (total key nbytes) id s.slabs it rest c.class_known c.class_valid
          c.free in
      let at = λ (x : Ptr). ap (λ (h : Heap). h x) same in
      let new = filled id key nbytes (a.heap it) in
      let s' = with_heap (update a.heap it new) (with_slabs a s) in
      let others = λ (x : Ptr) (ne : x ≢ it). update_ne a.heap it x new ne ∙ at x in
      (
        s',
        alloc-run key nbytes s it a (omega (arith, c.class_known)) got c.some_chunk
            (ap (λ (i : Item). i.slabs_clsid) (at it) ∙ c.unused)
            (not_head s chains queue k it c.some_chunk c.outside id),
        IsCache-frame s s'.slabs s.ticks chains queue
            (λ x i.
              Agrees-refl (s.slabs.heap x) (s'.slabs.heap x)
                (others x (λ e. c.outside (subst (λ y. Stored s.assoc chains y) e i))))
            k,
        update_self a.heap it new ∙ ap (filled id key nbytes) (at it),
        others,
        refl,
        refl,
      )
