-- ===== src/DataCache/Written.antt =====
-- The item that storeItem writes, and the run that writes it.
use memcached4chaos.Base.{
  ℕ, ◌-◌, ◌+◌, ◌%◌, ◌^◌, ◌<◌, ◌≡◌, ◌≢◌, ◌∙◌, sym, refl, arith, false, List, some, ◌==◌,
}
use mathlib.Core.Path.{subst}
use memcached4chaos.System.{
  sign_extend, Ptr, null, Env, Item, copy_in, sizeof_hash_item, update, update_self, update_ne,
}
use memcached4chaos.Hash.Mem.{Bytes, AreBytes, skip}
use memcached4chaos.Hash.Little.{hash}
use memcached4chaos.Assoc.Find.{Chains, Stored}
use memcached4chaos.Lru.Monad.{LruLists, ◌>>=◌}
use memcached4chaos.Lru.Items.{CString, do_store_item, do_item_alloc}
use memcached4chaos.Lru.Calls
use memcached4chaos.Lru.Queue.Runs.{with_heap, load-ne, change-ne}
use memcached4chaos.Lru.State.{IsCache, IsCache-frame, Agrees-refl}
use memcached4chaos.Lru.Store.{Stays}
use memcached4chaos.Lru.Alloc.{filled}
use memcached4chaos.DataCache.{store_item}
use memcached4chaos.DataCache.Lookup.{IsKeyOf}

-- what storeItem writes behind the key, and the hash value
abbrev pub write_value : ℕ → Bytes → Item → Item
write_value n inbuffer i = record i { body = copy_in i.nkey (sign_extend n) inbuffer i.body }

abbrev pub rehash : Ptr → Item → Item
rehash it i = record i { hv = hash (it + sizeof_hash_item) i.body i.nkey 0 }

abbrev pub new_item : ℕ → Ptr → CString → ℕ → Bytes → Item → Item
new_item id it key n inbuffer i = rehash it (write_value n inbuffer (filled id key n i))

abbrev pub changed : Ptr → (Item → Item) → LruLists → LruLists
changed it f s = with_heap (update s.slabs.heap it (f (s.slabs.heap it))) s

-- Two strings with the same bytes.
abbrev pub SameString : CString → CString → Type 0
SameString key key' =
    (key'.len ≡ key.len)
    × AreBytes key'.bytes
    × ((j : ℕ) → j < key.len → key'.bytes j ≡ key.bytes j)

-- The new item has the key.
pub new_item-IsKeyOf :
    (id : ℕ) (it : Ptr) (key key' : CString) (n : ℕ) (inbuffer : Bytes) (i : Item)
    → key.len < 2 ^ 16
    → AreBytes key.bytes
    → AreBytes inbuffer
    → AreBytes i.body
    → SameString key key'
    → IsKeyOf key' it (new_item id it key n inbuffer i)
new_item-IsKeyOf id it key key' n inbuffer i short b b' b'' (size, bytes, same) =
    let whole : key.len % 2 ^ 16 ≡ key.len = omega arith in
    record {
      hashed = refl;
      body_bytes = λ j. ground (arith, b j, b' (j - key.len), b' (j - key.len % 2 ^ 16), b'' j);
      key_bytes = bytes;
      size = size ∙ sym whole;
      same = λ j h. ground (arith, same j);
    }

pub IsKeyOf-stays :
    (key : CString) (it : Ptr) (i j : Item) → Stays i j → IsKeyOf key it i → IsKeyOf key it j
IsKeyOf-stays key it i j e o =
    subst (λ k. IsKeyOf key it k) (sym e)
      (record {
        hashed = o.hashed;
        body_bytes = o.body_bytes;
        key_bytes = o.key_bytes;
        size = o.size;
        same = o.same;
      })

-- The value of the new item.
pub new_item-value :
    (id : ℕ) (it : Ptr) (key : CString) (n : ℕ) (inbuffer : Bytes) (i : Item) (outbuffer : Bytes)
    → n < 2 ^ 31
    → let new = new_item id it key n inbuffer i in
      (j : ℕ) → j < n → copy_in 0 n (skip new.nkey new.body) outbuffer j ≡ inbuffer j
new_item-value id it key n inbuffer i outbuffer small j h = ground arith

module _ (fuel : ℕ) ⦃env : Env⦄ where
  pub store_item-run :
      (key : CString) (inbuffer : Bytes) (n : ℕ) (s s1 s' : LruLists) (it : Ptr)
      → do_item_alloc fuel key n s ≡ some (it, s1)
      → it ≢ null
      → do_store_item fuel it (changed it (rehash it) (changed it (write_value n inbuffer) s1))
        ≡ some (tt, s')
      → store_item fuel key inbuffer n s ≡ some (0, s')
  unfolding store_item Calls.item_alloc Calls.store_item
  store_item-run key inbuffer n s s1 s' it alloc live store =
      let here : (it == null) ≡ false = ground arith in
      let s2 = changed it (write_value n inbuffer) s1 in
      let write = change-ne it (write_value n inbuffer) s1 live in
      let opened = load-ne it s2 live in
      let set = change-ne it (rehash it) s2 live in
      rw
        (
          store_item, Calls.item_alloc, Calls.store_item, ◌>>=◌, alloc, here, write, opened, set,
          store,
        )
        refl

pub changed-it :
    (it : Ptr) (f : Item → Item) (s : LruLists)
    → (changed it f s).slabs.heap it ≡ f (s.slabs.heap it)
changed-it it f s = update_self s.slabs.heap it (f (s.slabs.heap it))

pub changed-other :
    (it : Ptr) (f : Item → Item) (s : LruLists) (x : Ptr)
    → x ≢ it
    → (changed it f s).slabs.heap x ≡ s.slabs.heap x
changed-other it f s x ne = update_ne s.slabs.heap it x (f (s.slabs.heap it)) ne

pub changed-IsCache :
    (it : Ptr) (f : Item → Item) (s : LruLists) (chains : Chains) (queue : ℕ → List Ptr)
    → (Stored s.assoc chains it → ⊥)
    → IsCache s chains queue
    → IsCache (changed it f s) chains queue
changed-IsCache it f s chains queue outside k =
    IsCache-frame s (changed it f s).slabs s.ticks chains queue
      (λ x i.
        Agrees-refl (s.slabs.heap x) ((changed it f s).slabs.heap x)
          (changed-other it f s x (λ e. outside (subst (λ y. Stored s.assoc chains y) e i))))
      k
