-- ===== src/Slab.antt =====
-- The slab allocator: slab.c and slab.h: making a cache and a slab, and the search for the slab of an
-- address. A cache keeps its slabs in three trees of addresses, whose colours the search does not read.
-- A slab is laid out as on a machine of 64 bits.
pub mod Order
pub mod Tree
pub mod Invariant
pub mod Objects
pub mod Fresh
pub mod Find
use navi_scheme.Base.{
  ℕ, zero, suc, ◌+◌, ◌-◌, ◌*◌, ◌/◌, ◌%◌, ◌^◌, Bool, true, false, Option, none, some, List, [], ◌∷◌,
  ◌++◌, ltb, leb, ◌==◌, if◌then◌else◌, ◌||◌,
}

-- A tree of slabs, by their addresses.
pub data SlabTree : Type 0 where
  leaf : SlabTree
  node : SlabTree → ℕ → SlabTree → SlabTree

-- `struct slab`, with its list of free objects.
pub record Slab : Type 0 where
  pub free : List ℕ
  pub in_use : ℕ

-- `struct slab_cache`, and the slabs at their addresses.
pub record SlabCache : Type 0 where
  pub full : SlabTree
  pub partial : SlabTree
  pub empty : SlabTree
  pub objs_per_slab : ℕ
  pub obj_size : ℕ
  pub slab : ℕ → Slab

abbrev pub slab_size : ℕ
slab_size = 4096

-- `offsetof(struct slab, mem)`: four words of the tree, the list head and the count.
abbrev pub slab_desc_size : ℕ
slab_desc_size = 48

abbrev pub slab_mem_size : ℕ
slab_mem_size = slab_size - slab_desc_size

-- `++` and `--` on an `unsigned int`.
abbrev pub increment : ℕ → ℕ
increment n = (n + 1) % 2 ^ 32

abbrev pub decrement : ℕ → ℕ
decrement n = (n + (2 ^ 32 - 1)) % 2 ^ 32

abbrev pub no_slab : Slab
no_slab = record { free = []; in_use = 0 }

unfoldable pub slab_cache_create : ℕ → SlabCache
slab_cache_create size =
    let bytes = if ltb size 16 then 16 else size in
    record {
      full = leaf;
      partial = leaf;
      empty = leaf;
      objs_per_slab = slab_mem_size / bytes;
      obj_size = bytes;
      slab = λ _. no_slab;
    }

unfoldable pub get_object : SlabCache → ℕ → ℕ → ℕ
get_object cache slab i = slab + slab_desc_size + cache.obj_size * i

-- The loop of init_single: `n` rounds from index `i`, each putting an object before the others.
unfoldable pub init_single : ℕ → ℕ → SlabCache → ℕ → List ℕ → List ℕ
unfolding get_object
init_single zero i cache slab free = free
init_single (suc n) i cache slab free =
    init_single n (i + 1) cache slab (get_object cache slab i ∷ free)

-- The flag NAVI_SLAB_DOUBLY_LINKED is 0, so its test never holds and every slab has a single list.
unfoldable pub new_slab : SlabCache → ℕ → Slab
unfolding init_single
new_slab cache slab = record { free = init_single cache.objs_per_slab 0 cache slab []; in_use = 0 }

-- The search of slab_insert for the place of a new leaf.
unfoldable pub link : ℕ → SlabTree → SlabTree
link slab leaf = node leaf slab leaf
link slab (node l ptr r) =
    if ltb slab ptr then node (link slab l) ptr r else node l ptr (link slab r)

-- `_find_slab`
unfoldable pub find_in : SlabTree → ℕ → Option ℕ
find_in leaf mem = none
find_in (node l slab r) mem =
    if ltb mem slab
    then find_in l mem
    else (if leb (slab + slab_size) mem then find_in r mem else some slab)

unfoldable pub find_slab : SlabCache → ℕ → Option ℕ
unfolding find_in
find_slab cache mem = elim (find_in cache.full mem) [
  | some slab ↦ some slab
  | none ↦ find_in cache.partial mem
]
