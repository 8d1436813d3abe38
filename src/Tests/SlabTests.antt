-- ===== src/Tests/SlabTests.antt =====
-- The results on slabs, applied to a cache of three objects for each slab.
use navi_scheme.Base.{ℕ, ◌≡◌, refl, ◌==◌, inl, inr, Bool-cases, true, some, [], ◌∷◌, arith}
use navi_scheme.Slab.{leaf, node, Slab, SlabCache, slab_cache_create, new_slab, find_slab}
use navi_scheme.Slab.Order.{member}
use navi_scheme.Slab.Invariant.{IsObject, IsSlab, IsCache, known}
use navi_scheme.Slab.Fresh.{new_slab_complete}
use navi_scheme.Slab.Find.{find_slab-Live}

abbrev cache : SlabCache
cache = slab_cache_create 1024

new_slab_complete_example :
    IsSlab cache 8192 (new_slab cache 8192)
    × ((o : ℕ) → IsObject cache 8192 o → member o (new_slab cache 8192).free ≡ true)
    × ((new_slab cache 8192).in_use ≡ 0)
unfolding slab_cache_create
new_slab_complete_example = new_slab_complete cache 8192 (omega arith)

-- A slab with its first object in use.
abbrev started : Slab
started = record { free = 10288 ∷ 9264 ∷ []; in_use = 1 }

abbrev used : SlabCache
used = record {
  full = leaf;
  partial = node leaf 8192 leaf;
  empty = leaf;
  objs_per_slab = 3;
  obj_size = 1024;
  slab = λ _. started;
}

here : (a : ℕ) → known used a ≡ true → a ≡ 8192
here a k = ground (arith, k)

IsSlab-started : IsSlab used 8192 started
IsSlab-started = record {
  counted = refl;
  objects = λ o m. elim (Bool-cases (o == 10288)) [
    | inl e ↦ (2, omega arith, ground (arith, e))
    | inr e ↦ (1, omega arith, ground (arith, e, m))
  ];
  distinct = (refl, (refl, tt));
}

IsCache-used : IsCache used
IsCache-used = record {
  some_objects = omega arith;
  large = omega arith;
  fits = omega arith;
  ordered = record { full_order = tt; partial_order = (omega arith, tt); empty_order = tt };
  far = λ a k x l e. absurd (ground (arith, here a k, here x l, e));
  in_full = λ a k. absurd (cc (k));
  in_partial = λ a k. (omega arith, omega arith);
  in_empty = λ a k. absurd (cc (k));
  slabs = λ a k. rw (here a k) IsSlab-started;
}

find_slab-Live_example : find_slab used 8240 ≡ some 8192
find_slab-Live_example = find_slab-Live used IsCache-used 8192 8240 refl (0, omega arith, refl) refl
