-- ===== src/Slab/Invariant.antt =====
-- The invariant of a cache of slab.c: where each slab is kept, and what its list of free objects holds.
use navi_scheme.Base.{
  ℕ, ◌+◌, ◌*◌, ◌<◌, ◌≤◌, ◌≡◌, Bool, true, false, ◌||◌, List, [], ◌∷◌, length, ◌==◌,
}
use navi_scheme.Slab.{Slab, SlabCache, slab_desc_size, slab_mem_size}
use navi_scheme.Slab.Order.{member, Increasing, apart}
use navi_scheme.Slab.Tree.{inorder}

abbrev pub full_at : SlabCache → ℕ → Bool
full_at c a = member a (inorder c.full)

abbrev pub partial_at : SlabCache → ℕ → Bool
partial_at c a = member a (inorder c.partial)

abbrev pub empty_at : SlabCache → ℕ → Bool
empty_at c a = member a (inorder c.empty)

-- There is a slab at the address.
abbrev pub known : SlabCache → ℕ → Bool
known c a = full_at c a || partial_at c a || empty_at c a

-- The objects of a slab.
abbrev pub IsObject : SlabCache → ℕ → ℕ → Type 0
IsObject c a o = (i : ℕ) × (i < c.objs_per_slab) × (o ≡ a + slab_desc_size + c.obj_size * i)

abbrev pub Distinct : List ℕ → Type 0
Distinct [] = Unit {0}
Distinct (o ∷ l) = (member o l ≡ false) × Distinct l

-- The free list of a slab has distinct objects of the slab, and the others are counted.
pub record IsSlab (c : SlabCache) (a : ℕ) (s : Slab) : Type 0 where
  pub counted : length s.free + s.in_use ≡ c.objs_per_slab
  pub objects : (o : ℕ) → member o s.free ≡ true → IsObject c a o
  pub distinct : Distinct s.free

pub record IsOrdered (c : SlabCache) : Type 0 where
  pub full_order : Increasing 0 (inorder c.full)
  pub partial_order : Increasing 0 (inorder c.partial)
  pub empty_order : Increasing 0 (inorder c.empty)

-- The slab of an address lies apart from every other one.
abbrev pub Far : SlabCache → ℕ → Type 0
Far c a = (x : ℕ) → known c x ≡ true → (x == a) ≡ false → apart a x ≡ true

pub record IsCache (c : SlabCache) : Type 0 where
  pub some_objects : 0 < c.objs_per_slab
  pub large : 16 ≤ c.obj_size
  pub fits : c.obj_size * c.objs_per_slab ≤ slab_mem_size
  pub ordered : IsOrdered c
  pub far : (a : ℕ) → known c a ≡ true → Far c a
  pub in_full : (a : ℕ) → full_at c a ≡ true → (c.slab a).in_use ≡ c.objs_per_slab
  pub in_partial :
      (a : ℕ)
      → partial_at c a ≡ true
      → (0 < (c.slab a).in_use) × ((c.slab a).in_use < c.objs_per_slab)
  pub in_empty : (a : ℕ) → empty_at c a ≡ true → (c.slab a).in_use ≡ 0
  pub slabs : (a : ℕ) → known c a ≡ true → IsSlab c a (c.slab a)
