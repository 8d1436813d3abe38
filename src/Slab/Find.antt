-- ===== src/Slab/Find.antt =====
-- The search of slab.c for the slab of an object.
use navi_scheme.Base.{
  ℕ, ◌+◌, ◌<◌, ◌≤◌, ◌≡◌, ◌≢◌, refl, ◌∙◌, ◌⊎◌, inl, inr, true, false, ◌&&◌, ◌||◌, none, some, List,
  [], ◌∷◌, leb, ltb, ◌==◌, if◌then◌else◌, Bool-cases, arith,
}
use navi_scheme.Slab.{SlabTree, SlabCache, slab_size, find_in, find_slab}
use navi_scheme.Slab.Order.{member, Increasing, find_list}
use navi_scheme.Slab.Tree.{inorder, find_in-find_list}
use navi_scheme.Slab.Invariant.{full_at, partial_at, known, IsObject, IsCache}
use navi_scheme.Slab.Objects.{object_within, in_use_positive}

-- The only element of a list whose slab holds an address is found, or none is.
find_list-member :
    (low mem a : ℕ) (l : List ℕ)
    → Increasing low l
    → a ≤ mem
    → mem < a + slab_size
    → (find_list mem l ≡ (if member a l then some a else none))
      ⊎ ((x : ℕ) × (member x l ≡ true) × (x ≢ a) × (x ≤ mem) × (mem < x + slab_size))
find_list-member low mem a [] i h lt = inl refl
find_list-member low mem a (x ∷ l) i h lt =
    elim (Bool-cases (leb x mem && ltb mem (x + slab_size))) [
      | inl e ↦ elim (Bool-cases (a == x)) [
        | inl w ↦ inl (ground (arith, e, w))
        | inr w ↦ inr (x, ground arith, ground (arith, w), ground (arith, e), ground (arith, e))
      ]
      | inr e ↦ elim (find_list-member (x + slab_size) mem a l i.1 h lt) [
        | inl f ↦ inl (ground (arith, e, f, h, lt))
        | inr (y, m, ne, le, lt') ↦ inr (y, ground (arith, m), ne, le, lt')
      ]
    ]

module _ (c : SlabCache) (cache : IsCache c) (a mem : ℕ) (k : known c a ≡ true) (h : a ≤ mem)
    (lt : mem < a + slab_size) where
  find_in-found :
      (t : SlabTree)
      → Increasing 0 (inorder t)
      → ((x : ℕ) → member x (inorder t) ≡ true → known c x ≡ true)
      → find_in t mem ≡ (if member a (inorder t) then some a else none)
  find_in-found t i sub = elim (find_list-member 0 mem a (inorder t) i h lt) [
    | inl e ↦ find_in-find_list 0 mem t i ∙ e
    | inr (x, m, ne, le, lt') ↦
        absurd (ground (arith, cache.far a k x (sub x m), h, lt, le, lt', ne))
  ]

  -- `find_slab` finds the slab of an address, if it is full or partial.
  find_slab-found : (full_at c a || partial_at c a) ≡ true → find_slab c mem ≡ some a
  unfolding find_slab
  find_slab-found p =
      let f = find_in-found c.full cache.ordered.full_order (λ x m. ground (arith, m)) in
      let q = find_in-found c.partial cache.ordered.partial_order (λ x m. ground (arith, m)) in
      elim (Bool-cases (full_at c a)) [
        | inl e ↦ rw (find_slab, f, e) refl
        | inr e ↦
            let r : partial_at c a ≡ true = ground (arith, e, p) in rw (find_slab, f, e, q, r) refl
      ]

-- `find_slab` finds the slab of every object in use, wherever it is kept, in a cache that satisfies the
-- invariant; this is the search of navi_slab_free, which ends the program where it finds nothing.
pub find_slab-Live :
    (c : SlabCache) (cache : IsCache c) (a o : ℕ)
    → known c a ≡ true
    → IsObject c a o
    → member o (c.slab a).free ≡ false
    → find_slab c o ≡ some a
find_slab-Live c cache a o k object used =
    let w = object_within c cache.large cache.fits a o object in
    let positive = in_use_positive c a o (c.slab a) (cache.slabs a k) object used in
    find_slab-found c cache a o k w.0 w.1 (ground (arith, k, positive, cache.in_empty a))
