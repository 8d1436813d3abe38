-- ===== src/Slab/Objects.antt =====
-- The objects of a slab: get_object and the loop of init_single in slab.c.
use navi_scheme.Base.{
  ℕ, zero, suc, ◌+◌, ◌*◌, ◌<◌, ◌≤◌, ◌≡◌, refl, ap, ◌∙◌, inl, inr, true, false, not, ◌&&◌, List, [],
  ◌∷◌, length, ◌==◌, Bool-cases, arith,
}
use navi_scheme.Slab.{Slab, SlabCache, slab_size, slab_desc_size, slab_mem_size}
use navi_scheme.Slab.Order.{member, erase}
use navi_scheme.Slab.Invariant.{IsObject, Distinct, IsSlab}

mul_mono : (z n i : ℕ) → i < n → z * i + z ≤ z * n
mul_mono z zero i h = absurd (omega (arith, h))
mul_mono z (suc n) i h = elim (Bool-cases (i == n)) [
  | inl e ↦ let w : i ≡ n = ground (arith, e) in rw w (omega arith)
  | inr e ↦ omega (arith, mul_mono z n i (ground (arith, e, h)))
]

mul_large : (z n : ℕ) → 16 ≤ z → 16 * n ≤ z * n
mul_large z zero h = omega arith
mul_large z (suc n) h = omega (arith, h, mul_large z n h)

pub mul_cancel : (z i j : ℕ) → 16 ≤ z → z * i ≡ z * j → i ≡ j
mul_cancel z zero zero h e = refl
mul_cancel z zero (suc j) h e = absurd (omega (arith, h, e))
mul_cancel z (suc i) zero h e = absurd (omega (arith, h, e))
mul_cancel z (suc i) (suc j) h e = ap suc (mul_cancel z i j h (omega (arith, e)))

module _ (c : SlabCache) (large : 16 ≤ c.obj_size)
    (fits : c.obj_size * c.objs_per_slab ≤ slab_mem_size) where
  pub few_objects : c.objs_per_slab ≤ 253
  few_objects = omega (arith, fits, mul_large c.obj_size c.objs_per_slab large)

  -- An object lies within its slab.
  pub object_within : (a o : ℕ) → IsObject c a o → (a ≤ o) × (o < a + slab_size)
  object_within a o (i, lt, e) =
      (omega (arith, e), omega (arith, e, fits, large, mul_mono c.obj_size c.objs_per_slab i lt))

-- The objects of the indices below a number.
abbrev pub Below : SlabCache → ℕ → ℕ → ℕ → Type 0
Below c a n o = (i : ℕ) × (i < n) × (o ≡ a + slab_desc_size + c.obj_size * i)

member-erase-Distinct :
    (x y : ℕ) (l : List ℕ) → Distinct l → member x (erase y l) ≡ (not (x == y) && member x l)
member-erase-Distinct x y [] d = ground arith
member-erase-Distinct x y (z ∷ l) d = ground (arith, d.0, member-erase-Distinct x y l d.1)

Distinct-erase : (y : ℕ) (l : List ℕ) → Distinct l → Distinct (erase y l)
Distinct-erase y [] d = tt
Distinct-erase y (z ∷ l) d = elim (Bool-cases (y == z)) [
  | inl e ↦ rw e d.1
  | inr e ↦ rw e (ground (arith, d.0, member-erase-Distinct z y l d.1), Distinct-erase y l d.1)
]

length-erase : (y : ℕ) (l : List ℕ) → length l ≤ length (erase y l) + 1
length-erase y [] = omega arith
length-erase y (z ∷ l) = ground (arith, length-erase y l)

-- Distinct objects of the indices below a number are at most as many.
length-Distinct :
    (c : SlabCache) (a n : ℕ) (l : List ℕ)
    → Distinct l
    → ((o : ℕ) → member o l ≡ true → Below c a n o)
    → length l ≤ n
length-Distinct c a zero [] d h = omega arith
length-Distinct c a zero (x ∷ l) d h =
    let (i, lt, e) = h x (ground arith) in absurd (omega (arith, lt))
length-Distinct c a (suc n) l d h =
    let top = a + slab_desc_size + c.obj_size * n in
    let rest : length (erase top l) ≤ n =
      length-Distinct c a n (erase top l) (Distinct-erase top l d) λ o m.
        lower o (h o (ground (arith, m, member-erase-Distinct o top l d)))
          (ground (arith, m, member-erase-Distinct o top l d)) in
    omega (arith, rest, length-erase top l)
  where
    lower :
        (o : ℕ)
        → Below c a (suc n) o
        → (o == a + slab_desc_size + c.obj_size * n) ≡ false
        → Below c a n o
    lower o (i, lt, e) ne = elim (Bool-cases (i == n)) [
      | inl w ↦
          let v : i ≡ n = ground (arith, w) in
          absurd (ground (arith, ne, e ∙ ap (λ j. a + slab_desc_size + c.obj_size * j) v))
      | inr w ↦ (i, ground (arith, w, lt), e)
    ]

-- A slab with an object that is not free has objects in use.
pub in_use_positive :
    (c : SlabCache) (a o : ℕ) (s : Slab)
    → IsSlab c a s
    → IsObject c a o
    → member o s.free ≡ false
    → 0 < s.in_use
in_use_positive c a o s h ob m =
    omega (arith, h.counted, length-Distinct c a c.objs_per_slab (o ∷ s.free) (m, h.distinct) among)
  where
    among : (x : ℕ) → member x (o ∷ s.free) ≡ true → IsObject c a x
    among x k = elim (Bool-cases (x == o)) [
      | inl e ↦ let v : x ≡ o = ground (arith, e) in rw v ob
      | inr e ↦ h.objects x (ground (arith, e, k))
    ]
