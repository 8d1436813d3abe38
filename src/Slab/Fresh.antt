-- ===== src/Slab/Fresh.antt =====
-- A new slab: new_slab and init_single of slab.c make every object of it free.
use navi_scheme.Base.{
  ℕ, zero, suc, ◌+◌, ◌*◌, ◌<◌, ◌≤◌, ◌≡◌, refl, sym, ap, ◌∙◌, inl, inr, true, false, List, [], ◌∷◌,
  length, ◌==◌, Bool-cases, arith,
}
use navi_scheme.Slab.{SlabCache, slab_desc_size, get_object, init_single, new_slab}
use navi_scheme.Slab.Order.{member}
use navi_scheme.Slab.Invariant.{IsObject, Distinct, IsSlab}
use navi_scheme.Slab.Objects.{Below, mul_cancel}

module _ (c : SlabCache) (a : ℕ) (large : 16 ≤ c.obj_size) where
  get_object_lem : (i : ℕ) → get_object c a i ≡ a + slab_desc_size + c.obj_size * i
  unfolding get_object
  get_object_lem i = refl

  init_length : (n i : ℕ) (free : List ℕ) → length (init_single n i c a free) ≡ n + length free
  unfolding init_single
  init_length zero i free = omega arith
  init_length (suc n) i free = omega (arith, init_length n (i + 1) (get_object c a i ∷ free))

  -- The loop keeps that the list holds distinct objects of indices below the round's.
  init-Distinct :
      (n i : ℕ) (free : List ℕ)
      → Distinct free
      → ((o : ℕ) → member o free ≡ true → Below c a i o)
      → Distinct (init_single n i c a free)
        × ((o : ℕ) → member o (init_single n i c a free) ≡ true → Below c a (i + n) o)
  unfolding init_single
  init-Distinct zero i free d h = (d, λ o m. rw (plus_zero i) (h o m))
    where
      plus_zero : (i : ℕ) → i + 0 ≡ i
      plus_zero i = omega arith
  init-Distinct (suc n) i free d h =
      let top = get_object c a i in
      let new : member top free ≡ false = absent top in
      let next = init-Distinct n (i + 1) (top ∷ free) (new, d) among in
      (next.0, λ o m. rw (plus_suc i n) (next.1 o m))
    where
      plus_suc : (i n : ℕ) → i + suc n ≡ i + 1 + n
      plus_suc i n = omega arith

      absent : (o : ℕ) → member (get_object c a i) free ≡ false
      absent o = elim (Bool-cases (member (get_object c a i) free)) [
        | inr e ↦ e
        | inl e ↦
            let (j, lt, w) = h (get_object c a i) e in
            let same : i ≡ j =
              mul_cancel c.obj_size i j large (omega (arith, sym (get_object_lem i) ∙ w)) in
            absurd (omega (arith, same, lt))
      ]

      among : (o : ℕ) → member o (get_object c a i ∷ free) ≡ true → Below c a (i + 1) o
      among o m = elim (Bool-cases (o == get_object c a i)) [
        | inl e ↦ (i, omega arith, ground (arith, e, get_object_lem i))
        | inr e ↦ let (j, lt, w) = h o (ground (arith, e, m)) in (j, omega (arith, lt), w)
      ]

  init_keeps :
      (n i : ℕ) (free : List ℕ) (o : ℕ)
      → member o free ≡ true
      → member o (init_single n i c a free) ≡ true
  unfolding init_single
  init_keeps zero i free o m = m
  init_keeps (suc n) i free o m =
      init_keeps n (i + 1) (get_object c a i ∷ free) o (ground (arith, m))

  init_all :
      (n i : ℕ) (free : List ℕ) (j : ℕ)
      → i ≤ j
      → j < i + n
      → member (get_object c a j) (init_single n i c a free) ≡ true
  unfolding init_single
  init_all zero i free j h lt = absurd (omega (arith, h, lt))
  init_all (suc n) i free j h lt = elim (Bool-cases (i == j)) [
    | inl e ↦
        let w : i ≡ j = ground (arith, e) in
        init_keeps n (i + 1) (get_object c a i ∷ free) (get_object c a j)
          (ground (arith, w, ap (get_object c a) w))
    | inr e ↦
        init_all n (i + 1) (get_object c a i ∷ free) j (ground (arith, e, h)) (omega (arith, lt))
  ]

  pub new_slab-IsSlab : IsSlab c a (new_slab c a)
  unfolding new_slab
  new_slab-IsSlab =
      let d = init-Distinct c.objs_per_slab 0 [] tt (λ o m. absurd (cc (m))) in
      record {
        counted = omega (arith, init_length c.objs_per_slab 0 []);
        objects = λ o m. let (i, lt, e) = d.1 o m in (i, omega (arith, lt), e);
        distinct = d.0;
      }

  -- Every object of a new slab is free.
  pub new_slab-all_free : (o : ℕ) → IsObject c a o → member o (new_slab c a).free ≡ true
  unfolding new_slab get_object
  new_slab-all_free o (i, lt, e) =
      rw e (init_all c.objs_per_slab 0 [] i (omega arith) (omega (arith, lt)))

  -- A new slab of a cache is well formed: its free list has as many objects as the cache says, each an
  -- object of the slab, no two the same, and none in use; and every object of the slab is in it.
  pub new_slab_complete :
      IsSlab c a (new_slab c a)
      × ((o : ℕ) → IsObject c a o → member o (new_slab c a).free ≡ true)
      × ((new_slab c a).in_use ≡ 0)
  unfolding new_slab
  new_slab_complete = (new_slab-IsSlab, new_slab-all_free, refl)
