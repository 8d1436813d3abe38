-- ===== src/Vector/Access.antt =====
-- `vector-ref` and `vector-set!` on every index.
use navi_scheme.Base.{
  ℕ, zero, suc, ◌+◌, ◌≤◌, ◌<◌, ◌≡◌, refl, ◌∙◌, true, Option, none, some, List, [], ◌∷◌, arith,
  length, get_elem?, set, ltb, if◌then◌else◌, ◌==◌,
}
use navi_scheme.Base.Int.{pos, negsuc}
use navi_scheme.Object.{Obj, ptr, Store}
use navi_scheme.Object.Run.{ok, raised, fault, vector_index, Run}
use navi_scheme.Object.Returns.{Returns, returns}
use navi_scheme.Object.Returns
use navi_scheme.Array.Laws.{ArrayAt, size-ok, fetch-ok, assign-ArrayAt}
use navi_scheme.Array.Slice.{get-set}
use navi_scheme.Vector.{vector_layout, scm_vector_ref, scm_vector_set}

-- What `vector-ref` should do at an index.
abbrev pub ref_result : List Obj → ℕ → Store → Run Obj
ref_result xs i h = elim (get_elem? xs i) [ none ↦ raised vector_index | some x ↦ ok x h ]

pub get_elem?-none : {A : Type 0} (xs : List A) (i : ℕ) → get_elem? xs i ≡ none → length xs ≤ i
get_elem?-none [] i e = omega arith
get_elem?-none (x ∷ xs) zero e = cc
get_elem?-none (x ∷ xs) (suc i) e = omega (arith, get_elem?-none xs i e)

pub get_elem?-some :
    {A : Type 0} (xs : List A) (i : ℕ) {x : A} → get_elem? xs i ≡ some x → i < length xs
get_elem?-some [] i e = cc
get_elem?-some (x ∷ xs) zero e = omega arith
get_elem?-some (x ∷ xs) (suc i) e = omega (arith, get_elem?-some xs i e)

module _ {h : Store} {p : ℕ} {xs : List Obj} (a : ArrayAt vector_layout h p xs) where
  past_end :
      (i : ℕ) → get_elem? xs i ≡ none → scm_vector_ref (ptr p) (pos i) h ≡ raised vector_index
  unfolding scm_vector_ref
  past_end i e = rw (size-ok vector_layout a) (ground (arith, get_elem?-none xs i e))

  at_element :
      (i : ℕ) {x : Obj} → get_elem? xs i ≡ some x → scm_vector_ref (ptr p) (pos i) h ≡ ok x h
  unfolding scm_vector_ref
  at_element i e =
      rw (size-ok vector_layout a)
        (ground (arith, get_elem?-some xs i e, fetch-ok vector_layout i a e))

  -- `vector-ref` on a vector: at an index from 0 on it returns the element and changes nothing, or
  -- raises an error where there is none; a negative index passes the test of the code, which then
  -- reads before the elements.
  pub scm_vector_ref-result :
      (i j : ℕ)
      → (scm_vector_ref (ptr p) (pos i) h ≡ ref_result xs i h)
        × (scm_vector_ref (ptr p) (negsuc j) h ≡ fault)
  scm_vector_ref-result i j = (by_element (get_elem? xs i) refl, before)
    where
      by_element :
          (o : Option Obj)
          → get_elem? xs i ≡ o
          → scm_vector_ref (ptr p) (pos i) h
            ≡ elim o [ none ↦ raised vector_index | some x ↦ ok x h ]
      by_element none e = past_end i e
      by_element (some x) e = at_element i e

      before : scm_vector_ref (ptr p) (negsuc j) h ≡ fault
      before = unfold scm_vector_ref in rw (size-ok vector_layout a) (ground arith)

-- `vector-set!` at an index in range returns, and `vector-ref` then reads the new object at that index
-- and the old ones at all others.
pub ref-set :
    {h : Store} {p : ℕ} {xs : List Obj} (a : ArrayAt vector_layout h p xs) (i j : ℕ) (v : Obj)
    → i < length xs
    → Returns
        (λ _ g. scm_vector_ref (ptr p) (pos j) g ≡ (if i == j then ok v g else ref_result xs j g))
        (scm_vector_set (ptr p) (pos i) v h)
unfolding scm_vector_set
ref-set {p} {xs} a i j v lt =
    rw (size-ok vector_layout a, inside)
      (Returns.bind (assign-ArrayAt vector_layout i v a lt)
        λ _ g (a', only). returns ((scm_vector_ref-result a' j 0).0 ∙ stored g))
  where
    inside : ltb (i + 0) (length xs + 0) ≡ true
    inside = ground arith

    stored :
        (g : Store) → ref_result (set xs i v) j g ≡ (if i == j then ok v g else ref_result xs j g)
    stored g = ground (arith, get-set xs i j v lt)
