-- ===== src/Bytevector/Access.antt =====
-- `bytevector-u8-ref` and `bytevector-u8-set!` on every index.
use navi_scheme.Base.{
  ℕ, ◌≤◌, ◌<◌, ◌≡◌, refl, ◌∙◌, Option, none, some, List, arith, length, get_elem?, set, length-set,
  if◌then◌else◌, ◌==◌,
}
use navi_scheme.Base.Int.{pos, negsuc}
use navi_scheme.Types.{same_type, code}
use navi_scheme.Object.{Obj, fixnum, ptr, Store, type_in}
use navi_scheme.Object.Run.{ok, raised, range_error, Run, navi_type}
use navi_scheme.Object.Returns.{Returns, returns}
use navi_scheme.Object.Returns
use navi_scheme.Array.Laws.{ArrayAt, size-ok, fetch-ok, assign-ArrayAt}
use navi_scheme.Array.Slice.{get-set}
use navi_scheme.Checks.{type_check_range}
use navi_scheme.Vector.Access.{get_elem?-none, get_elem?-some}
use navi_scheme.Bytevector.{bytevec_layout, scm_bytevector_u8_ref, scm_bytevector_u8_set}

-- What `bytevector-u8-ref` should do at an index from 0 on.
abbrev pub u8_result : List ℕ → ℕ → Store → Run Obj
u8_result xs i h = elim (get_elem? xs i) [
  | none ↦ raised (range_error (pos 0) (pos (length xs)) (pos i))
  | some b ↦ ok (fixnum (pos b)) h
]

in_range :
    (i n : ℕ) (h : Store)
    → i < n
    → type_check_range (fixnum (pos i)) (pos 0) (pos n) h ≡ ok (pos i) h
unfolding type_check_range navi_type type_in same_type code
in_range i n h lt = ground arith

past_range :
    (i n : ℕ) (h : Store)
    → n ≤ i
    → type_check_range (fixnum (pos i)) (pos 0) (pos n) h
      ≡ raised (range_error (pos 0) (pos n) (pos i))
unfolding type_check_range navi_type type_in same_type code
past_range i n h le = ground arith

before_range :
    (j n : ℕ) (h : Store)
    → type_check_range (fixnum (negsuc j)) (pos 0) (pos n) h
      ≡ raised (range_error (pos 0) (pos n) (negsuc j))
unfolding type_check_range navi_type type_in same_type code
before_range j n h = ground arith

module _ {h : Store} {p : ℕ} {xs : List ℕ} (a : ArrayAt bytevec_layout h p xs) where
  -- `bytevector-u8-ref` on a bytevector returns the byte at the index and changes nothing, or raises a
  -- range error, for a negative index and for one past the end.
  pub scm_bytevector_u8_ref-result :
      (i j : ℕ)
      → (scm_bytevector_u8_ref (ptr p) (pos i) h ≡ u8_result xs i h)
        × (scm_bytevector_u8_ref (ptr p) (negsuc j) h
            ≡ raised (range_error (pos 0) (pos (length xs)) (negsuc j)))
  unfolding scm_bytevector_u8_ref
  scm_bytevector_u8_ref-result i j = (
    by_element (get_elem? xs i) refl,
    rw (size-ok bytevec_layout a, before_range j (length xs) h) refl,
  )
    where
      by_element :
          (o : Option ℕ)
          → get_elem? xs i ≡ o
          → scm_bytevector_u8_ref (ptr p) (pos i) h ≡ elim o [
            | none ↦ raised (range_error (pos 0) (pos (length xs)) (pos i))
            | some b ↦ ok (fixnum (pos b)) h
          ]
      by_element none e =
          rw (size-ok bytevec_layout a, past_range i (length xs) h (get_elem?-none xs i e)) refl
      by_element (some b) e =
          rw
            (
              size-ok bytevec_layout a,
              in_range i (length xs) h (get_elem?-some xs i e),
              fetch-ok bytevec_layout i a e,
            )
            refl

-- `bytevector-u8-set!` at an index in range returns, and `bytevector-u8-ref` then reads the new byte
-- at that index and the old ones at all others.
pub u8_ref-u8_set :
    {h : Store} {p : ℕ} {xs : List ℕ} (a : ArrayAt bytevec_layout h p xs) (i j b : ℕ)
    → i < length xs
    → Returns
        (λ _ g.
          scm_bytevector_u8_ref (ptr p) (pos j) g
          ≡ (if i == j then ok (fixnum (pos b)) g else u8_result xs j g))
        (scm_bytevector_u8_set (ptr p) (pos i) b h)
unfolding scm_bytevector_u8_set
u8_ref-u8_set {h} {p} {xs} a i j b lt =
    rw (size-ok bytevec_layout a, in_range i (length xs) h lt)
      (Returns.bind (assign-ArrayAt bytevec_layout i b a lt)
        λ _ g (a', only). returns ((scm_bytevector_u8_ref-result a' j 0).0 ∙ stored g))
  where
    stored :
        (g : Store)
        → u8_result (set xs i b) j g ≡ (if i == j then ok (fixnum (pos b)) g else u8_result xs j g)
    stored g = ground (arith, get-set xs i j b lt, length-set xs i b)
