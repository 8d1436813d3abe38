-- ===== src/Tests/ArrayTests.antt =====
-- The results on vectors and bytevectors, applied to the heap of the tests.
use navi_scheme.Base.{
  ℕ, ◌+◌, ◌<◌, ◌≡◌, ◌↔◌, refl, ◌==◌, if◌then◌else◌, none, some, [], ◌∷◌, ◌++◌, arith,
}
use navi_scheme.Base.Int.{pos, negsuc}
use navi_scheme.Object.{nil, ptr}
use navi_scheme.Object.Run.{ok, fault, ◌>>=◌}
use navi_scheme.Object.Returns.{Returns}
use navi_scheme.Object.Chain.{Chain, SameBelow}
use navi_scheme.Array.Laws.{ArrayAt, IsCopied}
use navi_scheme.Array.Fresh.{IsSlice}
use navi_scheme.Checks.{bad_copy, check_copy, check_copy_to}
use navi_scheme.Checks.Copy.{absent, given, InBounds, check_copy_to-InBounds}
use navi_scheme.Vector.{
  vector_layout, list_to_vector, vector_to_list, scm_vector_ref, scm_vector_set, scm_vector_copy,
  scm_vector_copy_to,
}
use navi_scheme.Lists.Build.Copy.{IsCopy}
use navi_scheme.Vector.Convert.{vector_to_list-list_to_vector}
use navi_scheme.Vector.Access.{ref_result, scm_vector_ref-result, ref-set}
use navi_scheme.Vector.Move.{scm_vector_copy_to-IsCopied, scm_vector_copy-IsSlice}
use navi_scheme.Bytevector.{bytevec_layout, scm_bytevector_append}
use navi_scheme.Bytevector.Build.{Parts, no_parts, part, scm_bytevector_append-append}
use navi_scheme.Tests.{
  num, heap, heap-IsStore, numbers, byte_lists, nil_end, three, two, three_bytes, two_bytes,
}

-- The memory of a new bytevector.
abbrev left : ℕ → ℕ
left i = i + 100

to_fits : check_copy_to 3 (pos 1) 2 (pos 0) (pos 2) heap ≡ ok tt heap
unfolding check_copy_to bad_copy
to_fits = refl

slice_fits : check_copy 3 (pos 1) (pos 3) heap ≡ ok tt heap
unfolding check_copy check_copy_to bad_copy
slice_fits = refl

check_copy_to-InBounds_example :
    (check_copy_to 3 (pos 1) 2 (pos 0) (pos 2) heap ≡ ok tt heap)
    ↔ (InBounds 3 (pos 1) 2 (pos 0) (pos 2) × (1 < 3) × (0 < 2))
check_copy_to-InBounds_example = check_copy_to-InBounds 3 (pos 1) 2 (pos 0) (pos 2) heap

vector_to_list-list_to_vector_example :
    Returns
      (λ l g.
        IsCopy heap nil (num 1 ∷ num 2 ∷ []) l g × Chain g g.next nil (ptr 0) (num 1 ∷ num 2 ∷ []))
      ((list_to_vector 3 (ptr 0) >>= vector_to_list) heap)
vector_to_list-list_to_vector_example =
    vector_to_list-list_to_vector 3 heap nil_end numbers (omega arith) (omega arith)

scm_vector_ref-result_example :
    (scm_vector_ref (ptr 2) (pos 1) heap ≡ ref_result (num 10 ∷ num 20 ∷ num 30 ∷ []) 1 heap)
    × (scm_vector_ref (ptr 2) (negsuc 0) heap ≡ fault)
scm_vector_ref-result_example = scm_vector_ref-result three 1 0

ref-set_example :
    Returns
      (λ _ g.
        scm_vector_ref (ptr 2) (pos 2) g
        ≡ (if 1 == 2 then ok nil g else ref_result (num 10 ∷ num 20 ∷ num 30 ∷ []) 2 g))
      (scm_vector_set (ptr 2) (pos 1) nil heap)
ref-set_example = ref-set three 1 2 nil (omega arith)

scm_vector_copy_to-IsCopied_example :
    Returns
      (λ _.
        IsCopied vector_layout heap 2 (num 10 ∷ num 20 ∷ num 30 ∷ []) 1 (num 7 ∷ num 8 ∷ []) 0 2)
      (scm_vector_copy_to (ptr 2) (pos 1) (ptr 3) none none heap)
scm_vector_copy_to-IsCopied_example =
    scm_vector_copy_to-IsCopied three (pos 1) two (ground arith) absent absent to_fits

scm_vector_copy-IsSlice_example :
    Returns
      (IsSlice vector_layout heap (num 10 ∷ num 20 ∷ num 30 ∷ []) 1 2)
      (scm_vector_copy (ptr 2) (some (num 1)) (some (num 3)) heap)
scm_vector_copy-IsSlice_example = scm_vector_copy-IsSlice three heap-IsStore given given slice_fits

both : Parts heap 14 (ptr 4 ∷ ptr 5 ∷ []) ((1 ∷ 2 ∷ 3 ∷ []) ++ (9 ∷ 8 ∷ []) ++ [])
both = part (omega arith) three_bytes (part (omega arith) two_bytes no_parts)

scm_bytevector_append-append_example :
    Returns
      (λ v g.
        (v ≡ ptr 14)
        × ArrayAt bytevec_layout g 14 ((1 ∷ 2 ∷ 3 ∷ []) ++ (9 ∷ 8 ∷ []) ++ [])
        × SameBelow 14 heap g)
      (scm_bytevector_append left 3 (ptr 8) heap)
scm_bytevector_append-append_example =
    scm_bytevector_append-append left 3 heap nil_end byte_lists both (omega arith)
