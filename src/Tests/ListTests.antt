-- ===== src/Tests/ListTests.antt =====
-- The results on lists, applied to the heap of the tests.
use navi_scheme.Base.{◌≡◌, refl, true, false, if◌then◌else◌, [], ◌∷◌, ◌++◌, reverse, arith}
use navi_scheme.Base.Int.{pos, negsuc}
use navi_scheme.Types.{NaviType, same_type, code}
use navi_scheme.Object.{nil, ptr, type_in, cell_type, eqp}
use navi_scheme.Object.Run.{ok, raised, is_list, navi_type, not_proper_list, not_positive}
use navi_scheme.Object.Returns.{Returns}
use navi_scheme.Object.Chain.{nil-IsEnd}
use navi_scheme.Lists.Read.{scm_length}
use navi_scheme.Lists.Read.Laws.{IsKnown, scm_length-length}
use navi_scheme.Lists.Build.{scm_append, list_copy, scm_reverse}
use navi_scheme.Lists.Build.Append.{Args, final, more, scm_append-append}
use navi_scheme.Lists.Build.Copy.{IsCopy, list_copy-IsCopy}
use navi_scheme.Lists.Build.Laws.{Builds, scm_reverse-reverse}
use navi_scheme.Lists.Search.{scm_list_ref, scm_memq}
use navi_scheme.Lists.Search.Laws.{ref_of, IsMember, scm_list_ref-ref_of, scm_memq-IsMember}
use navi_scheme.Tests.{num, heap, numbers, lists, nil_end}

is_list_numbers : is_list (ptr 0) heap ≡ ok true heap
unfolding is_list navi_type type_in cell_type same_type code
is_list_numbers = refl

known : IsKnown heap (ptr 2)
unfolding type_in cell_type
known = record { type = NaviType.vector; known = refl }

two_lists : Args heap 14 nil (ptr 0 ∷ ptr 0 ∷ []) ((num 1 ∷ num 2 ∷ []) ++ (num 1 ∷ num 2 ∷ []))
two_lists = more numbers (final numbers)

scm_append-append_example :
    Returns
      (Builds heap nil ((num 1 ∷ num 2 ∷ []) ++ (num 1 ∷ num 2 ∷ [])))
      (scm_append 9 (ptr 6) heap)
scm_append-append_example = scm_append-append 9 heap lists two_lists (omega arith)

list_copy-IsCopy_example : Returns (IsCopy heap nil (num 1 ∷ num 2 ∷ [])) (list_copy 3 (ptr 0) heap)
list_copy-IsCopy_example = list_copy-IsCopy 3 heap nil_end numbers is_list_numbers (omega arith)

scm_reverse-reverse_example :
    Returns (IsCopy heap nil (reverse (num 1 ∷ num 2 ∷ []))) (scm_reverse 3 (ptr 0) heap)
scm_reverse-reverse_example = scm_reverse-reverse 3 heap nil_end numbers (omega arith)

scm_length-length_example :
    scm_length 3 (ptr 0) heap
    ≡ (if same_type NaviType.nil NaviType.nil then ok (num 2) heap else raised not_proper_list)
unfolding nil-IsEnd
scm_length-length_example =
    scm_length-length (nil-IsEnd heap 14) 3 numbers (omega arith) (omega arith)

one_known : IsKnown heap (num 1)
unfolding type_in
one_known = record { type = NaviType.fixnum; known = refl }

two_known : IsKnown heap (num 2)
unfolding type_in
two_known = record { type = NaviType.fixnum; known = refl }

scm_list_ref-ref_of_example :
    (scm_list_ref 3 (ptr 0) (pos 1) heap ≡ ref_of (num 1 ∷ num 2 ∷ []) 1 heap)
    × (scm_list_ref 3 (ptr 0) (negsuc 0) heap ≡ raised not_positive)
scm_list_ref-ref_of_example = scm_list_ref-ref_of nil_end 3 1 0 numbers (omega arith)

scm_memq-IsMember_example :
    IsMember nil_end (eqp (num 2)) (num 1 ∷ num 2 ∷ []) (scm_memq 3 (num 2) (ptr 0) heap)
scm_memq-IsMember_example = scm_memq-IsMember nil_end 3 (num 2) numbers (omega arith)

not_trap : same_type NaviType.vector NaviType.trap ≡ false
unfolding same_type code
not_trap = refl
