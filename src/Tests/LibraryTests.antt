-- ===== src/Tests/LibraryTests.antt =====
-- The results on libraries, applied to names in the heap of the tests.
use navi_scheme.Base.{◌≡◌, refl, some, List, [], ◌∷◌, ◌++◌, get_elem?, if◌then◌else◌, arith}
use navi_scheme.Types.{NaviType}
use navi_scheme.Object.{ptr, nil, type_in, cell_type, Cell, pair, Store}
use navi_scheme.Object.Chain.{Chain, done, link}
use navi_scheme.Object.Run.{ok}
use navi_scheme.Object.Returns.{Returns}
use navi_scheme.Lists.Read.Laws.{IsKnown}
use navi_scheme.Libraries.{LibraryTable, register_library, find_library}
use navi_scheme.Libraries.Table.{find-register}
use navi_scheme.Libraries.Names.{same_parts}
use navi_scheme.Tests.{heap, cells}

abbrev no_libraries : LibraryTable
no_libraries = record { bucket = λ _. [] }

a_known : IsKnown heap (ptr 10)
unfolding type_in cell_type
a_known = record { type = NaviType.symbol; known = refl }

b_known : IsKnown heap (ptr 11)
unfolding type_in cell_type
b_known = record { type = NaviType.symbol; known = refl }

-- The heap of the tests with a second list of the symbols of the first.
abbrev name_cells : List Cell
name_cells = cells ++ (pair (ptr 10) (ptr 15) ∷ pair (ptr 11) nil ∷ [])

abbrev name_heap : Store
name_heap = record { next = 16; cell = λ p. get_elem? name_cells p }

name : Chain name_heap 16 nil (ptr 12) (ptr 10 ∷ ptr 11 ∷ [])
name =
    link (omega arith) (record { holds = refl }) (link (omega arith) (record { holds = refl }) done)

query : Chain name_heap 16 nil (ptr 14) (ptr 10 ∷ ptr 11 ∷ [])
query =
    link (omega arith) (record { holds = refl }) (link (omega arith) (record { holds = refl }) done)

-- The query is another list with the parts of the name.
find-register_example :
    Returns
      (λ t g.
        (g ≡ name_heap)
        × (find_library 3 t (ptr 14) name_heap ≡ (
            if same_parts (ptr 10 ∷ ptr 11 ∷ []) (ptr 10 ∷ ptr 11 ∷ [])
            then ok (some (ptr 12)) name_heap
            else find_library 3 no_libraries (ptr 14) name_heap)))
      (register_library 3 no_libraries (ptr 12) name_heap)
find-register_example = find-register 3 no_libraries name query (omega arith) (omega arith)
