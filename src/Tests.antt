-- ===== src/Tests.antt =====
-- A small heap and small scopes for the tests of the children, which apply each result of the library
-- to concrete data.
pub mod ListTests
pub mod ArrayTests
pub mod ScopeTests
pub mod WordTests
pub mod LibraryTests
pub mod PortTests
pub mod StringTests
pub mod EqualTests
pub mod SlabTests
pub mod RedBlackTests
use navi_scheme.Base.{
  ℕ, suc, zero, ◌+◌, ◌≤◌, ◌<◌, ◌≡◌, refl, Option, none, some, List, [], ◌∷◌, arith, length,
  get_elem?,
}
use navi_scheme.Base.Int.{ℤ, pos}
use navi_scheme.Object.{Obj, nil, fixnum, ptr, Cell, pair, vector, bytevec, symbol, Store, IsStore}
use navi_scheme.Object.Chain.{PairAt, Chain, done, link, IsEnd, nil-IsEnd}
use navi_scheme.Array.Laws.{ArrayAt}
use navi_scheme.Vector.{vector_layout}
use navi_scheme.Bytevector.{bytevec_layout}

abbrev pub num : ℕ → Obj
num n = fixnum (pos n)

abbrev pub cells : List Cell
cells =
    pair (num 1) (ptr 1)
    ∷ pair (num 2) nil
    ∷ vector (num 10 ∷ num 20 ∷ num 30 ∷ [])
    ∷ vector (num 7 ∷ num 8 ∷ [])
    ∷ bytevec (1 ∷ 2 ∷ 3 ∷ [])
    ∷ bytevec (9 ∷ 8 ∷ [])
    ∷ pair (ptr 0) (ptr 7)
    ∷ pair (ptr 0) nil
    ∷ pair (ptr 4) (ptr 9)
    ∷ pair (ptr 5) nil
    ∷ symbol (97 ∷ [])
    ∷ symbol (98 ∷ [])
    ∷ pair (ptr 10) (ptr 13)
    ∷ pair (ptr 11) nil
    ∷ []

abbrev pub heap : Store
heap = record { next = 14; cell = λ p. get_elem? cells p }

pub heap-IsStore : IsStore heap
heap-IsStore = record { fresh = past cells }
  where
    past : (xs : List Cell) (p : ℕ) → length xs ≤ p → get_elem? xs p ≡ none
    past [] p le = refl
    past (x ∷ xs) zero le = absurd (omega arith)
    past (x ∷ xs) (suc p) le = past xs p (omega arith)

pub numbers : Chain heap 14 nil (ptr 0) (num 1 ∷ num 2 ∷ [])
numbers =
    link (omega arith) (record { holds = refl }) (link (omega arith) (record { holds = refl }) done)

pub lists : Chain heap 14 nil (ptr 6) (ptr 0 ∷ ptr 0 ∷ [])
lists =
    link (omega arith) (record { holds = refl }) (link (omega arith) (record { holds = refl }) done)

pub byte_lists : Chain heap 14 nil (ptr 8) (ptr 4 ∷ ptr 5 ∷ [])
byte_lists =
    link (omega arith) (record { holds = refl }) (link (omega arith) (record { holds = refl }) done)

pub parameters : Chain heap 14 nil (ptr 12) (ptr 10 ∷ ptr 11 ∷ [])
parameters =
    link (omega arith) (record { holds = refl }) (link (omega arith) (record { holds = refl }) done)

pub nil_end : IsEnd heap 14 nil
nil_end = nil-IsEnd heap 14

pub three : ArrayAt vector_layout heap 2 (num 10 ∷ num 20 ∷ num 30 ∷ [])
unfolding vector_layout
three = record { cell = vector (num 10 ∷ num 20 ∷ num 30 ∷ []); holds = refl; viewed = refl }

pub two : ArrayAt vector_layout heap 3 (num 7 ∷ num 8 ∷ [])
unfolding vector_layout
two = record { cell = vector (num 7 ∷ num 8 ∷ []); holds = refl; viewed = refl }

pub three_bytes : ArrayAt bytevec_layout heap 4 (1 ∷ 2 ∷ 3 ∷ [])
unfolding bytevec_layout
three_bytes = record { cell = bytevec (1 ∷ 2 ∷ 3 ∷ []); holds = refl; viewed = refl }

pub two_bytes : ArrayAt bytevec_layout heap 5 (9 ∷ 8 ∷ [])
unfolding bytevec_layout
two_bytes = record { cell = bytevec (9 ∷ 8 ∷ []); holds = refl; viewed = refl }
