-- ===== src/Tests/EqualTests.antt =====
-- The result on `equal?`, applied to two lists of the heap of the parent.
use navi_scheme.Base.{ℕ, ◌≡◌, ◌↔◌, refl, Bool, true, arith}
use navi_scheme.Types.{NaviType, code}
use navi_scheme.Object.{nil, ptr, bool, type_in}
use navi_scheme.Object.Run.{ok}
use navi_scheme.Equal.{scm_equalp}
use navi_scheme.Equal.Datum.{Datum, self, pair_of, kind_of, Denotes, alone, paired, weight}
use navi_scheme.Equal.Exact.{scm_equalp-same}
use navi_scheme.Tests.{heap, num}

abbrev one_two : Datum
one_two = pair_of (self (num 1)) (pair_of (self (num 2)) (self nil))

number : (n : ℕ) → Denotes heap (num n) (self (num n))
unfolding type_in kind_of code
number n = alone NaviType.fixnum refl refl

empty_list : Denotes heap nil (self nil)
unfolding type_in kind_of code
empty_list = alone NaviType.nil refl refl

Denotes-one_two : Denotes heap (ptr 0) one_two
Denotes-one_two =
    paired (record { holds = refl }) (number 1)
      (paired (record { holds = refl }) (number 2) empty_list)

Denotes-nested : Denotes heap (ptr 7) (pair_of one_two (self nil))
Denotes-nested = paired (record { holds = refl }) Denotes-one_two empty_list

scm_equalp-same_example :
    (r : Bool) × (scm_equalp 9 (ptr 0) (ptr 7) heap ≡ ok (bool r) heap)
    × ((r ≡ true) ↔ (one_two ≡ pair_of one_two (self nil)))
unfolding weight
scm_equalp-same_example =
    scm_equalp-same 9 heap (ptr 0) (ptr 7) one_two (pair_of one_two (self nil)) Denotes-one_two
      Denotes-nested (omega arith)
