-- ===== src/Tests/WordTests.antt =====
-- The results on words and numbers, applied to concrete ones.
use navi_scheme.Base.{ℕ, ◌^◌, ◌<◌, ◌≡◌, ◌↔◌, true, [], ◌∷◌, arith}
use navi_scheme.Base.Int.{pos, ltb_ℤ, ◌+ℤ◌}
use navi_scheme.Word.Fixnum.{IsFixnum}
use navi_scheme.Object.{bool, ptr, eqp}
use navi_scheme.Object.Encode.{encode, Fits, eqp_iff_encode}
use navi_scheme.Object.Run.{ok}
use navi_scheme.Arithmetic.{scm_add, numeric_comparison}
use navi_scheme.Arithmetic.Compare.{adjacent, numeric_comparison-adjacent}
use navi_scheme.Arithmetic.Sum.{Sums, summed, add, scm_add-Sums}
use navi_scheme.Tests.{num, heap, numbers}

small : (n : ℕ) → n < 2 ^ 60 → IsFixnum n
small n lt = record { word = omega arith; low = ground arith; high = ground arith }

fits : (n : ℕ) → n < 2 ^ 60 → Fits (num n)
unfolding Fits
fits n lt = (ground arith, ground arith)

Fits-ptr : Fits (ptr 3)
unfolding Fits
Fits-ptr = omega arith

eqp_iff_encode_example : (eqp (num 3) (ptr 3) ≡ true) ↔ (encode (num 3) ≡ encode (ptr 3))
eqp_iff_encode_example = eqp_iff_encode (num 3) (ptr 3) (fits 3 (omega arith)) Fits-ptr

numeric_comparison-adjacent_example :
    numeric_comparison ltb_ℤ 3 (ptr 0) heap ≡ ok (bool (adjacent ltb_ℤ (pos 1 ∷ pos 2 ∷ []))) heap
numeric_comparison-adjacent_example =
    numeric_comparison-adjacent ltb_ℤ 3 (pos 1 ∷ pos 2 ∷ []) numbers (omega arith)

sums : Sums (pos 1) (pos 2 ∷ []) (pos 3)
unfolding ◌+ℤ◌
sums = add (fits 2 (omega arith)) (fits 3 (omega arith)) summed

scm_add-Sums_example : scm_add 3 (ptr 0) heap ≡ ok (num 3) heap
scm_add-Sums_example =
    scm_add-Sums 3 (pos 1) (pos 2) [] (fits 1 (omega arith)) sums numbers (omega arith)
