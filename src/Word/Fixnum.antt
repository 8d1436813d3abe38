-- ===== src/Word/Fixnum.antt =====
-- The arithmetic of macros.h on tagged fixnums.
use navi_scheme.Base.{ℕ, ◌+◌, ◌-◌, ◌%◌, ◌^◌, ◌<◌, ◌≡◌, arith}
use navi_scheme.Base.Int.{pos, negsuc, ◌+ℤ◌, ◌≤ℤ◌}
use navi_scheme.Word.{word_mod, signed, fixnum_of, make_fixnum, fixnum_plus, fixnum_minus}

-- A `long` that a fixnum can hold: 63 bits, signed.
pub record IsFixnum (w : ℕ) : Type 0 where
  pub word : w < 2 ^ 64
  pub low : negsuc (2 ^ 62 - 1) ≤ℤ signed w
  pub high : signed w ≤ℤ pos (2 ^ 62 - 1)

pub fixnum_of-make_fixnum : (w : ℕ) → IsFixnum w → fixnum_of (make_fixnum w) ≡ w
unfolding fixnum_of make_fixnum
fixnum_of-make_fixnum w h = ground arith

pub fixnum_plus_lem :
    (a b : ℕ)
    → a < 2 ^ 64
    → b < 2 ^ 64
    → fixnum_plus (make_fixnum a) (make_fixnum b) ≡ make_fixnum ((a + b) % word_mod)
unfolding fixnum_plus make_fixnum
fixnum_plus_lem a b ha hb = omega arith

pub fixnum_minus_lem :
    (a b : ℕ)
    → a < 2 ^ 64
    → b < 2 ^ 64
    → fixnum_minus (make_fixnum a) (make_fixnum b) ≡ make_fixnum ((a + (word_mod - b)) % word_mod)
unfolding fixnum_minus make_fixnum
fixnum_minus_lem a b ha hb = omega arith

-- `navi_fixnum_plus` on the words of two fixnums gives the word of their sum, where the true sum fits a
-- fixnum.
pub signed-fixnum_plus :
    (a b : ℕ)
    → IsFixnum a
    → IsFixnum b
    → negsuc (2 ^ 62 - 1) ≤ℤ signed a +ℤ signed b
    → signed a +ℤ signed b ≤ℤ pos (2 ^ 62 - 1)
    → signed (fixnum_of (fixnum_plus (make_fixnum a) (make_fixnum b))) ≡ signed a +ℤ signed b
unfolding ◌+ℤ◌ fixnum_of make_fixnum
signed-fixnum_plus a b ha hb low high = rw (fixnum_plus_lem a b ha.word hb.word) (ground arith)
