-- ===== src/Word/Immediate.antt =====
-- The tagged words of navi.h and internal.h: each constructor's word has its type, and the accessor
-- gives the value back.
use navi_scheme.Base.{ℕ, ◌^◌, ◌<◌, ◌≡◌, refl, Bool, true, false, arith, if◌then◌else◌}
use navi_scheme.Types
use navi_scheme.Types.{NaviType}
use navi_scheme.Word.{char_of, bool_of, make_bool, make_char, make_fixnum, type_of, immediate_type}

-- `navi_char(navi_make_char(c))` is `c` for every code below 2 ^ 59, so for every code point.
pub char_of-make_char : (c : ℕ) → c < 2 ^ 59 → char_of (make_char c) ≡ c
unfolding char_of make_char
char_of-make_char c h = ground arith

pub bool_of-make_bool : (b : Bool) → bool_of (make_bool b) ≡ (if b then 1 else 0)
unfolding bool_of make_bool
bool_of-make_bool true = refl
bool_of-make_bool false = refl

module _ (heap_type : ℕ → ℕ) where
  pub type_of-make_char : (c : ℕ) → type_of heap_type (make_char c) ≡ Types.code NaviType.char
  unfolding type_of make_char immediate_type
  type_of-make_char c = ground arith

  pub type_of-make_fixnum : (n : ℕ) → type_of heap_type (make_fixnum n) ≡ Types.code NaviType.fixnum
  unfolding type_of make_fixnum
  type_of-make_fixnum n = ground arith
