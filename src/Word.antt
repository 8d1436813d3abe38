-- ===== src/Word.antt =====
-- The machine word of a `navi_obj`: a `long` of 64 bits, kept as its bit pattern below 2 ^ 64.
-- Models the tag constants and accessors of navi.h, the constructors and type tests of internal.h,
-- and the tagged arithmetic of macros.h. A shift to the left drops what passes bit 63; `>>` on a
-- `long` copies the sign bit.
pub mod Immediate
pub mod Fixnum
use navi_scheme.Base.{
  ℕ, ◌+◌, ◌-◌, ◌*◌, ◌/◌, ◌%◌, ◌^◌, Bool, true, false, ltb, ◌==◌, if◌then◌else◌, ◌||◌, ◌&&◌, not,
}
use navi_scheme.Base.Int.{ℤ, pos, negsuc}
use navi_scheme.Types.{NaviType}
use navi_scheme.Types

abbrev pub word_mod : ℕ
word_mod = 2 ^ 64

-- The number that a pattern stands for as a `long`.
abbrev pub signed : ℕ → ℤ
signed w = if ltb w (2 ^ 63) then pos w else negsuc (word_mod - w - 1)

-- The pattern of a `long`.
abbrev pub pattern_of : ℤ → ℕ
pattern_of (pos n) = n % word_mod
pattern_of (negsuc n) = (word_mod - 1 - n % word_mod) % word_mod

-- `n << k` and, with the sign copied, `n >> k`.
abbrev pub shl : ℕ → ℕ → ℕ
shl w k = (w * 2 ^ k) % word_mod

abbrev pub sar : ℕ → ℕ → ℕ
sar w k = if ltb w (2 ^ 63) then w / 2 ^ k else w / 2 ^ k + (word_mod - 2 ^ (64 - k))

-- `w | 1`.
abbrev pub or_one : ℕ → ℕ
or_one w = w / 2 * 2 + 1

abbrev pub tag_bits : ℕ
tag_bits = 4

abbrev pub void_tag : ℕ
void_tag = 0

abbrev pub bool_tag : ℕ
bool_tag = 2

abbrev pub char_tag : ℕ
char_tag = 6

abbrev pub nil_tag : ℕ
nil_tag = 10

abbrev pub eof_tag : ℕ
eof_tag = 14

-- `navi_fixnum`, `navi_bool` and `navi_char`.
unfoldable pub fixnum_of : ℕ → ℕ
fixnum_of w = sar w 1

unfoldable pub bool_of : ℕ → ℕ
bool_of w = sar w tag_bits

unfoldable pub char_of : ℕ → ℕ
char_of w = sar w tag_bits

unfoldable pub make_void : ℕ
make_void = void_tag

unfoldable pub make_nil : ℕ
make_nil = nil_tag

unfoldable pub make_eof : ℕ
make_eof = eof_tag

-- `(num << 1) | 1`
unfoldable pub make_fixnum : ℕ → ℕ
make_fixnum num = or_one (shl num 1)

-- `(b << 4) | tag`: the low four bits of the shifted value are 0, so the sum is the bitwise or.
unfoldable pub make_bool : Bool → ℕ
make_bool b = shl (if b then 1 else 0) tag_bits + bool_tag

unfoldable pub make_char : ℕ → ℕ
make_char c = shl c tag_bits + char_tag

-- `obj.n & 3`, `obj.n & 1`, `obj.n & 2` and `obj.n & 0xF` as tests.
unfoldable pub is_immediate : ℕ → Bool
is_immediate w = not (w % 4 == 0)

abbrev pub low_bit : ℕ → Bool
low_bit w = w % 2 == 1

abbrev pub second_bit : ℕ → Bool
second_bit w = w / 2 % 2 == 1

-- `none` is the -1 of an unknown tag.
unfoldable pub immediate_type : ℕ → ℕ
immediate_type w =
    let tag = w % 16 in
    if tag == bool_tag
    then Types.code NaviType.bool
    else if tag == char_tag
    then Types.code NaviType.char
    else if tag == nil_tag
    then Types.code NaviType.nil
    else if tag == eof_tag
    then Types.code NaviType.eof
    else 2 ^ 32 - 1

-- `heap_type p` is `p->type`, the type stored in the object at address `p`.
unfoldable pub type_of : (heap_type : ℕ → ℕ) → ℕ → ℕ
unfolding immediate_type
type_of heap_type w =
    if w == 0
    then Types.code NaviType.void
    else if low_bit w
    then Types.code NaviType.fixnum
    else if second_bit w
    then immediate_type w
    else heap_type w

unfoldable pub is_ptr_type : ℕ → Bool
is_ptr_type w = not (w == 0) && w % 4 == 0

-- The macros on tagged words: the tag stays in place through the sum and the difference.
unfoldable pub fixnum_plus : ℕ → ℕ → ℕ
fixnum_plus n1 n2 = or_one ((n1 + (word_mod - 1) + n2) % word_mod)

unfoldable pub fixnum_minus : ℕ → ℕ → ℕ
fixnum_minus n1 n2 = or_one ((n1 + (word_mod - n2) + 1) % word_mod)

-- `navi_fixnum_fix(navi_fixnum_unfix(n1) * navi_fixnum_unfix(n2))`; the product wraps.
unfoldable pub fixnum_times : ℕ → ℕ → ℕ
unfolding fixnum_of make_fixnum
fixnum_times n1 n2 = make_fixnum ((fixnum_of n1 * fixnum_of n2) % word_mod)
