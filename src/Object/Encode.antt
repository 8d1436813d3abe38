-- ===== src/Object/Encode.antt =====
-- The tagged words tell the objects of the model apart.
use navi_scheme.Base.{ℕ, ◌+◌, ◌-◌, ◌*◌, ◌^◌, ◌<◌, ◌≡◌, refl, ap, true, false, arith, ◌↔◌}
use navi_scheme.Base.Int.{pos, negsuc, ◌≤ℤ◌}
use navi_scheme.Object.{Obj, void, nil, eof, fixnum, bool, char, ptr, eqp}
use navi_scheme.Word.{make_void, make_nil, make_eof, make_bool, make_char, make_fixnum, pattern_of}

-- The word of an object: a pointer is the address, times 8, of an object that `malloc` aligned.
unfoldable pub encode : Obj → ℕ
unfolding make_void make_nil make_eof make_bool make_char make_fixnum
encode void = make_void
encode nil = make_nil
encode eof = make_eof
encode (fixnum n) = make_fixnum (pattern_of n)
encode (bool b) = make_bool b
encode (char c) = make_char c
encode (ptr p) = 8 * (p + 1)

-- The values that a word can hold: fixnums of 63 bits, characters of 60.
unfoldable pub Fits : Obj → Type 0
Fits (fixnum n) = (negsuc (2 ^ 62 - 1) ≤ℤ n) × (n ≤ℤ pos (2 ^ 62 - 1))
Fits (char c) = c < 2 ^ 59
Fits (ptr p) = p < 2 ^ 60
Fits _ = Unit

pub encode-injective : (a b : Obj) → Fits a → Fits b → encode a ≡ encode b → a ≡ b
unfolding encode Fits
encode-injective a b fa fb e = ground arith

pub eqp_refl : (a : Obj) → eqp a a ≡ true
unfolding eqp
eqp_refl (fixnum a) = ground arith
eqp_refl (bool true) = refl
eqp_refl (bool false) = refl
eqp_refl (char c) = ground arith
eqp_refl (ptr p) = ground arith
eqp_refl _ = refl

pub eq_of_eqp : (a b : Obj) → eqp a b ≡ true → a ≡ b
unfolding eqp
eq_of_eqp a b h = ground arith

-- `eq?` answers by the words: for objects that fit their words, it is true exactly when the tagged
-- words are one and the same.
pub eqp_iff_encode : (a b : Obj) → Fits a → Fits b → (eqp a b ≡ true) ↔ (encode a ≡ encode b)
eqp_iff_encode a b fa fb =
    (λ h. ap encode (eq_of_eqp a b h), λ e. rw (encode-injective a b fa fb e) (eqp_refl b))
