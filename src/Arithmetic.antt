-- ===== src/Arithmetic.antt =====
-- arithmetic.c: sums, differences and products of fixnums on their tagged words, and the numeric
-- comparisons and predicates. Division and the conversions to and from strings are left out.
pub mod Compare
pub mod Sum
use navi_scheme.Base.{ℕ, zero, suc, ◌+◌, ◌%◌, ◌==◌, Bool, true, false, not, if◌then◌else◌, ltb}
use navi_scheme.Base.Int.{ℤ, pos, ltb_ℤ, pos_part, neg_part}
use navi_scheme.Types.{NaviType}
use navi_scheme.Object.{Obj, fixnum, bool, eq_ℤ}
use navi_scheme.Object.Encode.{encode}
use navi_scheme.Object.Run.{Cmd, pure, out_of_fuel, ◌>>=◌, ◌>>◌, is_pair, is_nil, car, cdr}
use navi_scheme.Checks.{type_check, fixnum_value}
use navi_scheme.Word.{signed, fixnum_of, fixnum_plus, fixnum_minus, fixnum_times}

-- The loop of `ARITHMETIC_FOLD`: `acc.n = operator(acc.n, car.n)` for each element.
unfoldable pub fold_words : (ℕ → ℕ → ℕ) → ℕ → Obj → ℕ → Cmd ℕ
unfolding type_check encode
fold_words operator zero cons acc = out_of_fuel
fold_words operator (suc k) cons acc = do
  more ← is_pair cons
  if more
      then (do
        a ← car cons
        type_check a NaviType.fixnum
        rest ← cdr cons
        fold_words operator k rest (operator acc (encode a)))
      else pure acc

-- The object of a fixnum's word.
unfoldable pub of_word : ℕ → Obj
unfolding fixnum_of
of_word w = fixnum (signed (fixnum_of w))

-- `ARITHMETIC_FOLD` on a list that is not empty.
unfoldable pub arithmetic_fold : (ℕ → ℕ → ℕ) → ℕ → Obj → Cmd Obj
unfolding type_check encode fold_words of_word
arithmetic_fold operator k args = do
  a ← car args
  type_check a NaviType.fixnum
  rest ← cdr args
  w ← fold_words operator k rest (encode a)
  pure (of_word w)

-- `+` and `*`: with one argument the argument is returned as it is, without a check of its type.
unfoldable pub fold_or_unit : (ℕ → ℕ → ℕ) → ℤ → ℕ → Obj → Cmd Obj
unfolding arithmetic_fold
fold_or_unit operator unit k args = do
  empty ← is_nil args
  if empty then pure (fixnum unit) else (do
    rest ← cdr args
    single ← is_nil rest
    if single then car args else arithmetic_fold operator k args)

unfoldable pub scm_add : ℕ → Obj → Cmd Obj
unfolding fold_or_unit fixnum_plus
scm_add k args = fold_or_unit fixnum_plus (pos 0) k args

unfoldable pub scm_mul : ℕ → Obj → Cmd Obj
unfolding fold_or_unit fixnum_times
scm_mul k args = fold_or_unit fixnum_times (pos 1) k args

-- `-`: its first argument is a fixnum by its declaration.
unfoldable pub scm_sub : ℕ → Obj → Cmd Obj
unfolding arithmetic_fold fixnum_minus encode of_word
scm_sub k args = do
  rest ← cdr args
  single ← is_nil rest
  if single
      then (do a ← car args; pure (of_word (fixnum_minus (encode (fixnum (pos 0))) (encode a))))
      else arithmetic_fold fixnum_minus k args

-- `fold_pairs`
unfoldable pub fold_pairs : (Obj → Obj → Cmd Bool) → ℕ → Obj → Cmd Bool
fold_pairs compare zero cons = out_of_fuel
fold_pairs compare (suc k) cons = do
  more ← is_pair cons
  if more
      then (do
        rest ← cdr cons
        last ← is_nil rest
        if last then pure true else (do
          a ← car cons
          b ← car rest
          holds ← compare a b
          if holds then fold_pairs compare k rest else pure false))
      else pure true

-- The function `_name` of `NUMERIC_COMPARISON`.
unfoldable pub compare_numbers : (ℤ → ℤ → Bool) → Obj → Obj → Cmd Bool
unfolding type_check fixnum_value
compare_numbers op a b = do
  type_check a NaviType.fixnum
  type_check b NaviType.fixnum
  x ← fixnum_value a
  y ← fixnum_value b
  pure (op x y)

-- The builtin of `NUMERIC_COMPARISON`.
unfoldable pub numeric_comparison : (ℤ → ℤ → Bool) → ℕ → Obj → Cmd Obj
unfolding fold_pairs compare_numbers
numeric_comparison op k args = do holds ← fold_pairs (compare_numbers op) k args; pure (bool holds)

-- `<`, `>`, `<=`, `>=` and `=`
unfoldable pub scm_lt : ℕ → Obj → Cmd Obj
unfolding numeric_comparison
scm_lt = numeric_comparison ltb_ℤ

unfoldable pub scm_gt : ℕ → Obj → Cmd Obj
unfolding numeric_comparison
scm_gt = numeric_comparison (λ a b. ltb_ℤ b a)

unfoldable pub scm_lte : ℕ → Obj → Cmd Obj
unfolding numeric_comparison
scm_lte = numeric_comparison (λ a b. not (ltb_ℤ b a))

unfoldable pub scm_gte : ℕ → Obj → Cmd Obj
unfolding numeric_comparison
scm_gte = numeric_comparison (λ a b. not (ltb_ℤ a b))

unfoldable pub scm_numeq : ℕ → Obj → Cmd Obj
unfolding numeric_comparison
scm_numeq = numeric_comparison eq_ℤ

-- `NUMERIC_PREDICATE`: `zero?`, `positive?`, `negative?`, `odd?` and `even?`; the remainder of C has
-- the sign of its first operand, and is 0 exactly when that of the absolute value is.
unfoldable pub scm_zerop : ℤ → Cmd Obj
scm_zerop n = pure (bool (eq_ℤ n (pos 0)))

unfoldable pub scm_positivep : ℤ → Cmd Obj
scm_positivep n = pure (bool (ltb_ℤ (pos 0) n))

unfoldable pub scm_negativep : ℤ → Cmd Obj
scm_negativep n = pure (bool (ltb_ℤ n (pos 0)))

unfoldable pub scm_oddp : ℤ → Cmd Obj
scm_oddp n = pure (bool (not ((pos_part n + neg_part n) % 2 == 0)))

unfoldable pub scm_evenp : ℤ → Cmd Obj
scm_evenp n = pure (bool ((pos_part n + neg_part n) % 2 == 0))
