-- ===== src/Checks.antt =====
-- The checks of error.h: each returns, or raises the error that `navi_error` or `navi_type_error`
-- would.
pub mod Copy
use navi_scheme.Base.{
  ℕ, ◌+◌, ◌-◌, Bool, true, false, not, ◌||◌, ◌==◌, ltb, if◌then◌else◌, ◌&&◌, Option, none, some,
}
use navi_scheme.Base.Int.{ℤ, pos, ltb_ℤ, pos_part, ◌-ℤ◌}
use navi_scheme.Types.{NaviType, ArgType, list, exactly, same_type}
use navi_scheme.Object.{Obj, fixnum, char, procedure, Procedure}
use navi_scheme.Object.Run.{
  Cmd, type_error, range_error, wrong_arity, invalid_copy, not_proper_list, pure, raise, stuck,
  ◌>>=◌, ◌>>◌, navi_type, load, is_type, is_list,
}
use navi_scheme.Lists.Read.{is_proper_list}

-- `navi_fixnum`: reads the number of an object that is known to be a fixnum.
unfoldable pub fixnum_value : Obj → Cmd ℤ
fixnum_value (fixnum n) = pure n
fixnum_value _ = stuck

-- `navi_type_check`
unfoldable pub type_check : Obj → NaviType → Cmd Obj
type_check o t = do
  actual ← navi_type o
  if same_type actual t then pure o else raise (type_error (exactly t) actual)

-- `navi_type_check_range`: `min <= n < max`.
unfoldable pub type_check_range : Obj → ℤ → ℤ → Cmd ℤ
unfolding type_check fixnum_value
type_check_range o min max = do
  type_check o NaviType.fixnum
  n ← fixnum_value o
  if ltb_ℤ n min || not (ltb_ℤ n max) then raise (range_error min max n) else pure n

-- `navi_type_check_byte`: the pattern of the `unsigned char`.
unfoldable pub type_check_byte : Obj → Cmd ℕ
unfolding type_check_range
type_check_byte o = do n ← type_check_range o (pos 0) (pos 256); pure (pos_part n)

-- `navi_type_check_list`
unfoldable pub type_check_list : Obj → Cmd Obj
type_check_list o = do
  fits ← is_list o
  actual ← navi_type o
  if fits then pure o else raise (type_error list actual)

-- `navi_type_check_proper_list`
unfoldable pub type_check_proper_list : ℕ → Obj → Cmd Obj
type_check_proper_list k o = do
  fits ← is_proper_list k o
  if fits then pure o else raise not_proper_list

-- `navi_fixnum_cast`
unfoldable pub fixnum_cast : Obj → Cmd ℤ
unfolding type_check fixnum_value
fixnum_cast o = do o' ← type_check o NaviType.fixnum; fixnum_value o'

-- The condition of `navi_check_copy_to`: the sizes are `size_t`, the indices `long`, and a `long`
-- that is known not to be negative is compared as a `size_t`. The last test subtracts as `size_t`,
-- where the tests before it leave no wrap.
unfoldable pub bad_copy : (to : ℕ) (at : ℤ) (from : ℕ) (start end : ℤ) → Bool
bad_copy to at from start end =
    ltb_ℤ at (pos 0)
    || not (ltb (pos_part at) to)
    || ltb_ℤ start (pos 0)
    || not (ltb (pos_part start) from)
    || ltb_ℤ end start
    || ltb from (pos_part end)
    || ltb (to - pos_part at) (pos_part end - pos_part start)

-- `navi_check_copy_to` and `navi_check_copy`
unfoldable pub check_copy_to : ℕ → ℤ → ℕ → ℤ → ℤ → Cmd (Unit {0})
unfolding bad_copy
check_copy_to to at from start end =
    if bad_copy to at from start end then raise invalid_copy else pure tt

unfoldable pub check_copy : ℕ → ℤ → ℤ → Cmd (Unit {0})
unfolding check_copy_to
check_copy size start end = check_copy_to size (pos 0) size start end

-- `navi_arity_satisfied` of internal.h.
unfoldable pub arity_satisfied : Procedure → ℕ → Bool
arity_satisfied p n = (n == p.arity) || (p.variadic && ltb p.arity n)

-- `navi_check_arity`
unfoldable pub check_arity : Procedure → ℕ → Cmd (Unit {0})
unfolding arity_satisfied
check_arity p arity = if arity_satisfied p arity then pure tt else raise (wrong_arity arity p.arity)

-- `(nr_args > k) ? navi_fixnum_cast(arg, env) : default`: an optional index.
unfoldable pub index_or : Option Obj → ℤ → Cmd ℤ
unfolding fixnum_cast
index_or none default = pure default
index_or (some o) default = fixnum_cast o

-- `navi_type_check_proc`, on the procedure that the object points to.
unfoldable pub type_check_proc : Obj → ℕ → Cmd Obj
unfolding type_check check_arity
type_check_proc o arity = do
  o' ← type_check o NaviType.procedure
  c ← load o'
  elim c [ procedure p ↦ (do check_arity p arity; pure o') | _ ↦ stuck ]

-- `navi_char_cast`: the code of a character.
unfoldable pub char_cast : Obj → Cmd ℕ
unfolding type_check
char_cast o = do o' ← type_check o NaviType.char; elim o' [ char c ↦ pure c | _ ↦ stuck ]
