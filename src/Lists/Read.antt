-- ===== src/Lists/Read.antt =====
-- The functions of list.c that read a list, and the declared types of arguments.
pub mod Laws
use navi_scheme.Base.{
  ℕ, zero, suc, ◌+◌, ◌-◌, Bool, true, false, not, ◌&&◌, List, [], ◌∷◌, if◌then◌else◌, ltb,
}
use navi_scheme.Base.Int.{ℤ, pos, negsuc, ltb_ℤ}
use navi_scheme.Types.{NaviType, ArgType, list, proper_list, byte, any, exactly, same_type}
use navi_scheme.Object.{Obj, fixnum, void, nil, eof, bool, char, ptr}
use navi_scheme.Object.Run.{
  Cmd, Error, type_error, not_proper_list, pure, raise, stuck, out_of_fuel, ◌>>=◌, ◌>>◌, navi_type,
  is_type, is_pair, is_nil, is_list, car, cdr,
}

-- `i++` of an `int`, with no defined behaviour at its largest value.
abbrev pub int_max : ℕ
int_max = 2147483647

unfoldable pub next_int : ℕ → Cmd ℕ
next_int i = if ltb i int_max then pure (i + 1) else stuck

-- `navi_list_length`
list_length_loop : ℕ → Obj → ℕ → Cmd ℕ
unfolding next_int
list_length_loop zero o i = out_of_fuel
list_length_loop (suc k) o i = do
  more ← is_pair o
  if more then (do rest ← cdr o; j ← next_int i; list_length_loop k rest j) else pure i

unfoldable pub list_length : ℕ → Obj → Cmd ℕ
unfolding list_length_loop
list_length k o = list_length_loop k o 0

-- What the loop `navi_list_for_each(cons, list)` leaves in `cons`.
unfoldable pub list_end : ℕ → Obj → Cmd Obj
list_end zero o = out_of_fuel
list_end (suc k) o = do
  more ← is_pair o
  if more then (do rest ← cdr o; list_end k rest) else pure o

-- `navi_list_length_safe`: -1 for a list that does not end in nil.
list_length_safe_loop : ℕ → Obj → ℕ → Cmd ℤ
unfolding next_int
list_length_safe_loop zero o i = out_of_fuel
list_length_safe_loop (suc k) o i = do
  more ← is_pair o
  if more
      then (do rest ← cdr o; j ← next_int i; list_length_safe_loop k rest j)
      else (do proper ← is_nil o; pure (if proper then pos i else negsuc 0))

unfoldable pub list_length_safe : ℕ → Obj → Cmd ℤ
unfolding list_length_safe_loop
list_length_safe k o = list_length_safe_loop k o 0

-- `navi_is_proper_list`
unfoldable pub is_proper_list : ℕ → Obj → Cmd Bool
unfolding list_end
is_proper_list k o = do
  empty ← is_nil o
  if empty
      then pure true
      else do more ← is_pair o; if more then (do last ← list_end k o; is_nil last) else pure false

-- `navi_is_byte`
unfoldable pub is_byte : Obj → Bool
is_byte (fixnum n) = not (ltb_ℤ n (pos 0)) && ltb_ℤ n (pos 256)
is_byte _ = false

-- `navi_is_type`
unfoldable pub is_arg_type : ℕ → Obj → ArgType → Cmd Bool
unfolding is_proper_list is_byte
is_arg_type k o list = is_list o
is_arg_type k o proper_list = is_proper_list k o
is_arg_type k o byte = pure (is_byte o)
is_arg_type k o any = pure true
is_arg_type k o (exactly t) = is_type t o

-- The tests of `navi_is_list_of` behind its loop.
list_of_end : ℕ → Obj → ArgType → Bool → Cmd Bool
unfolding is_arg_type
list_of_end k o t dotted = do
  proper ← is_nil o
  if proper then pure true else if dotted then is_arg_type k o t else pure false

-- `navi_is_list_of`
unfoldable pub is_list_of : ℕ → Obj → ArgType → Bool → Cmd Bool
unfolding is_arg_type list_of_end
is_list_of zero o t dotted = out_of_fuel
is_list_of (suc k) o t dotted = do
  more ← is_pair o
  if more
      then (do
        a ← car o
        fits ← is_arg_type (suc k) a t
        if fits then (do rest ← cdr o; is_list_of k rest t dotted) else pure false)
      else list_of_end (suc k) o t dotted

-- `length`
unfoldable pub scm_length : ℕ → Obj → Cmd Obj
unfolding list_length_safe
scm_length k o = do
  n ← list_length_safe k o
  if ltb_ℤ n (pos 0) then raise not_proper_list else pure (fixnum n)
