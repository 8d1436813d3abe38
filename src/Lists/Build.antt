-- ===== src/Lists/Build.antt =====
-- The functions of list.c that build lists and join them in place.
pub mod Last
pub mod Copy
pub mod Append
pub mod Laws
use navi_scheme.Base.{ℕ, zero, suc, ◌+◌, ◌-◌, Bool, true, false, not, List, [], ◌∷◌, if◌then◌else◌}
use navi_scheme.Base.Int.{ℤ, pos, negsuc, ltb_ℤ, pos_part}
use navi_scheme.Types.{NaviType}
use navi_scheme.Object.{Obj, fixnum, nil}
use navi_scheme.Object.Run.{
  Cmd, not_proper_list, not_positive, pure, raise, out_of_fuel, ◌>>=◌, ◌>>◌, is_pair, is_nil, car,
  cdr, set_cdr, make_pair,
}
use navi_scheme.Lists.Read.{is_proper_list}

-- `navi_last_cons`
unfoldable pub last_cons : ℕ → Obj → Cmd Obj
last_cons zero o = out_of_fuel
last_cons (suc k) o = do
  rest ← cdr o
  more ← is_pair rest
  if more then last_cons k rest else pure o

-- `navi_is_last_pair`
unfoldable pub is_last_pair : Obj → Cmd Bool
is_last_pair o = do rest ← cdr o; is_nil rest

-- `navi_list_append_ip`
unfoldable pub list_append_ip : ℕ → Obj → Obj → Cmd Obj
unfolding last_cons
list_append_ip k a b = do
  no_a ← is_nil a
  no_b ← is_nil b
  if no_a then pure b else if no_b then pure a else do last ← last_cons k a; set_cdr last b; pure a

-- The loop of `navi_make_list`.
make_list_loop : ℕ → Obj → Obj → Cmd Obj
make_list_loop zero obj cons = pure cons
make_list_loop (suc i) obj cons = do cons' ← make_pair obj cons; make_list_loop i obj cons'

-- `navi_make_list`: a negative count makes no round.
unfoldable pub make_list : ℤ → Obj → Cmd Obj
unfolding make_list_loop
make_list n obj = make_list_loop (pos_part n) obj nil

-- `make-list` with its second argument, or the 0 that stands for it.
unfoldable pub scm_make_list : ℤ → Obj → Cmd Obj
unfolding make_list
scm_make_list n obj = if ltb_ℤ n (pos 0) then raise not_positive else make_list n obj

-- The loop of `navi_list_copy`: a new pair behind `cursor` for each pair that is left.
copy_loop : ℕ → (cursor cons : Obj) → Cmd (Unit {0})
copy_loop zero cursor cons = out_of_fuel
copy_loop (suc k) cursor cons = do
  more ← is_pair cons
  if more
      then (do
        a ← car cons
        new ← make_pair a nil
        set_cdr cursor new
        rest ← cdr cons
        copy_loop k new rest)
      else set_cdr cursor cons

-- `navi_list_copy`
unfoldable pub list_copy : ℕ → Obj → Cmd Obj
unfolding copy_loop
list_copy k list = do
  empty ← is_nil list
  if empty then pure nil else do
    a ← car list
    copy ← make_pair a nil
    rest ← cdr list
    copy_loop k copy rest
    pure copy

-- `reverse`: the loop ends at whatever ends the list, which it drops.
reverse_loop : ℕ → (cons reversed : Obj) → Cmd Obj
reverse_loop zero cons reversed = out_of_fuel
reverse_loop (suc k) cons reversed = do
  more ← is_pair cons
  if more
      then (do
        a ← car cons
        reversed' ← make_pair a reversed
        rest ← cdr cons
        reverse_loop k rest reversed')
      else pure reversed

unfoldable pub scm_reverse : ℕ → Obj → Cmd Obj
unfolding reverse_loop
scm_reverse k list = reverse_loop k list nil

-- The loop of `append` over its arguments: all but the last are copied.
append_loop : ℕ → (args last : Obj) → Cmd (Unit {0})
unfolding is_last_pair is_proper_list list_copy last_cons
append_loop zero args last = out_of_fuel
append_loop (suc k) args last = do
  more ← is_pair args
  if more
      then (do
        final ← is_last_pair args
        list ← car args
        if final then set_cdr last list else do
          proper ← is_proper_list (suc k) list
          if proper
              then (do
                copy ← list_copy (suc k) list
                set_cdr last copy
                last' ← last_cons (suc k) last
                rest ← cdr args
                append_loop k rest last')
              else raise not_proper_list)
      else pure tt

unfoldable pub scm_append : ℕ → Obj → Cmd Obj
unfolding append_loop
scm_append k args = do first ← make_pair nil nil; append_loop k args first; cdr first
