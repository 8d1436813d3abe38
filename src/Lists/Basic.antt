-- ===== src/Lists/Basic.antt =====
-- The builtins of list.c that are one step: constructors, selectors and predicates of pairs.
use navi_scheme.Types.{NaviType}
use navi_scheme.Object.{Obj, void, bool}
use navi_scheme.Object.Run.{Cmd, pure, ◌>>=◌, ◌>>◌, is_type, car, cdr, set_car, set_cdr, make_pair}
use navi_scheme.Base.{ℕ}
use navi_scheme.Lists.Read.{is_proper_list}

-- `cons`
unfoldable pub scm_cons : Obj → Obj → Cmd Obj
unfolding make_pair
scm_cons a d = make_pair a d

-- `car` and `cdr`: `check_apply` has found the argument to be a pair.
unfoldable pub scm_car : Obj → Cmd Obj
unfolding car
scm_car o = car o

unfoldable pub scm_cdr : Obj → Cmd Obj
unfolding cdr
scm_cdr o = cdr o

-- `set-car!` and `set-cdr!`
unfoldable pub scm_set_car : Obj → Obj → Cmd Obj
unfolding set_car
scm_set_car o a = do set_car o a; pure void

unfoldable pub scm_set_cdr : Obj → Obj → Cmd Obj
unfolding set_cdr
scm_set_cdr o d = do set_cdr o d; pure void

-- `pair?`, `null?`, `vector?` and `bytevector?`
unfoldable pub scm_is_type : NaviType → Obj → Cmd Obj
unfolding is_type
scm_is_type t o = do b ← is_type t o; pure (bool b)

unfoldable pub scm_pairp : Obj → Cmd Obj
unfolding scm_is_type
scm_pairp = scm_is_type NaviType.pair

unfoldable pub scm_nullp : Obj → Cmd Obj
unfolding scm_is_type
scm_nullp = scm_is_type NaviType.nil

unfoldable pub scm_vectorp : Obj → Cmd Obj
unfolding scm_is_type
scm_vectorp = scm_is_type NaviType.vector

unfoldable pub scm_bytevectorp : Obj → Cmd Obj
unfolding scm_is_type
scm_bytevectorp = scm_is_type NaviType.bytevec

-- `list?`
unfoldable pub scm_listp : ℕ → Obj → Cmd Obj
unfolding is_proper_list
scm_listp k o = do b ← is_proper_list k o; pure (bool b)
