-- ===== src/Object/Select.antt =====
-- The composed selectors of internal.h, and the truth of an object.
use navi_scheme.Base.{Bool, true}
use navi_scheme.Object.{Obj, bool}
use navi_scheme.Object.Run.{Cmd, ◌>>=◌, car, cdr}

unfoldable pub caar : Obj → Cmd Obj
caar o = do a ← car o; car a

unfoldable pub cadr : Obj → Cmd Obj
cadr o = do d ← cdr o; car d

unfoldable pub cdar : Obj → Cmd Obj
cdar o = do a ← car o; cdr a

unfoldable pub cddr : Obj → Cmd Obj
cddr o = do d ← cdr o; cdr d

unfoldable pub caddr : Obj → Cmd Obj
unfolding cddr
caddr o = do d ← cddr o; car d

unfoldable pub cadar : Obj → Cmd Obj
unfolding cdar
cadar o = do d ← cdar o; car d

unfoldable pub cdaar : Obj → Cmd Obj
unfolding caar
cdaar o = do a ← caar o; cdr a

unfoldable pub cdddr : Obj → Cmd Obj
unfolding cddr
cdddr o = do d ← cddr o; cdr d

unfoldable pub cadddr : Obj → Cmd Obj
unfolding cdddr
cadddr o = do d ← cdddr o; car d

unfoldable pub cddddr : Obj → Cmd Obj
unfolding cdddr
cddddr o = do d ← cdddr o; cdr d

unfoldable pub caddddr : Obj → Cmd Obj
unfolding cddddr
caddddr o = do d ← cddddr o; car d

-- `navi_is_true`: everything but #f.
unfoldable pub is_true : Obj → Bool
is_true (bool b) = b
is_true _ = true
