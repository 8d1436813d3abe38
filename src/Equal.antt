-- ===== src/Equal.antt =====
-- `equal?`: navi_equalp of heap.c with its loops over lists, vectors and bytevectors, and
-- navi_string_equal of string.c.
pub mod Datum
pub mod Loops
pub mod Laws
pub mod Same
pub mod Exact
use navi_scheme.Base.{
  ℕ, zero, suc, Bool, true, false, not, ◌&&◌, ◌||◌, List, [], ◌∷◌, length, ◌==◌, if◌then◌else◌,
}
use navi_scheme.Types.{NaviType, same_type}
use navi_scheme.Object.{Obj, Cell, NaviString, bool}
use navi_scheme.Object.Run.{
  Cmd, pure, stuck, out_of_fuel, ◌>>=◌, load, navi_type, is_pair, car, cdr,
}
use navi_scheme.Array.{elements}
use navi_scheme.Vector.{vector_layout}
use navi_scheme.Bytevector.{bytevec_layout}
use navi_scheme.Lists.Search.{eqv_value}

-- Pairs in both lists are compared; behind the last of them what is left of the lists is compared.
unfoldable pub list_equal : (Obj → Obj → Cmd Bool) → ℕ → Obj → Obj → Cmd Bool
list_equal same zero a b = out_of_fuel
list_equal same (suc n) a b = do
  p ← is_pair a
  q ← is_pair b
  if p && q
      then (do
        x ← car a
        y ← car b
        equal ← same x y
        if equal
            then (do rest_a ← cdr a; rest_b ← cdr b; list_equal same n rest_a rest_b)
            else pure false)
      else same a b

-- The loop over two vectors of one size.
unfoldable pub elements_equal : (Obj → Obj → Cmd Bool) → List Obj → List Obj → Cmd Bool
elements_equal same [] ys = pure true
elements_equal same (x ∷ xs) [] = stuck
elements_equal same (x ∷ xs) (y ∷ ys) = do
  equal ← same x y
  if equal then elements_equal same xs ys else pure false

unfoldable pub vector_equal : (Obj → Obj → Cmd Bool) → Obj → Obj → Cmd Bool
unfolding elements elements_equal
vector_equal same a b = do
  xs ← elements vector_layout a
  ys ← elements vector_layout b
  if length xs == length ys then elements_equal same xs ys else pure false

-- The loop over the first bytes of two buffers.
unfoldable pub bytes_match : ℕ → List ℕ → List ℕ → Cmd Bool
bytes_match zero xs ys = pure true
bytes_match (suc n) (x ∷ xs) (y ∷ ys) = if x == y then bytes_match n xs ys else pure false
bytes_match (suc n) (x ∷ xs) [] = stuck
bytes_match (suc n) [] ys = stuck

unfoldable pub bytevec_equal : Obj → Obj → Cmd Bool
unfolding elements bytes_match
bytevec_equal a b = do
  xs ← elements bytevec_layout a
  ys ← elements bytevec_layout b
  if length xs == length ys then bytes_match (length xs) xs ys else pure false

-- `navi_string(o)`
unfoldable pub navi_string : Obj → Cmd NaviString
unfolding load
navi_string o = do c ← load o; elim c [ Cell.string s ↦ pure s | _ ↦ stuck ]

unfoldable pub string_equal : Obj → Obj → Cmd Bool
unfolding navi_string bytes_match
string_equal a b = do
  s ← navi_string a
  t ← navi_string b
  if (s.size == t.size) && (s.length == t.length)
      then bytes_match s.size s.text t.text
      else pure false

-- The `switch` on the type of the two objects.
unfoldable pub equal_as : (Obj → Obj → Cmd Bool) → ℕ → NaviType → Obj → Obj → Cmd Bool
unfolding list_equal vector_equal string_equal bytevec_equal eqv_value
equal_as same n NaviType.pair a b = list_equal same n a b
equal_as same n NaviType.vector a b = vector_equal same a b
equal_as same n NaviType.string a b = string_equal a b
equal_as same n NaviType.bytevec a b = bytevec_equal a b
equal_as same n NaviType.trap a b = stuck
equal_as same n t a b = pure (eqv_value a b)

-- Fuel stands for the depth of the calls and the rounds of the loop over lists.
unfoldable pub equalp : ℕ → Obj → Obj → Cmd Bool
unfolding equal_as
equalp zero a b = out_of_fuel
equalp (suc n) a b = do
  s ← navi_type a
  t ← navi_type b
  if same_type s t then equal_as (equalp n) n s a b else pure false

unfoldable pub scm_equalp : ℕ → Obj → Obj → Cmd Obj
unfolding equalp
scm_equalp n a b = do equal ← equalp n a b; pure (bool equal)
