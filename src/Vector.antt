-- ===== src/Vector.antt =====
-- vector.c: vectors of objects. A builtin takes the arguments that its declaration fixes, and those
-- that it may be given as an `Option`; `check_apply` has checked the declared types. A fresh vector is
-- not initialised in C; every function here writes each element before it returns.
pub mod Convert
pub mod Access
pub mod Move
use navi_scheme.Base.{
  ℕ, zero, suc, ◌+◌, ◌-◌, ◌%◌, ◌≡◌, refl, Bool, true, false, Option, none, some, List, [], ◌∷◌,
  length, replicate, ltb, if◌then◌else◌, arith,
}
use navi_scheme.Base.Int.{ℤ, pos, negsuc, pos_part, ltb_ℤ}
use navi_scheme.Types.{NaviType}
use navi_scheme.Object.{Obj, void, nil, fixnum, bool, Cell, vector, values, caselambda}
use navi_scheme.Object.Run.{
  Cmd, pure, raise, stuck, vector_index, out_of_fuel, ◌>>=◌, ◌>>◌, make_object, make_pair, set_cdr,
  is_pair, car, cdr,
}
use navi_scheme.Array.{Layout, elements, size, fetch, assign, fill_loop, copy_loop}
use navi_scheme.Checks.{index_or, check_copy, check_copy_to}
use navi_scheme.Lists.Read.{list_length}

unfoldable pub view_vector : Cell → Option (List Obj)
view_vector (vector xs) = some xs
view_vector (values xs) = some xs
view_vector (caselambda xs) = some xs
view_vector _ = none

unfoldable pub put_vector : Cell → List Obj → Cell
put_vector (vector _) xs = vector xs
put_vector (values _) xs = values xs
put_vector (caselambda _) xs = caselambda xs
put_vector c xs = c

pub view-put_vector :
    (c : Cell) (xs ys : List Obj)
    → view_vector c ≡ some xs
    → view_vector (put_vector c ys) ≡ some ys
unfolding view_vector put_vector
view-put_vector c xs ys e = ground arith

-- `struct navi_vector`
unfoldable pub vector_layout : Layout Obj
unfolding view_vector put_vector
vector_layout = record { view = view_vector; put = put_vector; view-put = view-put_vector }

-- `navi_make_vector`
unfoldable pub make_vector : ℕ → Cmd Obj
unfolding make_object
make_vector n = make_object (vector (replicate n void))

-- `navi_vector_fill`
unfoldable pub vector_fill : Obj → Obj → Cmd (Unit {0})
unfolding size fill_loop
vector_fill o fill = do n ← size vector_layout o; fill_loop vector_layout n o 0 fill

abbrev pub unsigned_mod : ℕ
unsigned_mod = 4294967296

-- The loop of `navi_list_to_vector`, whose index is an `unsigned`.
list_to_vector_loop : ℕ → (cons vec : Obj) → ℕ → Cmd (Unit {0})
unfolding assign
list_to_vector_loop zero cons vec i = out_of_fuel
list_to_vector_loop (suc k) cons vec i = do
  more ← is_pair cons
  if more
      then (do
        a ← car cons
        assign vector_layout vec i a
        rest ← cdr cons
        list_to_vector_loop k rest vec ((i + 1) % unsigned_mod))
      else pure tt

-- `navi_list_to_vector`
unfoldable pub list_to_vector : ℕ → Obj → Cmd Obj
unfolding list_to_vector_loop make_vector
list_to_vector k list = do
  n ← list_length k list
  vec ← make_vector n
  list_to_vector_loop k list vec 0
  pure vec

-- A new pair for each element, each linked behind the one before it: the pairs of
-- `navi_vector_to_list`, whose first is linked to a pair on the C stack.
unfoldable pub link_elements : List Obj → Cmd Obj
link_elements [] = pure nil
link_elements (x ∷ xs) = do
  new ← make_pair x nil
  rest ← link_elements xs
  set_cdr new rest
  pure new

-- `navi_vector_to_list`
unfoldable pub vector_to_list : Obj → Cmd Obj
unfolding elements link_elements
vector_to_list o = do xs ← elements vector_layout o; link_elements xs

-- `make-vector`. A negative length becomes a huge `size_t`: the size of the allocation wraps around,
-- and C aborts for want of memory or the fill loop writes past the object.
unfoldable pub scm_make_vector : ℤ → Option Obj → Cmd Obj
unfolding make_vector vector_fill
scm_make_vector (negsuc _) fill = stuck
scm_make_vector (pos n) fill = do
  vec ← make_vector n
  vector_fill vec (elim fill [ none ↦ bool false | some o ↦ o ])
  pure vec

-- `vector`
unfoldable pub scm_vector : ℕ → Obj → Cmd Obj
unfolding list_to_vector
scm_vector k args = list_to_vector k args

-- `vector-length`
unfoldable pub scm_vector_length : Obj → Cmd Obj
unfolding size
scm_vector_length o = do n ← size vector_layout o; pure (fixnum (pos n))

-- `vec->data[i]` for a `long` index: a negative one lies before the object.
unfoldable pub at_index : {A : Type 0} → ℤ → (ℕ → Cmd A) → Cmd A
at_index (pos i) k = k i
at_index (negsuc _) k = stuck

-- `vector-ref`
unfoldable pub scm_vector_ref : Obj → ℤ → Cmd Obj
unfolding size fetch at_index
scm_vector_ref o i = do
  n ← size vector_layout o
  if ltb_ℤ i (pos n) then at_index i (fetch vector_layout o) else raise vector_index

-- `vector-set!`
unfoldable pub scm_vector_set : Obj → ℤ → Obj → Cmd Obj
unfolding size assign at_index
scm_vector_set o i v = do
  n ← size vector_layout o
  if ltb_ℤ i (pos n)
      then (do at_index i (λ j. assign vector_layout o j v); pure void)
      else raise vector_index

-- `copy_to`: the indices have passed `navi_check_copy_to`.
unfoldable pub copy_to : Obj → ℤ → Obj → ℤ → ℤ → Cmd Obj
unfolding copy_loop
copy_to to at from start end = do
  copy_loop vector_layout (pos_part end - pos_part start) to (pos_part at) from (pos_part start)
  pure to

-- `vector-fill!`
unfoldable pub scm_vector_fill : Obj → Obj → (start end : Option Obj) → Cmd Obj
unfolding size index_or check_copy fill_loop
scm_vector_fill o fill start? end? = do
  n ← size vector_layout o
  start ← index_or start? (pos 0)
  end ← index_or end? (pos n)
  check_copy n start end
  fill_loop vector_layout (pos_part end - pos_part start) o (pos_part start) fill
  pure void

-- `vector-copy`
unfoldable pub scm_vector_copy : Obj → (start end : Option Obj) → Cmd Obj
unfolding size index_or check_copy make_vector copy_to
scm_vector_copy from start? end? = do
  n ← size vector_layout from
  start ← index_or start? (pos 0)
  end ← index_or end? (pos n)
  check_copy n start end
  to ← make_vector (pos_part end - pos_part start)
  copy_to to (pos 0) from start end

-- `vector-copy!`
unfoldable pub scm_vector_copy_to : Obj → ℤ → Obj → (start end : Option Obj) → Cmd Obj
unfolding size index_or check_copy_to copy_to
scm_vector_copy_to to at from start? end? = do
  to_size ← size vector_layout to
  from_size ← size vector_layout from
  start ← index_or start? (pos 0)
  end ← index_or end? (pos from_size)
  check_copy_to to_size at from_size start end
  copy_to to at from start end
  pure void
