-- ===== src/Bytevector.antt =====
-- bytevector.c but for the conversions between bytevectors and strings. `left` is what the memory of a
-- new object holds before it is written: `navi_make_bytevec` does not initialise the bytes. The zero
-- byte that it keeps behind them is not one of the elements.
pub mod Access
pub mod Move
pub mod Build
use navi_scheme.Base.{
  ℕ, zero, suc, ◌+◌, ◌-◌, ◌≡◌, refl, Bool, true, false, Option, none, some, List, [], ◌∷◌, length,
  tabulate, arith, if◌then◌else◌, ◌==◌, ltb, ◌&&◌,
}
use navi_scheme.Base.Int.{ℤ, pos, negsuc, pos_part}
use navi_scheme.Types.{NaviType}
use navi_scheme.Object.{Obj, void, fixnum, Cell, bytevec}
use navi_scheme.Object.Run.{
  Cmd, pure, stuck, out_of_fuel, ◌>>=◌, ◌>>◌, make_object, is_pair, car, cdr,
}
use navi_scheme.Array.{Layout, elements, size, fetch, assign, fill_loop, copy_loop}
use navi_scheme.Checks.{
  index_or, check_copy, check_copy_to, type_check, type_check_range, type_check_byte, fixnum_value,
}
use navi_scheme.Lists.Read.{list_length}
use navi_scheme.Vector.{at_index}

unfoldable pub view_bytevec : Cell → Option (List ℕ)
view_bytevec (bytevec xs) = some xs
view_bytevec _ = none

unfoldable pub put_bytevec : Cell → List ℕ → Cell
put_bytevec (bytevec _) xs = bytevec xs
put_bytevec c xs = c

pub view-put_bytevec :
    (c : Cell) (xs ys : List ℕ)
    → view_bytevec c ≡ some xs
    → view_bytevec (put_bytevec c ys) ≡ some ys
unfolding view_bytevec put_bytevec
view-put_bytevec c xs ys e = ground arith

-- `struct navi_bytevec`
unfoldable pub bytevec_layout : Layout ℕ
unfolding view_bytevec put_bytevec
bytevec_layout = record { view = view_bytevec; put = put_bytevec; view-put = view-put_bytevec }

-- `navi_make_bytevec`
unfoldable pub make_bytevec : (left : ℕ → ℕ) → ℕ → Cmd Obj
unfolding make_object
make_bytevec left n = make_object (bytevec (tabulate n left))

-- `bytevec_fill`
unfoldable pub bytevec_fill : Obj → ℕ → Cmd (Unit {0})
unfolding size fill_loop
bytevec_fill o fill = do n ← size bytevec_layout o; fill_loop bytevec_layout n o 0 fill

-- The loop of `navi_list_to_bytevec`.
unfoldable pub list_to_bytevec_loop : ℕ → (cons vec : Obj) → ℕ → Cmd (Unit {0})
unfolding assign type_check_byte
list_to_bytevec_loop zero cons vec i = out_of_fuel
list_to_bytevec_loop (suc k) cons vec i = do
  more ← is_pair cons
  if more
      then (do
        a ← car cons
        b ← type_check_byte a
        assign bytevec_layout vec i b
        rest ← cdr cons
        list_to_bytevec_loop k rest vec (i + 1))
      else pure tt

-- `navi_list_to_bytevec`
unfoldable pub list_to_bytevec : (left : ℕ → ℕ) → ℕ → Obj → Cmd Obj
unfolding list_to_bytevec_loop make_bytevec
list_to_bytevec left k list = do
  n ← list_length k list
  vec ← make_bytevec left n
  list_to_bytevec_loop k list vec 0
  pure vec

-- `make-bytevector` with one or two arguments. A negative length becomes a huge `size_t`.
unfoldable pub scm_make_bytevector : (left : ℕ → ℕ) → ℤ → Option Obj → Cmd Obj
unfolding make_bytevec bytevec_fill type_check_byte
scm_make_bytevector left (negsuc _) fill = stuck
scm_make_bytevector left (pos n) none = make_bytevec left n
scm_make_bytevector left (pos n) (some o) = do
  vec ← make_bytevec left n
  b ← type_check_byte o
  bytevec_fill vec b
  pure vec

-- `bytevector`
unfoldable pub scm_bytevector : (left : ℕ → ℕ) → ℕ → Obj → Cmd Obj
unfolding list_to_bytevec
scm_bytevector left k args = list_to_bytevec left k args

-- `bytevector-length`
unfoldable pub scm_bytevector_length : Obj → Cmd Obj
unfolding size
scm_bytevector_length o = do n ← size bytevec_layout o; pure (fixnum (pos n))

-- `bytevector-u8-ref`
unfoldable pub scm_bytevector_u8_ref : Obj → ℤ → Cmd Obj
unfolding size fetch at_index type_check_range
scm_bytevector_u8_ref o i = do
  n ← size bytevec_layout o
  j ← type_check_range (fixnum i) (pos 0) (pos n)
  b ← at_index j (fetch bytevec_layout o)
  pure (fixnum (pos b))

-- `bytevector-u8-set!`: the third argument is a fixnum that `check_apply` has found to be a byte.
unfoldable pub scm_bytevector_u8_set : Obj → ℤ → ℕ → Cmd Obj
unfolding size assign at_index type_check_range
scm_bytevector_u8_set o i b = do
  n ← size bytevec_layout o
  j ← type_check_range (fixnum i) (pos 0) (pos n)
  at_index j (λ k. assign bytevec_layout o k b)
  pure void

-- `navi_bytevec_cast(o)->size`
unfoldable pub cast_size : Obj → Cmd ℕ
unfolding size type_check
cast_size o = do o' ← type_check o NaviType.bytevec; size bytevec_layout o'

-- The first loop of `bytevector-append`: the sum of the sizes.
unfoldable pub sum_sizes : ℕ → Obj → ℕ → Cmd ℕ
unfolding cast_size
sum_sizes zero cons total = out_of_fuel
sum_sizes (suc k) cons total = do
  more ← is_pair cons
  if more
      then (do a ← car cons; n ← cast_size a; rest ← cdr cons; sum_sizes k rest (total + n))
      else pure total

-- Its second loop, with the inner one: the bytes of each argument behind those of the last.
unfoldable pub append_bytes : ℕ → (cons vec : Obj) → ℕ → Cmd (Unit {0})
unfolding size copy_loop
append_bytes zero cons vec i = out_of_fuel
append_bytes (suc k) cons vec i = do
  more ← is_pair cons
  if more
      then (do
        a ← car cons
        n ← size bytevec_layout a
        copy_loop bytevec_layout n vec i a 0
        rest ← cdr cons
        append_bytes k rest vec (i + n))
      else pure tt

-- `bytevector-append`
unfoldable pub scm_bytevector_append : (left : ℕ → ℕ) → ℕ → Obj → Cmd Obj
unfolding sum_sizes make_bytevec append_bytes
scm_bytevector_append left k args = do
  n ← sum_sizes k args 0
  vec ← make_bytevec left n
  append_bytes k args vec 0
  pure vec

-- `copy_to`: the indices have passed `navi_check_copy_to`.
unfoldable pub copy_bytes : Obj → ℤ → Obj → ℤ → ℤ → Cmd Obj
unfolding copy_loop
copy_bytes to at from start end = do
  copy_loop bytevec_layout (pos_part end - pos_part start) to (pos_part at) from (pos_part start)
  pure to

-- `bytevector-copy`
unfoldable pub scm_bytevector_copy : (left : ℕ → ℕ) → Obj → (start end : Option Obj) → Cmd Obj
unfolding size index_or check_copy make_bytevec copy_bytes
scm_bytevector_copy left from start? end? = do
  n ← size bytevec_layout from
  start ← index_or start? (pos 0)
  end ← index_or end? (pos n)
  check_copy n start end
  to ← make_bytevec left (pos_part end - pos_part start)
  copy_bytes to (pos 0) from start end

-- `bytevector-copy!`
unfoldable pub scm_bytevector_copy_to : Obj → ℤ → Obj → (start end : Option Obj) → Cmd Obj
unfolding size index_or check_copy_to copy_bytes
scm_bytevector_copy_to to at from start? end? = do
  to_size ← size bytevec_layout to
  from_size ← size bytevec_layout from
  start ← index_or start? (pos 0)
  end ← index_or end? (pos from_size)
  check_copy_to to_size at from_size start end
  copy_bytes to at from start end
  pure void

-- The comparison of `navi_bytevec_equal` up to the size of the vector; the C string has at least as
-- many bytes.
unfoldable pub bytes_equal : List ℕ → List ℕ → Bool
bytes_equal [] cstr = true
bytes_equal (b ∷ bs) [] = false
bytes_equal (b ∷ bs) (c ∷ cstr) = (b == c) && bytes_equal bs cstr
