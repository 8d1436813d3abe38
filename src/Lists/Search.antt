-- ===== src/Lists/Search.antt =====
-- The functions of list.c that look into a list: `list-tail` and `list-ref`, `list-set!`, and the
-- searches `memq`, `memv`, `assq` and `assv`, with `navi_eqvp` of heap.c. The variants for `equal?` and
-- for a procedure differ in the comparison only.
pub mod Laws
use navi_scheme.Base.{
  ℕ, zero, suc, ◌+◌, ◌==◌, Bool, true, false, not, if◌then◌else◌, Option, none, some, List, [], ◌∷◌,
  ◌≡◌,
}
use navi_scheme.Base.Int.{ℤ, pos, negsuc, ltb_ℤ}
use navi_scheme.Types.{NaviType, same_type}
use navi_scheme.Object.{Obj, void, nil, eof, fixnum, bool, char, ptr, eqp, eq_ℤ, eq_bool}
use navi_scheme.Object.Run.{
  Cmd, not_positive, list_index, pure, raise, stuck, out_of_fuel, ◌>>=◌, ◌>>◌, navi_type, is_type,
  is_pair, car, cdr, set_car,
}
use navi_scheme.Checks.{type_check}

-- The loop of `navi_list_tail`, with the test behind it.
unfoldable pub list_tail_loop : ℕ → (cons : Obj) → (i : ℕ) → (k : ℤ) → Cmd Obj
list_tail_loop zero cons i k = out_of_fuel
list_tail_loop (suc n) cons i k = do
  more ← is_pair cons
  if more
      then (if eq_ℤ (pos i) k
          then pure cons
          else (do rest ← cdr cons; list_tail_loop n rest (i + 1) k))
      else pure (if eq_ℤ (pos i) k then cons else void)

-- `navi_list_tail`
unfoldable pub list_tail : ℕ → Obj → ℤ → Cmd Obj
unfolding list_tail_loop
list_tail n list k = list_tail_loop n list 0 k

-- `list-tail`
unfoldable pub scm_list_tail : ℕ → Obj → ℤ → Cmd Obj
unfolding list_tail
scm_list_tail n list k = if ltb_ℤ k (pos 0) then raise not_positive else do
  result ← list_tail n list k
  missing ← is_type NaviType.void result
  if missing then raise list_index else pure result

-- `navi_list_ref`
unfoldable pub list_ref : ℕ → Obj → ℤ → Cmd Obj
unfolding list_tail
list_ref n list k = do
  tail ← list_tail n list k
  more ← is_pair tail
  if more then car tail else pure void

-- The pair at an index, as `list-ref` and `list-set!` find it.
unfoldable pub pair_at : ℕ → Obj → ℤ → Cmd Obj
unfolding list_tail
pair_at n list k = if ltb_ℤ k (pos 0) then raise not_positive else do
  result ← list_tail n list k
  more ← is_pair result
  if more then pure result else raise list_index

-- `list-ref`
unfoldable pub scm_list_ref : ℕ → Obj → ℤ → Cmd Obj
unfolding pair_at
scm_list_ref n list k = do p ← pair_at n list k; car p

-- `list-set!`
unfoldable pub scm_list_set : ℕ → Obj → ℤ → Obj → Cmd Obj
unfolding pair_at
scm_list_set n list k v = do p ← pair_at n list k; set_car p v; pure void

-- The loop of `memq`, `memv` and `navi_member` with its comparison.
unfoldable pub member_loop : (Obj → Obj → Cmd Bool) → ℕ → Obj → Obj → Cmd Obj
member_loop same zero x cons = out_of_fuel
member_loop same (suc n) x cons = do
  more ← is_pair cons
  if more
      then (do
        a ← car cons
        hit ← same x a
        if hit then pure cons else do rest ← cdr cons; member_loop same n x rest)
      else pure (bool false)

-- The loop of `assq`, `assv` and `navi_assoc` with its comparison.
unfoldable pub assoc_loop : (Obj → Obj → Cmd Bool) → ℕ → Obj → Obj → Cmd Obj
unfolding type_check
assoc_loop same zero x cons = out_of_fuel
assoc_loop same (suc n) x cons = do
  more ← is_pair cons
  if more
      then (do
        a ← car cons
        type_check a NaviType.pair
        key ← car a
        hit ← same x key
        if hit then pure a else do rest ← cdr cons; assoc_loop same n x rest)
      else pure (bool false)

-- `navi_eqvp`: the types, then the values of immediates and the addresses of all other objects.
unfoldable pub eqv_value : Obj → Obj → Bool
eqv_value (fixnum a) (fixnum b) = eq_ℤ a b
eqv_value (bool a) (bool b) = eq_bool a b
eqv_value (char a) (char b) = a == b
eqv_value (ptr p) (ptr q) = p == q
eqv_value a b = true

unfoldable pub eqvp : Obj → Obj → Cmd Bool
unfolding eqv_value
eqvp a b = do
  s ← navi_type a
  t ← navi_type b
  if not (same_type s t)
      then pure false
      else if same_type s NaviType.trap
      then stuck
      else pure (eqv_value a b)

abbrev pub same_eq : Obj → Obj → Cmd Bool
same_eq a b = pure (eqp a b)

-- `memq`, `memv`, `assq`, `assv`
unfoldable pub scm_memq : ℕ → Obj → Obj → Cmd Obj
unfolding member_loop
scm_memq n x list = member_loop same_eq n x list

unfoldable pub scm_memv : ℕ → Obj → Obj → Cmd Obj
unfolding member_loop eqvp
scm_memv n x list = member_loop eqvp n x list

unfoldable pub scm_assq : ℕ → Obj → Obj → Cmd Obj
unfolding assoc_loop
scm_assq n x list = assoc_loop same_eq n x list

unfoldable pub scm_assv : ℕ → Obj → Obj → Cmd Obj
unfolding assoc_loop eqvp
scm_assv n x list = assoc_loop eqvp n x list
