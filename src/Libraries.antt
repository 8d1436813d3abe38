-- ===== src/Libraries.antt =====
-- The checks of binding lists and of library declarations in environment.c, and the table of
-- libraries. A library is known here by its name; its declarations and exports are not looked into.
pub mod Names
pub mod Table
use Prim.Native.Nat.{bit_xor}
use navi_scheme.Base.{
  ℕ, zero, suc, ◌+◌, ◌/◌, ◌%◌, ◌==◌, Bool, true, false, not, if◌then◌else◌, Option, none, some,
  List, [], ◌∷◌,
}
use navi_scheme.Base.Int.{ℤ, pos, ltb_ℤ}
use navi_scheme.Types.{NaviType, exactly}
use navi_scheme.Object.{Obj, eqp}
use navi_scheme.Object.Encode.{encode}
use navi_scheme.Object.Run.{Cmd, pure, out_of_fuel, ◌>>=◌, ◌>>◌, is_type, is_pair, is_nil, car, cdr}
use navi_scheme.Checks.{fixnum_value}
use navi_scheme.Lists.Read.{list_length, is_proper_list, is_list_of}

-- `a && b`
infixr 30 ◌also◌
abbrev pub ◌also◌ : Cmd Bool → Cmd Bool → Cmd Bool
a also b = do yes' ← a; if yes' then b else pure false

-- A loop that returns false at the first element that fails the check, and the cons that ends it
-- otherwise, on which the statement behind the loop decides.
unfoldable pub check_each : (Obj → Cmd Bool) → (Obj → Cmd Bool) → ℕ → Obj → Cmd Bool
check_each valid at_end zero cons = out_of_fuel
check_each valid at_end (suc k) cons = do
  more ← is_pair cons
  if more
      then (do
        a ← car cons
        good ← valid a
        if good then (do rest ← cdr cons; check_each valid at_end k rest) else pure false)
      else at_end cons

-- `let_def_valid`
unfoldable pub let_def_valid : Obj → Cmd Bool
let_def_valid o =
    is_pair o
    also (do d ← cdr o; is_pair d)
    also (do d ← cdr o; dd ← cdr d; is_nil dd)
    also (do a ← car o; is_type NaviType.symbol a)

-- `let_defs_valid`
unfoldable pub let_defs_valid : ℕ → Obj → Cmd Bool
unfolding check_each let_def_valid
let_defs_valid = check_each let_def_valid is_nil

-- `let_values_def_valid`
unfoldable pub let_values_def_valid : ℕ → Obj → Cmd Bool
unfolding is_list_of
let_values_def_valid k o =
    is_pair o
    also (do d ← cdr o; is_pair d)
    also (do d ← cdr o; dd ← cdr d; is_nil dd)
    also (do a ← car o; is_list_of k a (exactly NaviType.symbol) false)

-- `letvals_defs_valid`
unfoldable pub letvals_defs_valid : ℕ → Obj → Cmd Bool
unfolding check_each let_values_def_valid
letvals_defs_valid k = check_each (let_values_def_valid k) is_nil k

-- The body of the loop of `libname_valid`: a symbol, or a number that is not negative.
unfoldable pub libname_part_valid : Obj → Cmd Bool
unfolding fixnum_value
libname_part_valid part = do
  symbol ← is_type NaviType.symbol part
  if symbol then pure true else (do
    number ← is_type NaviType.fixnum part
    if number then (do n ← fixnum_value part; pure (not (ltb_ℤ n (pos 0)))) else pure false)

-- `libname_valid`
unfoldable pub libname_valid : ℕ → Obj → Cmd Bool
unfolding check_each libname_part_valid
libname_valid k name = do
  more ← is_pair name
  if more then check_each libname_part_valid is_nil k name else pure false

-- `navi_symbol_eq`
unfoldable pub symbol_eq : Obj → Obj → Cmd Bool
symbol_eq expr symbol = do
  is ← is_type NaviType.symbol expr
  pure (if is then eqp expr symbol else false)

-- The body of the loop of `exports_valid`; `rename` is `navi_sym_rename`.
unfoldable pub export_valid : (rename : Obj) → ℕ → Obj → Cmd Bool
unfolding is_proper_list list_length symbol_eq
export_valid rename k export = do
  symbol ← is_type NaviType.symbol export
  if symbol
      then pure true
      else (is_proper_list k export
          also (do n ← list_length k export; pure (n == 3))
          also (do a ← car export; symbol_eq a rename)
          also (do d ← cdr export; b ← car d; is_type NaviType.symbol b)
          also (do d ← cdr export; dd ← cdr d; c ← car dd; is_type NaviType.symbol c))

-- `exports_valid`: what ends the list is not looked at.
unfoldable pub exports_valid : (rename : Obj) → ℕ → Obj → Cmd Bool
unfolding check_each export_valid
exports_valid rename k exports = do
  more ← is_pair exports
  if more then check_each (export_valid rename k) (λ _. pure true) k exports else pure false

-- The loop of `libname_hash`: `hash ^= (uintptr_t) car.p >> 1`.
unfoldable pub libname_hash_loop : ℕ → Obj → ℕ → Cmd ℕ
unfolding encode
libname_hash_loop zero cons hash = out_of_fuel
libname_hash_loop (suc k) cons hash = do
  more ← is_pair cons
  if more
      then (do
        a ← car cons
        rest ← cdr cons
        libname_hash_loop k rest (bit_xor hash (encode a / 2)))
      else pure hash

-- `libname_hash`
unfoldable pub libname_hash : ℕ → Obj → Cmd ℕ
unfolding libname_hash_loop encode
libname_hash k name = do a ← car name; rest ← cdr name; libname_hash_loop k rest (encode a)

-- `libname_equal`
unfoldable pub libname_equal : ℕ → Obj → Obj → Cmd Bool
libname_equal zero a b = out_of_fuel
libname_equal (suc k) a b = do
  more_a ← is_pair a
  more_b ← (if more_a then is_pair b else pure false)
  if more_b
      then (do
        x ← car a
        y ← car b
        if eqp x y then (do a' ← cdr a; b' ← cdr b; libname_equal k a' b') else pure false)
      else (is_nil a also is_nil b)

-- The table of libraries by the index of the bucket, each library by its name.
pub record LibraryTable : Type 0 where
  pub bucket : ℕ → List Obj

-- `register_library`
unfoldable pub register_library : ℕ → LibraryTable → Obj → Cmd LibraryTable
unfolding libname_hash
register_library k t name = do
  hash ← libname_hash k name
  pure (record { bucket = λ j. if j == hash % 64 then name ∷ t.bucket j else t.bucket j })

-- The loop of `find_library`.
unfoldable pub find_in_bucket : ℕ → List Obj → Obj → Cmd (Option Obj)
unfolding libname_equal
find_in_bucket k [] name = pure none
find_in_bucket k (entry ∷ entries) name = do
  same ← libname_equal k entry name
  if same then pure (some entry) else find_in_bucket k entries name

-- `find_library`
unfoldable pub find_library : ℕ → LibraryTable → Obj → Cmd (Option Obj)
unfolding libname_hash find_in_bucket
find_library k t name = do hash ← libname_hash k name; find_in_bucket k (t.bucket (hash % 64)) name
