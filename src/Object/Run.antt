-- ===== src/Object/Run.antt =====
-- Commands over the heap. A run returns a value and the new heap, raises an error (`navi_error` never
-- returns to its caller), is at fault (it reads memory as what it is not, which C leaves undefined), or
-- runs out of the fuel that stands for the rounds of a loop.
use navi_scheme.Base.{ℕ, Bool, true, none, some, if◌then◌else◌}
use navi_scheme.Base.Int.{ℤ}
use navi_scheme.Types.{NaviType, ArgType, same_type}
use navi_scheme.Object.{Obj, ptr, Cell, pair, parameter, Store, write, extend, type_in}

-- The messages of the calls of `navi_error`, with the values that they report.
pub data Error : Type 0 where
  type_error : (expected : ArgType) (actual : NaviType) → Error
  range_error : (low high actual : ℤ) → Error
  arity_error : Obj → Error
  wrong_arity : (expected actual : ℕ) → Error
  not_proper_list not_positive list_index vector_index invalid_copy : Error
  unbound_identifier : Obj → Error

pub data Run (A : Type 0) : Type 0 where
  ok : A → Store → Run A
  raised : Error → Run A
  fault no_fuel : Run A

abbrev pub Cmd : Type 0 → Type 0
Cmd A = Store → Run A

abbrev pub pure : {A : Type 0} → A → Cmd A
pure = ok

abbrev pub raise : {A : Type 0} → Error → Cmd A
raise e h = raised e

abbrev pub stuck : {A : Type 0} → Cmd A
stuck h = fault

abbrev pub out_of_fuel : {A : Type 0} → Cmd A
out_of_fuel h = no_fuel

module _ {A B : Type 0} where
  abbrev pub and_then : Run A → (A → Cmd B) → Run B
  and_then (ok a h) k = k a h
  and_then (raised e) k = raised e
  and_then fault k = fault
  and_then no_fuel k = no_fuel

  -- One command after another, which takes the value of the first or not.
  infixl 5 ◌>>=◌
  abbrev pub ◌>>=◌ : Cmd A → (A → Cmd B) → Cmd B
  first >>= next = λ h. and_then (first h) next

  infixl 5 ◌>>◌
  abbrev pub ◌>>◌ : Cmd A → Cmd B → Cmd B
  first >> second = first >>= λ _. second

-- `obj.p->data`: the object behind a pointer.
unfoldable pub load : Obj → Cmd Cell
load (ptr p) h = elim (h.cell p) [ none ↦ fault | some c ↦ ok c h ]
load _ h = fault

-- A write to the object behind a pointer.
unfoldable pub store : Obj → Cell → Cmd (Unit {0})
store (ptr p) c h = ok tt (write h p c)
store _ c h = fault

-- `make_object`: a new object at an address that nothing used before.
unfoldable pub make_object : Cell → Cmd Obj
make_object c h = ok (ptr h.next) (extend h c)

-- `navi_type`
unfoldable pub navi_type : Obj → Cmd NaviType
navi_type o h = elim (type_in h o) [ none ↦ fault | some t ↦ ok t h ]

-- `navi_type(o) == type`, the type predicates of internal.h.
unfoldable pub is_type : NaviType → Obj → Cmd Bool
unfolding navi_type
is_type t o = do t' ← navi_type o; pure (same_type t' t)

abbrev pub is_pair : Obj → Cmd Bool
is_pair = is_type NaviType.pair

abbrev pub is_nil : Obj → Cmd Bool
is_nil = is_type NaviType.nil

-- `navi_is_list`
unfoldable pub is_list : Obj → Cmd Bool
unfolding navi_type
is_list o = do
  t ← navi_type o
  pure (if same_type t NaviType.pair then true else same_type t NaviType.nil)

-- `navi_pair(o)`, `navi_car`, `navi_cdr`.
unfoldable pub navi_pair : Obj → Cmd (Obj × Obj)
unfolding load
navi_pair o = do
  c ← load o
  elim c [ pair a d ↦ pure (a, d) | parameter a d ↦ pure (a, d) | _ ↦ stuck ]

unfoldable pub car : Obj → Cmd Obj
unfolding navi_pair
car o = do p ← navi_pair o; pure p.0

unfoldable pub cdr : Obj → Cmd Obj
unfolding navi_pair
cdr o = do p ← navi_pair o; pure p.1

-- `navi_set_car`, `navi_set_cdr`
unfoldable pub set_car : Obj → Obj → Cmd (Unit {0})
unfolding load store
set_car o a = do
  c ← load o
  elim c [ pair _ d ↦ store o (pair a d) | parameter _ d ↦ store o (parameter a d) | _ ↦ stuck ]

unfoldable pub set_cdr : Obj → Obj → Cmd (Unit {0})
unfolding load store
set_cdr o d = do
  c ← load o
  elim c [ pair a _ ↦ store o (pair a d) | parameter a _ ↦ store o (parameter a d) | _ ↦ stuck ]

-- `navi_make_pair`
unfoldable pub make_pair : Obj → Obj → Cmd Obj
unfolding make_object
make_pair a d = make_object (pair a d)
