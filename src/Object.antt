-- ===== src/Object.antt =====
-- Scheme objects and the heap that holds them: `navi_obj` and `struct navi_object` of navi.h and
-- internal.h. A `navi_obj` is an immediate value or a pointer; `Encode` has its tagged word in terms
-- of Word.antt. The object behind a pointer is a `Cell`, one constructor for each
-- type of object; a program that reads a pointer as another type than it has is at fault.
pub mod Encode
pub mod Run
pub mod Select
pub mod Chain
pub mod Returns
use navi_scheme.Base.{
  ℕ, ◌+◌, ◌≤◌, ◌≡◌, Bool, true, false, Option, none, some, List, ◌==◌, if◌then◌else◌, ◌&&◌,
}
use navi_scheme.Base.Int.{ℤ, pos_part, neg_part}
use navi_scheme.Types.{NaviType, ArgType}

pub data Obj : Type 0 where
  void nil eof : Obj
  fixnum : ℤ → Obj
  bool : Bool → Obj
  char : ℕ → Obj
  ptr : ℕ → Obj

-- `struct navi_string`: `text` is the buffer `data`, which holds at least `size` bytes.
pub record NaviString : Type 0 where
  pub size : ℕ
  pub length : ℕ
  pub capacity : ℕ
  pub text : List ℕ

-- `struct navi_procedure`: the flags are the fields `builtin` and `variadic`; `types` is the table of
-- the declared argument types, which interpreted procedures have not.
pub record Procedure : Type 0 where
  pub builtin : Bool
  pub variadic : Bool
  pub arity : ℕ
  pub name : Obj
  pub env : ℕ
  pub args : Obj
  pub body : Obj
  pub types : List ArgType

-- `struct navi_thunk`: an expression and the two scopes of its environment.
pub record Thunk : Type 0 where
  pub expr : Obj
  pub lexical : ℕ
  pub dynamic : ℕ

pub data Cell : Type 0 where
  pair parameter : Obj → Obj → Cell
  string : NaviString → Cell
  symbol bytevec : List ℕ → Cell
  vector values caselambda : List Obj → Cell
  procedure macro special promise : Procedure → Cell
  thunk bounce : Thunk → Cell
  environment : ℕ → ℕ → Cell
  port escape : Obj → Cell
  trap : Cell

-- `obj->type`.
unfoldable pub cell_type : Cell → NaviType
cell_type (pair _ _) = NaviType.pair
cell_type (parameter _ _) = NaviType.parameter
cell_type (string _) = NaviType.string
cell_type (symbol _) = NaviType.symbol
cell_type (bytevec _) = NaviType.bytevec
cell_type (vector _) = NaviType.vector
cell_type (values _) = NaviType.values
cell_type (caselambda _) = NaviType.caselambda
cell_type (procedure _) = NaviType.procedure
cell_type (macro _) = NaviType.macro
cell_type (special _) = NaviType.special
cell_type (promise _) = NaviType.promise
cell_type (thunk _) = NaviType.thunk
cell_type (bounce _) = NaviType.bounce
cell_type (environment _ _) = NaviType.environment
cell_type (port _) = NaviType.port
cell_type (escape _) = NaviType.escape
cell_type trap = NaviType.trap

-- The heap: `next` is the address that the next allocation returns.
pub record Store : Type 0 where
  pub next : ℕ
  pub cell : ℕ → Option Cell

abbrev pub empty : Store
empty = record { next = 0; cell = λ _. none }

-- Nothing lies at an address that is not allocated yet.
pub record IsStore (h : Store) : Type 0 where
  pub fresh : (p : ℕ) → h.next ≤ p → h.cell p ≡ none

unfoldable pub write : Store → ℕ → Cell → Store
write h p c = record h { cell = λ q. if q == p then some c else h.cell q }

unfoldable pub extend : Store → Cell → Store
unfolding write
extend h c = record { next = h.next + 1; cell = (write h h.next c).cell }

-- `navi_type`; a pointer to nothing has none.
unfoldable pub type_in : Store → Obj → Option NaviType
unfolding cell_type
type_in h void = some NaviType.void
type_in h nil = some NaviType.nil
type_in h eof = some NaviType.eof
type_in h (fixnum _) = some NaviType.fixnum
type_in h (bool _) = some NaviType.bool
type_in h (char _) = some NaviType.char
type_in h (ptr p) = elim (h.cell p) [ none ↦ none | some c ↦ some (cell_type c) ]

abbrev pub eq_ℤ : ℤ → ℤ → Bool
eq_ℤ a b = pos_part a + neg_part b == pos_part b + neg_part a

abbrev pub eq_bool : Bool → Bool → Bool
eq_bool true b = b
eq_bool false true = false
eq_bool false false = true

-- `navi_eqp`, on the objects that the two words stand for.
unfoldable pub eqp : Obj → Obj → Bool
eqp void void = true
eqp nil nil = true
eqp eof eof = true
eqp (fixnum a) (fixnum b) = eq_ℤ a b
eqp (bool a) (bool b) = eq_bool a b
eqp (char a) (char b) = a == b
eqp (ptr p) (ptr q) = p == q
eqp _ _ = false
