-- ===== src/Environment.antt =====
-- environment.c: scopes, the hash tables that bind symbols, and the environments that chain them. A
-- scope lies at an address in a heap of its own. The list of active environments, the reference counts
-- and the guards serve the garbage collector and are left out.
pub mod Bucket
pub mod Scope
pub mod Chain
pub mod Innermost
pub mod Set
pub mod Nested
pub mod Call
pub mod Import
use navi_scheme.Base.{
  ℕ, zero, suc, ◌+◌, ◌%◌, ◌==◌, ltb, Bool, true, false, Option, none, some, List, [], ◌∷◌,
  if◌then◌else◌,
}
use navi_scheme.Object.{Obj, eqp}
use navi_scheme.Object.Encode.{encode}

-- `struct navi_binding`
pub record Binding : Type 0 where
  pub symbol : Obj
  pub object : Obj

-- `struct navi_scope`: the buckets by their index below `NAVI_ENV_HT_SIZE`, and the scope around it.
pub record ScopeTable : Type 0 where
  pub bucket : ℕ → List Binding
  pub next : Option ℕ

-- `ptr_hash` and `get_bucket`: the word of the symbol, modulo `NAVI_ENV_HT_SIZE`.
unfoldable pub bucket_of : Obj → ℕ
bucket_of symbol = encode symbol % 64

-- The loop of `scope_lookup`.
unfoldable pub find : List Binding → Obj → Option Binding
find [] symbol = none
find (b ∷ bs) symbol = if eqp b.symbol symbol then some b else find bs symbol

-- `scope_lookup` and `navi_scope_lookup`
unfoldable pub scope_lookup : ScopeTable → Obj → Option Binding
unfolding bucket_of find
scope_lookup s symbol = find (s.bucket (bucket_of symbol)) symbol

-- `binding->object = object` on the binding that the lookup found.
unfoldable pub replace : List Binding → Obj → Obj → List Binding
replace [] symbol object = []
replace (b ∷ bs) symbol object =
    if eqp b.symbol symbol then record b { object = object } ∷ bs else b ∷ replace bs symbol object

-- `NAVI_LIST_REMOVE` of the binding that the lookup found.
unfoldable pub remove : List Binding → Obj → List Binding
remove [] symbol = []
remove (b ∷ bs) symbol = if eqp b.symbol symbol then bs else b ∷ remove bs symbol

unfoldable pub put_bucket : ScopeTable → ℕ → List Binding → ScopeTable
put_bucket s i bs = record s { bucket = λ j. if j == i then bs else s.bucket j }

unfoldable pub assign_binding : ScopeTable → Obj → Obj → ScopeTable
unfolding bucket_of replace put_bucket
assign_binding s symbol object =
    put_bucket s (bucket_of symbol) (replace (s.bucket (bucket_of symbol)) symbol object)

-- `navi_make_binding` and `NAVI_LIST_INSERT_HEAD`
unfoldable pub insert_binding : ScopeTable → Obj → Obj → ScopeTable
unfolding bucket_of put_bucket
insert_binding s symbol object =
    put_bucket s (bucket_of symbol)
      (record { symbol = symbol; object = object } ∷ s.bucket (bucket_of symbol))

-- `navi_scope_set`
unfoldable pub navi_scope_set : ScopeTable → Obj → Obj → ScopeTable
unfolding scope_lookup assign_binding insert_binding
navi_scope_set s symbol object = elim (scope_lookup s symbol) [
  | some _ ↦ assign_binding s symbol object
  | none ↦ insert_binding s symbol object
]

-- `navi_scope_unset`: whether there was a binding, and the scope without it.
unfoldable pub navi_scope_unset : ScopeTable → Obj → Bool × ScopeTable
unfolding scope_lookup remove put_bucket
navi_scope_unset s symbol = elim (scope_lookup s symbol) [
  | some _ ↦ (true, put_bucket s (bucket_of symbol) (remove (s.bucket (bucket_of symbol)) symbol))
  | none ↦ (false, s)
]

-- The inner loop of `navi_import_all`.
unfoldable pub import_bucket : ScopeTable → List Binding → ScopeTable
unfolding navi_scope_set
import_bucket dst [] = dst
import_bucket dst (b ∷ bs) = import_bucket (navi_scope_set dst b.symbol b.object) bs

-- `navi_import_all` over the buckets from `i` on, `n` of them.
unfoldable pub import_buckets : (n i : ℕ) → ScopeTable → ScopeTable → ScopeTable
unfolding import_bucket
import_buckets zero i dst src = dst
import_buckets (suc n) i dst src = import_buckets n (i + 1) (import_bucket dst (src.bucket i)) src

-- `navi_import_all`
unfoldable pub navi_import_all : ScopeTable → ScopeTable → ScopeTable
unfolding import_buckets
navi_import_all dst src = import_buckets 64 0 dst src

-- The scopes in memory; `next` is the address that the next `malloc` returns.
pub record Scopes : Type 0 where
  pub next : ℕ
  pub scope : ℕ → Option ScopeTable

-- `navi_env`
pub record NaviEnv : Type 0 where
  pub lexical : ℕ
  pub dynamic : ℕ

unfoldable pub write_scope : Scopes → ℕ → ScopeTable → Scopes
write_scope m p s = record m { scope = λ q. if q == p then some s else m.scope q }

-- `_navi_make_scope` with `scope->next` set.
unfoldable pub add_scope : Scopes → Option ℕ → Scopes
unfolding write_scope
add_scope m outer = record {
  next = m.next + 1;
  scope = (write_scope m m.next (record { bucket = λ _. []; next = outer })).scope;
}

-- `navi_env_new_scope`
unfoldable pub navi_env_new_scope : Scopes → NaviEnv → NaviEnv × Scopes
unfolding add_scope
navi_env_new_scope m env = (record env { lexical = m.next }, add_scope m (some env.lexical))

-- `navi_dynamic_env_new_scope`
unfoldable pub navi_dynamic_env_new_scope : Scopes → NaviEnv → NaviEnv × Scopes
unfolding add_scope
navi_dynamic_env_new_scope m env = (record env { dynamic = m.next }, add_scope m (some env.dynamic))

-- The answer of a search through the scopes: the binding and the scope it stands in, or that there is
-- none. A search that reads freed memory, or that runs out of rounds, has no answer.
pub data Answer : Type 0 where
  found : ℕ → Binding → Answer
  unbound dangling no_rounds : Answer

-- `navi_env_binding`
unfoldable pub navi_env_binding : ℕ → Scopes → ℕ → Obj → Answer
unfolding scope_lookup
navi_env_binding zero m p symbol = no_rounds
navi_env_binding (suc k) m p symbol = elim (m.scope p) [
  | none ↦ dangling
  | some s ↦ elim (scope_lookup s symbol) [
    | some b ↦ found p b
    | none ↦ elim s.next [ none ↦ unbound | some q ↦ navi_env_binding k m q symbol ]
  ]
]

-- `assign_binding` or `insert_binding` in the scope at an address.
unfoldable pub in_scope : Scopes → ℕ → (ScopeTable → ScopeTable) → Option Scopes
unfolding write_scope
in_scope m p f = elim (m.scope p) [ none ↦ none | some s ↦ some (write_scope m p (f s)) ]

-- `env_set`: `none` where the search has no answer.
unfoldable pub env_set : ℕ → Scopes → NaviEnv → Obj → Obj → Option Scopes
unfolding navi_env_binding in_scope assign_binding insert_binding
env_set k m env symbol object = elim (navi_env_binding k m env.lexical symbol) [
  | found p _ ↦ in_scope m p (λ s. assign_binding s symbol object)
  | unbound ↦ in_scope m env.lexical (λ s. insert_binding s symbol object)
  | dangling ↦ none
  | no_rounds ↦ none
]

-- `get_global_scope`: `none` where the search has no answer.
unfoldable pub get_global_scope : ℕ → Scopes → ℕ → Option ℕ
get_global_scope zero m p = none
get_global_scope (suc k) m p = elim (m.scope p) [
  | none ↦ none
  | some s ↦ elim s.next [ none ↦ some p | some q ↦ get_global_scope k m q ]
]

-- `_navi_empty_environment`
unfoldable pub empty_environment : Scopes → NaviEnv × Scopes
unfolding add_scope
empty_environment m =
    let m1 : Scopes = add_scope m none in
    (record { lexical = m.next; dynamic = m1.next }, add_scope m1 none)

-- `new_lexical_environment`
unfoldable pub new_lexical_environment : Scopes → NaviEnv → NaviEnv × Scopes
unfolding add_scope
new_lexical_environment m env = (record env { lexical = m.next }, add_scope m none)

-- `navi_get_global_env`: `none` where a search has no answer.
unfoldable pub get_global_env : ℕ → Scopes → NaviEnv → Option NaviEnv
unfolding get_global_scope
get_global_env k m env = elim (get_global_scope k m env.lexical) [
  | none ↦ none
  | some p ↦ elim (get_global_scope k m env.dynamic) [
    | none ↦ none
    | some q ↦ some (record { lexical = p; dynamic = q })
  ]
]
