-- ===== src/Environment/Chain.antt =====
-- Environments as chains of scopes: a search ends, and what it sees.
use navi_scheme.Base.{ℕ, zero, suc, ◌≤◌, ◌<◌, ◌≡◌, refl, Option, none, some, arith}
use navi_scheme.Object.{Obj}
use navi_scheme.Environment.{
  Binding, ScopeTable, Scopes, Answer, found, unbound, scope_lookup, navi_env_binding,
}
use navi_scheme.Environment.Scope.{bound}

-- The object that a search answers with.
abbrev pub seen : Answer → Option Obj
seen (found p b) = some b.object
seen _ = none

pub record Live (m : Scopes) (p : ℕ) : Type 0 where
  pub table : ScopeTable
  pub holds : m.scope p ≡ some table

-- The scope around a live scope is live and was made before it.
pub record IsScopes (m : Scopes) : Type 0 where
  pub older : (p : ℕ) {s : ScopeTable} {q : ℕ} → m.scope p ≡ some s → s.next ≡ some q → q < p
  pub live : (p : ℕ) {s : ScopeTable} {q : ℕ} → m.scope p ≡ some s → s.next ≡ some q → Live m q
  pub fresh : (p : ℕ) → m.next ≤ p → m.scope p ≡ none

-- What a search sees from a scope, by the map of this scope and what it sees from the scope around it.
abbrev pub around : (k : ℕ) → Scopes → ScopeTable → Obj → Option Obj
around k m s j = elim s.next [ none ↦ none | some q ↦ seen (navi_env_binding k m q j) ]

module _ (k : ℕ) (m : Scopes) (p : ℕ) (j : Obj) {s : ScopeTable} (at : m.scope p ≡ some s) where
  pub seen-step :
      seen (navi_env_binding (suc k) m p j)
      ≡ elim (bound s j) [ none ↦ around k m s j | some o ↦ some o ]
  unfolding navi_env_binding
  seen-step = ground (arith, at)

  pub binding-step : navi_env_binding (suc k) m p j ≡ elim (scope_lookup s j) [
    | some b ↦ found p b
    | none ↦ elim s.next [ none ↦ unbound | some q ↦ navi_env_binding k m q j ]
  ]
  unfolding navi_env_binding
  binding-step = ground (arith, at)

-- A search that ends: with a binding, or at the outermost scope.
pub data Settled : Answer → Type 0 where
  bound_in : {p : ℕ} {b : Binding} → Settled (found p b)
  nowhere : Settled unbound

-- `navi_env_binding` from a live scope ends: it visits at most as many scopes as were made before the
-- one it starts from, and never reads one that is freed.
pub navi_env_binding-Settled :
    (k : ℕ) {m : Scopes} {p : ℕ} (j : Obj)
    → IsScopes m
    → Live m p
    → p < k
    → Settled (navi_env_binding k m p j)
unfolding navi_env_binding
navi_env_binding-Settled zero j is l fuel = absurd (omega arith)
navi_env_binding-Settled (suc k) {m} {p} j is l fuel = rw (binding-step k m p j l.holds) (
    by_lookup (scope_lookup l.table j)
      (outwards (λ q inner older. navi_env_binding-Settled k j is inner older) l.table.next refl))
  where
    outwards :
        ((q : ℕ) → Live m q → q < k → Settled (navi_env_binding k m q j))
        → (o : Option ℕ) → l.table.next ≡ o
        → Settled (elim o [ none ↦ unbound | some q ↦ navi_env_binding k m q j ])
    outwards step none e = nowhere
    outwards step (some q) e = step q (is.live p l.holds e) (omega (arith, is.older p l.holds e))

    by_lookup :
        (o : Option Binding)
        → Settled (elim l.table.next [ none ↦ unbound | some q ↦ navi_env_binding k m q j ])
        → Settled (elim o [
          | some b ↦ found p b
          | none ↦ elim l.table.next [ none ↦ unbound | some q ↦ navi_env_binding k m q j ]
        ])
    by_lookup none outer = outer
    by_lookup (some b) outer = bound_in

-- In `g` each scope binds `j` as in `m`.
pub data AgreeAt (j : Obj) (g m : Scopes) (p : ℕ) : Type 0 where
  unchanged : g.scope p ≡ m.scope p → AgreeAt j g m p
  changed :
      {s t : ScopeTable}
      → m.scope p ≡ some s
      → g.scope p ≡ some t
      → t.next ≡ s.next
      → bound t j ≡ bound s j
      → AgreeAt j g m p

pub seen-agree :
    (k : ℕ) {g m : Scopes} (p : ℕ) (j : Obj)
    → ((q : ℕ) → AgreeAt j g m q)
    → seen (navi_env_binding k g p j) ≡ seen (navi_env_binding k m p j)
unfolding navi_env_binding
seen-agree zero p j agree = refl
seen-agree (suc k) {g} {m} p j agree = by_case (λ q. seen-agree k q j agree) (agree p)
  where
    around-agree :
        ((q : ℕ) → seen (navi_env_binding k g q j) ≡ seen (navi_env_binding k m q j))
        → (o : Option ℕ)
        → elim o [ none ↦ none | some q ↦ seen (navi_env_binding k g q j) ]
          ≡ elim o [ none ↦ none | some q ↦ seen (navi_env_binding k m q j) ]
    around-agree inner none = refl
    around-agree inner (some q) = inner q

    same_scope :
        ((q : ℕ) → seen (navi_env_binding k g q j) ≡ seen (navi_env_binding k m q j))
        → (o : Option ScopeTable) → m.scope p ≡ o
        → g.scope p ≡ o
        → seen (navi_env_binding (suc k) g p j) ≡ seen (navi_env_binding (suc k) m p j)
    same_scope inner none e e' = ground arith
    same_scope inner (some s) e e' =
        ground (arith, seen-step k g p j e', seen-step k m p j e, around-agree inner s.next)

    by_case :
        ((q : ℕ) → seen (navi_env_binding k g q j) ≡ seen (navi_env_binding k m q j))
        → AgreeAt j g m p
        → seen (navi_env_binding (suc k) g p j) ≡ seen (navi_env_binding (suc k) m p j)
    by_case inner (unchanged e) = same_scope inner (m.scope p) refl e
    by_case inner (changed {s} {t} e e' next same) =
        ground (arith, seen-step k g p j e', seen-step k m p j e, around-agree inner s.next)
