-- ===== src/Environment/Nested.antt =====
-- A new scope: it shows what the scope around it shows, until a symbol is bound in it.
use navi_scheme.Base.{ℕ, zero, suc, ◌<◌, ◌≡◌, refl, Option, none, some, [], if◌then◌else◌, arith}
use navi_scheme.Object.{Obj, eqp}
use navi_scheme.Environment.{
  ScopeTable, Scopes, NaviEnv, find, scope_lookup, put_bucket, assign_binding, insert_binding,
  write_scope, in_scope, navi_env_binding, add_scope, navi_env_new_scope, navi_scope_set,
}
use navi_scheme.Environment.Scope.{bound, bound-navi_scope_set}
use navi_scheme.Environment.Chain.{seen, IsScopes, seen-step}

-- A search reads only the scope it starts from and older ones.
seen-older :
    (k : ℕ) (g m : Scopes) {n : ℕ} (p : ℕ) (j : Obj)
    → IsScopes m
    → ((q : ℕ) → q < n → g.scope q ≡ m.scope q)
    → p < n
    → seen (navi_env_binding k g p j) ≡ seen (navi_env_binding k m p j)
unfolding navi_env_binding
seen-older zero g m p j is same lt = refl
seen-older (suc k) g m {n} p j is same lt =
    by_scope (λ q lt. seen-older k g m q j is same lt) (m.scope p) refl (same p lt)
  where
    around-older :
        ((q : ℕ) → q < n → seen (navi_env_binding k g q j) ≡ seen (navi_env_binding k m q j))
        → {s : ScopeTable} → m.scope p ≡ some s
        → (o : Option ℕ) → s.next ≡ o
        → elim o [ none ↦ none | some q ↦ seen (navi_env_binding k g q j) ]
          ≡ elim o [ none ↦ none | some q ↦ seen (navi_env_binding k m q j) ]
    around-older inner at none next = refl
    around-older inner at (some q) next = inner q (omega (arith, is.older p at next))

    by_scope :
        ((q : ℕ) → q < n → seen (navi_env_binding k g q j) ≡ seen (navi_env_binding k m q j))
        → (o : Option ScopeTable) → m.scope p ≡ o
        → g.scope p ≡ m.scope p
        → seen (navi_env_binding (suc k) g p j) ≡ seen (navi_env_binding (suc k) m p j)
    by_scope inner none e e' = ground arith
    by_scope inner (some s) e e' =
        let e'' : g.scope p ≡ some s = ground arith in
        ground (arith, seen-step k g p j e'', seen-step k m p j e, around-older inner e s.next refl)

-- The scopes after `navi_env_new_scope` and `navi_scope_set` of one symbol in the new scope.
abbrev pub enter : Scopes → NaviEnv → (symbol object : Obj) → Option Scopes
enter m env symbol object =
    in_scope (navi_env_new_scope m env).1 m.next (λ s. navi_scope_set s symbol object)

pub record IsNested (k : ℕ) (m : Scopes) (p : ℕ) (symbol object : Obj) (r : Option Scopes)
    : Type 0 where
  pub after : Scopes
  pub returned : r ≡ some after
  pub inner :
      (j : Obj)
      → seen (navi_env_binding (suc k) after m.next j)
        ≡ (if eqp symbol j then some object else seen (navi_env_binding k m p j))
  pub outer : (j : Obj) → seen (navi_env_binding k after p j) ≡ seen (navi_env_binding k m p j)

-- A scope without bindings.
blank : ℕ → ScopeTable
blank outer = record { bucket = λ _. []; next = some outer }

no_binding : (p : ℕ) (j : Obj) → bound (blank p) j ≡ none
unfolding blank scope_lookup find
no_binding p j = refl

next-navi_scope_set : (s : ScopeTable) (k v : Obj) → (navi_scope_set s k v).next ≡ s.next
unfolding navi_scope_set assign_binding insert_binding put_bucket
next-navi_scope_set s k v = ground arith

module _ (m : Scopes) (env : NaviEnv) (symbol object : Obj) where
  entered : Scopes
  entered =
      write_scope (navi_env_new_scope m env).1 m.next
        (navi_scope_set (blank env.lexical) symbol object)

  entered-at : entered.scope m.next ≡ some (navi_scope_set (blank env.lexical) symbol object)
  unfolding entered write_scope
  entered-at = ground arith

  entered-older : (q : ℕ) → q < m.next → entered.scope q ≡ m.scope q
  unfolding entered write_scope navi_env_new_scope add_scope
  entered-older q lt = ground arith

  enter-entered : enter m env symbol object ≡ some entered
  unfolding entered write_scope navi_env_new_scope add_scope in_scope blank
  enter-entered = ground arith

-- A symbol that is bound in a new scope by `navi_env_new_scope` and `navi_scope_set` is seen in the
-- new environment and hides what the old one binds it to; every other symbol is seen as before, and
-- from the old environment nothing has changed.
pub navi_scope_set-IsNested :
    (k : ℕ) {m : Scopes} (env : NaviEnv) (symbol object : Obj)
    → IsScopes m
    → env.lexical < m.next
    → IsNested k m env.lexical symbol object (enter m env symbol object)
navi_scope_set-IsNested k {m} env symbol object is lt = record {
  after = entered m env symbol object;
  returned = enter-entered m env symbol object;
  inner = λ j. ground (
    arith,
    seen-step k (entered m env symbol object) m.next j (entered-at m env symbol object),
    bound-navi_scope_set (blank env.lexical) symbol object j,
    next-navi_scope_set (blank env.lexical) symbol object,
    next-blank env.lexical,
    no_binding env.lexical j,
    same j,
  );
  outer = same;
}
  where
    next-blank : (p : ℕ) → (blank p).next ≡ some p
    next-blank p = unfold blank in refl

    same :
        (j : Obj)
        → seen (navi_env_binding k (entered m env symbol object) env.lexical j)
          ≡ seen (navi_env_binding k m env.lexical j)
    same j =
        seen-older k (entered m env symbol object) m env.lexical j is
          (entered-older m env symbol object) lt
