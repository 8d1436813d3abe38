-- ===== src/Environment/Set.antt =====
-- What `navi_env_binding` sees after `env_set`.
use navi_scheme.Base.{
  ℕ, zero, suc, ◌<◌, ◌≡◌, ◌≢◌, refl, ap, sym, false, Option, none, some, inl, inr, if◌then◌else◌,
  arith, Bool-cases, ◌==◌,
}
use navi_scheme.Object.{Obj, eqp}
use navi_scheme.Object.Encode.{eqp_refl, eq_of_eqp}
use navi_scheme.Environment.{
  Binding, ScopeTable, Scopes, NaviEnv, Answer, found, unbound, scope_lookup, put_bucket,
  assign_binding, insert_binding, write_scope, in_scope, navi_env_binding, env_set,
}
use navi_scheme.Environment.Scope.{bound, bound-assign, bound-insert}
use navi_scheme.Environment.Chain.{
  seen, Live, IsScopes, seen-step, binding-step, Settled, bound_in, nowhere,
  navi_env_binding-Settled, AgreeAt, unchanged, changed, seen-agree,
}

-- The scopes that a search passes on its way to a binding.
data Finds (m : Scopes) (j : Obj) (p0 : ℕ) (b : Binding) : ℕ → Type 0 where
  here : {s : ScopeTable} → m.scope p0 ≡ some s → scope_lookup s j ≡ some b → Finds m j p0 b p0
  outside :
      {p q : ℕ} {s : ScopeTable}
      → m.scope p ≡ some s
      → scope_lookup s j ≡ none
      → s.next ≡ some q
      → Finds m j p0 b q
      → Finds m j p0 b p

Finds-binding :
    (k : ℕ) {m : Scopes} (p : ℕ) (j : Obj) {p0 : ℕ} {b : Binding}
    → navi_env_binding k m p j ≡ found p0 b
    → Finds m j p0 b p
unfolding navi_env_binding
Finds-binding zero p j e = cc
Finds-binding (suc k) {m} p j {p0} {b} e = by_scope (λ q. Finds-binding k q j) (m.scope p) refl
  where
    by_next :
        ((q : ℕ) → navi_env_binding k m q j ≡ found p0 b → Finds m j p0 b q)
        → {s : ScopeTable} → m.scope p ≡ some s
        → scope_lookup s j ≡ none
        → (o : Option ℕ) → s.next ≡ o
        → Finds m j p0 b p
    by_next inner at no_one none next = absurd (ground (arith, e, binding-step k m p j at))
    by_next inner at no_one (some q) next =
        outside at no_one next (inner q (ground (arith, e, binding-step k m p j at)))

    by_lookup :
        ((q : ℕ) → navi_env_binding k m q j ≡ found p0 b → Finds m j p0 b q)
        → {s : ScopeTable} → m.scope p ≡ some s
        → (o : Option Binding) → scope_lookup s j ≡ o
        → Finds m j p0 b p
    by_lookup inner {s} at none no_one = by_next inner at no_one s.next refl
    by_lookup inner {s} at (some c) one =
        let same : found p c ≡ found p0 b = ground (arith, e, binding-step k m p j at) in
        let is_p : p0 ≡ p = cc in let is_b : b ≡ c = cc in rw (is_p, is_b) (here at one)

    by_scope :
        ((q : ℕ) → navi_env_binding k m q j ≡ found p0 b → Finds m j p0 b q)
        → (o : Option ScopeTable) → m.scope p ≡ o
        → Finds m j p0 b p
    by_scope inner none at = absurd (ground arith)
    by_scope inner (some s) at = by_lookup inner at (scope_lookup s j) refl

Finds-table :
    {m : Scopes} {j : Obj} {p0 : ℕ} {b : Binding} {p : ℕ}
    → Finds m j p0 b p
    → (s : ScopeTable) × (m.scope p0 ≡ some s) × (scope_lookup s j ≡ some b)
Finds-table (here at one) = (_, at, one)
Finds-table (outside _ _ _ f) = Finds-table f

-- A new table where the search finds its binding.
seen-assigned :
    (k : ℕ) (g m : Scopes) {j : Obj} {p0 : ℕ} {b : Binding} {p : ℕ} {t : ScopeTable} {v o : Obj}
    → Finds m j p0 b p
    → seen (navi_env_binding k m p j) ≡ some o
    → ((q : ℕ) → q ≢ p0 → g.scope q ≡ m.scope q)
    → g.scope p0 ≡ some t
    → bound t j ≡ some v
    → seen (navi_env_binding k g p j) ≡ some v
unfolding navi_env_binding
seen-assigned zero g m f e away at new = cc
seen-assigned (suc k) g m {j} {p0} (here _ _) e away at new = ground (arith, seen-step k g p0 j at)
seen-assigned (suc k) g m {j} {p0} {p} {t} {v} {o} (outside {q} {s} old no_one next f) e away at
      new =
    let e' : seen (navi_env_binding k m q j) ≡ some o = ground (arith, seen-step k m p j old) in
    elim (Bool-cases (p == p0)) [
      | inl yes' ↦ let is : p ≡ p0 = ground arith in rw is (ground (arith, seen-step k g p0 j at))
      | inr no' ↦
          let same : g.scope p ≡ some s = ground (arith, away p, old) in
          ground (
            arith,
            seen-step k g p j same,
            seen-step k m p j old,
            seen-assigned k g m {p = q} {t = t} {v = v} {o = o} f e' away at new,
          )
    ]

next-assign : (s : ScopeTable) (k v : Obj) → (assign_binding s k v).next ≡ s.next
unfolding assign_binding put_bucket
next-assign s k v = refl

next-insert : (s : ScopeTable) (k v : Obj) → (insert_binding s k v).next ≡ s.next
unfolding insert_binding put_bucket
next-insert s k v = refl

seen-first :
    (k : ℕ) (g : Scopes) {p : ℕ} {t : ScopeTable} (j : Obj) {v : Obj}
    → 0 < k
    → g.scope p ≡ some t
    → bound t j ≡ some v
    → seen (navi_env_binding k g p j) ≡ some v
seen-first zero g j lt at new = absurd (omega arith)
seen-first (suc k) g {p} j lt at new = ground (arith, seen-step k g p j at)

-- What `env_set` does: the environment sees the object under the symbol, and everything else as before.
pub record IsBound (k : ℕ) (m : Scopes) (p : ℕ) (symbol object : Obj) (r : Option Scopes)
    : Type 0 where
  pub after : Scopes
  pub returned : r ≡ some after
  pub each :
      (j : Obj)
      → seen (navi_env_binding k after p j)
        ≡ (if eqp symbol j then some object else seen (navi_env_binding k m p j))

-- The table of one scope is replaced by one that binds the symbol and is otherwise the same.
module _ (m : Scopes) (p0 : ℕ) (t : ScopeTable) where
  written_away : (q : ℕ) → q ≢ p0 → (write_scope m p0 t).scope q ≡ m.scope q
  unfolding write_scope
  written_away q ne = ground arith

  written_at : (write_scope m p0 t).scope p0 ≡ some t
  unfolding write_scope
  written_at = ground arith

  seen-write_scope :
      {s : ScopeTable} (symbol object : Obj) (k p : ℕ)
      → m.scope p0 ≡ some s
      → t.next ≡ s.next
      → ((j : Obj) → bound t j ≡ (if eqp symbol j then some object else bound s j))
      → seen (navi_env_binding k (write_scope m p0 t) p symbol) ≡ some object
      → (j : Obj)
      → seen (navi_env_binding k (write_scope m p0 t) p j)
        ≡ (if eqp symbol j then some object else seen (navi_env_binding k m p j))
  seen-write_scope {s} symbol object k p at next each new j = elim (Bool-cases (eqp symbol j)) [
    | inl yes' ↦ let is : j ≡ symbol = sym (eq_of_eqp symbol j yes') in rw (yes', is) new
    | inr no' ↦ rw no' (seen-agree k p j (agree no'))
  ]
    where
      agree : eqp symbol j ≡ false → (q : ℕ) → AgreeAt j (write_scope m p0 t) m q
      agree no' q = elim (Bool-cases (q == p0)) [
        | inl yes' ↦
            let is : q ≡ p0 = ground arith in
            rw is (changed at written_at next (ground (arith, each j)))
        | inr no'' ↦ unchanged (written_away q (ground arith))
      ]

-- `env_set` in a live scope returns; the environment then sees the object under the symbol, whether
-- the search found a binding in some scope around it or made one, and every other symbol as before.
pub env_set-IsBound :
    (k : ℕ) {m : Scopes} (env : NaviEnv) (symbol object : Obj)
    → IsScopes m
    → Live m env.lexical
    → env.lexical < k
    → IsBound k m env.lexical symbol object (env_set k m env symbol object)
env_set-IsBound k {m} env symbol object is l fuel =
    by_answer (navi_env_binding k m env.lexical symbol) refl
      (navi_env_binding-Settled k symbol is l fuel)
  where
    assigned :
        {p : ℕ} {b : Binding}
        → navi_env_binding k m env.lexical symbol ≡ found p b
        → Finds m symbol p b env.lexical
        → {s : ScopeTable} → m.scope p ≡ some s
        → {c : Binding} → scope_lookup s symbol ≡ some c
        → IsBound k m env.lexical symbol object (env_set k m env symbol object)
    assigned {p} {b} e f {s} at one =
        let t : ScopeTable = assign_binding s symbol object in
        let new : bound t symbol ≡ some object =
          ground (arith, bound-assign s symbol object symbol one, eqp_refl symbol) in
        let g : Scopes = write_scope m p t in
        record {
          after = g;
          returned = unfold env_set in_scope in ground (arith, e, at);
          each =
              seen-write_scope m p t symbol object k env.lexical at (next-assign s symbol object)
                (λ j. bound-assign s symbol object j one)
                (seen-assigned k g m f (ap seen e) (written_away m p t) (written_at m p t) new);
        }

    inserted :
        navi_env_binding k m env.lexical symbol ≡ unbound
        → IsBound k m env.lexical symbol object (env_set k m env symbol object)
    inserted e =
        let t : ScopeTable = insert_binding l.table symbol object in
        let new : bound t symbol ≡ some object =
          ground (arith, bound-insert l.table symbol object symbol, eqp_refl symbol) in
        let g : Scopes = write_scope m env.lexical t in
        record {
          after = g;
          returned = unfold env_set in_scope in ground (arith, e, l.holds);
          each =
              seen-write_scope m env.lexical t symbol object k env.lexical l.holds
                (next-insert l.table symbol object) (bound-insert l.table symbol object)
                (seen-first k g symbol (omega arith) (written_at m env.lexical t) new);
        }

    by_answer :
        (a : Answer)
        → navi_env_binding k m env.lexical symbol ≡ a
        → Settled a
        → IsBound k m env.lexical symbol object (env_set k m env symbol object)
    by_answer _ e (bound_in {p} {b}) =
        let f : Finds m symbol p b env.lexical = Finds-binding k env.lexical symbol e in
        let (s, at, one) = Finds-table f in assigned e f at one
    by_answer _ e nowhere = inserted e
