-- ===== src/Environment/Innermost.antt =====
-- What the search through the scopes finds, and that entering a scope keeps the scopes in order.
use navi_scheme.Base.{
  ℕ, ◌+◌, ◌<◌, ◌≤◌, ◌≡◌, refl, ap, sym, ◌∙◌, inl, inr, ◌⊎◌, Option, none, some, Bool-cases, ◌==◌,
  [], if◌then◌else◌, arith, leb,
}
use navi_scheme.Object.{Obj}
use navi_scheme.Environment.{
  Binding, ScopeTable, Scopes, NaviEnv, Answer, found, unbound, scope_lookup, write_scope,
  add_scope, navi_env_new_scope,
}
use navi_scheme.Environment.Chain.{Live, IsScopes}

-- What a symbol means in the scope at an address: the binding in the scope itself, or else what it means
-- in the scope around it, or else nothing.
pub data Innermost (m : Scopes) (j : Obj) : ℕ → Answer → Type 0 where
  here :
      {p : ℕ} {s : ScopeTable} {b : Binding}
      → m.scope p ≡ some s
      → scope_lookup s j ≡ some b
      → Innermost m j p (found p b)
  outwards :
      {p q : ℕ} {s : ScopeTable} {a : Answer}
      → m.scope p ≡ some s
      → scope_lookup s j ≡ none
      → s.next ≡ some q
      → Innermost m j q a
      → Innermost m j p a
  nowhere :
      {p : ℕ} {s : ScopeTable}
      → m.scope p ≡ some s
      → scope_lookup s j ≡ none
      → s.next ≡ none
      → Innermost m j p unbound

abbrev outer_of : Option ScopeTable → Option ℕ
outer_of none = none
outer_of (some s) = s.next

module _ (m : Scopes) (env : NaviEnv) (is : IsScopes m) (l : Live m env.lexical) where
  made : ScopeTable
  made = record { bucket = λ _. []; next = some env.lexical }

  after : Scopes
  unfolding navi_env_new_scope add_scope
  after = (navi_env_new_scope m env).1

  below : env.lexical < m.next
  below = elim (Bool-cases (leb m.next env.lexical)) [
    | inl e ↦ absurd (cc (l.holds, is.fresh env.lexical (ground (arith, e))))
    | inr e ↦ ground (arith, e)
  ]

  after-at : (p : ℕ) → after.scope p ≡ (if p == m.next then some made else m.scope p)
  unfolding after made navi_env_new_scope add_scope write_scope
  after-at p = ground arith

  after-next : after.next ≡ m.next + 1
  unfolding after navi_env_new_scope add_scope
  after-next = refl

  -- A link from a scope is that of the new one, or one that was there.
  link_of :
      (p : ℕ) {s : ScopeTable} {q : ℕ}
      → after.scope p ≡ some s
      → s.next ≡ some q
      → ((p ≡ m.next) × (q ≡ env.lexical)) ⊎ (m.scope p ≡ some s)
  unfolding made
  link_of p {s} {q} at next = elim (Bool-cases (p == m.next)) [
    | inl e ↦
        let here : after.scope p ≡ some made = after-at p ∙ rw e refl in
        let link : some env.lexical ≡ s.next = ap outer_of (sym here ∙ at) in
        inl (ground (arith, e), ground (arith, link, next))
    | inr e ↦ let here : after.scope p ≡ m.scope p = after-at p ∙ rw e refl in inr (sym here ∙ at)
  ]

  Live-after : (q : ℕ) → Live m q → Live after q
  Live-after q x = elim (Bool-cases (q == m.next)) [
    | inl e ↦ record { table = made; holds = after-at q ∙ rw e refl }
    | inr e ↦ record { table = x.table; holds = after-at q ∙ rw e x.holds }
  ]

  -- `navi_env_new_scope` in a live scope keeps what the search needs: the scope around each is live and was
  -- made before it, and no scope lies at an address still to be given out. The new scope is live.
  pub navi_env_new_scope-IsScopes :
      IsScopes (navi_env_new_scope m env).1
      × Live (navi_env_new_scope m env).1 (navi_env_new_scope m env).0.lexical
  unfolding after made navi_env_new_scope
  navi_env_new_scope-IsScopes = (
    record { older = older; live = live; fresh = fresh },
    record { table = made; holds = after-at m.next ∙ ground arith },
  )
    where
      older : (p : ℕ) {s : ScopeTable} {q : ℕ} → after.scope p ≡ some s → s.next ≡ some q → q < p
      older p {s} {q} at next = elim (link_of p at next) [
        | inl (e, f) ↦ omega (arith, e, f, below)
        | inr e ↦ is.older p e next
      ]

      live :
          (p : ℕ) {s : ScopeTable} {q : ℕ} → after.scope p ≡ some s → s.next ≡ some q → Live after q
      live p {s} {q} at next = elim (link_of p at next) [
        | inl (e, f) ↦ rw f (Live-after env.lexical l)
        | inr e ↦ Live-after q (is.live p e next)
      ]

      fresh : (p : ℕ) → after.next ≤ p → after.scope p ≡ none
      fresh p le = after-at p ∙ ground (arith, le, after-next, is.fresh p)
