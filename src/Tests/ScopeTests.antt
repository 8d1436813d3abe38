-- ===== src/Tests/ScopeTests.antt =====
-- The results on scopes, environments and symbols, applied to concrete ones.
use navi_scheme.Base.{
  ℕ, zero, suc, ◌<◌, ◌≤◌, ◌≡◌, ◌==◌, refl, Bool, true, false, if◌then◌else◌, none, some, [], ◌∷◌,
  arith, ap, ◌≢◌, Bool-cases, inl, inr,
}
use navi_scheme.Types.{NaviType, same_type}
use navi_scheme.Object.{Obj, nil, ptr, eqp}
use navi_scheme.Object.Encode.{encode, eq_of_eqp}
use navi_scheme.Object.Chain.{nil-IsEnd}
use navi_scheme.Object.Returns.{Returns}
use navi_scheme.Environment.{
  ScopeTable, Scopes, NaviEnv, find, navi_scope_set, navi_scope_unset, env_set, bucket_of,
  navi_import_all,
}
use navi_scheme.Environment.Bucket.{Distinct}
use navi_scheme.Environment.Scope.{
  bound, IsScope, bound-navi_scope_set, navi_scope_set-IsScope, bound-navi_scope_unset,
}
use navi_scheme.Environment.Chain.{Live, IsScopes}
use navi_scheme.Environment.Innermost.{Innermost}
use navi_scheme.Environment.Set.{IsBound, env_set-IsBound}
use navi_scheme.Environment.Nested.{IsNested, enter, navi_scope_set-IsNested}
use navi_scheme.Environment.Import.{or_else, IsPlaced, bound-navi_import_all}
use navi_scheme.Environment.Call.{bind_arguments, called, bind_arguments-called}
use navi_scheme.Symbols.{SymbolTable, make_symbol}
use navi_scheme.Symbols.Interning.{AllBelow, IsTable, IsInterned, make_symbol-IsInterned}
use navi_scheme.Tests.{num, heap, numbers, parameters}

-- A scope that binds the symbol at 10 to the number 5, in the bucket of its word 88.
abbrev outermost : ScopeTable
outermost = record {
  bucket = λ i. if i == 24 then record { symbol = ptr 10; object = num 5 } ∷ [] else [];
  next = none;
}

abbrev inner : ScopeTable
inner = record { bucket = λ i. []; next = some 0 }

abbrev scopes : Scopes
scopes = record {
  next = 2;
  scope =
      λ p. elim p [ zero ↦ some outermost | suc q ↦ elim q [ zero ↦ some inner | suc _ ↦ none ] ];
}

abbrev env : NaviEnv
env = record { lexical = 1; dynamic = 0 }

outermost-IsScope : IsScope outermost
unfolding Distinct find
outermost-IsScope = record { distinct = each }
  where
    either :
        (b : Bool) → Distinct (if b then record { symbol = ptr 10; object = num 5 } ∷ [] else [])
    either true = (refl, tt)
    either false = tt

    each :
        (i : ℕ) → Distinct (if i == 24 then record { symbol = ptr 10; object = num 5 } ∷ [] else [])
    each i = either (i == 24)

scopes-IsScopes : IsScopes scopes
scopes-IsScopes = record { older = older; live = live; fresh = fresh }
  where
    older : (p : ℕ) {s : ScopeTable} {q : ℕ} → scopes.scope p ≡ some s → s.next ≡ some q → q < p
    older zero {s} {q} at next = absurd (ground (arith, at, next))
    older (suc zero) {s} {q} at next = ground (arith, at, next)
    older (suc (suc p)) at next = absurd (ground (arith, at))

    live :
        (p : ℕ) {s : ScopeTable} {q : ℕ} → scopes.scope p ≡ some s → s.next ≡ some q → Live scopes q
    live zero {s} {q} at next = absurd (ground (arith, at, next))
    live (suc zero) {s} {q} at next =
        let is : 0 ≡ q = ground (arith, at, next) in
        let at_0 : Live scopes 0 = record { table = outermost; holds = refl } in rw is at at_0
    live (suc (suc p)) at next = absurd (ground (arith, at))

    fresh : (p : ℕ) → 2 ≤ p → scopes.scope p ≡ none
    fresh zero le = absurd (omega arith)
    fresh (suc zero) le = absurd (omega arith)
    fresh (suc (suc p)) le = refl

inner-Live : Live scopes 1
inner-Live = record { table = inner; holds = refl }

bound-navi_scope_set_example :
    bound (navi_scope_set outermost (ptr 10) nil) (ptr 10)
    ≡ (if eqp (ptr 10) (ptr 10) then some nil else bound outermost (ptr 10))
bound-navi_scope_set_example = bound-navi_scope_set outermost (ptr 10) nil (ptr 10)

navi_scope_set-IsScope_example :
    IsScope (navi_scope_set outermost (ptr 10) nil)
    × IsScope (navi_scope_unset outermost (ptr 10)).1
navi_scope_set-IsScope_example = navi_scope_set-IsScope (ptr 10) nil outermost-IsScope

bound-navi_scope_unset_example :
    ((navi_scope_unset outermost (ptr 10)).0
      ≡ elim (bound outermost (ptr 10)) [ none ↦ false | some _ ↦ true ])
    × (bound (navi_scope_unset outermost (ptr 10)).1 (ptr 11)
        ≡ (if eqp (ptr 10) (ptr 11) then none else bound outermost (ptr 11)))
bound-navi_scope_unset_example = bound-navi_scope_unset (ptr 10) (ptr 11) outermost-IsScope

env_set-IsBound_example : IsBound 2 scopes 1 (ptr 10) nil (env_set 2 scopes env (ptr 10) nil)
env_set-IsBound_example =
    env_set-IsBound 2 env (ptr 10) nil scopes-IsScopes inner-Live (omega arith)

navi_scope_set-IsNested_example : IsNested 2 scopes 1 (ptr 10) nil (enter scopes env (ptr 10) nil)
navi_scope_set-IsNested_example =
    navi_scope_set-IsNested 2 env (ptr 10) nil scopes-IsScopes (omega arith)

bind_arguments-called_example :
    Returns
      (λ t g.
        (g ≡ heap)
        × ((j : Obj)
            → bound t j
              ≡ called
                  (same_type NaviType.nil NaviType.nil)
                  nil
                  nil
                  (ptr 10 ∷ ptr 11 ∷ [])
                  (num 1 ∷ num 2 ∷ [])
                  (bound inner)
                  j))
      (bind_arguments 3 (ptr 12) (ptr 0) inner heap)
unfolding nil-IsEnd
bind_arguments-called_example =
    bind_arguments-called (nil-IsEnd heap 14) 3 inner parameters numbers (omega arith) (omega arith)

abbrev symbols : SymbolTable
symbols = record { bucket = λ i. if i == 4 then 10 ∷ [] else 11 ∷ [] }

symbols-IsTable : IsTable symbols heap
symbols-IsTable = record { below = λ i. either (i == 4) }
  where
    either : (b : Bool) → AllBelow 14 (if b then 10 ∷ [] else 11 ∷ [])
    either true = (omega arith, tt)
    either false = (omega arith, tt)

make_symbol-IsInterned_example :
    IsInterned symbols heap (97 ∷ []) (make_symbol symbols heap (97 ∷ []))
make_symbol-IsInterned_example = make_symbol-IsInterned (97 ∷ []) symbols-IsTable

outermost-IsPlaced : IsPlaced outermost
unfolding find
outermost-IsPlaced = record { elsewhere = elsewhere }
  where
    bucket_of_10 : bucket_of (ptr 10) ≡ 24
    bucket_of_10 = unfold bucket_of encode in refl

    not_10 : (j : Obj) → bucket_of j ≢ 24 → eqp (ptr 10) j ≡ false
    not_10 j ne = elim (Bool-cases (eqp (ptr 10) j)) [
      | inl yes' ↦
          let is : bucket_of (ptr 10) ≡ bucket_of j = ap bucket_of (eq_of_eqp (ptr 10) j yes') in
          absurd (ground (arith, is, bucket_of_10))
      | inr no' ↦ no'
    ]

    elsewhere : (i : ℕ) (j : Obj) → bucket_of j ≢ i → find (outermost.bucket i) j ≡ none
    elsewhere i j ne = elim (Bool-cases (i == 24)) [
      | inl yes' ↦ let is : i ≡ 24 = ground arith in rw (yes', not_10 j (rw is at ne)) refl
      | inr no' ↦ rw no' refl
    ]

bound-navi_import_all_example :
    bound (navi_import_all inner outermost) (ptr 10)
    ≡ or_else (bound outermost (ptr 10)) (bound inner (ptr 10))
bound-navi_import_all_example =
    bound-navi_import_all inner outermost (ptr 10) outermost-IsScope outermost-IsPlaced
