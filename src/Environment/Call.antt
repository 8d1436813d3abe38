-- ===== src/Environment/Call.antt =====
-- `navi_extend_environment`: the arguments of a call are bound in a new scope.
use navi_scheme.Base.{
  ℕ, zero, suc, ◌<◌, ◌≡◌, refl, ap, ◌∙◌, Bool, Option, none, some, List, [], ◌∷◌, if◌then◌else◌,
  arith, length,
}
use navi_scheme.Types.{NaviType, same_type}
use navi_scheme.Object.{Obj, eqp, Store}
use navi_scheme.Object.Run.{Cmd, pure, stuck, out_of_fuel, ◌>>=◌, is_pair, is_nil, car, cdr}
use navi_scheme.Object.Returns.{Returns, returns}
use navi_scheme.Object.Returns
use navi_scheme.Object.Chain.{
  Chain, done, link, IsEnd, is_pair-ok, is_pair-end, is_type-end, car-ok, cdr-ok,
}
use navi_scheme.Environment.{
  ScopeTable, Scopes, NaviEnv, navi_scope_set, navi_env_new_scope, write_scope,
}
use navi_scheme.Environment.Scope.{bound, bound-navi_scope_set}

-- The statement behind the loop: the dotted tail takes the rest of the arguments.
bind_tail : (vcons acons : Obj) → ScopeTable → Cmd ScopeTable
unfolding navi_scope_set
bind_tail vcons acons s = do
  no_tail ← is_nil vcons
  pure (if no_tail then s else navi_scope_set s vcons acons)

-- The loop of `navi_extend_environment`, on the new scope.
unfoldable pub bind_arguments : ℕ → (vcons acons : Obj) → ScopeTable → Cmd ScopeTable
unfolding navi_scope_set bind_tail
bind_arguments zero vcons acons s = out_of_fuel
bind_arguments (suc k) vcons acons s = do
  var ← is_pair vcons
  if var
      then (do
        arg ← is_pair acons
        if arg
            then (do
              v ← car vcons
              a ← car acons
              vs ← cdr vcons
              as' ← cdr acons
              bind_arguments k vs as' (navi_scope_set s v a))
            else bind_tail vcons acons s)
      else bind_tail vcons acons s

-- `navi_extend_environment`
unfoldable pub navi_extend_environment :
    ℕ → Scopes → NaviEnv → (vars args : Obj) → Cmd (NaviEnv × Scopes)
unfolding navi_env_new_scope bind_arguments write_scope
navi_extend_environment k m env vars args =
    let (new, m') = navi_env_new_scope m env in
    elim (m'.scope new.lexical) [
      | none ↦ stuck
      | some s ↦ do t ← bind_arguments k vars args s; pure (new, write_scope m' new.lexical t)
    ]

-- Names bound to objects, one after another, over what is bound already.
abbrev pub bind_all : List Obj → List Obj → (Obj → Option Obj) → Obj → Option Obj
bind_all [] ys f j = f j
bind_all (x ∷ xs) [] f j = f j
bind_all (x ∷ xs) (y ∷ ys) f j = bind_all xs ys (λ i. if eqp x i then some y else f i) j

bind_all-ext :
    (xs ys : List Obj) (f g : Obj → Option Obj) (j : Obj)
    → ((i : Obj) → f i ≡ g i)
    → bind_all xs ys f j ≡ bind_all xs ys g j
bind_all-ext [] ys f g j e = e j
bind_all-ext (x ∷ xs) [] f g j e = e j
bind_all-ext (x ∷ xs) (y ∷ ys) f g j e =
    bind_all-ext xs ys (λ i. if eqp x i then some y else f i) (λ i. if eqp x i then some y else g i)
      j (λ i. ap (if◌then◌else◌ (eqp x i) (some y)) (e i))

-- The parameters `xs` take the arguments `ys` in order, and a dotted tail `end` takes `rest`.
abbrev pub called :
    (proper : Bool) → (end rest : Obj) → List Obj → List Obj → (Obj → Option Obj) → Obj → Option Obj
called proper end rest xs ys f j =
    if proper then bind_all xs ys f j else if eqp end j then some rest else bind_all xs ys f j

module _ {h : Store} {n : ℕ} {end : Obj} (e : IsEnd h n end) where
  bind_tail-called :
      (rest : Obj) (s : ScopeTable)
      → Returns
          (λ t g.
            (g ≡ h)
            × ((j : Obj)
                → bound t j ≡ called (same_type e.type NaviType.nil) end rest [] [] (bound s) j))
          (bind_tail end rest s h)
  unfolding bind_tail
  bind_tail-called rest s = rw (is_type-end e NaviType.nil) (returns (refl, by_kind))
    where
      by_kind :
          (j : Obj)
          → bound (if same_type e.type NaviType.nil then s else navi_scope_set s end rest) j
            ≡ called (same_type e.type NaviType.nil) end rest [] [] (bound s) j
      by_kind j = ground (arith, bound-navi_scope_set s end rest j)

  -- The loop with as many arguments as parameters, and more only for a dotted tail: each parameter is
  -- bound to its argument, a dotted tail to the rest, every other symbol as before; the heap is kept.
  pub bind_arguments-called :
      (k : ℕ) (s : ScopeTable) {vars args rest : Obj} {xs ys : List Obj}
      → Chain h n end vars xs
      → Chain h n rest args ys
      → length ys ≡ length xs
      → length xs < k
      → Returns
          (λ t g.
            (g ≡ h)
            × ((j : Obj)
                → bound t j ≡ called (same_type e.type NaviType.nil) end rest xs ys (bound s) j))
          (bind_arguments k vars args s h)
  unfolding bind_arguments
  bind_arguments-called zero s v a same fuel = absurd (omega arith)
  bind_arguments-called (suc k) s {rest = rest} done done same fuel =
      rw (is_pair-end e) (bind_tail-called rest s)
  bind_arguments-called (suc k) s done (link lt at a) same fuel = absurd (omega arith)
  bind_arguments-called (suc k) s (link lt at v) done same fuel = absurd (omega arith)
  bind_arguments-called (suc k) s {rest = rest} (link {a = x} {xs = xs} lt at v)
        (link {a = y} {xs = ys} lt' at' a) same fuel =
      rw (is_pair-ok at, is_pair-ok at', car-ok at, car-ok at', cdr-ok at, cdr-ok at')
        (Returns.weaken
          (bind_arguments-called k (navi_scope_set s x y) v a (omega arith) (omega arith))
          λ t g (same_heap, each). (same_heap, λ j. each j ∙ set_first x y xs ys rest j))
    where
      set_first :
          (x y : Obj) (xs ys : List Obj) (rest j : Obj)
          → called (same_type e.type NaviType.nil) end rest xs ys (bound (navi_scope_set s x y)) j
            ≡ called (same_type e.type NaviType.nil) end rest (x ∷ xs) (y ∷ ys) (bound s) j
      set_first x y xs ys rest j = ground (
        arith,
        bind_all-ext xs ys (bound (navi_scope_set s x y))
            (λ i. if eqp x i then some y else bound s i) j (bound-navi_scope_set s x y),
      )
