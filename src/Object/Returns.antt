-- ===== src/Object/Returns.antt =====
-- Total correctness of a run: it returns, without error, fault or lack of fuel, and what it returns
-- has a property.
use navi_scheme.Object.{Store}
use navi_scheme.Object.Run.{Run, ok, Cmd, and_then}

pub data Returns {A : Type 0} (P : A → Store → Type 0) : Run A → Type 0 where
  returns : {a : A} {h : Store} → P a h → Returns P (ok a h)

module _ {A : Type 0} {P : A → Store → Type 0} where
  pub bind :
      {B : Type 0} {Q : B → Store → Type 0} {r : Run A} {k : A → Cmd B}
      → Returns P r
      → ((a : A) (h : Store) → P a h → Returns Q (k a h))
      → Returns Q (and_then r k)
  bind (returns p) next = next _ _ p

  pub weaken :
      {Q : A → Store → Type 0} {r : Run A}
      → Returns P r
      → ((a : A) (h : Store) → P a h → Q a h)
      → Returns Q r
  weaken (returns p) more = returns (more _ _ p)
