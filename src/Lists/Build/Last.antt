-- ===== src/Lists/Build/Last.antt =====
-- `navi_last_cons`: the pair at which a list ends, and the pairs that lead to it.
use navi_scheme.Base.{
  ℕ, zero, suc, ◌<◌, ◌≡◌, ◌≢◌, refl, ap, ◌∙◌, List, [], ◌∷◌, ◌++◌, arith, length,
}
use navi_scheme.Object.{Obj, ptr, Store}
use navi_scheme.Object.Run.{ok}
use navi_scheme.Object.Chain.{
  PairAt, Chain, done, link, IsEnd, SameBut, Visited, is_pair-ok, cdr-ok, is_pair-end,
}
use navi_scheme.Lists.Build.{last_cons}

-- From `p` the cdr fields lead through pairs with these cars to the pair at `q`, not counted.
pub data Lead (h : Store) (n q : ℕ) : ℕ → List Obj → Type 0 where
  here : Lead h n q q []
  step :
      {p r : ℕ} {a : Obj} {xs : List Obj}
      → p < n
      → p ≢ q
      → PairAt h p a (ptr r)
      → Lead h n q r xs
      → Lead h n q p (a ∷ xs)

pub Lead-but :
    {h g : Store} {n q p : ℕ} {xs : List Obj} → SameBut n q h g → Lead h n q p xs → Lead g n q p xs
Lead-but same here = here
Lead-but same (step {p} lt ne at l) =
    step lt ne (record { holds = same.at p lt ne ∙ at.holds }) (Lead-but same l)

pub Lead-Chain :
    {h : Store} {n m q p : ℕ} {xs ys : List Obj} {end : Obj}
    → ((r : ℕ) → r < n → r < m)
    → Lead h n q p xs
    → Chain h m end (ptr q) ys
    → Chain h m end (ptr p) (xs ++ ys)
Lead-Chain up here c = c
Lead-Chain up (step {p} lt ne at l) c = link (up p lt) at (Lead-Chain up l c)

-- The last pair of the list `xs` that begins at `p`.
pub record Last (h : Store) (n : ℕ) (end : Obj) (k p : ℕ) (xs : List Obj) : Type 0 where
  pub last : ℕ
  pub value : Obj
  pub front : List Obj
  pub found : last_cons k (ptr p) h ≡ ok (ptr last) h
  pub lead : Lead h n last p front
  pub at : PairAt h last value end
  pub below : last < n
  pub parts : xs ≡ front ++ value ∷ []

-- A pair whose cdr is a pair is not the pair at which the list ends.
inner-ne-last :
    {h : Store} {n p q r : ℕ} {a b v d end : Obj}
    → IsEnd h n end
    → PairAt h p a (ptr q)
    → PairAt h q b d
    → PairAt h r v end
    → p ≢ r
inner-ne-last e atp atq atr same =
    let not_end = is_pair-end e in let is = is_pair-ok atq in cc (atp.holds, atr.holds)

pub last_cons-Last :
    {h : Store} {n : ℕ} {end : Obj} (e : IsEnd h n end) (k : ℕ) {p : ℕ} {a d : Obj} {xs : List Obj}
    → p < n
    → PairAt h p a d
    → Chain h n end d xs
    → length xs < k
    → Last h n end k p (a ∷ xs)
unfolding last_cons
last_cons-Last e zero lt at c fuel = absurd (omega arith)
last_cons-Last e (suc k) {p} {a} lt at done fuel = record {
  last = p;
  value = a;
  front = [];
  found = rw (cdr-ok at, is_pair-end e);
  lead = here;
  at = at;
  below = lt;
  parts = refl;
}
last_cons-Last e (suc k) {p} {a} lt at (link {p = q} lt' at' c) fuel =
    let rest = last_cons-Last e k lt' at' c (omega arith) in
    record {
      last = rest.last;
      value = rest.value;
      front = a ∷ rest.front;
      found = rw (cdr-ok at, is_pair-ok at') rest.found;
      lead = step lt (inner-ne-last e at at' rest.at) at rest.lead;
      at = rest.at;
      below = rest.below;
      parts = ap (λ l. a ∷ l) rest.parts;
    }

-- The last pair is the first one or is visited behind it.
pub last-Visited {ℓ} :
    {h : Store} {n : ℕ} {end : Obj} (e : IsEnd h n end) (k : ℕ) {p : ℕ} {a d : Obj} {xs : List Obj}
    (P : ℕ → Type ℓ) (lt : p < n) (at : PairAt h p a d) (c : Chain h n end d xs)
    (fuel : length xs < k)
    → P p
    → Visited P c
    → P (last_cons-Last e k lt at c fuel).last
unfolding last_cons-Last
last-Visited e zero P lt at c fuel first rest = absurd (omega arith)
last-Visited e (suc k) P lt at done fuel first rest = first
last-Visited e (suc k) P lt at (link lt' at' c) fuel first (second, rest) =
    last-Visited e k P lt' at' c (omega arith) second rest
