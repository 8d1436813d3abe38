-- ===== src/Object/Chain.antt =====
-- Lists in the heap: a chain of pairs from an object to the end of the list, and what a heap keeps.
use navi_scheme.Base.{
  ℕ, ◌+◌, ◌≤◌, ◌<◌, ◌≡◌, ◌≢◌, refl, ◌∙◌, true, false, some, List, [], ◌∷◌, arith,
}
use navi_scheme.Types.{NaviType, same_type, code}
use navi_scheme.Object.{Obj, nil, ptr, Cell, pair, Store, IsStore, write, extend, type_in}
use navi_scheme.Object.Run.{
  ok, load, navi_type, is_type, is_pair, is_nil, car, cdr, set_car, set_cdr,
}

-- A pair with these fields lies at `p`.
pub record PairAt (h : Store) (p : ℕ) (a d : Obj) : Type 0 where
  pub holds : h.cell p ≡ some (pair a d)

-- From an object the cdr fields lead through pairs at addresses below `n`, with these cars, to `end`.
pub data Chain (h : Store) (n : ℕ) (end : Obj) : Obj → List Obj → Type 0 where
  done : Chain h n end end []
  link :
      {p : ℕ} {a d : Obj} {xs : List Obj}
      → p < n
      → PairAt h p a d
      → Chain h n end d xs
      → Chain h n end (ptr p) (a ∷ xs)

-- The object that ends a list: not a pair, and if it is a pointer, one below `n`.
pub record IsEnd (h : Store) (n : ℕ) (o : Obj) : Type 0 where
  pub type : NaviType
  pub known : type_in h o ≡ some type
  pub not_pair : same_type type NaviType.pair ≡ false
  pub below : (p : ℕ) → o ≡ ptr p → p < n

-- `g` has what `h` has at the addresses below `n`.
pub record SameBelow (n : ℕ) (h g : Store) : Type 0 where
  pub at : (p : ℕ) → p < n → g.cell p ≡ h.cell p

module _ {h : Store} {p : ℕ} {a d : Obj} (e : PairAt h p a d) where
  pub is_pair-ok : is_pair (ptr p) h ≡ ok true h
  unfolding is_type navi_type type_in same_type code
  is_pair-ok = ground arith

  pub is_nil-ok : is_nil (ptr p) h ≡ ok false h
  unfolding is_type navi_type type_in same_type code
  is_nil-ok = ground arith

  pub car-ok : car (ptr p) h ≡ ok a h
  unfolding car load
  car-ok = ground arith

  pub cdr-ok : cdr (ptr p) h ≡ ok d h
  unfolding cdr load
  cdr-ok = ground arith

  pub set_cdr-ok : (d' : Obj) → set_cdr (ptr p) d' h ≡ ok tt (write h p (pair a d'))
  unfolding set_cdr
  set_cdr-ok d' = ground arith

  pub set_car-ok : (a' : Obj) → set_car (ptr p) a' h ≡ ok tt (write h p (pair a' d))
  unfolding set_car
  set_car-ok a' = ground arith

pub is_type-end :
    {h : Store} {n : ℕ} {o : Obj} (e : IsEnd h n o) (t : NaviType)
    → is_type t o h ≡ ok (same_type e.type t) h
unfolding is_type navi_type
is_type-end e t = ground arith

pub is_pair-end : {h : Store} {n : ℕ} {o : Obj} → IsEnd h n o → is_pair o h ≡ ok false h
unfolding is_type
is_pair-end e = ground arith

-- What an object is does not change where its heap keeps the addresses below `n`.
module _ {n : ℕ} {h g : Store} (same : SameBelow n h g) where
  pub PairAt-same : {p : ℕ} {a d : Obj} → p < n → PairAt h p a d → PairAt g p a d
  PairAt-same {p} lt e = record { holds = same.at p lt ∙ e.holds }

  pub IsEnd-same : (o : Obj) → IsEnd h n o → IsEnd g n o
  unfolding type_in
  IsEnd-same (ptr p) e = record {
    type = e.type;
    known = ground (arith, same.at p (e.below p refl), e.known);
    not_pair = e.not_pair;
    below = e.below;
  }
  IsEnd-same o e = record { type = e.type; known = e.known; not_pair = e.not_pair; below = e.below }

  pub Chain-same : {end o : Obj} {xs : List Obj} → Chain h n end o xs → Chain g n end o xs
  Chain-same done = done
  Chain-same (link lt e c) = link lt (PairAt-same lt e) (Chain-same c)

-- A chain stays a chain below a higher bound.
pub Chain-mono :
    {h : Store} {n m : ℕ} {end o : Obj} {xs : List Obj}
    → n ≤ m
    → Chain h n end o xs
    → Chain h m end o xs
Chain-mono le done = done
Chain-mono le (link lt e c) = link (omega arith) e (Chain-mono le c)

pub SameBelow-refl : (n : ℕ) (h : Store) → SameBelow n h h
SameBelow-refl n h = record { at = λ p lt. refl }

pub SameBelow-mono : {n m : ℕ} {h g : Store} → n ≤ m → SameBelow m h g → SameBelow n h g
SameBelow-mono le s = record { at = λ p lt. s.at p (omega arith) }

pub SameBelow-trans :
    {n m : ℕ} {f g h : Store} → n ≤ m → SameBelow n f g → SameBelow m g h → SameBelow n f h
SameBelow-trans le s t = record { at = λ p lt. t.at p (omega arith) ∙ s.at p lt }

pub SameBelow-write : {n : ℕ} (h : Store) {p : ℕ} (c : Cell) → n ≤ p → SameBelow n h (write h p c)
unfolding write
SameBelow-write h c le = record { at = λ q lt. ground arith }

pub next-extend : (h : Store) (c : Cell) → (extend h c).next ≡ h.next + 1
unfolding extend
next-extend h c = refl

pub SameBelow-extend : (h : Store) (c : Cell) → SameBelow h.next h (extend h c)
unfolding extend write
SameBelow-extend h c = record { at = λ q lt. ground arith }

pub IsStore-extend : (h : Store) (c : Cell) → IsStore h → IsStore (extend h c)
unfolding extend write
IsStore-extend h c s = record { fresh = λ p le. ground (arith, s.fresh p) }

-- `g` has what `h` has at the addresses below `n` other than `q`.
pub record SameBut (n q : ℕ) (h g : Store) : Type 0 where
  pub at : (p : ℕ) → p < n → p ≢ q → g.cell p ≡ h.cell p

pub SameBut-write : (n : ℕ) (h : Store) (p : ℕ) (c : Cell) → SameBut n p h (write h p c)
unfolding write
SameBut-write n h p c = record { at = λ q lt ne. ground arith }

pub next-write : (h : Store) (p : ℕ) (c : Cell) → (write h p c).next ≡ h.next
unfolding write
next-write h p c = refl

pub written-pair : (h : Store) (p : ℕ) (a d : Obj) → PairAt (write h p (pair a d)) p a d
unfolding write
written-pair h p a d = record { holds = ground arith }

-- Every address that a chain visits has a property.
abbrev pub Visited {ℓ} :
    {h : Store} {n : ℕ} {end o : Obj} {xs : List Obj} → (ℕ → Type ℓ) → Chain h n end o xs → Type ℓ
Visited P done = Unit
Visited P (link {p} lt at c) = P p × Visited P c

pub Visited-mono {ℓ κ} :
    {h : Store} {n : ℕ} {end o : Obj} {xs : List Obj} {P : ℕ → Type ℓ} {Q : ℕ → Type κ}
    → ((p : ℕ) → P p → Q p)
    → (c : Chain h n end o xs) → Visited P c
    → Visited Q c
Visited-mono more done v = tt
Visited-mono more (link {p} lt at c) (v, vs) = (more p v, Visited-mono more c vs)

-- A chain survives a write to an address that it does not visit.
pub Chain-but :
    {h g : Store} {n q : ℕ} {end o : Obj} {xs : List Obj}
    → SameBut n q h g
    → (c : Chain h n end o xs) → Visited (λ p. p ≢ q) c
    → Chain g n end o xs
Chain-but same done away = done
Chain-but same (link {p} lt at c) (ne, away) =
    link lt (record { holds = same.at p lt ne ∙ at.holds }) (Chain-but same c away)

pub Visited-but {ℓ} :
    {h g : Store} {n q : ℕ} {end o : Obj} {xs : List Obj} (P : ℕ → Type ℓ) (same : SameBut n q h g)
    (c : Chain h n end o xs) (away : Visited (λ p. p ≢ q) c)
    → Visited P c
    → Visited P (Chain-but same c away)
unfolding Chain-but
Visited-but P same done away v = tt
Visited-but P same (link lt at c) (ne, away) (v, vs) = (v, Visited-but P same c away vs)

-- A new object: nothing that lay in the heap has its address.
pub made-pair : (a d : Obj) (h : Store) → PairAt (extend h (pair a d)) h.next a d
unfolding extend write
made-pair a d h = record { holds = ground arith }

-- Consing on a list of the heap gives a longer list, and keeps what was there.
pub Chain-cons :
    {end o : Obj} {xs : List Obj} (a : Obj) (h : Store)
    → Chain h h.next end o xs
    → Chain (extend h (pair a o)) (extend h (pair a o)).next end (ptr h.next) (a ∷ xs)
unfolding extend
Chain-cons {o} a h c =
    link (omega arith) (made-pair a o h)
      (Chain-mono (omega arith) (Chain-same (SameBelow-extend h (pair a o)) c))

Visited-same {ℓ} :
    {n : ℕ} {h g : Store} (same : SameBelow n h g) {end o : Obj} {xs : List Obj} (P : ℕ → Type ℓ)
    (c : Chain h n end o xs)
    → Visited P c
    → Visited P (Chain-same same c)
unfolding Chain-same
Visited-same same P done v = tt
Visited-same same P (link lt at c) (v, vs) = (v, Visited-same same P c vs)

Visited-higher {ℓ} :
    {h : Store} {n m : ℕ} (le : n ≤ m) {end o : Obj} {xs : List Obj} (P : ℕ → Type ℓ)
    (c : Chain h n end o xs)
    → Visited P c
    → Visited P (Chain-mono le c)
unfolding Chain-mono
Visited-higher le P done v = tt
Visited-higher le P (link lt at c) (v, vs) = (v, Visited-higher le P c vs)

-- A new pair in front of a chain adds its own address to those visited.
pub Visited-cons {ℓ} :
    {end o : Obj} {xs : List Obj} (P : ℕ → Type ℓ) (a : Obj) (h : Store)
    (c : Chain h h.next end o xs)
    → P h.next
    → Visited P c
    → Visited P (Chain-cons a h c)
unfolding Chain-cons
Visited-cons {o} P a h c p v =
    (p, Visited-higher _ P _ (Visited-same (SameBelow-extend h (pair a o)) P c v))

unfoldable pub nil-IsEnd : (h : Store) (n : ℕ) → IsEnd h n nil
unfolding type_in same_type code
nil-IsEnd h n = record { type = NaviType.nil; known = refl; not_pair = refl; below = λ p e. cc }
