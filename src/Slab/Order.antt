-- ===== src/Slab/Order.antt =====
-- Increasing lists of addresses that lie a slab apart: what the trees of slab.c hold, in order.
use navi_scheme.Base.{
  ℕ, ◌+◌, ◌<◌, ◌≤◌, ◌≡◌, refl, Bool, true, false, not, ◌&&◌, ◌||◌, Option, none, some, List, [],
  ◌∷◌, ◌++◌, ltb, leb, inl, inr, Bool-cases, ◌==◌, if◌then◌else◌, arith,
}
use navi_scheme.Slab.{slab_size}

abbrev pub member : ℕ → List ℕ → Bool
member a [] = false
member a (x ∷ l) = (a == x) || member a l

-- The elements are at least `low`, and each is a slab's size above the one before.
abbrev pub Increasing : ℕ → List ℕ → Type 0
Increasing low [] = Unit {0}
Increasing low (x ∷ l) = (low ≤ x) × Increasing (x + slab_size) l

abbrev pub apart : ℕ → ℕ → Bool
apart a b = leb (a + slab_size) b || leb (b + slab_size) a

abbrev pub insert : ℕ → List ℕ → List ℕ
insert a [] = a ∷ []
insert a (x ∷ l) = if ltb a x then a ∷ x ∷ l else x ∷ insert a l

abbrev pub erase : ℕ → List ℕ → List ℕ
erase a [] = []
erase a (x ∷ l) = if a == x then l else x ∷ erase a l

abbrev pub find_list : ℕ → List ℕ → Option ℕ
find_list mem [] = none
find_list mem (x ∷ l) = if leb x mem && ltb mem (x + slab_size) then some x else find_list mem l

pub Increasing-weaken : (a b : ℕ) (l : List ℕ) → a ≤ b → Increasing b l → Increasing a l
Increasing-weaken a b [] h i = tt
Increasing-weaken a b (x ∷ l) h i = (omega (arith, i.0), i.1)

pub member_low : (low a : ℕ) (l : List ℕ) → Increasing low l → member a l ≡ true → low ≤ a
member_low low a [] i m = absurd (cc (m))
member_low low a (x ∷ l) i m = ground (arith, i.0, m, member_low (x + slab_size) a l i.1)

pub member-insert : (a b : ℕ) (l : List ℕ) → member a (insert b l) ≡ ((a == b) || member a l)
member-insert a b [] = refl
member-insert a b (x ∷ l) = ground (arith, member-insert a b l)

pub Increasing-insert :
    (low a : ℕ) (l : List ℕ)
    → Increasing low l
    → low ≤ a
    → ((b : ℕ) → member b l ≡ true → apart a b ≡ true)
    → Increasing low (insert a l)
Increasing-insert low a [] i h far = (h, tt)
Increasing-insert low a (x ∷ l) i h far = elim (Bool-cases (ltb a x)) [
  | inl e ↦ rw e (h, (ground (arith, e, far x (ground arith)), i.1))
  | inr e ↦
      let above : x + slab_size ≤ a = ground (arith, e, far x (ground arith)) in
      rw e (i.0, Increasing-insert (x + slab_size) a l i.1 above (λ b m. far b (ground (arith, m))))
]

pub member-erase :
    (low a b : ℕ) (l : List ℕ)
    → Increasing low l
    → member a (erase b l) ≡ (not (a == b) && member a l)
member-erase low a b [] i = ground arith
member-erase low a b (x ∷ l) i =
    ground (arith, member-erase (x + slab_size) a b l i.1, member_low (x + slab_size) a l i.1)

pub Increasing-erase : (low a : ℕ) (l : List ℕ) → Increasing low l → Increasing low (erase a l)
Increasing-erase low a [] i = tt
Increasing-erase low a (x ∷ l) i = elim (Bool-cases (a == x)) [
  | inl e ↦ rw e (Increasing-weaken low (x + slab_size) l (omega (arith, i.0)) i.1)
  | inr e ↦ rw e (i.0, Increasing-erase (x + slab_size) a l i.1)
]

-- The lists of a node: what is left of it, the node, and what is right of it.
pub Increasing-left : (low p : ℕ) (l r : List ℕ) → Increasing low (l ++ (p ∷ r)) → Increasing low l
Increasing-left low p [] r i = tt
Increasing-left low p (x ∷ l) r i = (i.0, Increasing-left (x + slab_size) p l r i.1)

pub Increasing-right :
    (low p : ℕ) (l r : List ℕ)
    → Increasing low (l ++ (p ∷ r))
    → (low ≤ p) × Increasing (p + slab_size) r
Increasing-right low p [] r i = i
Increasing-right low p (x ∷ l) r i =
    let rest = Increasing-right (x + slab_size) p l r i.1 in (omega (arith, i.0, rest.0), rest.1)

pub insert_left : (a p : ℕ) (l r : List ℕ) → a < p → insert a (l ++ (p ∷ r)) ≡ insert a l ++ (p ∷ r)
insert_left a p [] r h = ground arith
insert_left a p (x ∷ l) r h = ground (arith, insert_left a p l r h)

pub insert_right :
    (low a p : ℕ) (l r : List ℕ)
    → Increasing low (l ++ (p ∷ r))
    → p ≤ a
    → insert a (l ++ (p ∷ r)) ≡ l ++ (p ∷ insert a r)
insert_right low a p [] r i h = ground arith
insert_right low a p (x ∷ l) r i h =
    ground (
      arith,
      insert_right (x + slab_size) a p l r i.1 h,
      Increasing-right (x + slab_size) p l r i.1,
    )

pub find_list-none :
    (low mem : ℕ) (l : List ℕ) → Increasing low l → mem < low → find_list mem l ≡ none
find_list-none low mem [] i h = refl
find_list-none low mem (x ∷ l) i h =
    ground (arith, i.0, find_list-none (x + slab_size) mem l i.1 (omega (arith, i.0, h)))

pub find_list_left :
    (low mem p : ℕ) (l r : List ℕ)
    → Increasing low (l ++ (p ∷ r))
    → mem < p
    → find_list mem (l ++ (p ∷ r)) ≡ find_list mem l
find_list_left low mem p [] r i h =
    ground (arith, i.0, find_list-none (p + slab_size) mem r i.1 (omega (arith, h)))
find_list_left low mem p (x ∷ l) r i h =
    ground (arith, find_list_left (x + slab_size) mem p l r i.1 h)

pub find_list_right :
    (low mem p : ℕ) (l r : List ℕ)
    → Increasing low (l ++ (p ∷ r))
    → p ≤ mem
    → find_list mem (l ++ (p ∷ r)) ≡ find_list mem (p ∷ r)
find_list_right low mem p [] r i h = refl
find_list_right low mem p (x ∷ l) r i h = ground (
  arith,
  find_list_right (x + slab_size) mem p l r i.1 h,
  Increasing-right (x + slab_size) p l r i.1,
)

erase_low : (low a : ℕ) (l : List ℕ) → Increasing low l → a < low → erase a l ≡ l
erase_low low a [] i h = refl
erase_low low a (x ∷ l) i h =
    ground (arith, i.0, h, erase_low (x + slab_size) a l i.1 (omega (arith, i.0, h)))

pub erase_left :
    (low a p : ℕ) (l r : List ℕ)
    → Increasing low (l ++ (p ∷ r))
    → a < p
    → erase a (l ++ (p ∷ r)) ≡ erase a l ++ (p ∷ r)
erase_left low a p [] r i h =
    ground (arith, h, erase_low (p + slab_size) a r i.1 (omega (arith, h)))
erase_left low a p (x ∷ l) r i h = ground (arith, erase_left (x + slab_size) a p l r i.1 h)

pub erase_here :
    (low p : ℕ) (l r : List ℕ) → Increasing low (l ++ (p ∷ r)) → erase p (l ++ (p ∷ r)) ≡ l ++ r
erase_here low p [] r i = ground arith
erase_here low p (x ∷ l) r i =
    ground (arith, erase_here (x + slab_size) p l r i.1, Increasing-right (x + slab_size) p l r i.1)

pub erase_right :
    (low a p : ℕ) (l r : List ℕ)
    → Increasing low (l ++ (p ∷ r))
    → p < a
    → erase a (l ++ (p ∷ r)) ≡ l ++ (p ∷ erase a r)
erase_right low a p [] r i h = ground (arith, h)
erase_right low a p (x ∷ l) r i h = ground (
  arith,
  h,
  erase_right (x + slab_size) a p l r i.1 h,
  Increasing-right (x + slab_size) p l r i.1,
)

pub member_here : (p : ℕ) (l r : List ℕ) → member p (l ++ (p ∷ r)) ≡ true
member_here p [] r = ground arith
member_here p (x ∷ l) r = ground (arith, member_here p l r)

pub member_left :
    (low a p : ℕ) (l r : List ℕ)
    → Increasing low (l ++ (p ∷ r))
    → a < p
    → member a (l ++ (p ∷ r)) ≡ member a l
member_left low a p [] r i h = ground (arith, h, member_low (p + slab_size) a r i.1)
member_left low a p (x ∷ l) r i h = ground (arith, member_left (x + slab_size) a p l r i.1 h)

pub member_right :
    (low a p : ℕ) (l r : List ℕ)
    → Increasing low (l ++ (p ∷ r))
    → p < a
    → member a (l ++ (p ∷ r)) ≡ member a r
member_right low a p [] r i h = ground (arith, h)
member_right low a p (x ∷ l) r i h = ground (
  arith,
  h,
  member_right (x + slab_size) a p l r i.1 h,
  Increasing-right (x + slab_size) p l r i.1,
)
