-- ===== src/Environment/Bucket.antt =====
-- One bucket: a list of bindings that is searched from its head.
use navi_scheme.Base.{
  ◌≡◌, ◌≢◌, sym, true, false, Option, none, some, List, [], ◌∷◌, if◌then◌else◌, arith, Bool-cases,
  inl, inr,
}
use navi_scheme.Object.{Obj, eqp}
use navi_scheme.Object.Encode.{eq_of_eqp}
use navi_scheme.Environment.{Binding, find, replace, remove}

-- The object that a binding binds.
abbrev pub value : Option Binding → Option Obj
value none = none
value (some b) = some b.object

pub eqp_ne : (a b : Obj) → a ≢ b → eqp a b ≡ false
eqp_ne a b ne = ground (arith, eq_of_eqp a b)

-- Whether `eqp` holds between three symbols is consistent.
pub same :
    (a b c : Obj)
    → (eqp a b ≡ true → eqp a c ≡ eqp b c) × (eqp a b ≡ false → eqp b c ≡ true → eqp a c ≡ false)
same a b c = (λ e. rw (eq_of_eqp a b e), λ ne e. rw (sym (eq_of_eqp b c e)) ne)

pub find-eqp : (bs : List Binding) (a b : Obj) → eqp a b ≡ true → find bs a ≡ find bs b
find-eqp bs a b e = rw (eq_of_eqp a b e)

pub value-find-replace :
    (bs : List Binding) (k j v : Obj) {b : Binding}
    → find bs k ≡ some b
    → value (find (replace bs k v) j) ≡ (if eqp k j then some v else value (find bs j))
unfolding find replace
value-find-replace [] k j v e = cc
value-find-replace (c ∷ bs) k j v {b} e =
    ground (arith, same c.symbol k j, value-find-replace bs k j v {b = b})

-- No symbol is bound twice.
unfoldable pub Distinct : List Binding → Type 0
Distinct [] = Unit
Distinct (b ∷ bs) = (find bs b.symbol ≡ none) × Distinct bs

pub find-replace-none :
    (bs : List Binding) (k j v : Obj) → find bs j ≡ none → find (replace bs k v) j ≡ none
unfolding find replace
find-replace-none [] k j v e = e
find-replace-none (c ∷ bs) k j v e = ground (arith, find-replace-none bs k j v)

pub Distinct-replace : (bs : List Binding) (k v : Obj) → Distinct bs → Distinct (replace bs k v)
unfolding Distinct replace
Distinct-replace [] k v d = d
Distinct-replace (c ∷ bs) k v (new, d) = elim (Bool-cases (eqp c.symbol k)) [
  | inl yes' ↦ rw yes' (new, d)
  | inr no' ↦ rw no' (find-replace-none bs k c.symbol v new, Distinct-replace bs k v d)
]

find-remove-none : (bs : List Binding) (k j : Obj) → find bs j ≡ none → find (remove bs k) j ≡ none
unfolding find remove
find-remove-none [] k j e = e
find-remove-none (c ∷ bs) k j e = ground (arith, find-remove-none bs k j)

pub Distinct-remove : (bs : List Binding) (k : Obj) → Distinct bs → Distinct (remove bs k)
unfolding Distinct remove
Distinct-remove [] k d = d
Distinct-remove (c ∷ bs) k (new, d) = elim (Bool-cases (eqp c.symbol k)) [
  | inl yes' ↦ rw yes' d
  | inr no' ↦ rw no' (find-remove-none bs k c.symbol new, Distinct-remove bs k d)
]

pub value-find-remove :
    (bs : List Binding) (k j : Obj)
    → Distinct bs
    → value (find (remove bs k) j) ≡ (if eqp k j then none else value (find bs j))
unfolding find remove Distinct
value-find-remove [] k j d = ground arith
value-find-remove (c ∷ bs) k j (new, d) =
    ground (arith, same c.symbol k j, new, find-eqp bs c.symbol j, value-find-remove bs k j d)
