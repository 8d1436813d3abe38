-- ===== src/Libraries/Names.antt =====
-- The names of libraries.
use navi_scheme.Base.{
  ℕ, zero, suc, ◌<◌, ◌≡◌, refl, ◌&&◌, Bool, true, false, not, List, [], ◌∷◌, arith, length,
  Bool-cases, inl, inr,
}
use navi_scheme.Base.Int.{pos, ltb_ℤ}
use navi_scheme.Types.{NaviType, same_type, code}
use navi_scheme.Object.{Obj, fixnum, ptr, nil, Store, eqp, type_in, cell_type}
use navi_scheme.Object.Encode.{eqp_refl}
use navi_scheme.Object.Run.{ok, navi_type, is_type, is_nil}
use navi_scheme.Object.Chain.{
  Chain, done, link, IsEnd, nil-IsEnd, is_pair-ok, is_pair-end, is_nil-ok, is_type-end, car-ok,
  cdr-ok,
}
use navi_scheme.Lists.Read.Laws.{IsKnown, AllKnown, has_type, is_type-known}
use navi_scheme.Checks.{fixnum_value}
use navi_scheme.Libraries.{check_each, libname_part_valid, libname_valid, libname_equal}

-- The names agree part by part.
abbrev pub same_parts : List Obj → List Obj → Bool
same_parts [] [] = true
same_parts (x ∷ xs) (y ∷ ys) = eqp x y && same_parts xs ys
same_parts _ _ = false

pub same_parts_refl : (xs : List Obj) → same_parts xs xs ≡ true
same_parts_refl [] = refl
same_parts_refl (x ∷ xs) = ground (arith, eqp_refl x, same_parts_refl xs)

pub nil-is_nil : (h : Store) → is_nil nil h ≡ ok true h
unfolding is_type navi_type type_in same_type code
nil-is_nil h = refl

module _ {h : Store} {n : ℕ} where
  -- `libname_equal` of two proper lists answers whether they have the same parts in the same order.
  pub libname_equal-same_parts :
      (k : ℕ) {a b : Obj} {xs ys : List Obj}
      → Chain h n nil a xs
      → Chain h n nil b ys
      → length xs < k
      → libname_equal k a b h ≡ ok (same_parts xs ys) h
  unfolding libname_equal
  libname_equal-same_parts zero c d fuel = absurd (omega arith)
  libname_equal-same_parts (suc k) done done fuel =
      rw (is_pair-end (nil-IsEnd h n), nil-is_nil h) (nil-is_nil h)
  libname_equal-same_parts (suc k) done (link lt at d) fuel =
      rw (is_pair-end (nil-IsEnd h n), nil-is_nil h, is_nil-ok at) refl
  libname_equal-same_parts (suc k) (link lt at c) done fuel =
      rw (is_pair-ok at, is_pair-end (nil-IsEnd h n), is_nil-ok at) refl
  libname_equal-same_parts (suc k) (link {a = x} {xs = xs} lt at c)
        (link {a = y} {xs = ys} lt' at' d) fuel =
      rw (is_pair-ok at, is_pair-ok at', car-ok at, car-ok at')
        (elim (Bool-cases (eqp x y)) [
          | inl yes' ↦
              rw (yes', cdr-ok at, cdr-ok at') (libname_equal-same_parts k c d (omega arith))
          | inr no' ↦ rw no' refl
        ])

-- A part of a name is a symbol or a number that is not negative.
abbrev pub good_part : Store → Obj → Bool
good_part h (fixnum m) = not (ltb_ℤ m (pos 0))
good_part h o = has_type h NaviType.symbol o

abbrev pub good_parts : Store → List Obj → Bool
good_parts h [] = true
good_parts h (x ∷ xs) = good_part h x && good_parts h xs

-- Only an immediate value has the type of numbers.
ptr_not_number : (h : Store) (p : ℕ) → has_type h NaviType.fixnum (ptr p) ≡ false
unfolding has_type type_in cell_type same_type code
ptr_not_number h p = ground arith

part_ptr :
    {h : Store} (p : ℕ)
    → IsKnown h (ptr p)
    → libname_part_valid (ptr p) h ≡ ok (has_type h NaviType.symbol (ptr p)) h
unfolding libname_part_valid
part_ptr {h} p known =
    rw (is_type-known NaviType.symbol known)
      (elim (Bool-cases (has_type h NaviType.symbol (ptr p))) [
        | inl yes' ↦ rw yes' refl
        | inr no' ↦ rw (no', is_type-known NaviType.fixnum known, ptr_not_number h p) refl
      ])

part_known : {h : Store} (o : Obj) → IsKnown h o → libname_part_valid o h ≡ ok (good_part h o) h
unfolding libname_part_valid is_type navi_type type_in has_type same_type code fixnum_value
part_known (ptr p) known = part_ptr p known
part_known o known = refl

check_each-good :
    {h : Store} {n : ℕ} {end : Obj} (e : IsEnd h n end) (k : ℕ) {o : Obj} {xs : List Obj}
    → Chain h n end o xs
    → AllKnown h xs
    → length xs < k
    → check_each libname_part_valid is_nil k o h
      ≡ ok (good_parts h xs && same_type e.type NaviType.nil) h
unfolding check_each
check_each-good e zero c known fuel = absurd (omega arith)
check_each-good e (suc k) done known fuel = rw (is_pair-end e) (is_type-end e NaviType.nil)
check_each-good {h} e (suc k) (link {a = x} {xs = xs} lt at c) (known, rest) fuel =
    rw (is_pair-ok at, car-ok at, part_known x known)
      (elim (Bool-cases (good_part h x)) [
        | inl yes' ↦ rw (yes', cdr-ok at) (check_each-good e k c rest (omega arith))
        | inr no' ↦ rw no' refl
      ])

-- `libname_valid` of a list that is not empty answers whether the list is proper and each part is a
-- symbol or a number that is not negative.
pub libname_valid-good_parts :
    {h : Store} {n : ℕ} {end : Obj} (e : IsEnd h n end) (k : ℕ) {p : ℕ} {x : Obj} {xs : List Obj}
    → Chain h n end (ptr p) (x ∷ xs)
    → AllKnown h (x ∷ xs)
    → length (x ∷ xs) < k
    → libname_valid k (ptr p) h ≡ ok (good_parts h (x ∷ xs) && same_type e.type NaviType.nil) h
unfolding libname_valid
libname_valid-good_parts e k (link lt at c) known fuel =
    rw (is_pair-ok at) (check_each-good e k (link lt at c) known fuel)
