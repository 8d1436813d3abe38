-- ===== src/Checks/Copy.antt =====
-- What the index check before every copy guarantees.
use navi_scheme.Base.{
  ℕ, ◌+◌, ◌-◌, ◌≤◌, ◌<◌, ◌≡◌, ◌↔◌, refl, false, arith, Option, none, some, if◌then◌else◌,
}
use navi_scheme.Base.Int.{ℤ, pos, pos_part, ◌≤ℤ◌}
use navi_scheme.Types.{same_type, code}
use navi_scheme.Object.{Obj, Store, fixnum, type_in}
use navi_scheme.Object.Run.{ok, navi_type, raise, pure, invalid_copy}
use navi_scheme.Checks.{bad_copy, check_copy_to, index_or}

-- Indices with which every access of `copy_to` is in bounds.
pub record InBounds (to : ℕ) (at : ℤ) (from : ℕ) (start end : ℤ) : Type 0 where
  pub at_nonneg : pos 0 ≤ℤ at
  pub start_nonneg : pos 0 ≤ℤ start
  pub ordered : start ≤ℤ end
  pub source : pos_part end ≤ from
  pub target : pos_part at + (pos_part end - pos_part start) ≤ to

bad_copy-InBounds :
    (to : ℕ) (at : ℤ) (from : ℕ) (start end : ℤ)
    → bad_copy to at from start end ≡ false
    → InBounds to at from start end × (pos_part at < to) × (pos_part start < from)
unfolding bad_copy
bad_copy-InBounds to at from start end h = ground arith

InBounds-bad_copy :
    (to : ℕ) (at : ℤ) (from : ℕ) (start end : ℤ)
    → InBounds to at from start end
    → pos_part at < to
    → pos_part start < from
    → bad_copy to at from start end ≡ false
unfolding bad_copy
InBounds-bad_copy to at from start end b lt lt' = ground arith

-- `navi_check_copy_to` lets exactly those indices pass that are in bounds and whose first target and
-- first source index are indices of an element.
pub check_copy_to-InBounds :
    (to : ℕ) (at : ℤ) (from : ℕ) (start end : ℤ) (h : Store)
    → (check_copy_to to at from start end h ≡ ok tt h)
      ↔ (InBounds to at from start end × (pos_part at < to) × (pos_part start < from))
unfolding check_copy_to
check_copy_to-InBounds to at from start end h = (
  λ e. bad_copy-InBounds to at from start end (passed e),
  λ b. rw (InBounds-bad_copy to at from start end b.0 b.1 b.2),
)
  where
    passed :
        (if bad_copy to at from start end then raise invalid_copy else pure tt) h ≡ ok tt h
        → bad_copy to at from start end ≡ false
    passed e = ground arith

-- An optional index argument, with what stands for it when it is left out, and its value.
pub data IsIndex (default : ℤ) : Option Obj → ℤ → Type 0 where
  absent : IsIndex default none default
  given : {n : ℤ} → IsIndex default (some (fixnum n)) n

pub index_or-ok : {d n : ℤ} {o : Option Obj} → IsIndex d o n → (h : Store) → index_or o d h ≡ ok n h
unfolding index_or navi_type type_in same_type code
index_or-ok absent h = refl
index_or-ok given h = refl

-- The numbers behind indices that passed the check.
pub record Span (to at from start end : ℕ) : Type 0 where
  pub source : end ≤ from
  pub ordered : start ≤ end
  pub target : at + (end - start) ≤ to

pub check-Span :
    (to : ℕ) (at : ℤ) (from : ℕ) (start end : ℤ) (h : Store)
    → check_copy_to to at from start end h ≡ ok tt h
    → Span to (pos_part at) from (pos_part start) (pos_part end)
check-Span to at from start end h e =
    span to at from start end ((check_copy_to-InBounds to at from start end h).0 e).0
  where
    span :
        (to : ℕ) (at : ℤ) (from : ℕ) (start end : ℤ)
        → InBounds to at from start end
        → Span to (pos_part at) from (pos_part start) (pos_part end)
    span to at from start end b = ground arith
