-- ===== src/Strings/Compare.antt =====
-- The order of strings: navi_strcoll and the macro STRING_COMPARE of string.c.
use navi_scheme.Base.{
  ℕ, zero, suc, ◌<◌, ◌≤◌, ◌≡◌, ◌↔◌, refl, inl, inr, Bool, true, List, [], ◌∷◌, length, take, ltb,
  if◌then◌else◌, Bool-cases, arith,
}
use navi_scheme.Base.Int.{ℤ, pos, negsuc}
use navi_scheme.Object.{NaviString}
use navi_scheme.Strings.{strcoll_loop, strcoll, string_compare}
use navi_scheme.Strings.Content.{IsString, content}

-- The order of a dictionary, as -1, 0 or 1.
abbrev pub lexicographic : List ℕ → List ℕ → ℤ
lexicographic [] [] = pos 0
lexicographic [] (_ ∷ _) = negsuc 0
lexicographic (_ ∷ _) [] = pos 1
lexicographic (x ∷ xs) (y ∷ ys) =
    if ltb x y then negsuc 0 else (if ltb y x then pos 1 else lexicographic xs ys)

abbrev pub IsAscii : List ℕ → Type 0
IsAscii [] = Unit {0}
IsAscii (x ∷ xs) = (x < 128) × IsAscii xs

abbrev pub no_fold : ℕ → ℕ
no_fold x = x

strcoll_loop-lexicographic :
    (m n : ℕ) (xs ys : List ℕ)
    → m ≤ length xs
    → n ≤ length ys
    → IsAscii (take m xs)
    → IsAscii (take n ys)
    → strcoll_loop no_fold m n xs ys ≡ lexicographic (take m xs) (take n ys)
unfolding strcoll_loop
strcoll_loop-lexicographic zero zero xs ys a b p q = refl
strcoll_loop-lexicographic zero (suc n) xs [] a b p q = absurd (omega (arith, b))
strcoll_loop-lexicographic zero (suc n) xs (y ∷ ys) a b p q = refl
strcoll_loop-lexicographic (suc m) zero [] ys a b p q = absurd (omega (arith, a))
strcoll_loop-lexicographic (suc m) zero (x ∷ xs) ys a b p q = refl
strcoll_loop-lexicographic (suc m) (suc n) [] ys a b p q = absurd (omega (arith, a))
strcoll_loop-lexicographic (suc m) (suc n) (x ∷ xs) [] a b p q = absurd (omega (arith, b))
strcoll_loop-lexicographic (suc m) (suc n) (x ∷ xs) (y ∷ ys) a b p q = ground (
  arith,
  p.0,
  q.0,
  strcoll_loop-lexicographic m n xs ys (omega (arith, a)) (omega (arith, b)) p.1 q.1,
)

-- Without folding, strings of ASCII are ordered as in a dictionary.
pub strcoll-lexicographic :
    (s t : NaviString)
    → IsString s
    → IsString t
    → IsAscii (content s)
    → IsAscii (content t)
    → strcoll no_fold s t ≡ lexicographic (content s) (content t)
unfolding strcoll
strcoll-lexicographic s t hs ht as_s as_t =
    strcoll_loop-lexicographic s.size t.size s.text t.text (omega (arith, hs.fits, hs.room))
      (omega (arith, ht.fits, ht.room)) as_s as_t

abbrev pub AllRelated : (ℤ → Bool) → NaviString → List NaviString → Type 0
AllRelated op s [] = Unit {0}
AllRelated op s (t ∷ others) =
    (op (lexicographic (content s) (content t)) ≡ true) × AllRelated op s others

abbrev pub AreAscii : List NaviString → Type 0
AreAscii [] = Unit {0}
AreAscii (t ∷ others) = IsString t × IsAscii (content t) × AreAscii others

-- A comparison of strings relates the first string to each of the others, not each to the next.
pub string_compare-first :
    (op : ℤ → Bool) (s : NaviString) (others : List NaviString)
    → IsString s
    → IsAscii (content s)
    → AreAscii others
    → (string_compare op no_fold s others ≡ true) ↔ AllRelated op s others
unfolding string_compare
string_compare-first op s [] hs as_s h = (λ _. tt, λ _. refl)
string_compare-first op s (t ∷ others) hs as_s h =
    let one = strcoll-lexicographic s t hs h.0 as_s h.1 in
    let rest = string_compare-first op s others hs as_s h.2 in
    elim (Bool-cases (op (lexicographic (content s) (content t)))) [
      | inl e ↦ rw (one, e) (λ r. (refl, rest.0 r), λ r. rest.1 r.1)
      | inr e ↦ rw (one, e) (λ r. absurd (cc (r)), λ r. absurd (cc (r.0)))
    ]
