-- ===== src/Arithmetic/Compare.antt =====
-- The numeric comparisons of several arguments.
use navi_scheme.Base.{
  ℕ, zero, suc, ◌<◌, ◌≡◌, refl, Bool, true, ◌&&◌, List, [], ◌∷◌, map, arith, length, Bool-cases,
  inl, inr,
}
use navi_scheme.Base.Int.{ℤ}
use navi_scheme.Types.{same_type, code}
use navi_scheme.Object.{Obj, nil, fixnum, bool, Store, type_in}
use navi_scheme.Object.Run.{ok, navi_type, is_type, is_nil}
use navi_scheme.Object.Chain.{
  Chain, done, link, nil-IsEnd, is_pair-ok, is_pair-end, is_nil-ok, car-ok, cdr-ok,
}
use navi_scheme.Arithmetic.{fold_pairs, compare_numbers, numeric_comparison}

-- Each number is related to the next one.
abbrev pub adjacent : (ℤ → ℤ → Bool) → List ℤ → Bool
adjacent op [] = true
adjacent op (a ∷ []) = true
adjacent op (a ∷ b ∷ ns) = op a b && adjacent op (b ∷ ns)

module _ {h : Store} where
  compare_numbers-ok :
      (op : ℤ → ℤ → Bool) (a b : ℤ) → compare_numbers op (fixnum a) (fixnum b) h ≡ ok (op a b) h
  unfolding compare_numbers navi_type type_in same_type code
  compare_numbers-ok op a b = refl

  pub nil-ok : is_nil nil h ≡ ok true h
  unfolding is_type navi_type type_in same_type code
  nil-ok = refl

module _ {h : Store} {n : ℕ} where
  fold_pairs-adjacent :
      (op : ℤ → ℤ → Bool) (k : ℕ) {o : Obj} (ns : List ℤ)
      → Chain h n nil o (map fixnum ns)
      → length ns < k
      → fold_pairs (compare_numbers op) k o h ≡ ok (adjacent op ns) h
  unfolding fold_pairs
  fold_pairs-adjacent op zero ns c fuel = absurd (omega arith)
  fold_pairs-adjacent op (suc k) [] done fuel = rw (is_pair-end (nil-IsEnd h n)) refl
  fold_pairs-adjacent op (suc k) (a ∷ []) (link lt at done) fuel =
      rw (is_pair-ok at, cdr-ok at, nil-ok) refl
  fold_pairs-adjacent op (suc k) (a ∷ b ∷ ns) (link lt at (link lt' at' c)) fuel =
      rw (is_pair-ok at, cdr-ok at, is_nil-ok at', car-ok at, car-ok at', compare_numbers-ok op a b)
        (elim (Bool-cases (op a b)) [
          | inl yes' ↦ rw yes' (fold_pairs-adjacent op k (b ∷ ns) (link lt' at' c) (omega arith))
          | inr no' ↦ rw no' refl
        ])

  -- A numeric comparison of fixnums answers whether each argument is related to the next one.
  pub numeric_comparison-adjacent :
      (op : ℤ → ℤ → Bool) (k : ℕ) {o : Obj} (ns : List ℤ)
      → Chain h n nil o (map fixnum ns)
      → length ns < k
      → numeric_comparison op k o h ≡ ok (bool (adjacent op ns)) h
  unfolding numeric_comparison
  numeric_comparison-adjacent op k ns c fuel = rw (fold_pairs-adjacent op k ns c fuel) refl
