-- ===== src/Array/Slice.antt =====
-- Lists as arrays: a run of elements overwritten by a value, or by a run of another list.
use native.Mathlib.Decide.{dec_lt, ℕ_discrete}
use navi_scheme.Base.{
  ℕ, zero, suc, ◌+◌, ◌-◌, ◌≤◌, ◌<◌, ◌≡◌, refl, ◌∙◌, Bool, ◌&&◌, Option, none, some, List, [], ◌∷◌,
  arith, length, get_elem?, set, ltb, leb, ◌==◌, if◌then◌else◌, length-set,
}

-- `j` is one of the `n` indices from `at` on.
abbrev pub inside : ℕ → ℕ → ℕ → Bool
inside at n j = leb at j && ltb j (at + n)

module _ {A : Type 0} where
  -- `n` elements from `i` on become `v`.
  unfoldable pub filled : ℕ → List A → ℕ → A → List A
  filled zero xs i v = xs
  filled (suc n) xs i v = filled n (set xs i v) (i + 1) v

  abbrev pub put_some : List A → ℕ → Option A → List A
  put_some xs i none = xs
  put_some xs i (some x) = set xs i x

  -- `n` elements from `at` on become those of `ys` from `i` on.
  unfoldable pub copied : ℕ → List A → ℕ → List A → ℕ → List A
  copied zero xs at ys i = xs
  copied (suc n) xs at ys i = copied n (put_some xs at (get_elem? ys i)) (at + 1) ys (i + 1)

  pub length-filled : (n : ℕ) (xs : List A) (i : ℕ) (v : A) → length (filled n xs i v) ≡ length xs
  unfolding filled
  length-filled zero xs i v = refl
  length-filled (suc n) xs i v = length-filled n (set xs i v) (i + 1) v ∙ length-set xs i v

  pub get-set :
      (xs : List A) (i j : ℕ) (v : A)
      → i < length xs
      → get_elem? (set xs i v) j ≡ (if i == j then some v else get_elem? xs j)
  get-set [] i j v lt = absurd (omega arith)
  get-set (x ∷ xs) zero zero v lt = refl
  get-set (x ∷ xs) zero (suc j) v lt = ground arith
  get-set (x ∷ xs) (suc i) zero v lt = ground arith
  get-set (x ∷ xs) (suc i) (suc j) v lt = ground (arith, get-set xs i j v)

  pub get_elem?-filled :
      (n : ℕ) (xs : List A) (i j : ℕ) (v : A)
      → i + n ≤ length xs
      → get_elem? (filled n xs i v) j ≡ (if inside i n j then some v else get_elem? xs j)
  unfolding filled
  get_elem?-filled zero xs i j v fits = ground arith
  get_elem?-filled (suc n) xs i j v fits =
      get_elem?-filled n (set xs i v) (i + 1) j v (omega (arith, length-set xs i v))
      ∙ ground (arith, get-set xs i j v)

  pub length-put_some : (xs : List A) (i : ℕ) (o : Option A) → length (put_some xs i o) ≡ length xs
  length-put_some xs i none = refl
  length-put_some xs i (some x) = length-set xs i x

  pub length-copied :
      (n : ℕ) (xs : List A) (at : ℕ) (ys : List A) (i : ℕ)
      → length (copied n xs at ys i) ≡ length xs
  unfolding copied
  length-copied zero xs at ys i = refl
  length-copied (suc n) xs at ys i =
      length-copied n (put_some xs at (get_elem? ys i)) (at + 1) ys (i + 1)
      ∙ length-put_some xs at (get_elem? ys i)

  pub get_in_bounds : (ys : List A) (i : ℕ) → i < length ys → (y : A) × (get_elem? ys i ≡ some y)
  get_in_bounds [] i lt = absurd (omega arith)
  get_in_bounds (y ∷ ys) zero lt = (y, refl)
  get_in_bounds (y ∷ ys) (suc i) lt = get_in_bounds ys i (omega arith)

  -- The first round writes index `at`, the others what lies behind it.
  copied_step :
      (xs ys : List A) (at i n j : ℕ) (y : A)
      → at + suc n ≤ length xs
      → get_elem? ys i ≡ some y
      → (if inside (at + 1) n j
          then get_elem? ys (i + 1 + (j - (at + 1)))
          else get_elem? (put_some xs at (get_elem? ys i)) j)
        ≡ (if inside at (suc n) j then get_elem? ys (i + (j - at)) else get_elem? xs j)
  copied_step xs ys at i n j y fits got = elim (dec_lt at j) [
    | yes behind ↦
        let e : i + 1 + (j - (at + 1)) ≡ i + (j - at) = omega arith in
        rw (e, got) (ground (arith, get-set xs at j y))
    | no before ↦ elim (ℕ_discrete at j) [
      | yes same ↦
          let e : i + (j - at) ≡ i = omega arith in rw (e, got) (ground (arith, get-set xs at j y))
      | no other ↦ rw got (ground (arith, get-set xs at j y))
    ]
  ]

  pub get_elem?-copied :
      (n : ℕ) (xs : List A) (at : ℕ) (ys : List A) (i j : ℕ)
      → at + n ≤ length xs
      → i + n ≤ length ys
      → get_elem? (copied n xs at ys i) j
        ≡ (if inside at n j then get_elem? ys (i + (j - at)) else get_elem? xs j)
  unfolding copied
  get_elem?-copied zero xs at ys i j fits has = ground arith
  get_elem?-copied (suc n) xs at ys i j fits has =
      let (y, got) = get_in_bounds ys i (omega arith) in
      get_elem?-copied n (put_some xs at (get_elem? ys i)) (at + 1) ys (i + 1) j
        (omega (arith, length-put_some xs at (get_elem? ys i))) (omega arith)
      ∙ copied_step xs ys at i n j y fits got
