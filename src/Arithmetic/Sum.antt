-- ===== src/Arithmetic/Sum.antt =====
-- `+` on fixnums whose sums stay in range.
use navi_scheme.Base.{
  ℕ, zero, suc, ◌+◌, ◌%◌, ◌^◌, ◌<◌, ◌≤◌, ◌≡◌, refl, ap, ◌∙◌, List, [], ◌∷◌, map, arith, length,
}
use navi_scheme.Base.Int.{ℤ, ◌+ℤ◌}
use navi_scheme.Types.{NaviType, same_type, code}
use navi_scheme.Object.{Obj, nil, fixnum, Store, type_in}
use navi_scheme.Object.Encode.{encode, Fits}
use navi_scheme.Object.Run.{ok, navi_type}
use navi_scheme.Object.Chain.{
  Chain, done, link, nil-IsEnd, is_pair-ok, is_pair-end, is_nil-ok, car-ok, cdr-ok,
}
use navi_scheme.Checks.{type_check}
use navi_scheme.Word.{word_mod, pattern_of, fixnum_of, make_fixnum, fixnum_plus}
use navi_scheme.Word.Fixnum.{fixnum_plus_lem}
use navi_scheme.Arithmetic.{fold_words, of_word, arithmetic_fold, fold_or_unit, scm_add}

pattern_of-lt : (a : ℤ) → Fits (fixnum a) → pattern_of a < 2 ^ 64
unfolding Fits
pattern_of-lt a fa = ground arith

pattern_of-add :
    (a b : ℤ)
    → Fits (fixnum a)
    → Fits (fixnum b)
    → Fits (fixnum (a +ℤ b))
    → (pattern_of a + pattern_of b) % word_mod ≡ pattern_of (a +ℤ b)
unfolding Fits ◌+ℤ◌
pattern_of-add a b fa fb f = ground arith

fixnum_plus-encode :
    (a b : ℤ)
    → Fits (fixnum a)
    → Fits (fixnum b)
    → Fits (fixnum (a +ℤ b))
    → fixnum_plus (encode (fixnum a)) (encode (fixnum b)) ≡ encode (fixnum (a +ℤ b))
unfolding encode
fixnum_plus-encode a b fa fb f =
    fixnum_plus_lem (pattern_of a) (pattern_of b) (pattern_of-lt a fa) (pattern_of-lt b fb)
    ∙ ap make_fixnum (pattern_of-add a b fa fb f)

of_word-encode : (a : ℤ) → Fits (fixnum a) → of_word (encode (fixnum a)) ≡ fixnum a
unfolding of_word encode fixnum_of make_fixnum Fits
of_word-encode a f = ground arith

-- The numbers are added one after another, and every sum fits a fixnum.
pub data Sums : ℤ → List ℤ → ℤ → Type 0 where
  summed : {s : ℤ} → Sums s [] s
  add :
      {s t n : ℤ} {ns : List ℤ}
      → Fits (fixnum n)
      → Fits (fixnum (s +ℤ n))
      → Sums (s +ℤ n) ns t
      → Sums s (n ∷ ns) t

Sums-Fits : {s t : ℤ} {ns : List ℤ} → Fits (fixnum s) → Sums s ns t → Fits (fixnum t)
Sums-Fits f summed = f
Sums-Fits f (add fn fs ss) = Sums-Fits fs ss

module _ {h : Store} where
  fixnum-ok : (a : ℤ) → type_check (fixnum a) NaviType.fixnum h ≡ ok (fixnum a) h
  unfolding type_check navi_type type_in same_type code
  fixnum-ok a = refl

module _ {h : Store} {n : ℕ} where
  fold_words-Sums :
      (k : ℕ) {o : Obj} {s t : ℤ} (ns : List ℤ)
      → Fits (fixnum s)
      → Sums s ns t
      → Chain h n nil o (map fixnum ns)
      → length ns < k
      → fold_words fixnum_plus k o (encode (fixnum s)) h ≡ ok (encode (fixnum t)) h
  unfolding fold_words
  fold_words-Sums zero ns f ss c fuel = absurd (omega arith)
  fold_words-Sums (suc k) [] f summed done fuel = rw (is_pair-end (nil-IsEnd h n)) refl
  fold_words-Sums (suc k) {s = s} (m ∷ ns) f (add fm fs ss) (link lt at c) fuel =
      rw (is_pair-ok at, car-ok at, fixnum-ok m, cdr-ok at, fixnum_plus-encode s m f fm fs)
        (fold_words-Sums k ns fs ss c (omega arith))

  -- `+` of fixnums, two at least, is their sum where every partial sum fits a fixnum.
  pub scm_add-Sums :
      (k : ℕ) {o : Obj} {t : ℤ} (a b : ℤ) (ns : List ℤ)
      → Fits (fixnum a)
      → Sums a (b ∷ ns) t
      → Chain h n nil o (map fixnum (a ∷ b ∷ ns))
      → length (a ∷ b ∷ ns) ≤ k
      → scm_add k o h ≡ ok (fixnum t) h
  unfolding scm_add fold_or_unit arithmetic_fold
  scm_add-Sums k {t = t} a b ns f ss (link lt at (link lt' at' c)) fuel =
      rw
        (
          is_nil-ok at,
          cdr-ok at,
          is_nil-ok at',
          car-ok at,
          fixnum-ok a,
          cdr-ok at,
          fold_words-Sums k (b ∷ ns) f ss (link lt' at' c) (omega arith),
        )
        (ap (λ o. ok o h) (of_word-encode t (Sums-Fits f ss)))
