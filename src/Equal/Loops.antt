-- ===== src/Equal/Loops.antt =====
-- The loops of `equal?` over lists and vectors, given what it answers for smaller objects.
use navi_scheme.Base.{
  ℕ, zero, suc, ◌+◌, ◌<◌, ◌≡◌, refl, Bool, true, false, ◌&&◌, List, [], ◌∷◌, length, ◌==◌, arith,
}
use navi_scheme.Types.{code, same_type}
use navi_scheme.Object.{Obj, ptr, Store}
use navi_scheme.Object.Run.{Cmd, ok, navi_type, is_type, is_pair}
use navi_scheme.Object.Chain.{PairAt, is_pair-ok, car-ok, cdr-ok}
use navi_scheme.Equal.{list_equal, elements_equal}
use navi_scheme.Equal.Datum.{
  Datum, self, pair_of, vector_of, bytes_of, text_of, Data, kind_of, Denotes, alone, paired, listed,
  bytes, text, DenoteAll, finished, also, same_datum, same_data, weight, weights,
}
use navi_scheme.Equal.Laws.{kind, Denotes-HasKind}

pub weight_positive : (x : Datum) → 0 < weight x
unfolding weight
weight_positive (self _) = omega arith
weight_positive (pair_of x y) = omega arith
weight_positive (vector_of l) = omega arith
weight_positive (bytes_of _) = omega arith
weight_positive (text_of _ _) = omega arith

is_pair-kind : {h : Store} {o : Obj} (x : Datum) → Denotes h o x → is_pair o h ≡ ok (kind x == 1) h
unfolding is_type navi_type same_type kind_of code
is_pair-kind x d = let k = Denotes-HasKind d in ground (arith, k.known, k.is)

and_false : (b : Bool) → (b && false) ≡ false
and_false true = refl
and_false false = refl

pub same_data-length :
    {h : Store} (xs ys : List Obj) {l m : Data}
    → DenoteAll h xs l
    → DenoteAll h ys m
    → (length xs == length ys) ≡ false
    → same_data l m ≡ false
unfolding same_data
same_data-length [] [] finished finished e = absurd (ground (arith, e))
same_data-length [] (o ∷ os) finished (also d ds) e = refl
same_data-length (o ∷ os) [] (also d ds) finished e = refl
same_data-length (o ∷ os) (q ∷ qs) (also {x = x} {l = l} d ds) (also {x = y} {l = m} c cs) e =
    let rest : same_data l m ≡ false = same_data-length os qs ds cs (ground (arith, e)) in
    rw rest (and_false (same_datum x y))

list_equal-both :
    (same : Obj → Obj → Cmd Bool) {h : Store} (k : ℕ) {p q : ℕ} {a d b e : Obj} {r s : Bool}
    → PairAt h p a d
    → PairAt h q b e
    → same a b h ≡ ok r h
    → list_equal same k d e h ≡ ok s h
    → list_equal same (suc k) (ptr p) (ptr q) h ≡ ok (r && s) h
unfolding list_equal
list_equal-both same k at bt one rest =
    ground
      (arith, is_pair-ok at, is_pair-ok bt, car-ok at, car-ok bt, cdr-ok at, cdr-ok bt, one, rest)

module _ (n : ℕ) (same : Obj → Obj → Cmd Bool) (h : Store)
    (ih : (a b : Obj) (x y : Datum)
      → Denotes h a x
      → Denotes h b y
      → weight x < n
      → same a b h ≡ ok (same_datum x y) h) where
  list_equal-not_both :
      (k : ℕ) (a b : Obj) (x y : Datum)
      → Denotes h a x
      → Denotes h b y
      → ((kind x == 1) && (kind y == 1)) ≡ false
      → weight x < n
      → list_equal same (suc k) a b h ≡ ok (same_datum x y) h
  unfolding list_equal
  list_equal-not_both k a b x y da db e lt =
      ground (arith, is_pair-kind x da, is_pair-kind y db, e, ih a b x y da db lt)

  pub list_equal-tail :
      (k : ℕ) {a b : Obj} {x y : Datum}
      → Denotes h a x
      → Denotes h b y
      → weight x < n
      → weight x < k
      → list_equal same k a b h ≡ ok (same_datum x y) h
  unfolding weight same_datum
  list_equal-tail zero da db lt lk = absurd (omega (arith, lk))
  list_equal-tail (suc k) {a} {b} {x} {y} (alone t known k0) db lt lk =
      list_equal-not_both k a b x y (alone t known k0) db (ground arith) lt
  list_equal-tail (suc k) {a} {b} {x} {y} (listed at all) db lt lk =
      list_equal-not_both k a b x y (listed at all) db (ground arith) lt
  list_equal-tail (suc k) {a} {b} {x} {y} (bytes at) db lt lk =
      list_equal-not_both k a b x y (bytes at) db (ground arith) lt
  list_equal-tail (suc k) {a} {b} {x} {y} (text s t at le e) db lt lk =
      list_equal-not_both k a b x y (text s t at le e) db (ground arith) lt
  list_equal-tail (suc k) {a} {b} {x} {y} (paired at da dd) (alone t known k0) lt lk =
      list_equal-not_both k a b x y (paired at da dd) (alone t known k0) (ground arith) lt
  list_equal-tail (suc k) {a} {b} {x} {y} (paired at da dd) (listed bt all) lt lk =
      list_equal-not_both k a b x y (paired at da dd) (listed bt all) (ground arith) lt
  list_equal-tail (suc k) {a} {b} {x} {y} (paired at da dd) (bytes bt) lt lk =
      list_equal-not_both k a b x y (paired at da dd) (bytes bt) (ground arith) lt
  list_equal-tail (suc k) {a} {b} {x} {y} (paired at da dd) (text s t bt le e) lt lk =
      list_equal-not_both k a b x y (paired at da dd) (text s t bt le e) (ground arith) lt
  list_equal-tail (suc k) (paired {a = a} {x = x} at da dd) (paired {a = b} {x = z} bt db de) lt
        lk =
      list_equal-both same k at bt (ih a b x z da db (omega (arith, lt)))
        (list_equal-tail k dd de (omega (arith, lt)) (omega (arith, lk)))

  -- Two lists, from their first pairs.
  pub list_equal-pairs :
      (k : ℕ) {p q : ℕ} {a d b e : Obj} {x y z w : Datum}
      → PairAt h p a d
      → PairAt h q b e
      → Denotes h a x
      → Denotes h d y
      → Denotes h b z
      → Denotes h e w
      → weight x + weight y < n
      → weight y < k
      → list_equal same (suc k) (ptr p) (ptr q) h ≡ ok (same_datum x z && same_datum y w) h
  list_equal-pairs k {p} {q} {a} {d} {b} {e} {x} {y} {z} {w} at bt da dd db de lt lk =
      list_equal-both same k at bt (ih a b x z da db (omega (arith, lt)))
        (list_equal-tail k dd de (omega (arith, lt)) lk)

  pub elements_equal-same_data :
      (xs ys : List Obj) {l m : Data}
      → DenoteAll h xs l
      → DenoteAll h ys m
      → (length xs == length ys) ≡ true
      → weights l < n
      → elements_equal same xs ys h ≡ ok (same_data l m) h
  unfolding elements_equal same_data weights
  elements_equal-same_data [] [] finished finished e lt = refl
  elements_equal-same_data [] (o ∷ os) finished (also d ds) e lt = absurd (ground (arith, e))
  elements_equal-same_data (o ∷ os) [] (also d ds) finished e lt = absurd (ground (arith, e))
  elements_equal-same_data (o ∷ os) (q ∷ qs) (also {x = x} {l = l} d ds) (also {x = y} {l = m} c cs)
        e lt =
      ground (
        arith,
        e,
        ih o q x y d c (omega (arith, lt)),
        elements_equal-same_data os qs ds cs (ground (arith, e)) (omega (arith, lt)),
      )
