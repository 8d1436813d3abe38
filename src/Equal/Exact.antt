-- ===== src/Equal/Exact.antt =====
-- `equal?` is true exactly where two objects denote the same datum.
use navi_scheme.Base.{ℕ, ◌<◌, ◌≡◌, ◌↔◌, refl, ap, Bool, true, List, [], ◌∷◌, arith}
use navi_scheme.Object.{Obj, Store, bool}
use navi_scheme.Object.Run.{ok}
use navi_scheme.Object.Encode.{eqp_refl, eq_of_eqp}
use navi_scheme.Equal.{scm_equalp}
use navi_scheme.Equal.Datum.{
  Datum, self, pair_of, vector_of, bytes_of, text_of, Data, none, more, Denotes, same_bytes,
  same_datum, same_data, weight,
}
use navi_scheme.Equal.Same.{equalp-same_datum}

same_bytes-eq : (xs ys : List ℕ) → same_bytes xs ys ≡ true → xs ≡ ys
same_bytes-eq [] [] e = refl
same_bytes-eq [] (y ∷ ys) e = absurd (cc (e))
same_bytes-eq (x ∷ xs) [] e = absurd (cc (e))
same_bytes-eq (x ∷ xs) (y ∷ ys) e = ground (arith, e, same_bytes-eq xs ys)

same_bytes_refl : (xs : List ℕ) → same_bytes xs xs ≡ true
same_bytes_refl [] = refl
same_bytes_refl (x ∷ xs) = ground (arith, same_bytes_refl xs)

mutual
  unfolding same_datum

  same_datum-eq : (x y : Datum) → same_datum x y ≡ true → x ≡ y
  same_datum-eq (self a) (self b) e = ap self (eq_of_eqp a b e)
  same_datum-eq (self a) (pair_of b d) e = absurd (cc (e))
  same_datum-eq (self a) (vector_of b) e = absurd (cc (e))
  same_datum-eq (self a) (bytes_of b) e = absurd (cc (e))
  same_datum-eq (self a) (text_of b d) e = absurd (cc (e))
  same_datum-eq (pair_of a c) (self b) e = absurd (cc (e))
  same_datum-eq (pair_of a c) (pair_of b d) e =
      ground (arith, e, same_datum-eq a b, same_datum-eq c d)
  same_datum-eq (pair_of a c) (vector_of b) e = absurd (cc (e))
  same_datum-eq (pair_of a c) (bytes_of b) e = absurd (cc (e))
  same_datum-eq (pair_of a c) (text_of b d) e = absurd (cc (e))
  same_datum-eq (vector_of a) (self b) e = absurd (cc (e))
  same_datum-eq (vector_of a) (pair_of b d) e = absurd (cc (e))
  same_datum-eq (vector_of a) (vector_of b) e = ap vector_of (same_data-eq a b e)
  same_datum-eq (vector_of a) (bytes_of b) e = absurd (cc (e))
  same_datum-eq (vector_of a) (text_of b d) e = absurd (cc (e))
  same_datum-eq (bytes_of a) (self b) e = absurd (cc (e))
  same_datum-eq (bytes_of a) (pair_of b d) e = absurd (cc (e))
  same_datum-eq (bytes_of a) (vector_of b) e = absurd (cc (e))
  same_datum-eq (bytes_of a) (bytes_of b) e = ap bytes_of (same_bytes-eq a b e)
  same_datum-eq (bytes_of a) (text_of b d) e = absurd (cc (e))
  same_datum-eq (text_of a c) (self b) e = absurd (cc (e))
  same_datum-eq (text_of a c) (pair_of b d) e = absurd (cc (e))
  same_datum-eq (text_of a c) (vector_of b) e = absurd (cc (e))
  same_datum-eq (text_of a c) (bytes_of b) e = absurd (cc (e))
  same_datum-eq (text_of a c) (text_of b d) e = ground (arith, e, same_bytes-eq c d)

  same_data-eq : (l m : Data) → same_data l m ≡ true → l ≡ m
  same_data-eq none none e = refl
  same_data-eq none (more y m) e = absurd (cc (e))
  same_data-eq (more x l) none e = absurd (cc (e))
  same_data-eq (more x l) (more y m) e = ground (arith, e, same_datum-eq x y, same_data-eq l m)

mutual
  unfolding same_datum

  same_datum_refl : (x : Datum) → same_datum x x ≡ true
  same_datum_refl (self o) = eqp_refl o
  same_datum_refl (pair_of x y) = ground (arith, same_datum_refl x, same_datum_refl y)
  same_datum_refl (vector_of l) = same_data_refl l
  same_datum_refl (bytes_of xs) = same_bytes_refl xs
  same_datum_refl (text_of n xs) = ground (arith, same_bytes_refl xs)

  same_data_refl : (l : Data) → same_data l l ≡ true
  same_data_refl none = refl
  same_data_refl (more x l) = ground (arith, same_datum_refl x, same_data_refl l)

-- With fuel for the first datum, `equal?` returns, and it returns true exactly for equal data.
pub scm_equalp-same :
    (n : ℕ) (h : Store) (a b : Obj) (x y : Datum)
    → Denotes h a x
    → Denotes h b y
    → weight x < n
    → (r : Bool) × (scm_equalp n a b h ≡ ok (bool r) h) × ((r ≡ true) ↔ (x ≡ y))
unfolding scm_equalp
scm_equalp-same n h a b x y da db lt = (
  same_datum x y,
  rw (equalp-same_datum h n a b x y da db lt) refl,
  (same_datum-eq x y, λ e. rw e (same_datum_refl y)),
)
