-- ===== src/Equal/Laws.antt =====
-- `equal?` compares what two objects denote.
use navi_scheme.Base.{
  ℕ, zero, suc, ◌≤◌, ◌≡◌, refl, ap, true, false, some, List, [], ◌∷◌, length, take, ◌==◌, arith,
}
use navi_scheme.Types.{NaviType, code, same_type}
use navi_scheme.Object.{Obj, Store, type_in, cell_type}
use navi_scheme.Object.Run.{ok}
use navi_scheme.Equal.{bytes_match}
use navi_scheme.Equal.Datum.{
  Datum, self, pair_of, vector_of, bytes_of, text_of, kind_of, Denotes, alone, paired, listed,
  bytes, text, same_bytes,
}

-- Where two buffers have at least `n` bytes, their first `n` bytes are compared.
pub bytes_match-take :
    (n : ℕ) (xs ys : List ℕ) (h : Store)
    → n ≤ length xs
    → n ≤ length ys
    → bytes_match n xs ys h ≡ ok (same_bytes (take n xs) (take n ys)) h
unfolding bytes_match
bytes_match-take zero xs ys h a b = refl
bytes_match-take (suc n) [] ys h a b = absurd (omega (arith, a))
bytes_match-take (suc n) (x ∷ xs) [] h a b = absurd (omega (arith, b))
bytes_match-take (suc n) (x ∷ xs) (y ∷ ys) h a b =
    ground (arith, bytes_match-take n xs ys h (omega (arith, a)) (omega (arith, b)))

pub take_all : (xs : List ℕ) → take (length xs) xs ≡ xs
take_all [] = refl
take_all (x ∷ xs) = ap (λ l. x ∷ l) (take_all xs)

pub same_bytes-length :
    (xs ys : List ℕ) → (length xs == length ys) ≡ false → same_bytes xs ys ≡ false
same_bytes-length [] [] e = absurd (ground (arith, e))
same_bytes-length [] (y ∷ ys) e = refl
same_bytes-length (x ∷ xs) [] e = refl
same_bytes-length (x ∷ xs) (y ∷ ys) e = ground (arith, e, same_bytes-length xs ys)

pub length_take : (n : ℕ) (xs : List ℕ) → n ≤ length xs → length (take n xs) ≡ n
length_take zero xs h = refl
length_take (suc n) [] h = absurd (omega (arith, h))
length_take (suc n) (x ∷ xs) h = ap suc (length_take n xs (omega (arith, h)))

-- The kind of an object's type is that of what it denotes.
abbrev pub kind : Datum → ℕ
kind (self _) = 0
kind (pair_of _ _) = 1
kind (vector_of _) = 2
kind (bytes_of _) = 3
kind (text_of _ _) = 4

pub record HasKind (h : Store) (o : Obj) (k : ℕ) : Type 0 where
  pub type : NaviType
  pub known : type_in h o ≡ some type
  pub is : kind_of type ≡ k

pub Denotes-HasKind : {h : Store} {o : Obj} {x : Datum} → Denotes h o x → HasKind h o (kind x)
unfolding type_in cell_type kind_of code
Denotes-HasKind (alone t known k) = record { type = t; known = known; is = k }
Denotes-HasKind (paired {p} at a d) = record {
  type = NaviType.pair;
  known = ground (arith, at.holds);
  is = refl;
}
Denotes-HasKind (listed {p} at all) = record {
  type = NaviType.vector;
  known = ground (arith, at);
  is = refl;
}
Denotes-HasKind (bytes {p} at) = record {
  type = NaviType.bytevec;
  known = ground (arith, at);
  is = refl;
}
Denotes-HasKind (text {p} s t at le e) = record {
  type = NaviType.string;
  known = ground (arith, at);
  is = refl;
}

pub same_type-kind : (s t : NaviType) → same_type s t ≡ true → kind_of s ≡ kind_of t
unfolding same_type kind_of
same_type-kind s t e = ground (arith, e)
