-- ===== src/Libraries/Table.antt =====
-- Registering a library and finding it.
use navi_scheme.Base.{
  ℕ, zero, suc, ◌/◌, ◌%◌, ◌<◌, ◌≡◌, refl, ◌==◌, true, some, List, ◌∷◌, arith, length, ==_iff, ap,
  sym, false, [], Bool-cases, inl, inr, if◌then◌else◌,
}
use Prim.Native.Nat.{bit_xor}
use navi_scheme.Object.{Obj, ptr, nil, Store, eqp}
use navi_scheme.Object.Encode.{encode, eq_of_eqp}
use navi_scheme.Object.Run.{ok}
use navi_scheme.Object.Returns.{Returns, returns}
use navi_scheme.Object.Chain.{Chain, done, link, nil-IsEnd, is_pair-ok, is_pair-end, car-ok, cdr-ok}
use navi_scheme.Libraries.{
  libname_hash_loop, libname_hash, LibraryTable, register_library, find_library, find_in_bucket,
}
use navi_scheme.Libraries.Names.{libname_equal-same_parts, same_parts}

-- The hash of a name, from its parts.
abbrev hash_parts : ℕ → List Obj → ℕ
hash_parts hash [] = hash
hash_parts hash (x ∷ xs) = hash_parts (bit_xor hash (encode x / 2)) xs

-- Objects that are eq? have the same word.
encode_same : (x y : Obj) → eqp x y ≡ true → encode x ≡ encode y
encode_same x y e = ap encode (eq_of_eqp x y e)

hash_same_parts :
    (hash : ℕ) (xs ys : List Obj)
    → same_parts xs ys ≡ true
    → hash_parts hash xs ≡ hash_parts hash ys
hash_same_parts hash [] [] e = refl
hash_same_parts hash [] (y ∷ ys) e = absurd (cc (e))
hash_same_parts hash (x ∷ xs) [] e = absurd (cc (e))
hash_same_parts hash (x ∷ xs) (y ∷ ys) e =
    let head : eqp x y ≡ true = ground (arith, e) in
    let tail : same_parts xs ys ≡ true = ground (arith, e) in
    rw (encode_same x y head) (hash_same_parts (bit_xor hash (encode y / 2)) xs ys tail)

hash_same :
    (x y : Obj) (xs ys : List Obj)
    → same_parts (x ∷ xs) (y ∷ ys) ≡ true
    → hash_parts (encode y) ys % 64 ≡ hash_parts (encode x) xs % 64
hash_same x y xs ys e =
    let head : eqp x y ≡ true = ground (arith, e) in
    let tail : same_parts xs ys ≡ true = ground (arith, e) in
    ap (λ v. v % 64) (sym (rw (encode_same x y head) (hash_same_parts (encode y) xs ys tail)))

module _ {h : Store} {n : ℕ} where
  hash_loop_value :
      (k hash : ℕ) {o : Obj} {xs : List Obj}
      → Chain h n nil o xs
      → length xs < k
      → libname_hash_loop k o hash h ≡ ok (hash_parts hash xs) h
  unfolding libname_hash_loop
  hash_loop_value zero hash c fuel = absurd (omega arith)
  hash_loop_value (suc k) hash done fuel = rw (is_pair-end (nil-IsEnd h n)) refl
  hash_loop_value (suc k) hash (link {a = a} lt at c) fuel =
      rw (is_pair-ok at, car-ok at, cdr-ok at)
        (hash_loop_value k (bit_xor hash (encode a / 2)) c (omega arith))

  hash_value :
      (k : ℕ) {p : ℕ} {x : Obj} {xs : List Obj}
      → Chain h n nil (ptr p) (x ∷ xs)
      → length (x ∷ xs) < k
      → libname_hash k (ptr p) h ≡ ok (hash_parts (encode x) xs) h
  unfolding libname_hash
  hash_value k {x = x} (link lt at c) fuel =
      rw (car-ok at, cdr-ok at) (hash_loop_value k (encode x) c (omega arith))

  -- A library in front of a bucket is found under its name, and the others as before.
  find_in_bucket-cons :
      (k : ℕ) (entries : List Obj) {a b : Obj} {xs ys : List Obj}
      → Chain h n nil a xs
      → Chain h n nil b ys
      → length xs < k
      → find_in_bucket k (a ∷ entries) b h
        ≡ (if same_parts xs ys then ok (some a) h else find_in_bucket k entries b h)
  unfolding find_in_bucket
  find_in_bucket-cons k entries {xs} {ys} c d fuel =
      rw (libname_equal-same_parts k c d fuel)
        (elim (Bool-cases (same_parts xs ys)) [ inl e ↦ rw e refl | inr e ↦ rw e refl ])

  -- After `register_library` of a name, `find_library` of any name, which may be another list with the
  -- same parts, finds the new library if the names agree part by part, ahead of one registered before,
  -- and finds what it found before if they do not; neither changes the heap.
  pub find-register :
      (k : ℕ) (t : LibraryTable) {p q : ℕ} {x y : Obj} {xs ys : List Obj}
      → Chain h n nil (ptr p) (x ∷ xs)
      → Chain h n nil (ptr q) (y ∷ ys)
      → length (x ∷ xs) < k
      → length (y ∷ ys) < k
      → Returns
          (λ t' g.
            (g ≡ h)
            × (find_library k t' (ptr q) h ≡ (
                if same_parts (x ∷ xs) (y ∷ ys)
                then ok (some (ptr p)) h
                else find_library k t (ptr q) h)))
          (register_library k t (ptr p) h)
  unfolding register_library find_library find_in_bucket
  find-register k t {p} {q} {x} {y} {xs} {ys} c d fuel fuel' =
      let v : ℕ = hash_parts (encode x) xs in
      let w : ℕ = hash_parts (encode y) ys in
      rw (hash_value k c fuel) (
        returns (
          refl,
          rw (hash_value k d fuel') (elim (Bool-cases (w % 64 == v % 64)) [
            | inl e ↦ rw e (find_in_bucket-cons k (t.bucket (w % 64)) c d fuel)
            | inr e ↦
                let other : same_parts (x ∷ xs) (y ∷ ys) ≡ false =
                  elim (Bool-cases (same_parts (x ∷ xs) (y ∷ ys))) [
                    | inl s ↦ absurd (cc (e, (==_iff (w % 64) (v % 64)).1 (hash_same x y xs ys s)))
                    | inr s ↦ s
                  ] in
                rw (e, other) refl
          ]),
        ))
