-- ===== src/Bytevector/Build.antt =====
-- `bytevector` and `bytevector-append`.
use navi_scheme.Base.{
  ℕ, zero, suc, ◌+◌, ◌≤◌, ◌<◌, ◌≡◌, refl, ap, sym, ◌∙◌, List, [], ◌∷◌, ◌++◌, arith, length,
  length-append, length-tabulate, tabulate, get_elem?, drop, length-drop, some, set,
}
use mathlib.Core.List.{append_assoc, append-nil}
use navi_scheme.Types.{same_type, code}
use navi_scheme.Object.{Obj, ptr, bytevec, Store, extend, type_in, cell_type}
use navi_scheme.Object.Run.{ok, make_object, navi_type}
use navi_scheme.Object.Returns.{Returns, returns}
use navi_scheme.Object.Returns
use navi_scheme.Object.Chain.{
  Chain, done, link, Chain-same, IsEnd, IsEnd-same, PairAt-same, SameBelow, SameBelow-trans,
  SameBelow-extend, is_pair-ok, is_pair-end, car-ok, cdr-ok,
}
use navi_scheme.Array.Slice.{copied}
use navi_scheme.Array.Laws.{ArrayAt, OnlyAt, OnlyAt-refl, OnlyAt-trans, size-ok, copy_loop-copied}
use navi_scheme.Checks.{type_check}
use navi_scheme.Vector.Convert.{SameBelow-only, set-append}
use navi_scheme.Bytevector.{
  bytevec_layout, view_bytevec, make_bytevec, sum_sizes, cast_size, append_bytes,
  scm_bytevector_append,
}
use navi_scheme.Bytevector.Move.{made-bytevec}

-- Bytevectors below `n`, and their bytes in order.
pub data Parts (h : Store) (n : ℕ) : List Obj → List ℕ → Type 0 where
  no_parts : Parts h n [] []
  part :
      {p : ℕ} {xs : List ℕ} {os : List Obj} {ys : List ℕ}
      → p < n
      → ArrayAt bytevec_layout h p xs
      → Parts h n os ys
      → Parts h n (ptr p ∷ os) (xs ++ ys)

Parts-same :
    {h g : Store} {n : ℕ} {os : List Obj} {ys : List ℕ}
    → SameBelow n h g
    → Parts h n os ys
    → Parts g n os ys
Parts-same s no_parts = no_parts
Parts-same s (part lt a ps) =
    part lt (record { cell = a.cell; holds = s.at _ lt ∙ a.holds; viewed = a.viewed })
      (Parts-same s ps)

get-append :
    {A : Type 0} (front back : List A) (x : A)
    → get_elem? (front ++ x ∷ back) (length front) ≡ some x
get-append [] back x = refl
get-append (y ∷ front) back x = get-append front back x

copied-suc :
    {A : Type 0} (n : ℕ) (xs : List A) (at : ℕ) (ys : List A) (i : ℕ) {y : A}
    → get_elem? ys i ≡ some y
    → copied (suc n) xs at ys i ≡ copied n (set xs at y) (at + 1) ys (i + 1)
unfolding copied
copied-suc n xs at ys i got = rw (got) refl

-- A copy of the whole rest of a list over the elements behind `front`.
copied-append :
    {A : Type 0} (xs front back pre : List A)
    → length xs ≤ length back
    → copied (length xs) (front ++ back) (length front) (pre ++ xs) (length pre)
      ≡ (front ++ xs) ++ drop (length xs) back
unfolding copied
copied-append [] front back pre le = rw (append-nil) refl
copied-append (x ∷ xs) front [] pre le = absurd (omega arith)
copied-append (x ∷ xs) front (b ∷ back) pre le =
    let grown : length front + 1 ≡ length (front ++ x ∷ []) =
      omega (arith, length-append front (x ∷ [])) in
    let read : length pre + 1 ≡ length (pre ++ x ∷ []) =
      omega (arith, length-append pre (x ∷ [])) in
    let rest = copied-append xs (front ++ x ∷ []) back (pre ++ x ∷ []) (omega arith) in
    copied-suc (length xs) (front ++ b ∷ back) (length front) (pre ++ x ∷ xs) (length pre)
      (get-append pre xs x)
    ∙ rw
        (
          set-append front back b x,
          grown,
          read,
          sym (append_assoc pre (x ∷ []) xs),
          sym (append_assoc front (x ∷ []) xs),
        )
        rest

cast_size-ok :
    {h : Store} {p : ℕ} {xs : List ℕ}
    → ArrayAt bytevec_layout h p xs
    → cast_size (ptr p) h ≡ ok (length xs) h
unfolding cast_size type_check navi_type type_in cell_type same_type code bytevec_layout
    view_bytevec
cast_size-ok a = ground (arith, size-ok bytevec_layout a)

module _ {n : ℕ} {end : Obj} where
  sum_sizes-length :
      (k : ℕ) {h : Store} {o : Obj} (total : ℕ) {os : List Obj} {ys : List ℕ}
      → IsEnd h n end
      → Chain h n end o os
      → Parts h n os ys
      → length os < k
      → sum_sizes k o total h ≡ ok (total + length ys) h
  unfolding sum_sizes
  sum_sizes-length zero total e c ps fuel = absurd (omega arith)
  sum_sizes-length (suc k) {h} total e done no_parts fuel =
      rw (is_pair-end e) (ap (λ s. ok s h) (omega arith))
  sum_sizes-length (suc k) {h} total e (link lt at c) (part {xs} {ys} _ a ps) fuel =
      rw
        (
          is_pair-ok at,
          car-ok at,
          cast_size-ok a,
          cdr-ok at,
          sum_sizes-length k (total + length xs) e c ps (omega arith),
        )
        (ap (λ s. ok s h) (omega (arith, length-append xs ys)))

  append_bytes-append :
      (k : ℕ) (h : Store) {p : ℕ} {o : Obj} (front back : List ℕ) {os : List Obj} {ys : List ℕ}
      → n ≤ p
      → IsEnd h n end
      → Chain h n end o os
      → Parts h n os ys
      → ArrayAt bytevec_layout h p (front ++ back)
      → length back ≡ length ys
      → length os < k
      → Returns
          (λ _ g. ArrayAt bytevec_layout g p (front ++ ys) × OnlyAt p h g)
          (append_bytes k o (ptr p) (length front) h)
  unfolding append_bytes
  append_bytes-append zero h front back new e c ps a same fuel = absurd (omega arith)
  append_bytes-append (suc k) h {p} front [] new e done no_parts a same fuel =
      rw (is_pair-end e) (returns (a, OnlyAt-refl p h))
  append_bytes-append (suc k) h front (b ∷ back) new e done no_parts a same fuel =
      absurd (omega arith)
  append_bytes-append (suc k) h {p} front back new e (link lt at c)
        (part {p = q} {xs} {ys} below b ps) a same fuel =
      let size : length back ≡ length xs + length ys = omega (arith, length-append xs ys) in
      rw (is_pair-ok at, car-ok at, size-ok bytevec_layout b)
        (Returns.bind
          (copy_loop-copied bytevec_layout (length xs) (length front) 0 a b
            (λ eq. absurd (omega arith)) (omega (arith, length-append front back)) (omega arith))
          λ _ g (a', only).
            let kept : SameBelow n h g = SameBelow-only new only in
            let grown : length front + length xs ≡ length (front ++ xs) =
              omega (arith, length-append front xs) in
            rw (cdr-ok (PairAt-same kept lt at), grown)
              (Returns.weaken
                (append_bytes-append k g (front ++ xs) (drop (length xs) back) new
                  (IsEnd-same kept end e) (Chain-same kept c) (Parts-same kept ps)
                  (rw (copied-append xs front back [] (omega arith)) at a')
                  (omega (arith, length-drop (length xs) back)) (omega arith))
                λ _ f (a2, only'). (rw append_assoc at a2, OnlyAt-trans only only')))

-- `bytevector-append` of bytevectors returns a new one with their bytes one after another, whatever the
-- new memory held, and keeps the old heap.
pub scm_bytevector_append-append :
    (left : ℕ → ℕ) (k : ℕ) (h : Store) {end o : Obj} {os : List Obj} {ys : List ℕ}
    → IsEnd h h.next end
    → Chain h h.next end o os
    → Parts h h.next os ys
    → length os < k
    → Returns
        (λ v g. (v ≡ ptr h.next) × ArrayAt bytevec_layout g h.next ys × SameBelow h.next h g)
        (scm_bytevector_append left k o h)
unfolding scm_bytevector_append make_bytevec make_object
scm_bytevector_append-append left k h {end} {ys} e c ps fuel =
    let h1 : Store = extend h (bytevec (tabulate (length ys) left)) in
    let made : SameBelow h.next h h1 = SameBelow-extend h _ in
    let none_yet : 0 + length ys ≡ length ys = omega arith in
    rw (sum_sizes-length k 0 e c ps fuel, none_yet)
      (Returns.bind
        (append_bytes-append k h1 {p = h.next} [] (tabulate (length ys) left) (omega arith)
          (IsEnd-same made end e) (Chain-same made c) (Parts-same made ps)
          (made-bytevec left (length ys) h) (length-tabulate (length ys) left) fuel)
        λ _ g (a, only). returns (
          refl,
          a,
          SameBelow-trans {m = h.next} (omega arith) made (SameBelow-only (omega arith) only),
        ))
