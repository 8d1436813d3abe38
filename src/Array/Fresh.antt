-- ===== src/Array/Fresh.antt =====
-- A new array that takes a run of the elements of another one.
use navi_scheme.Base.{ℕ, ◌+◌, ◌≤◌, ◌<◌, ◌≡◌, refl, ◌∙◌, some, List, arith, length, get_elem?}
use navi_scheme.Object.{Obj, ptr, Cell, Store, IsStore, extend}
use navi_scheme.Object.Returns.{Returns, returns}
use navi_scheme.Object.Returns
use navi_scheme.Object.Chain.{SameBelow, SameBelow-extend, SameBelow-trans, next-extend}
use navi_scheme.Array.{Layout, copy_loop}
use navi_scheme.Array.Laws.{ArrayAt, copy_loop-IsCopied}

-- What is stored in a heap lies at an allocated address.
pub allocated : {h : Store} (p : ℕ) {c : Cell} → IsStore h → h.cell p ≡ some c → p < h.next
allocated {h} p {c} is holds = ground (arith, is.fresh p)

-- `o` is a new array of the `n` elements of `ys` from `i` on, and the old heap is kept.
pub record IsSlice {A : Type 0} (L : Layout A) (h : Store) (ys : List A) (i n : ℕ) (o : Obj)
    (g : Store) : Type 0 where
  pub address : o ≡ ptr h.next
  pub contents : List A
  pub array : ArrayAt L g h.next contents
  pub length_is : length contents ≡ n
  pub each : (j : ℕ) → j < n → get_elem? contents j ≡ get_elem? ys (i + j)
  pub same : SameBelow h.next h g
  pub grown : g.next ≡ h.next + 1

module _ {A : Type 0} (L : Layout A) {h : Store} (is : IsStore h) where
  pub ArrayAt-extend :
      {q : ℕ} {ys : List A} (c : Cell) → ArrayAt L h q ys → ArrayAt L (extend h c) q ys
  ArrayAt-extend {q} c b = record {
    cell = b.cell;
    holds = (SameBelow-extend h c).at q (allocated q is b.holds) ∙ b.holds;
    viewed = b.viewed;
  }

  pub copy_loop-IsSlice :
      (n : ℕ) {q : ℕ} {ys blank : List A} (i : ℕ) (c : Cell)
      → ArrayAt L (extend h c) h.next blank
      → length blank ≡ n
      → ArrayAt L h q ys
      → i + n ≤ length ys
      → Returns
          (λ _ g. IsSlice L h ys i n (ptr h.next) g)
          (copy_loop L n (ptr h.next) 0 (ptr q) i (extend h c))
  copy_loop-IsSlice n {q} {ys} {blank} i c new size b has =
      Returns.weaken
        (copy_loop-IsCopied L new n 0 i (ArrayAt-extend c b)
          (λ e. absurd (omega (arith, e, allocated q is b.holds))) (omega arith) has)
        λ _ g is. record {
          address = refl;
          contents = is.contents;
          array = is.array;
          length_is = is.same_size ∙ size;
          each = λ j lt. ground (arith, is.each j);
          same =
              SameBelow-trans {m = h.next} (omega arith) (SameBelow-extend h c)
                (record { at = λ q lt. is.only.at q (omega arith) });
          grown = is.only.next ∙ next-extend h c;
        }
