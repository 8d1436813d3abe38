-- ===== src/Vector/Convert.antt =====
-- Lists to vectors and back.
use mathlib.Core.List.{append_assoc}
use navi_scheme.Base.{
  ℕ, zero, suc, ◌+◌, ◌≤◌, ◌<◌, ◌≡◌, ◌≢◌, refl, ◌%◌, ap, ◌∙◌, List, [], ◌∷◌, ◌++◌, arith, length,
  set, replicate, length-replicate, length-append,
}
use navi_scheme.Object.{Obj, void, nil, ptr, pair, vector, Store, extend, write}
use navi_scheme.Object.Run.{make_object, make_pair, ◌>>=◌}
use navi_scheme.Object.Returns.{Returns, returns}
use navi_scheme.Object.Returns
use navi_scheme.Object.Chain.{
  PairAt, Chain, done, link, Chain-same, Chain-but, Chain-mono, IsEnd, IsEnd-same, PairAt-same,
  SameBelow, SameBelow-refl, SameBelow-mono, SameBelow-trans, SameBelow-extend, SameBut-write,
  Visited, Visited-mono, Visited-but, next-extend, next-write, made-pair, written-pair, is_pair-ok,
  is_pair-end, car-ok, cdr-ok, set_cdr-ok,
}
use navi_scheme.Array.Laws.{ArrayAt, OnlyAt, OnlyAt-refl, OnlyAt-trans, assign-ArrayAt, elements-ok}
use navi_scheme.Lists.Read.{int_max}
use navi_scheme.Lists.Read.Laws.{list_length-length}
use navi_scheme.Lists.Build.Copy.{IsCopy}
use navi_scheme.Vector.{
  unsigned_mod, vector_layout, make_vector, list_to_vector_loop, list_to_vector, link_elements,
  vector_to_list,
}

pub set-append :
    {A : Type 0} (front back : List A) (b x : A)
    → set (front ++ b ∷ back) (length front) x ≡ (front ++ x ∷ []) ++ back
set-append [] back b x = refl
set-append (y ∷ front) back b x = ap (λ l. y ∷ l) (set-append front back b x)

pub SameBelow-only : {n p : ℕ} {h g : Store} → n ≤ p → OnlyAt p h g → SameBelow n h g
SameBelow-only le o = record { at = λ q lt. o.at q (omega arith) }

-- A fresh vector, not initialised.
pub made-vector :
    (n : ℕ) (h : Store)
    → ArrayAt vector_layout (extend h (vector (replicate n void))) h.next (replicate n void)
unfolding vector_layout extend write
made-vector n h = record { cell = vector (replicate n void); holds = ground arith; viewed = refl }

module _ {n : ℕ} {end : Obj} where
  list_to_vector_loop-append :
      (k : ℕ) (h : Store) {p : ℕ} {o : Obj} (front back : List Obj) {xs : List Obj}
      → n ≤ p
      → IsEnd h n end
      → Chain h n end o xs
      → ArrayAt vector_layout h p (front ++ back)
      → length back ≡ length xs
      → length xs < k
      → length front + length xs ≤ int_max
      → Returns
          (λ _ g. ArrayAt vector_layout g p (front ++ xs) × OnlyAt p h g)
          (list_to_vector_loop k o (ptr p) (length front) h)
  unfolding list_to_vector_loop
  list_to_vector_loop-append zero h front back new e c a same fuel small = absurd (omega arith)
  list_to_vector_loop-append (suc k) h {p} front [] new e done a same fuel small =
      rw (is_pair-end e) (returns (a, OnlyAt-refl p h))
  list_to_vector_loop-append (suc k) h front (b ∷ back) new e done a same fuel small =
      absurd (omega arith)
  list_to_vector_loop-append (suc k) h front [] new e (link lt at c) a same fuel small =
      absurd (omega arith)
  list_to_vector_loop-append (suc k) h {p} front (b ∷ back) new e (link {a = x} {xs} lt at c) a same
        fuel small =
      rw (is_pair-ok at, car-ok at)
        (Returns.bind
          (assign-ArrayAt vector_layout (length front) x a
            (omega (arith, length-append front (b ∷ back))))
          λ _ g (a', only).
            let kept : SameBelow n h g = SameBelow-only new only in
            let grown : (length front + 1) % unsigned_mod ≡ length (front ++ x ∷ []) =
              omega (arith, length-append front (x ∷ [])) in
            rw (cdr-ok (PairAt-same kept lt at), grown)
              (Returns.weaken
                (list_to_vector_loop-append k g (front ++ x ∷ []) back new (IsEnd-same kept end e)
                  (Chain-same kept c) (rw (set-append front back b x) at a') (omega arith)
                  (omega arith) (omega (arith, length-append front (x ∷ []))))
                λ _ f (a2, only'). (rw append_assoc at a2, OnlyAt-trans only only')))

-- A new vector of these objects at the first free address.
pub record IsVector (h : Store) (xs : List Obj) (o : Obj) (g : Store) : Type 0 where
  pub address : o ≡ ptr h.next
  pub array : ArrayAt vector_layout g h.next xs
  pub same : SameBelow h.next h g
  pub grown : g.next ≡ h.next + 1

-- `navi_list_to_vector` builds a vector of the elements of a list in order; a dotted tail is dropped.
pub list_to_vector-IsVector :
    (k : ℕ) (h : Store) {end o : Obj} {xs : List Obj}
    → IsEnd h h.next end
    → Chain h h.next end o xs
    → length xs < k
    → length xs ≤ int_max
    → Returns (IsVector h xs) (list_to_vector k o h)
unfolding list_to_vector make_vector make_object
list_to_vector-IsVector k h {end} {xs} e c fuel small =
    let h1 : Store = extend h (vector (replicate (length xs) void)) in
    let made : SameBelow h.next h h1 = SameBelow-extend h _ in
    rw (list_length-length e k c fuel small) (
      Returns.bind
        (list_to_vector_loop-append k h1 {p = h.next} [] (replicate (length xs) void) (omega arith)
          (IsEnd-same made end e) (Chain-same made c) (made-vector (length xs) h)
          (length-replicate (length xs) void) fuel (omega arith))
        λ _ g (a, only). returns (record {
          address = refl;
          array = a;
          same =
              SameBelow-trans {m = h.next} (omega arith) made (SameBelow-only (omega arith) only);
          grown = only.next ∙ next-extend h _;
        }))

link_elements-IsCopy : (xs : List Obj) (h : Store) → Returns (IsCopy h nil xs) (link_elements xs h)
unfolding link_elements make_pair make_object write
link_elements-IsCopy [] h =
    returns (record { chain = done; fresh = tt; same = SameBelow-refl _ h; grown = omega arith })
link_elements-IsCopy (x ∷ xs) h =
    let h1 : Store = extend h (pair x nil) in
    let n1 : h1.next ≡ h.next + 1 = next-extend h (pair x nil) in
    let made : SameBelow h.next h h1 = SameBelow-extend h (pair x nil) in
    Returns.bind (link_elements-IsCopy xs h1) λ rest g is.
      let at : PairAt g h.next x nil = PairAt-same is.same (omega arith) (made-pair x nil h) in
      let g' : Store = write g h.next (pair x rest) in
      let next' : g'.next ≡ g.next = next-write g h.next (pair x rest) in
      let but = SameBut-write g.next g h.next (pair x rest) in
      let away : Visited (λ q. q ≢ h.next) is.chain =
        Visited-mono (λ q le e. absurd (omega arith)) is.chain is.fresh in
      let c : Chain g' g.next nil rest xs = Chain-but but is.chain away in
      let whole : Chain g' g.next nil (ptr h.next) (x ∷ xs) =
        link (omega (arith, is.grown)) (written-pair g h.next x rest) c in
      let new : Visited (λ q. h.next ≤ q) whole = (
        omega arith,
        Visited-mono (λ q le. omega arith) c (Visited-but _ but is.chain away is.fresh),
      ) in
      rw (set_cdr-ok at rest) (
        returns (record {
          chain = whole;
          fresh = new;
          same = record {
            at = λ q lt.
                but.at q (omega (arith, is.grown)) (omega arith)
                ∙ is.same.at q (omega arith)
                ∙ made.at q lt;
          };
          grown = omega (arith, is.grown);
        }))

-- `navi_vector_to_list` builds a proper list of new pairs with the elements of the vector in order.
pub vector_to_list-IsCopy :
    (h : Store) {p : ℕ} {xs : List Obj}
    → ArrayAt vector_layout h p xs
    → Returns (IsCopy h nil xs) (vector_to_list (ptr p) h)
unfolding vector_to_list
vector_to_list-IsCopy h {xs = xs} a = rw (elements-ok vector_layout a) (link_elements-IsCopy xs h)

-- `list->vector` and then `vector->list` give a new proper list of the same elements, and neither
-- touches the list.
pub vector_to_list-list_to_vector :
    (k : ℕ) (h : Store) {end o : Obj} {xs : List Obj}
    → IsEnd h h.next end
    → Chain h h.next end o xs
    → length xs < k
    → length xs ≤ int_max
    → Returns
        (λ l g. IsCopy h nil xs l g × Chain g g.next end o xs)
        ((list_to_vector k o >>= vector_to_list) h)
vector_to_list-list_to_vector k h e c fuel small =
    Returns.bind (list_to_vector-IsVector k h e c fuel small) λ v g is. rw is.address (
      Returns.weaken (vector_to_list-IsCopy g is.array) λ l f copy. (
        record {
          chain = copy.chain;
          fresh = Visited-mono (λ q le. omega (arith, is.grown)) copy.chain copy.fresh;
          same = SameBelow-trans (omega (arith, is.grown)) is.same copy.same;
          grown = omega (arith, is.grown, copy.grown);
        },
        Chain-mono (omega (arith, copy.grown, is.grown)) (
            Chain-same (SameBelow-mono (omega (arith, is.grown)) copy.same) (Chain-same is.same c)),
      ))
