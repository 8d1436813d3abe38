-- ===== src/Lists/Build/Laws.antt =====
-- `make-list`, `reverse` and the list functions that join in place.
use navi_scheme.Base.{
  ℕ, zero, suc, ◌+◌, ◌<◌, ◌≤◌, ◌≡◌, refl, ap, false, List, ◌∷◌, ◌++◌, arith, length, replicate,
  reverse, ltb,
}
use mathlib.Core.List.{reverse_aux, append-nil}
use navi_scheme.Base.Int.{pos, negsuc}
use navi_scheme.Object.{Obj, nil, pair, Store, extend}
use navi_scheme.Object.Run.{make_pair, make_object, not_positive, raised}
use navi_scheme.Object.Returns.{Returns, returns}
use navi_scheme.Object.Returns
use navi_scheme.Object.Chain.{
  Chain, done, link, IsEnd, SameBelow, SameBelow-extend, SameBelow-trans, SameBelow-mono,
  SameBelow-refl, PairAt-same, Chain-cons, next-extend, Chain-same, IsEnd-same, is_pair-ok, car-ok,
  cdr-ok, is_pair-end, Visited, Visited-cons,
}
use navi_scheme.Lists.Build.Copy.{IsCopy}
use navi_scheme.Lists.Build.{make_list_loop, make_list, reverse_loop, scm_reverse, scm_make_list}

-- What a list builder promises: a list of these objects, and the heap kept below its old bound.
abbrev pub Builds : Store → Obj → List Obj → Obj → Store → Type 0
Builds h end xs o g = Chain g g.next end o xs × SameBelow h.next h g × (h.next ≤ g.next)

-- What `reverse` promises of its loop: the pairs of the list are at the addresses from `m` on.
record IsBuilt (m : ℕ) (h : Store) (xs : List Obj) (o : Obj) (g : Store) : Type 0 where
  chain : Chain g g.next nil o xs
  fresh : Visited (λ q. m ≤ q) chain
  same : SameBelow h.next h g
  grown : h.next ≤ g.next

reverse_loop-reverse :
    {n : ℕ} {end : Obj} (k m : ℕ) (h : Store) {o r : Obj} {xs ys : List Obj}
    → n ≤ h.next
    → m ≤ h.next
    → IsEnd h n end
    → Chain h n end o xs
    → (c : Chain h h.next nil r ys) → Visited (λ q. m ≤ q) c
    → length xs < k
    → Returns (IsBuilt m h (reverse_aux xs ys)) (reverse_loop k o r h)
unfolding reverse_loop make_pair make_object
reverse_loop-reverse zero m h le lm e c r v fuel = absurd (omega arith)
reverse_loop-reverse (suc k) m h le lm e done r v fuel =
    rw (is_pair-end e)
      (returns (record { chain = r; fresh = v; same = SameBelow-refl _ h; grown = omega arith }))
reverse_loop-reverse {n} (suc k) m h {r = rev} le lm e (link {a = x} lt at c) r v fuel =
    let h' : Store = extend h (pair x rev) in
    let same : SameBelow n h h' = SameBelow-mono le (SameBelow-extend h (pair x rev)) in
    let grown : h'.next ≡ h.next + 1 = next-extend h (pair x rev) in
    rw (is_pair-ok at, car-ok at, cdr-ok (PairAt-same same lt at))
      (Returns.weaken
        (reverse_loop-reverse k m h' (omega arith) (omega arith) (IsEnd-same same _ e)
          (Chain-same same c) (Chain-cons x h r) (Visited-cons _ x h r lm v) (omega arith))
        λ o g is. record {
          chain = is.chain;
          fresh = is.fresh;
          same = SameBelow-trans (omega arith) (SameBelow-extend h (pair x rev)) is.same;
          grown = omega (arith, is.grown);
        })

-- `reverse` builds a proper list of the elements in reverse order, in pairs that are all new, and leaves
-- the heap that it found as it was; a dotted tail is dropped.
pub scm_reverse-reverse :
    (k : ℕ) (h : Store) {end o : Obj} {xs : List Obj}
    → IsEnd h h.next end
    → Chain h h.next end o xs
    → length xs < k
    → Returns (IsCopy h nil (reverse xs)) (scm_reverse k o h)
unfolding scm_reverse
scm_reverse-reverse k h e c fuel =
    Returns.weaken (reverse_loop-reverse k h.next h (omega arith) (omega arith) e c done tt fuel)
      λ o g is. record { chain = is.chain; fresh = is.fresh; same = is.same; grown = is.grown }

replicate-cons :
    (i : ℕ) (x : Obj) (xs : List Obj) → replicate i x ++ x ∷ xs ≡ x ∷ replicate i x ++ xs
replicate-cons zero x xs = refl
replicate-cons (suc i) x xs = ap (λ l. x ∷ l) (replicate-cons i x xs)

make_list_loop-replicate :
    (i : ℕ) (h : Store) (x : Obj) {o : Obj} {xs : List Obj}
    → Chain h h.next nil o xs
    → Returns (Builds h nil (replicate i x ++ xs)) (make_list_loop i x o h)
unfolding make_list_loop make_pair make_object
make_list_loop-replicate zero h x c = returns (c, SameBelow-refl _ h, omega arith)
make_list_loop-replicate (suc i) h x {o} {xs} c =
    let h' : Store = extend h (pair x o) in
    let grown : h'.next ≡ h.next + 1 = next-extend h (pair x o) in
    Returns.weaken (make_list_loop-replicate i h' x (Chain-cons x h c)) λ o' g (c', s, l). (
      rw replicate-cons at c',
      SameBelow-trans (omega arith) (SameBelow-extend h (pair x o)) s,
      omega arith,
    )

-- `make-list` of a count that is not negative builds a new proper list of that many copies, and
-- raises an error for a negative count.
pub scm_make_list-replicate :
    (i : ℕ) (h : Store) (x : Obj)
    → Returns (Builds h nil (replicate i x)) (scm_make_list (pos i) x h)
      × ((j : ℕ) → scm_make_list (negsuc j) x h ≡ raised not_positive)
unfolding scm_make_list make_list
scm_make_list-replicate i h x = (
  rw count_ok (
      Returns.weaken (make_list_loop-replicate i h x done)
        λ o g (c, s, l). (rw append-nil at c, s, l)),
  λ j. ground arith,
)
  where
    count_ok : ltb (i + 0) 0 ≡ false
    count_ok = ground arith
