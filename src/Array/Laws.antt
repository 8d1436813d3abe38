-- ===== src/Array/Laws.antt =====
-- The loops over arrays in the heap compute the slices of Slice.antt, and write nowhere else.
use navi_scheme.Base.{
  ℕ, zero, suc, ◌+◌, ◌-◌, ◌≤◌, ◌<◌, ◌≡◌, ◌≢◌, refl, sym, ◌∙◌, none, some, List, arith, length,
  get_elem?, set, if◌then◌else◌, length-set,
}
use navi_scheme.Object.{ptr, Cell, Store, write}
use navi_scheme.Object.Run.{ok, fault}
use navi_scheme.Object.Returns.{Returns, returns}
use navi_scheme.Object.Returns
use navi_scheme.Array.{Layout, elements, size, fetch, assign, fill_loop, copy_loop}
use navi_scheme.Array.Slice.{
  filled, copied, length-filled, get_in_bounds, inside, length-copied, get_elem?-copied,
  get_elem?-filled,
}

-- An object with these elements lies at `p`.
pub record ArrayAt {A : Type 0} (L : Layout A) (h : Store) (p : ℕ) (xs : List A) : Type 0 where
  pub cell : Cell
  pub holds : h.cell p ≡ some cell
  pub viewed : L.view cell ≡ some xs

-- `g` is `h` but for what lies at `p`.
pub record OnlyAt (p : ℕ) (h g : Store) : Type 0 where
  pub at : (q : ℕ) → q ≢ p → g.cell q ≡ h.cell q
  pub next : g.next ≡ h.next

pub OnlyAt-refl : (p : ℕ) (h : Store) → OnlyAt p h h
OnlyAt-refl p h = record { at = λ q ne. refl; next = refl }

pub OnlyAt-trans : {p : ℕ} {f g h : Store} → OnlyAt p f g → OnlyAt p g h → OnlyAt p f h
OnlyAt-trans s t = record { at = λ q ne. t.at q ne ∙ s.at q ne; next = t.next ∙ s.next }

pub OnlyAt-write : (p : ℕ) (h : Store) (c : Cell) → OnlyAt p h (write h p c)
unfolding write
OnlyAt-write p h c = record { at = λ q ne. ground arith; next = refl }

module _ {A : Type 0} (L : Layout A) where
  pub elements-ok :
      {h : Store} {p : ℕ} {xs : List A} → ArrayAt L h p xs → elements L (ptr p) h ≡ ok xs h
  unfolding elements
  elements-ok a = ground arith

  pub size-ok :
      {h : Store} {p : ℕ} {xs : List A} → ArrayAt L h p xs → size L (ptr p) h ≡ ok (length xs) h
  unfolding size
  size-ok a = rw (elements-ok a)

  pub fetch-ok :
      {h : Store} {p : ℕ} {xs : List A} (i : ℕ) {x : A}
      → ArrayAt L h p xs
      → get_elem? xs i ≡ some x
      → fetch L (ptr p) i h ≡ ok x h
  unfolding fetch
  fetch-ok i a got = ground (arith, elements-ok a)

  pub fetch-fault :
      {h : Store} {p : ℕ} {xs : List A} (i : ℕ)
      → ArrayAt L h p xs
      → get_elem? xs i ≡ none
      → fetch L (ptr p) i h ≡ fault
  unfolding fetch
  fetch-fault i a got = ground (arith, elements-ok a)

  pub ArrayAt-only :
      {h g : Store} {p q : ℕ} {xs : List A}
      → OnlyAt q h g
      → p ≢ q
      → ArrayAt L h p xs
      → ArrayAt L g p xs
  ArrayAt-only {p} same ne a = record {
    cell = a.cell;
    holds = same.at p ne ∙ a.holds;
    viewed = a.viewed;
  }

  assign-ok :
      {h : Store} {p : ℕ} {xs : List A} (i : ℕ) (v : A)
      → (a : ArrayAt L h p xs) → i < length xs
      → assign L (ptr p) i v h ≡ ok tt (write h p (L.put a.cell (set xs i v)))
  unfolding assign
  assign-ok i v a lt = ground (arith, a.holds, a.viewed)

  pub assign-ArrayAt :
      {h : Store} {p : ℕ} {xs : List A} (i : ℕ) (v : A)
      → ArrayAt L h p xs
      → i < length xs
      → Returns (λ _ g. ArrayAt L g p (set xs i v) × OnlyAt p h g) (assign L (ptr p) i v h)
  assign-ArrayAt {h} {p} {xs} i v a lt =
      let g : Store = write h p (L.put a.cell (set xs i v)) in
      let put : ArrayAt L g p (set xs i v) = record {
        cell = L.put a.cell (set xs i v);
        holds = written h p (L.put a.cell (set xs i v));
        viewed = L.view-put a.cell xs (set xs i v) a.viewed;
      } in
      rw (assign-ok i v a lt) (returns (put, OnlyAt-write p h _))
    where
      written : (h : Store) (p : ℕ) (c : Cell) → (write h p c).cell p ≡ some c
      written h p c = unfold write in ground arith

  pub fill_loop-filled :
      (n : ℕ) {h : Store} {p : ℕ} {xs : List A} (i : ℕ) (v : A)
      → ArrayAt L h p xs
      → i + n ≤ length xs
      → Returns
          (λ _ g. ArrayAt L g p (filled n xs i v) × OnlyAt p h g)
          (fill_loop L n (ptr p) i v h)
  unfolding fill_loop filled
  fill_loop-filled zero {h} {p} i v a fits = returns (a, OnlyAt-refl p h)
  fill_loop-filled (suc n) {xs} i v a fits =
      Returns.bind (assign-ArrayAt i v a (omega arith)) λ _ g (a', only).
        Returns.weaken (fill_loop-filled n (i + 1) v a' (omega (arith, length-set xs i v)))
          λ _ f (a2, only'). (a2, OnlyAt-trans only only')

  pub copy_loop-copied :
      (n : ℕ) {h : Store} {p q : ℕ} {xs ys : List A} (at i : ℕ)
      → ArrayAt L h p xs
      → ArrayAt L h q ys
      → p ≢ q
      → at + n ≤ length xs
      → i + n ≤ length ys
      → Returns
          (λ _ g. ArrayAt L g p (copied n xs at ys i) × OnlyAt p h g)
          (copy_loop L n (ptr p) at (ptr q) i h)
  unfolding copy_loop copied
  copy_loop-copied zero {h} {p} at i a b ne fits has = returns (a, OnlyAt-refl p h)
  copy_loop-copied (suc n) {xs} {ys} at i a b ne fits has =
      let (y, got) = get_in_bounds ys i (omega arith) in
      rw (fetch-ok i b got, got)
        (Returns.bind (assign-ArrayAt at y a (omega arith)) λ _ g (a', only).
          Returns.weaken
            (copy_loop-copied n (at + 1) (i + 1) a' (ArrayAt-only only (λ e. ne (sym e)) b) ne
              (omega (arith, length-set xs at y)) (omega arith))
            λ _ f (a2, only'). (a2, OnlyAt-trans only only'))

-- After a copy: the `n` elements from `at` on are those of `ys` from `i` on, the others and the size
-- are as in `xs`, and nothing else in the heap has changed.
pub record IsCopied {A : Type 0} (L : Layout A) (h : Store) (p : ℕ) (xs : List A) (at : ℕ)
    (ys : List A) (i n : ℕ) (g : Store) : Type 0 where
  pub contents : List A
  pub array : ArrayAt L g p contents
  pub same_size : length contents ≡ length xs
  pub each :
      (j : ℕ)
      → get_elem? contents j
        ≡ (if inside at n j then get_elem? ys (i + (j - at)) else get_elem? xs j)
  pub only : OnlyAt p h g

-- After a fill: the `n` elements from `i` on are `v`.
pub record IsFilled {A : Type 0} (L : Layout A) (h : Store) (p : ℕ) (xs : List A) (i n : ℕ) (v : A)
    (g : Store) : Type 0 where
  pub contents : List A
  pub array : ArrayAt L g p contents
  pub same_size : length contents ≡ length xs
  pub each : (j : ℕ) → get_elem? contents j ≡ (if inside i n j then some v else get_elem? xs j)
  pub only : OnlyAt p h g

module _ {A : Type 0} (L : Layout A) {h : Store} {p : ℕ} {xs : List A} (a : ArrayAt L h p xs) where
  pub copy_loop-IsCopied :
      (n : ℕ) {q : ℕ} {ys : List A} (at i : ℕ)
      → ArrayAt L h q ys
      → p ≢ q
      → at + n ≤ length xs
      → i + n ≤ length ys
      → Returns (λ _ g. IsCopied L h p xs at ys i n g) (copy_loop L n (ptr p) at (ptr q) i h)
  copy_loop-IsCopied n {ys = ys} at i b ne fits has =
      Returns.weaken (copy_loop-copied L n at i a b ne fits has) λ _ g (a', only). record {
        contents = copied n xs at ys i;
        array = a';
        same_size = length-copied n xs at ys i;
        each = λ j. get_elem?-copied n xs at ys i j fits has;
        only = only;
      }

  pub fill_loop-IsFilled :
      (n i : ℕ) (v : A)
      → i + n ≤ length xs
      → Returns (λ _ g. IsFilled L h p xs i n v g) (fill_loop L n (ptr p) i v h)
  fill_loop-IsFilled n i v fits = Returns.weaken (fill_loop-filled L n i v a fits) λ _ g (a', only).
      record {
        contents = filled n xs i v;
        array = a';
        same_size = length-filled n xs i v;
        each = λ j. get_elem?-filled n xs i j v fits;
        only = only;
      }
