-- ===== src/Array.antt =====
-- The objects with a size and a flexible array `data`: `struct navi_vector` and `struct navi_bytevec`
-- of internal.h. An access past the size is a fault. The loops that vector.c and bytevector.c share in
-- form stand here once, over the layout of the object.
pub mod Slice
pub mod Laws
pub mod Fresh
use navi_scheme.Base.{
  ℕ, zero, suc, ◌+◌, ◌-◌, ◌<◌, ◌≡◌, Bool, true, false, Option, none, some, List, [], ◌∷◌, length,
  get_elem?, set, ltb, if◌then◌else◌,
}
use navi_scheme.Object.{Obj, Cell, vector, values, caselambda, bytevec, cell_type}
use navi_scheme.Object.Run.{Cmd, pure, stuck, ◌>>=◌, ◌>>◌, load, store}

-- How a cell holds its elements, and the cell with others in their place.
pub record Layout (A : Type 0) : Type 0 where
  pub view : Cell → Option (List A)
  pub put : Cell → List A → Cell
  pub view-put : (c : Cell) (xs ys : List A) → view c ≡ some xs → view (put c ys) ≡ some ys

module _ {A : Type 0} (L : Layout A) where
  -- `navi_vector(o)` or `navi_bytevec(o)`: the elements.
  unfoldable pub elements : Obj → Cmd (List A)
  unfolding load
  elements o = do c ← load o; elim (L.view c) [ none ↦ stuck | some xs ↦ pure xs ]

  -- `vec->size`
  unfoldable pub size : Obj → Cmd ℕ
  unfolding elements
  size o = do xs ← elements o; pure (length xs)

  -- `vec->data[i]`
  unfoldable pub fetch : Obj → ℕ → Cmd A
  unfolding elements
  fetch o i = do xs ← elements o; elim (get_elem? xs i) [ none ↦ stuck | some x ↦ pure x ]

  -- `vec->data[i] = v`
  unfoldable pub assign : Obj → ℕ → A → Cmd (Unit {0})
  unfolding load store
  assign o i v = do
    c ← load o
    elim (L.view c) [
      | none ↦ stuck
      | some xs ↦ if ltb i (length xs) then store o (L.put c (set xs i v)) else stuck
    ]

  -- `for (i = i; n rounds; i++) vec->data[i] = fill;`
  unfoldable pub fill_loop : ℕ → Obj → ℕ → A → Cmd (Unit {0})
  unfolding assign
  fill_loop zero o i fill = pure tt
  fill_loop (suc n) o i fill = do assign o i fill; fill_loop n o (i + 1) fill

  -- `for (i = start; n rounds; i++) to->data[at++] = from->data[i];`
  unfoldable pub copy_loop : ℕ → Obj → ℕ → Obj → ℕ → Cmd (Unit {0})
  unfolding assign fetch
  copy_loop zero to at from i = pure tt
  copy_loop (suc n) to at from i = do
    x ← fetch from i
    assign to at x
    copy_loop n to (at + 1) from (i + 1)
