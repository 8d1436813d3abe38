-- ===== src/Slab/Tree.antt =====
-- The searches of slab.c in its trees, in terms of the addresses in order.
use navi_scheme.Base.{
  ℕ, ◌+◌, ◌≡◌, refl, sym, inl, inr, List, [], ◌∷◌, ◌++◌, ltb, Bool-cases, ltb→lt, arith,
}
use navi_scheme.Slab.{SlabTree, leaf, node, slab_size, link, find_in}
use navi_scheme.Slab.Order.{
  Increasing, insert, find_list, Increasing-left, Increasing-right, insert_left, insert_right,
  find_list_left, find_list_right,
}

abbrev pub inorder : SlabTree → List ℕ
inorder leaf = []
inorder (node l x r) = inorder l ++ (x ∷ inorder r)

pub inorder-link :
    (low a : ℕ) (t : SlabTree)
    → Increasing low (inorder t)
    → inorder (link a t) ≡ insert a (inorder t)
unfolding link
inorder-link low a leaf i = refl
inorder-link low a (node l x r) i =
    let left = inorder-link low a l (Increasing-left low x (inorder l) (inorder r) i) in
    let right =
      inorder-link (x + slab_size) a r (Increasing-right low x (inorder l) (inorder r) i).1 in
    elim (Bool-cases (ltb a x)) [
      | inl e ↦ rw (e, left) (sym (insert_left a x (inorder l) (inorder r) (ltb→lt a x e)))
      | inr e ↦
          rw (e, right) (sym (insert_right low a x (inorder l) (inorder r) i (ground (arith, e))))
    ]

pub find_in-find_list :
    (low mem : ℕ) (t : SlabTree)
    → Increasing low (inorder t)
    → find_in t mem ≡ find_list mem (inorder t)
unfolding find_in
find_in-find_list low mem leaf i = refl
find_in-find_list low mem (node l x r) i =
    let right-i = Increasing-right low x (inorder l) (inorder r) i in
    ground (
      arith,
      find_in-find_list low mem l (Increasing-left low x (inorder l) (inorder r) i),
      find_in-find_list (x + slab_size) mem r right-i.1,
      find_list_left low mem x (inorder l) (inorder r) i,
      find_list_right low mem x (inorder l) (inorder r) i,
    )
