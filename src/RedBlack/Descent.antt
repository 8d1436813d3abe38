-- ===== src/RedBlack/Descent.antt =====
-- slab_insert of slab.c with the trees of rbtree.c: the way down to a free place and the linking there.
use navi_scheme.Base.{
  ℕ, ◌≡◌, refl, sym, ◌∙◌, ap, inl, inr, true, false, some, List, [], ◌∷◌, ltb, Bool-cases,
  if◌then◌else◌,
}
use navi_scheme.RedBlack.{
  red, black, RbTree, leaf, node, Frame, left_child, right_child, plug, is_red, descend, insert_key,
}
use navi_scheme.RedBlack.Invariant.{
  IsRb, leaf_rb, red_rb, black_rb, IsRbPath, top, left_black, right_black, left_left, left_right,
  right_left, right_right, IsRbRoot, inorder,
}
use navi_scheme.RedBlack.Insert.{rb_insert-IsLinked}
use navi_scheme.Slab.{SlabTree, link}
use navi_scheme.Slab
use navi_scheme.Slab.Order.{Increasing, insert}
use navi_scheme.Slab.Tree.{inorder-link}
use navi_scheme.Slab.Tree

-- The tree with the new node linked and nothing rotated.
abbrev place : ℕ → RbTree → RbTree
place key leaf = node red leaf key leaf
place key (node c l k r) = if ltb key k then node c (place key l) k r else node c l k (place key r)

plug-descend :
    (key : ℕ) (t : RbTree) (path : List Frame)
    → plug (descend key t path) (node red leaf key leaf) ≡ plug path (place key t)
unfolding plug descend
plug-descend key leaf path = refl
plug-descend key (node c l k r) path = elim (Bool-cases (ltb key k)) [
  | inl e ↦ rw (e) (plug-descend key l (left_child c k r ∷ path))
  | inr e ↦ rw (e) (plug-descend key r (right_child c l k ∷ path))
]

-- The tree of addresses that the allocator sees.
abbrev uncolour : RbTree → SlabTree
uncolour leaf = Slab.leaf
uncolour (node _ l k r) = Slab.node (uncolour l) k (uncolour r)

inorder-uncolour : (t : RbTree) → Slab.Tree.inorder (uncolour t) ≡ inorder t
inorder-uncolour leaf = refl
inorder-uncolour (node _ l k r) = rw (inorder-uncolour l, inorder-uncolour r) refl

uncolour-place : (key : ℕ) (t : RbTree) → uncolour (place key t) ≡ link key (uncolour t)
unfolding link
uncolour-place key leaf = refl
uncolour-place key (node c l k r) = elim (Bool-cases (ltb key k)) [
  | inl e ↦ rw (e, uncolour-place key l) refl
  | inr e ↦ rw (e, uncolour-place key r) refl
]

inorder-place :
    (key : ℕ) (t : RbTree)
    → Increasing 0 (inorder t)
    → inorder (place key t) ≡ insert key (inorder t)
inorder-place key t i =
    sym (inorder-uncolour (place key t))
    ∙ ap (Slab.Tree.inorder) (uncolour-place key t)
    ∙ inorder-link 0 key (uncolour t) (rw (inorder-uncolour t) i)
    ∙ ap (insert key) (inorder-uncolour t)

-- Below the path a red node fits, and black nodes below it.
pub record FitsRed (h : ℕ) (path : List Frame) : Type 0 where
  pub to_left :
      (k : ℕ) (r : RbTree) → IsRb h r → is_red r ≡ false → IsRbPath h (left_child red k r ∷ path)
  pub to_right :
      (k : ℕ) (l : RbTree) → IsRb h l → is_red l ≡ false → IsRbPath h (right_child red l k ∷ path)

-- The way down from a node that fits below the path ends where a node may be linked.
descend-IsRbPath :
    {h : ℕ} (key : ℕ) (t : RbTree) (path : List Frame)
    → IsRb h t
    → IsRbPath h path
    → (is_red t ≡ true → FitsRed h path)
    → IsRbPath 0 (descend key t path)
unfolding descend
descend-IsRbPath key leaf path leaf_rb p fits = p
descend-IsRbPath key (node red l k r) path (red_rb _ x y e f) p fits =
    elim (Bool-cases (ltb key k)) [
      | inl b ↦ rw (b) (
          descend-IsRbPath key l (left_child red k r ∷ path) x ((fits refl).to_left k r y f)
            (λ c. absurd (cc (c, e))))
      | inr b ↦ rw (b) (
          descend-IsRbPath key r (right_child red l k ∷ path) y ((fits refl).to_right k l x e)
            (λ c. absurd (cc (c, f))))
    ]
descend-IsRbPath key (node black l k r) path (black_rb _ x y) p fits =
    elim (Bool-cases (ltb key k)) [
      | inl b ↦ rw (b) (
          descend-IsRbPath key l (left_child black k r ∷ path) x (left_black k y p) (λ c. record {
            to_left = λ j s z q. left_left j k z q y p;
            to_right = λ j s z q. right_left j k z q y p;
          }))
      | inr b ↦ rw (b) (
          descend-IsRbPath key r (right_child black l k ∷ path) y (right_black k x p) (λ c. record {
            to_left = λ j s z q. left_right j k z q x p;
            to_right = λ j s z q. right_right j k z q x p;
          }))
    ]

-- The tree that slab_insert returns for a new key.
pub record IsKeyed (key : ℕ) (t : RbTree) : Type 0 where
  pub tree : RbTree
  pub returned : insert_key key t ≡ some tree
  pub proper : IsRbRoot tree
  pub ordered : inorder tree ≡ insert key (inorder t)

-- slab_insert into a red-black tree of addresses in order, a slab apart, returns a tree: it is a
-- red-black tree with a black root, no two red nodes in a row and as many black nodes on every way down, and
-- its addresses in order are the old ones with the new one put at its place.
pub insert_key-IsKeyed :
    (key : ℕ) (t : RbTree) → IsRbRoot t → Increasing 0 (inorder t) → IsKeyed key t
unfolding insert_key plug
insert_key-IsKeyed key t whole i =
    let free =
      descend-IsRbPath key t [] whole.proper (top whole.height)
        (λ c. absurd (cc (c, whole.root))) in
    let done = rb_insert-IsLinked key (descend key t []) free in
    record {
      tree = done.tree;
      returned = done.returned;
      proper = done.proper;
      ordered = done.ordered ∙ ap inorder (plug-descend key t []) ∙ inorder-place key t i;
    }
