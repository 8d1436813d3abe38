-- ===== src/RedBlack/Insert.antt =====
-- Linking a node: navi_rb_insert of rbtree.c.
use mathlib.Core.List.{append_assoc}
use navi_scheme.Base.{ℕ, suc, ◌≡◌, refl, ◌∙◌, sym, ap, false, some, List, [], ◌∷◌, ◌++◌}
use navi_scheme.RedBlack.{
  red, black, RbTree, leaf, node, Frame, left_child, right_child, plug, is_red, rotate_left,
  rotate_right, insert_loop, rb_insert,
}
use navi_scheme.RedBlack.Invariant.{
  IsRb, leaf_rb, red_rb, black_rb, IsRbPath, top, left_black, right_black, left_left, left_right,
  right_left, right_right, IsRbRoot, inorder, inorder-plug, plug-IsRbRoot,
}

-- What is left behind when `new` was linked at the end of a path: a whole tree with the nodes in the
-- order they had.
pub record IsInserted (path : List Frame) (new : RbTree) : Type 0 where
  pub tree : RbTree
  pub returned : insert_loop path new ≡ some tree
  pub proper : IsRbRoot tree
  pub ordered : inorder tree ≡ inorder (plug path new)

-- A round that ends with a black tree at the end of the path.
fits-IsInserted :
    {h : ℕ} {whole : List Frame} {new : RbTree} (path : List Frame) (s t : RbTree)
    → insert_loop whole new ≡ some (plug path t)
    → plug path s ≡ plug whole new
    → IsRbPath h path
    → IsRb h t
    → is_red t ≡ false
    → inorder t ≡ inorder s
    → IsInserted whole new
fits-IsInserted path s t run place p i black_t order = record {
  tree = plug path t;
  returned = run;
  proper = plug-IsRbRoot path t p i black_t;
  ordered = inorder-plug path t s order ∙ ap inorder place;
}

-- A round that goes on two nodes further up.
up-IsInserted :
    {whole : List Frame} {new : RbTree} (path : List Frame) (s t : RbTree)
    → insert_loop whole new ≡ insert_loop path t
    → plug path s ≡ plug whole new
    → inorder t ≡ inorder s
    → IsInserted path t
    → IsInserted whole new
up-IsInserted path s t run place order above = record {
  tree = above.tree;
  returned = run ∙ above.returned;
  proper = above.proper;
  ordered = above.ordered ∙ inorder-plug path t s order ∙ ap inorder place;
}

-- The order of the nodes that a double rotation moves.
inner-order :
    (l : List ℕ) (k : ℕ) (a : List ℕ) (j : ℕ) (b : List ℕ) (g : ℕ) (u : List ℕ)
    → (l ++ (k ∷ a)) ++ (j ∷ (b ++ (g ∷ u))) ≡ (l ++ (k ∷ (a ++ (j ∷ b)))) ++ (g ∷ u)
inner-order l k a j b g u = simp (append_assoc) refl

outer-order :
    (u : List ℕ) (g : ℕ) (a : List ℕ) (j : ℕ) (b : List ℕ) (k : ℕ) (r : List ℕ)
    → (u ++ (g ∷ a)) ++ (j ∷ (b ++ (k ∷ r))) ≡ u ++ (g ∷ ((a ++ (j ∷ b)) ++ (k ∷ r)))
outer-order u g a j b k r = simp (append_assoc) refl

-- A red tree that fits at the end of the path is linked.
insert_loop-IsInserted :
    {h : ℕ} (path : List Frame) (a : RbTree) (j : ℕ) (b : RbTree)
    → IsRbPath h path
    → IsRb h a
    → IsRb h b
    → is_red a ≡ false
    → is_red b ≡ false
    → IsInserted path (node red a j b)
unfolding insert_loop plug rotate_left rotate_right
insert_loop-IsInserted {h} [] a j b (top _) x y e f = record {
  tree = node black a j b;
  returned = refl;
  proper = record { height = suc h; proper = black_rb j x y; root = refl };
  ordered = refl;
}
insert_loop-IsInserted (left_child black k r ∷ path) a j b (left_black _ z p) x y e f =
    fits-IsInserted path (node black (node red a j b) k r) _ refl refl p
      (black_rb k (red_rb j x y e f) z) refl refl
insert_loop-IsInserted (right_child black l k ∷ path) a j b (right_black _ z p) x y e f =
    fits-IsInserted path (node black l k (node red a j b)) _ refl refl p
      (black_rb k z (red_rb j x y e f)) refl refl
insert_loop-IsInserted (left_child red k r ∷ left_child black g (node red c m d) ∷ path) a j b
      (left_left _ _ z q (red_rb _ v w _ _) p) x y e f =
    up-IsInserted path (node black (node red (node red a j b) k r) g (node red c m d)) _ refl refl
      refl
      (insert_loop-IsInserted path (node black (node red a j b) k r) g (node black c m d) p
        (black_rb k (red_rb j x y e f) z) (black_rb m v w) refl refl)
insert_loop-IsInserted (left_child red k r ∷ left_child black g leaf ∷ path) a j b
      (left_left _ _ z q v p) x y e f =
    fits-IsInserted path (node black (node red (node red a j b) k r) g leaf) _ refl refl p
      (black_rb k (red_rb j x y e f) (red_rb g z v q refl)) refl
      (sym (append_assoc (inorder (node red a j b)) (k ∷ inorder r) (g ∷ inorder leaf)))
insert_loop-IsInserted (left_child red k r ∷ left_child black g (node black c m d) ∷ path) a j b
      (left_left _ _ z q v p) x y e f =
    fits-IsInserted path (node black (node red (node red a j b) k r) g (node black c m d)) _ refl
      refl p (black_rb k (red_rb j x y e f) (red_rb g z v q refl)) refl
      (sym
        (append_assoc (inorder (node red a j b)) (k ∷ inorder r) (g ∷ inorder (node black c m d))))
insert_loop-IsInserted (left_child red k r ∷ right_child black (node red c m d) g ∷ path) a j b
      (left_right _ _ z q (red_rb _ v w _ _) p) x y e f =
    up-IsInserted path (node black (node red c m d) g (node red (node red a j b) k r)) _ refl refl
      refl
      (insert_loop-IsInserted path (node black c m d) g (node black (node red a j b) k r) p
        (black_rb m v w) (black_rb k (red_rb j x y e f) z) refl refl)
insert_loop-IsInserted (left_child red k r ∷ right_child black leaf g ∷ path) a j b
      (left_right _ _ z q v p) x y e f =
    fits-IsInserted path (node black leaf g (node red (node red a j b) k r)) _ refl refl p
      (black_rb j (red_rb g v x refl e) (red_rb k y z f q)) refl
      (outer-order (inorder leaf) g (inorder a) j (inorder b) k (inorder r))
insert_loop-IsInserted (left_child red k r ∷ right_child black (node black c m d) g ∷ path) a j b
      (left_right _ _ z q v p) x y e f =
    fits-IsInserted path (node black (node black c m d) g (node red (node red a j b) k r)) _ refl
      refl p (black_rb j (red_rb g v x refl e) (red_rb k y z f q)) refl
      (outer-order (inorder (node black c m d)) g (inorder a) j (inorder b) k (inorder r))
insert_loop-IsInserted (right_child red l k ∷ left_child black g (node red c m d) ∷ path) a j b
      (right_left _ _ z q (red_rb _ v w _ _) p) x y e f =
    up-IsInserted path (node black (node red l k (node red a j b)) g (node red c m d)) _ refl refl
      refl
      (insert_loop-IsInserted path (node black l k (node red a j b)) g (node black c m d) p
        (black_rb k z (red_rb j x y e f)) (black_rb m v w) refl refl)
insert_loop-IsInserted (right_child red l k ∷ left_child black g leaf ∷ path) a j b
      (right_left _ _ z q v p) x y e f =
    fits-IsInserted path (node black (node red l k (node red a j b)) g leaf) _ refl refl p
      (black_rb j (red_rb k z x q e) (red_rb g y v f refl)) refl
      (inner-order (inorder l) k (inorder a) j (inorder b) g (inorder leaf))
insert_loop-IsInserted (right_child red l k ∷ left_child black g (node black c m d) ∷ path) a j b
      (right_left _ _ z q v p) x y e f =
    fits-IsInserted path (node black (node red l k (node red a j b)) g (node black c m d)) _ refl
      refl p (black_rb j (red_rb k z x q e) (red_rb g y v f refl)) refl
      (inner-order (inorder l) k (inorder a) j (inorder b) g (inorder (node black c m d)))
insert_loop-IsInserted (right_child red l k ∷ right_child black (node red c m d) g ∷ path) a j b
      (right_right _ _ z q (red_rb _ v w _ _) p) x y e f =
    up-IsInserted path (node black (node red c m d) g (node red l k (node red a j b))) _ refl refl
      refl
      (insert_loop-IsInserted path (node black c m d) g (node black l k (node red a j b)) p
        (black_rb m v w) (black_rb k z (red_rb j x y e f)) refl refl)
insert_loop-IsInserted (right_child red l k ∷ right_child black leaf g ∷ path) a j b
      (right_right _ _ z q v p) x y e f =
    fits-IsInserted path (node black leaf g (node red l k (node red a j b))) _ refl refl p
      (black_rb k (red_rb g v z refl q) (red_rb j x y e f)) refl
      (append_assoc (inorder leaf) (g ∷ inorder l) (k ∷ inorder (node red a j b)))
insert_loop-IsInserted (right_child red l k ∷ right_child black (node black c m d) g ∷ path) a j b
      (right_right _ _ z q v p) x y e f =
    fits-IsInserted path (node black (node black c m d) g (node red l k (node red a j b))) _ refl
      refl p (black_rb k (red_rb g v z refl q) (red_rb j x y e f)) refl
      (append_assoc (inorder (node black c m d)) (g ∷ inorder l) (k ∷ inorder (node red a j b)))
insert_loop-IsInserted (left_child red k r ∷ []) a j b z x y e f = elim z [ ]
insert_loop-IsInserted (left_child red k r ∷ left_child red g u ∷ path) a j b z x y e f = elim z [ ]
insert_loop-IsInserted (left_child red k r ∷ right_child red u g ∷ path) a j b z x y e f =
    elim z [ ]
insert_loop-IsInserted (right_child red l k ∷ []) a j b z x y e f = elim z [ ]
insert_loop-IsInserted (right_child red l k ∷ left_child red g u ∷ path) a j b z x y e f =
    elim z [ ]
insert_loop-IsInserted (right_child red l k ∷ right_child red u g ∷ path) a j b z x y e f =
    elim z [ ]

-- A whole tree is returned for a new key at the end of a path, with the keys in the order of that place.
pub record IsLinked (key : ℕ) (path : List Frame) : Type 0 where
  pub tree : RbTree
  pub returned : rb_insert key path ≡ some tree
  pub proper : IsRbRoot tree
  pub ordered : inorder tree ≡ inorder (plug path (node red leaf key leaf))

-- `navi_rb_insert` at a free place of a tree with the invariant of red-black trees returns a tree: its root
-- is black, it has the invariant, and its keys in order are those of the old tree with the new key at
-- that place.
pub rb_insert-IsLinked : (key : ℕ) (path : List Frame) → IsRbPath 0 path → IsLinked key path
unfolding rb_insert
rb_insert-IsLinked key path p =
    let done = insert_loop-IsInserted path leaf key leaf p leaf_rb leaf_rb refl refl in
    record {
      tree = done.tree;
      returned = done.returned;
      proper = done.proper;
      ordered = done.ordered;
    }
