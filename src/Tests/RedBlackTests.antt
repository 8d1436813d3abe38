-- ===== src/Tests/RedBlackTests.antt =====
-- The results on red-black trees, applied to a tree of two slabs.
use navi_scheme.Base.{◌≡◌, refl, some, [], arith}
use navi_scheme.RedBlack.{red, black, RbTree, leaf, node, insert_key, rb_first, rb_last}
use navi_scheme.RedBlack.Invariant.{leaf_rb, red_rb, black_rb, IsRbRoot, inorder}
use navi_scheme.RedBlack.Descent.{IsKeyed, insert_key-IsKeyed}
use navi_scheme.RedBlack.Remove.{remove_key}
use navi_scheme.RedBlack.Erase.{IsErased, remove_key-IsErased}
use navi_scheme.Slab.Order.{Increasing}

abbrev slabs : RbTree
slabs = node black leaf 8192 (node red leaf 32768 leaf)

IsRbRoot-slabs : IsRbRoot slabs
IsRbRoot-slabs = record {
  height = 1;
  proper = black_rb 8192 leaf_rb (red_rb 32768 leaf_rb leaf_rb refl refl);
  root = refl;
}

Increasing-slabs : Increasing 0 (inorder slabs)
Increasing-slabs = (omega arith, (omega arith, tt))

insert_key-IsKeyed_example : IsKeyed 20480 slabs
insert_key-IsKeyed_example = insert_key-IsKeyed 20480 slabs IsRbRoot-slabs Increasing-slabs

-- Case 4 and case 5: two rotations.
insert_key-rotated :
    insert_key 20480 slabs
    ≡ some (node black (node red leaf 8192 leaf) 20480 (node red leaf 32768 leaf))
unfolding insert_key
insert_key-rotated = refl

rb_first-slabs : rb_first slabs ≡ some 8192
unfolding rb_first
rb_first-slabs = refl

rb_last-slabs : rb_last slabs ≡ some 32768
unfolding rb_last
rb_last-slabs = refl

-- A black root with black children, of which the left has a red one.
abbrev leaning : RbTree
leaning =
    node black (node black (node red leaf 8192 leaf) 16384 leaf) 32768 (node black leaf 65536 leaf)

IsRbRoot-leaning : IsRbRoot leaning
IsRbRoot-leaning = record {
  height = 2;
  proper =
      black_rb 32768 (black_rb 16384 (red_rb 8192 leaf_rb leaf_rb refl refl) leaf_rb)
        (black_rb 65536 leaf_rb leaf_rb);
  root = refl;
}

remove_key-IsErased_example : IsErased 16384 leaning
remove_key-IsErased_example =
    remove_key-IsErased 16384 leaning IsRbRoot-leaning
      (omega arith, (omega arith, (omega arith, (omega arith, tt)))) refl

-- The child that took the place of the removed node is black, and the other way down has one black node
-- fewer.
remove_key-unbalanced :
    remove_key 16384 leaning []
    ≡ some (node black (node black leaf 8192 leaf) 32768 (node red leaf 65536 leaf))
unfolding remove_key
remove_key-unbalanced = refl
