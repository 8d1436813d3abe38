-- ===== src/RedBlack/Remove.antt =====
-- navi_rb_remove of rbtree.c. A place in a tree is the tree below it with the path to the root.
use navi_scheme.Base.{
  ℕ, Bool, false, not, ◌&&◌, Option, none, some, List, [], ◌∷◌, if◌then◌else◌, ltb, ◌==◌,
}
use navi_scheme.RedBlack.{
  Colour, red, black, RbTree, leaf, node, Frame, left_child, right_child, plug, is_red, paint,
  rotate_left, rotate_right,
}

-- What is left of a round, below the nodes above it.
abbrev pub above : (RbTree → RbTree) → Option RbTree → Option RbTree
above f none = none
above f (some t) = some (f t)

-- Case 6, for a left and for a right child `n` of a node with colour `c`. The far child of the sibling is
-- read through its pointer.
unfoldable pub six_left : Colour → RbTree → ℕ → RbTree → Option RbTree
unfolding rotate_left
six_left c n k (node _ near m (node _ a j b)) =
    some (rotate_left (node black n k (node c near m (node black a j b))))
six_left c n k _ = none

unfoldable pub six_right : Colour → RbTree → ℕ → RbTree → Option RbTree
unfolding rotate_right
six_right c (node _ (node _ a j b) m near) k n =
    some (rotate_right (node black (node c (node black a j b) m near) k n))
six_right c _ k n = none

-- From the second look at the sibling to the end of the round, where case 3 does not apply: the tree that
-- stands where the parent stood.
unfoldable pub settle_left : Colour → RbTree → ℕ → RbTree → Option RbTree
unfolding six_left rotate_right
settle_left c n k leaf = some (node c n k leaf)
settle_left c n k (node red near m far) = six_left c n k (node red near m far)
settle_left c n k (node black near m far) =
    if is_red far
    then six_left c n k (node black near m far)
    else (if is_red near
        then six_left c n k (rotate_right (node red (paint black near) m far))
        else some (node black n k (node red near m far)))

unfoldable pub settle_right : Colour → RbTree → ℕ → RbTree → Option RbTree
unfolding six_right rotate_left
settle_right c leaf k n = some (node c leaf k n)
settle_right c (node red far m near) k n = six_right c (node red far m near) k n
settle_right c (node black far m near) k n =
    if is_red far
    then six_right c (node black far m near) k n
    else (if is_red near
        then six_right c (rotate_left (node red far m (paint black near))) k n
        else some (node black (node red far m near) k n))

-- The test of case 3, for a sibling that is not red.
abbrev pub is_case_3 : Colour → RbTree → Bool
is_case_3 black (node _ l _ r) = not (is_red l) && not (is_red r)
is_case_3 _ _ = false

-- The round behind case 2: the parent is red and the old sibling is black and above it.
unfoldable pub two_left : RbTree → ℕ → RbTree → Option RbTree
unfolding settle_left
two_left n k (node _ near m far) = above (λ x. node black x m far) (settle_left red n k near)
two_left n k leaf = none

unfoldable pub two_right : RbTree → ℕ → RbTree → Option RbTree
unfolding settle_right
two_right n k (node _ far m near) = above (λ x. node black far m x) (settle_right red near k n)
two_right n k leaf = none

-- The loop, with the child already in the place of the removed node: `n` is the tree below the place that
-- the loop has reached, and `last` the same tree with the child black, as it is left where the loop ends at
-- the root.
unfoldable pub remove_loop : List Frame → RbTree → RbTree → Option RbTree
unfolding plug settle_left settle_right two_left two_right
remove_loop [] n last = some last
remove_loop (left_child c k s ∷ path) n last =
    if is_red s
    then above (plug path) (two_left n k s)
    else (if is_case_3 c s
        then remove_loop path (node c n k (paint red s)) (node c last k (paint red s))
        else above (plug path) (settle_left c n k s))
remove_loop (right_child c s k ∷ path) n last =
    if is_red s
    then above (plug path) (two_right n k s)
    else (if is_case_3 c s
        then remove_loop path (node c (paint red s) k n) (node c (paint red s) k last)
        else above (plug path) (settle_right c s k n))

-- A node of the colour with at most one child is taken out.
unfoldable pub unlink : Colour → RbTree → List Frame → Option RbTree
unfolding plug remove_loop
unlink red child [] = some (paint black child)
unlink red child (frame ∷ path) = some (plug (frame ∷ path) child)
unlink black child path = remove_loop path child (paint black child)

abbrev pub last_key : ℕ → RbTree → ℕ
last_key j leaf = j
last_key j (node _ _ y z) = last_key y z

-- The last node below the left child, which has taken the place of the removed one.
unfoldable pub unlink_last : Colour → RbTree → ℕ → RbTree → List Frame → Option RbTree
unfolding unlink
unlink_last d a j leaf path = unlink d a path
unlink_last d a j (node e x y z) path = unlink_last e x y z (right_child d a j ∷ path)

-- `navi_rb_remove` of a node with this colour and these children; `swap` leaves the last key below the left
-- child in its place.
unfoldable pub rb_remove : Colour → RbTree → RbTree → List Frame → Option RbTree
unfolding unlink unlink_last
rb_remove c leaf r path = unlink c r path
rb_remove c (node d a j b) leaf path = unlink c (node d a j b) path
rb_remove c (node d a j b) (node e x y z) path =
    unlink_last d a j b (left_child c (last_key j b) (node e x y z) ∷ path)

-- slab_remove of slab.c, whose node is the one of a slab's address.
unfoldable pub remove_key : ℕ → RbTree → List Frame → Option RbTree
unfolding rb_remove
remove_key key leaf path = none
remove_key key (node c l k r) path =
    if key == k
    then rb_remove c l r path
    else (if ltb key k
        then remove_key key l (left_child c k r ∷ path)
        else remove_key key r (right_child c l k ∷ path))
