-- ===== src/RedBlack.antt =====
-- Red-black trees: linking a node in rbtree.c; Remove takes one out. A node in a tree is the tree below it with the path up to
-- the root, which the parent pointers give: each frame of a path is a node with the child on its other
-- side. The dummy root is the end of a path.
pub mod Invariant
pub mod Insert
pub mod Descent
pub mod Remove
pub mod Removal
pub mod Erase
use navi_scheme.Base.{
  ℕ, Bool, true, false, Option, none, some, List, [], ◌∷◌, ◌++◌, if◌then◌else◌, ltb,
}

pub data Colour : Type 0 where
  red black : Colour

pub data RbTree : Type 0 where
  leaf : RbTree
  node : Colour → RbTree → ℕ → RbTree → RbTree

-- A node whose left child, or whose right child, is where the path comes from.
pub data Frame : Type 0 where
  left_child : Colour → ℕ → RbTree → Frame
  right_child : Colour → RbTree → ℕ → Frame

unfoldable pub plug : List Frame → RbTree → RbTree
plug [] t = t
plug (left_child c k r ∷ path) t = plug path (node c t k r)
plug (right_child c l k ∷ path) t = plug path (node c l k t)

-- `is_red` with its test for a null pointer; `is_black` is the opposite.
abbrev pub is_red : RbTree → Bool
is_red (node red _ _ _) = true
is_red (node black _ _ _) = false
is_red leaf = false

-- `n->color = c`
abbrev pub paint : Colour → RbTree → RbTree
paint c leaf = leaf
paint c (node _ l k r) = node c l k r

-- The tree that stands where `parent` stood. A rotation reads the child through its pointer.
unfoldable pub rotate_left : RbTree → RbTree
rotate_left (node c a p (node d b q e)) = node d (node c a p b) q e
rotate_left t = t

unfoldable pub rotate_right : RbTree → RbTree
rotate_right (node c (node d a p b) q e) = node d a p (node c b q e)
rotate_right t = t

-- The loop of navi_rb_insert. With a red root it would rotate the dummy root, for which there is no
-- result. After case 5 the parent of the new node is black, and the next round returns.
unfoldable pub insert_loop : List Frame → RbTree → Option RbTree
unfolding plug rotate_left rotate_right
insert_loop [] new = some (paint black new)
insert_loop (left_child black k r ∷ path) new = some (plug path (node black new k r))
insert_loop (right_child black l k ∷ path) new = some (plug path (node black l k new))
insert_loop (left_child red k r ∷ left_child c g uncle ∷ path) new =
    if is_red uncle
    then insert_loop path (node red (node black new k r) g (paint black uncle))
    else some (plug path (rotate_right (node red (node black new k r) g uncle)))
insert_loop (right_child red l k ∷ left_child c g uncle ∷ path) new =
    if is_red uncle
    then insert_loop path (node red (node black l k new) g (paint black uncle))
    else some
        (plug path (rotate_right (node red (paint black (rotate_left (node red l k new))) g uncle)))
insert_loop (left_child red k r ∷ right_child c uncle g ∷ path) new =
    if is_red uncle
    then insert_loop path (node red (paint black uncle) g (node black new k r))
    else some
        (plug path (rotate_left (node red uncle g (paint black (rotate_right (node red new k r))))))
insert_loop (right_child red l k ∷ right_child c uncle g ∷ path) new =
    if is_red uncle
    then insert_loop path (node red (paint black uncle) g (node black l k new))
    else some (plug path (rotate_left (node red uncle g (node black l k new))))
insert_loop (left_child red _ _ ∷ []) new = none
insert_loop (right_child red _ _ ∷ []) new = none

-- `navi_rb_insert`: the new node is linked at the end of a path.
unfoldable pub rb_insert : ℕ → List Frame → Option RbTree
unfolding insert_loop
rb_insert key path = insert_loop path (node red leaf key leaf)

-- The way down in slab_insert of slab.c, whose keys are the addresses of slabs, as the path to the free
-- place; and the whole of slab_insert.
unfoldable pub descend : ℕ → RbTree → List Frame → List Frame
descend key leaf path = path
descend key (node c l k r) path =
    if ltb key k
    then descend key l (left_child c k r ∷ path)
    else descend key r (right_child c l k ∷ path)

unfoldable pub insert_key : ℕ → RbTree → Option RbTree
unfolding descend rb_insert
insert_key key tree = rb_insert key (descend key tree [])

-- `navi_rb_first` and `navi_rb_last`
unfoldable pub rb_first : RbTree → Option ℕ
rb_first leaf = none
rb_first (node _ leaf k _) = some k
rb_first (node _ (node c l j r) k _) = rb_first (node c l j r)

unfoldable pub rb_last : RbTree → Option ℕ
rb_last leaf = none
rb_last (node _ _ k leaf) = some k
rb_last (node _ _ k (node c l j r)) = rb_last (node c l j r)
