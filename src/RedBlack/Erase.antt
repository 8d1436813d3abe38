-- ===== src/RedBlack/Erase.antt =====
-- slab_remove of slab.c with the trees of rbtree.c: the node of a slab is taken out.
use mathlib.Core.List.{append_assoc, append-nil}
use navi_scheme.Base.{
  ℕ, suc, ◌+◌, ◌≡◌, refl, sym, ◌∙◌, ap, inl, inr, Bool, true, false, Option, none, some, List, [],
  ◌∷◌, ◌++◌, ltb, ◌==◌, Bool-cases, if◌then◌else◌, arith,
}
use navi_scheme.RedBlack.{
  Colour, red, black, RbTree, leaf, node, Frame, left_child, right_child, plug, is_red, paint,
}
use navi_scheme.RedBlack.Remove.{unlink, last_key, unlink_last, rb_remove, remove_key}
use navi_scheme.RedBlack.Invariant.{
  IsRb, red_rb, black_rb, IsRbPath, top, left_black, right_black, left_left, left_right, right_left,
  right_right, IsRbRoot, inorder, inorder-plug,
}
use navi_scheme.RedBlack.Descent.{FitsRed}
use navi_scheme.RedBlack.Removal.{Yields, yields, Yields-to, inorder-paint, remove_loop-Yields}
use navi_scheme.Slab.{slab_size}
use navi_scheme.Slab.Order.{
  member, Increasing, erase, Increasing-left, Increasing-right, erase_left, erase_here, erase_right,
  member_here, member_left, member_right,
}

-- A black node of this height, or a red one, is at the end of the path.
abbrev IsPlace : Colour → ℕ → List Frame → Type 0
IsPlace red h path = Unit {0}
IsPlace black h path = (m : ℕ) × (h ≡ suc m) × IsRbPath h path

unlink-Yields :
    (h : ℕ) (c : Colour) (child : RbTree) (path : List Frame)
    → IsPlace c h path
    → Yields (inorder (plug path child)) (unlink c child path)
unfolding unlink plug
unlink-Yields h red child [] p = yields _ (inorder-paint black child)
unlink-Yields h red child (frame ∷ path) p = yields _ refl
unlink-Yields h black child path (m, e, p) =
    remove_loop-Yields path child (paint black child) (rw e at p) (inorder-paint black child)

-- Where a node with this invariant stands below a path that it fits.
IsPlace-of :
    {h : ℕ} (c : Colour) {l r : RbTree} {k : ℕ} (path : List Frame)
    → IsRb h (node c l k r)
    → IsRbPath h path
    → IsPlace c h path
IsPlace-of red path i p = tt
IsPlace-of black path (black_rb {h} _ x y) p = (h, refl, p)

-- The tree below a node that `swap` moves, without its last node.
abbrev without_last : Colour → RbTree → ℕ → RbTree → RbTree
without_last d a j leaf = a
without_last d a j (node e x y z) = node d a j (without_last e x y z)

inorder-without_last :
    (d : Colour) (a : RbTree) (j : ℕ) (b : RbTree) (w : List ℕ)
    → inorder (without_last d a j b) ++ (last_key j b ∷ w) ≡ (inorder a ++ (j ∷ inorder b)) ++ w
inorder-without_last d a j leaf w = sym (append_assoc (inorder a) (j ∷ []) w)
inorder-without_last d a j (node e x y z) w =
    append_assoc (inorder a) (j ∷ inorder (without_last e x y z)) (last_key y z ∷ w)
    ∙ ap (λ l. inorder a ++ (j ∷ l)) (inorder-without_last e x y z w)
    ∙ sym (append_assoc (inorder a) (j ∷ inorder (node e x y z)) w)

-- A child below a red node is black, and one below a black node fits whatever its colour.
below_right :
    {h : ℕ} (d : Colour) {a b : RbTree} {j : ℕ} (path : List Frame)
    → IsRb h (node d a j b)
    → IsRbPath h path
    → (is_red (node d a j b) ≡ true → FitsRed h path)
    → (m : ℕ) × IsRb m b
      × IsRbPath m (right_child d a j ∷ path)
      × (is_red b ≡ true → FitsRed m (right_child d a j ∷ path))
below_right red path (red_rb {h} {l = a} j x y e f) p fits =
    (h, y, (fits refl).to_right j a x e, λ c. absurd (cc (c, f)))
below_right black path (black_rb {h} j x y) p fits = (
  h,
  y,
  right_black j x p,
  λ c. record {
    to_left = λ i s z q. left_right i j z q x p;
    to_right = λ i s z q. right_right i j z q x p;
  },
)

below_left :
    {h : ℕ} (d : Colour) {a b : RbTree} {j : ℕ} (path : List Frame)
    → IsRb h (node d a j b)
    → IsRbPath h path
    → (is_red (node d a j b) ≡ true → FitsRed h path)
    → (k : ℕ)
    → (m : ℕ) × IsRb m a
      × IsRbPath m (left_child d k b ∷ path)
      × (is_red a ≡ true → FitsRed m (left_child d k b ∷ path))
below_left red path (red_rb {h} {r = b} j x y e f) p fits k =
    (h, x, (fits refl).to_left k b y f, λ c. absurd (cc (c, e)))
below_left black path (black_rb {h} j x y) p fits k = (
  h,
  x,
  left_black k y p,
  λ c. record {
    to_left = λ i s z q. left_left i k z q y p;
    to_right = λ i s z q. right_left i k z q y p;
  },
)

unlink_last-Yields :
    (d : Colour) (a : RbTree) (j : ℕ) (b : RbTree) (path : List Frame) {h : ℕ}
    → IsRb h (node d a j b)
    → IsRbPath h path
    → (is_red (node d a j b) ≡ true → FitsRed h path)
    → Yields (inorder (plug path (without_last d a j b))) (unlink_last d a j b path)
unfolding unlink_last plug
unlink_last-Yields d a j leaf path i p fits = unlink-Yields _ d a path (IsPlace-of d path i p)
unlink_last-Yields d a j (node e x y z) path i p fits =
    let (m, i', p', fits') = below_right d path i p fits in
    unlink_last-Yields e x y z (right_child d a j ∷ path) i' p' fits'

-- `navi_rb_remove` leaves the keys of both children.
rb_remove-Yields :
    {h : ℕ} (c : Colour) (l : RbTree) (k : ℕ) (r : RbTree) (path : List Frame)
    → IsRb h (node c l k r)
    → IsRbPath h path
    → (is_red (node c l k r) ≡ true → FitsRed h path)
    → (u : RbTree) → inorder u ≡ inorder l ++ inorder r
    → Yields (inorder (plug path u)) (rb_remove c l r path)
unfolding rb_remove plug
rb_remove-Yields c leaf k r path i p fits u w =
    Yields-to _ (inorder-plug path r u (sym w)) (unlink-Yields _ c r path (IsPlace-of c path i p))
rb_remove-Yields c (node d a j b) k leaf path i p fits u w =
    Yields-to _ (inorder-plug path (node d a j b) u (append-nil' ∙ sym w))
      (unlink-Yields _ c (node d a j b) path (IsPlace-of c path i p))
  where
    append-nil' : inorder (node d a j b) ≡ inorder (node d a j b) ++ []
    append-nil' = sym (append-nil (inorder (node d a j b)))
rb_remove-Yields c (node d a j b) k (node e x y z) path i p fits u w =
    let (m, i', p', fits') = below_left c path i p fits (last_key j b) in
    Yields-to _
      (inorder-plug path (node c (without_last d a j b) (last_key j b) (node e x y z)) u
        (inorder-without_last d a j b (inorder (node e x y z)) ∙ sym w))
      (unlink_last-Yields d a j b (left_child c (last_key j b) (node e x y z) ∷ path) i' p' fits')

-- A tree of the nodes of both.
abbrev joined : RbTree → RbTree → RbTree
joined leaf r = r
joined (node c l k s) r = node c l k (joined s r)

inorder-joined : (l r : RbTree) → inorder (joined l r) ≡ inorder l ++ inorder r
inorder-joined leaf r = refl
inorder-joined (node c l k s) r =
    ap (λ x. inorder l ++ (k ∷ x)) (inorder-joined s r)
    ∙ sym (append_assoc (inorder l) (k ∷ inorder s) (inorder r))

-- The search of a tree in order finds the key.
abbrev has : ℕ → RbTree → Bool
has key leaf = false
has key (node c l k r) = if key == k then true else (if ltb key k then has key l else has key r)

-- The tree without its node of a key.
abbrev erased : ℕ → RbTree → RbTree
erased key leaf = leaf
erased key (node c l k r) =
    if key == k
    then joined l r
    else (if ltb key k then node c (erased key l) k r else node c l k (erased key r))

remove_key-Yields :
    (key : ℕ) (t : RbTree) (path : List Frame) {h : ℕ}
    → IsRb h t
    → IsRbPath h path
    → (is_red t ≡ true → FitsRed h path)
    → has key t ≡ true
    → Yields (inorder (plug path (erased key t))) (remove_key key t path)
unfolding remove_key plug
remove_key-Yields key leaf path i p fits m = absurd (cc (m))
remove_key-Yields key (node c l k r) path i p fits m = elim (Bool-cases (key == k)) [
  | inl e ↦ rw e (rb_remove-Yields c l k r path i p fits (joined l r) (inorder-joined l r))
  | inr e ↦ elim (Bool-cases (ltb key k)) [
    | inl b ↦
        let (n, i', p', fits') = below_left c path i p fits k in
        rw (e, b)
          (remove_key-Yields key l (left_child c k r ∷ path) i' p' fits'
            (ground (arith, rw (e, b) at m)))
    | inr b ↦
        let (n, i', p', fits') = below_right c path i p fits in
        rw (e, b)
          (remove_key-Yields key r (right_child c l k ∷ path) i' p' fits'
            (ground (arith, rw (e, b) at m)))
  ]
]

has-member :
    (low key : ℕ) (t : RbTree) → Increasing low (inorder t) → has key t ≡ member key (inorder t)
has-member low key leaf i = refl
has-member low key (node c l k r) i = elim (Bool-cases (key == k)) [
  | inl e ↦
      let same : key ≡ k = ground (arith, e) in
      rw e (sym (rw same (member_here k (inorder l) (inorder r))))
  | inr e ↦ elim (Bool-cases (ltb key k)) [
    | inl b ↦
        rw (e, b)
          (has-member low key l (Increasing-left low k (inorder l) (inorder r) i)
            ∙ sym (member_left low key k (inorder l) (inorder r) i (ground (arith, b))))
    | inr b ↦
        rw (e, b)
          (has-member (k + slab_size) key r (Increasing-right low k (inorder l) (inorder r) i).1
            ∙ sym (member_right low key k (inorder l) (inorder r) i (ground (arith, e, b))))
  ]
]

inorder-erased :
    (low key : ℕ) (t : RbTree)
    → Increasing low (inorder t)
    → inorder (erased key t) ≡ erase key (inorder t)
inorder-erased low key leaf i = refl
inorder-erased low key (node c l k r) i = elim (Bool-cases (key == k)) [
  | inl e ↦
      let same : key ≡ k = ground (arith, e) in
      rw e (inorder-joined l r ∙ sym (rw same (erase_here low k (inorder l) (inorder r) i)))
  | inr e ↦ elim (Bool-cases (ltb key k)) [
    | inl b ↦
        rw (e, b)
          (ap (λ x. x ++ (k ∷ inorder r))
              (inorder-erased low key l (Increasing-left low k (inorder l) (inorder r) i))
            ∙ sym (erase_left low key k (inorder l) (inorder r) i (ground (arith, b))))
    | inr b ↦
        rw (e, b)
          (ap (λ x. inorder l ++ (k ∷ x))
              (inorder-erased (k + slab_size) key r
                (Increasing-right low k (inorder l) (inorder r) i).1)
            ∙ sym (erase_right low key k (inorder l) (inorder r) i (ground (arith, e, b))))
  ]
]

-- The tree that slab_remove leaves for an address of the tree.
pub record IsErased (key : ℕ) (t : RbTree) : Type 0 where
  pub tree : RbTree
  pub returned : remove_key key t [] ≡ some tree
  pub ordered : inorder tree ≡ erase key (inorder t)

IsErased-of :
    (key : ℕ) (t : RbTree) (r : Option RbTree)
    → r ≡ remove_key key t []
    → Yields (erase key (inorder t)) r
    → IsErased key t
IsErased-of key t none e y = elim y [ ]
IsErased-of key t (some u) e (yields _ w) = record { tree = u; returned = sym e; ordered = w }

-- navi_rb_remove of the node of a key, in a red-black tree of addresses in order, a slab apart, goes
-- through no null pointer and ends, and leaves a tree with the other addresses in order.
pub remove_key-IsErased :
    (key : ℕ) (t : RbTree)
    → IsRbRoot t
    → Increasing 0 (inorder t)
    → member key (inorder t) ≡ true
    → IsErased key t
unfolding plug
remove_key-IsErased key t whole i m = IsErased-of key t (remove_key key t []) refl (
    Yields-to _ (inorder-erased 0 key t i) (
      remove_key-Yields key t [] whole.proper (top whole.height) (λ c. absurd (cc (c, whole.root)))
        (has-member 0 key t i ∙ m)))
