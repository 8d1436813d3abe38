-- ===== src/RedBlack/Invariant.antt =====
-- The invariant of red-black trees, for a tree and for the path from a node up to the root.
use navi_scheme.Base.{ℕ, zero, suc, ◌≡◌, refl, ap, false, List, [], ◌∷◌, ◌++◌}
use navi_scheme.RedBlack.{
  red, black, RbTree, leaf, node, Frame, left_child, right_child, plug, is_red,
}

-- No red node has a red child, and every way down meets `h` black nodes.
pub data IsRb : ℕ → RbTree → Type 0 where
  leaf_rb : IsRb zero leaf
  red_rb :
      {h : ℕ} {l r : RbTree} (k : ℕ)
      → IsRb h l
      → IsRb h r
      → is_red l ≡ false
      → is_red r ≡ false
      → IsRb h (node red l k r)
  black_rb : {h : ℕ} {l r : RbTree} (k : ℕ) → IsRb h l → IsRb h r → IsRb (suc h) (node black l k r)

-- A tree of black height `h` fits at the end of the path; below a red frame only a black one.
pub data IsRbPath : ℕ → List Frame → Type 0 where
  top : (h : ℕ) → IsRbPath h []
  left_black :
      {h : ℕ} {r : RbTree} {path : List Frame} (k : ℕ)
      → IsRb h r
      → IsRbPath (suc h) path
      → IsRbPath h (left_child black k r ∷ path)
  right_black :
      {h : ℕ} {l : RbTree} {path : List Frame} (k : ℕ)
      → IsRb h l
      → IsRbPath (suc h) path
      → IsRbPath h (right_child black l k ∷ path)
  left_left :
      {h : ℕ} {r u : RbTree} {path : List Frame} (k g : ℕ)
      → IsRb h r
      → is_red r ≡ false
      → IsRb h u
      → IsRbPath (suc h) path
      → IsRbPath h (left_child red k r ∷ left_child black g u ∷ path)
  left_right :
      {h : ℕ} {r u : RbTree} {path : List Frame} (k g : ℕ)
      → IsRb h r
      → is_red r ≡ false
      → IsRb h u
      → IsRbPath (suc h) path
      → IsRbPath h (left_child red k r ∷ right_child black u g ∷ path)
  right_left :
      {h : ℕ} {l u : RbTree} {path : List Frame} (k g : ℕ)
      → IsRb h l
      → is_red l ≡ false
      → IsRb h u
      → IsRbPath (suc h) path
      → IsRbPath h (right_child red l k ∷ left_child black g u ∷ path)
  right_right :
      {h : ℕ} {l u : RbTree} {path : List Frame} (k g : ℕ)
      → IsRb h l
      → is_red l ≡ false
      → IsRb h u
      → IsRbPath (suc h) path
      → IsRbPath h (right_child red l k ∷ right_child black u g ∷ path)

-- A whole tree: the root is black.
pub record IsRbRoot (t : RbTree) : Type 0 where
  pub height : ℕ
  pub proper : IsRb height t
  pub root : is_red t ≡ false

abbrev pub inorder : RbTree → List ℕ
inorder leaf = []
inorder (node _ l k r) = inorder l ++ (k ∷ inorder r)

-- Trees with the same nodes in order have them in any place.
pub inorder-plug :
    (path : List Frame) (s t : RbTree)
    → inorder s ≡ inorder t
    → inorder (plug path s) ≡ inorder (plug path t)
unfolding plug
inorder-plug [] s t e = e
inorder-plug (left_child c k r ∷ path) s t e =
    inorder-plug path (node c s k r) (node c t k r) (ap (λ l. l ++ (k ∷ inorder r)) e)
inorder-plug (right_child c l k ∷ path) s t e =
    inorder-plug path (node c l k s) (node c l k t) (ap (λ r. inorder l ++ (k ∷ r)) e)

-- A black tree that fits makes a whole tree.
pub plug-IsRbRoot :
    {h : ℕ} (path : List Frame) (t : RbTree)
    → IsRbPath h path
    → IsRb h t
    → is_red t ≡ false
    → IsRbRoot (plug path t)
unfolding plug
plug-IsRbRoot {h} [] t (top _) r e = record { height = h; proper = r; root = e }
plug-IsRbRoot (left_child black k r ∷ path) t (left_black _ x p) i e =
    plug-IsRbRoot path (node black t k r) p (black_rb k i x) refl
plug-IsRbRoot (right_child black l k ∷ path) t (right_black _ x p) i e =
    plug-IsRbRoot path (node black l k t) p (black_rb k x i) refl
plug-IsRbRoot (left_child red k r ∷ left_child black g u ∷ path) t (left_left _ _ x b y p) i e =
    plug-IsRbRoot path _ p (black_rb g (red_rb k i x e b) y) refl
plug-IsRbRoot (left_child red k r ∷ right_child black u g ∷ path) t (left_right _ _ x b y p) i e =
    plug-IsRbRoot path _ p (black_rb g y (red_rb k i x e b)) refl
plug-IsRbRoot (right_child red l k ∷ left_child black g u ∷ path) t (right_left _ _ x b y p) i e =
    plug-IsRbRoot path _ p (black_rb g (red_rb k x i b e) y) refl
plug-IsRbRoot (right_child red l k ∷ right_child black u g ∷ path) t (right_right _ _ x b y p) i e =
    plug-IsRbRoot path _ p (black_rb g y (red_rb k x i b e)) refl
plug-IsRbRoot (left_child red k r ∷ []) t x i e = elim x [ ]
plug-IsRbRoot (left_child red k r ∷ left_child red g u ∷ path) t x i e = elim x [ ]
plug-IsRbRoot (left_child red k r ∷ right_child red u g ∷ path) t x i e = elim x [ ]
plug-IsRbRoot (right_child red l k ∷ []) t x i e = elim x [ ]
plug-IsRbRoot (right_child red l k ∷ left_child red g u ∷ path) t x i e = elim x [ ]
plug-IsRbRoot (right_child red l k ∷ right_child red u g ∷ path) t x i e = elim x [ ]
