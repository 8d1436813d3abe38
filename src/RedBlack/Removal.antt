-- ===== src/RedBlack/Removal.antt =====
-- The rounds of navi_rb_remove of rbtree.c.
use mathlib.Core.List.{append_assoc}
use navi_scheme.Base.{
  ℕ, suc, ◌≡◌, refl, sym, ◌∙◌, ap, inl, inr, true, false, Option, none, some, List, [], ◌∷◌, ◌++◌,
  Bool-cases,
}
use navi_scheme.RedBlack.{
  Colour, red, black, RbTree, leaf, node, Frame, left_child, right_child, plug, is_red, paint,
  rotate_left, rotate_right,
}
use navi_scheme.RedBlack.Remove.{
  above, six_left, six_right, settle_left, settle_right, is_case_3, two_left, two_right,
  remove_loop,
}
use navi_scheme.RedBlack.Invariant.{
  IsRb, red_rb, black_rb, IsRbPath, left_black, right_black, left_left, left_right, right_left,
  right_right, inorder, inorder-plug,
}

-- The result of a command is a tree with these keys in order.
pub data Yields (keys : List ℕ) : Option RbTree → Type 0 where
  yields : (t : RbTree) → inorder t ≡ keys → Yields keys (some t)

Yields-above :
    {keys more : List ℕ} (f : RbTree → RbTree) (r : Option RbTree)
    → Yields keys r
    → ((t : RbTree) → inorder t ≡ keys → inorder (f t) ≡ more)
    → Yields more (above f r)
Yields-above f none y h = elim y [ ]
Yields-above f (some t) (yields _ e) h = yields (f t) (h t e)

pub Yields-to :
    {keys more : List ℕ} (r : Option RbTree) → keys ≡ more → Yields keys r → Yields more r
Yields-to none e y = elim y [ ]
Yields-to (some t) e (yields _ f) = yields t (f ∙ e)

module _ (c : Colour) (n : RbTree) (k : ℕ) where
  settle_left-Yields :
      {h : ℕ} (s : RbTree)
      → IsRb (suc h) s
      → is_red s ≡ false
      → Yields (inorder n ++ (k ∷ inorder s)) (settle_left c n k s)
  unfolding settle_left six_left rotate_left rotate_right
  settle_left-Yields leaf x _ = elim x [ ]
  settle_left-Yields (node red l m r) x e = absurd (cc (e))
  settle_left-Yields (node black leaf m leaf) (black_rb _ _ _) _ = yields _ refl
  settle_left-Yields (node black (node red a j b) m leaf) (black_rb _ _ _) _ =
      yields _ (simp (append_assoc) refl)
  settle_left-Yields (node black (node black a j b) m leaf) (black_rb _ _ _) _ = yields _ refl
  settle_left-Yields (node black leaf m (node red d i e)) (black_rb _ _ _) _ =
      yields _ (simp (append_assoc) refl)
  settle_left-Yields (node black (node red a j b) m (node red d i e)) (black_rb _ _ _) _ =
      yields _ (simp (append_assoc) refl)
  settle_left-Yields (node black (node black a j b) m (node red d i e)) (black_rb _ _ _) _ =
      yields _ (simp (append_assoc) refl)
  settle_left-Yields (node black leaf m (node black d i e)) (black_rb _ _ _) _ = yields _ refl
  settle_left-Yields (node black (node red a j b) m (node black d i e)) (black_rb _ _ _) _ =
      yields _ (simp (append_assoc) refl)
  settle_left-Yields (node black (node black a j b) m (node black d i e)) (black_rb _ _ _) _ =
      yields _ refl

  settle_right-Yields :
      {h : ℕ} (s : RbTree)
      → IsRb (suc h) s
      → is_red s ≡ false
      → Yields (inorder s ++ (k ∷ inorder n)) (settle_right c s k n)
  unfolding settle_right six_right rotate_left rotate_right
  settle_right-Yields leaf x _ = elim x [ ]
  settle_right-Yields (node red l m r) x e = absurd (cc (e))
  settle_right-Yields (node black leaf m leaf) (black_rb _ _ _) _ = yields _ refl
  settle_right-Yields (node black leaf m (node red a j b)) (black_rb _ _ _) _ =
      yields _ (simp (append_assoc) refl)
  settle_right-Yields (node black leaf m (node black a j b)) (black_rb _ _ _) _ = yields _ refl
  settle_right-Yields (node black (node red d i e) m leaf) (black_rb _ _ _) _ =
      yields _ (simp (append_assoc) refl)
  settle_right-Yields (node black (node red d i e) m (node red a j b)) (black_rb _ _ _) _ =
      yields _ (simp (append_assoc) refl)
  settle_right-Yields (node black (node red d i e) m (node black a j b)) (black_rb _ _ _) _ =
      yields _ (simp (append_assoc) refl)
  settle_right-Yields (node black (node black d i e) m leaf) (black_rb _ _ _) _ = yields _ refl
  settle_right-Yields (node black (node black d i e) m (node red a j b)) (black_rb _ _ _) _ =
      yields _ (simp (append_assoc) refl)
  settle_right-Yields (node black (node black d i e) m (node black a j b)) (black_rb _ _ _) _ =
      yields _ refl

-- A red sibling has children that are black.
two_left-Yields :
    {h : ℕ} (n : RbTree) (k : ℕ) (s : RbTree)
    → IsRb (suc h) s
    → is_red s ≡ true
    → Yields (inorder n ++ (k ∷ inorder s)) (two_left n k s)
unfolding two_left
two_left-Yields n k (node red l m r) (red_rb _ x y e f) _ =
    Yields-above _ _ (settle_left-Yields red n k l x e)
      λ t w. rw w (append_assoc (inorder n) (k ∷ inorder l) (m ∷ inorder r))
two_left-Yields n k (node black l m r) x e = absurd (cc (e))
two_left-Yields n k leaf x e = elim x [ ]

two_right-Yields :
    {h : ℕ} (n : RbTree) (k : ℕ) (s : RbTree)
    → IsRb (suc h) s
    → is_red s ≡ true
    → Yields (inorder s ++ (k ∷ inorder n)) (two_right n k s)
unfolding two_right
two_right-Yields n k (node red l m r) (red_rb _ x y e f) _ =
    Yields-above _ _ (settle_right-Yields red n k r y f)
      λ t w. rw w (sym (append_assoc (inorder l) (m ∷ inorder r) (k ∷ inorder n)))
two_right-Yields n k (node black l m r) x e = absurd (cc (e))
two_right-Yields n k leaf x e = elim x [ ]

pub inorder-paint : (c : Colour) (t : RbTree) → inorder (paint c t) ≡ inorder t
inorder-paint c leaf = refl
inorder-paint c (node _ l k r) = refl

-- The loop ends, and leaves the keys in order.
pub remove_loop-Yields :
    {h : ℕ} (path : List Frame) (n last : RbTree)
    → IsRbPath (suc h) path
    → inorder last ≡ inorder n
    → Yields (inorder (plug path n)) (remove_loop path n last)
unfolding remove_loop plug
remove_loop-Yields [] n last p w = yields last w
remove_loop-Yields (left_child black k s ∷ path) n last (left_black _ x p) w =
    elim (Bool-cases (is_red s)) [
      | inl e ↦ rw e (
          Yields-above _ _ (two_left-Yields n k s x e)
            λ t v. inorder-plug path t (node black n k s) v)
      | inr e ↦ elim (Bool-cases (is_case_3 black s)) [
        | inl f ↦
            rw (e, f)
              (Yields-to _
                (inorder-plug path (node black n k (paint red s)) (node black n k s)
                  (ap (λ l. inorder n ++ (k ∷ l)) (inorder-paint red s)))
                (remove_loop-Yields path (node black n k (paint red s))
                  (node black last k (paint red s)) p
                  (ap (λ l. l ++ (k ∷ inorder (paint red s))) w)))
        | inr f ↦
            rw (e, f)
              (Yields-above _ _ (settle_left-Yields black n k s x e)
                λ t v. inorder-plug path t (node black n k s) v)
      ]
    ]
remove_loop-Yields (right_child black s k ∷ path) n last (right_black _ x p) w =
    elim (Bool-cases (is_red s)) [
      | inl e ↦ rw e (
          Yields-above _ _ (two_right-Yields n k s x e)
            λ t v. inorder-plug path t (node black s k n) v)
      | inr e ↦ elim (Bool-cases (is_case_3 black s)) [
        | inl f ↦
            rw (e, f)
              (Yields-to _
                (inorder-plug path (node black (paint red s) k n) (node black s k n)
                  (ap (λ l. l ++ (k ∷ inorder n)) (inorder-paint red s)))
                (remove_loop-Yields path (node black (paint red s) k n)
                  (node black (paint red s) k last) p
                  (ap (λ l. inorder (paint red s) ++ (k ∷ l)) w)))
        | inr f ↦
            rw (e, f)
              (Yields-above _ _ (settle_right-Yields black n k s x e)
                λ t v. inorder-plug path t (node black s k n) v)
      ]
    ]
remove_loop-Yields (left_child red k s ∷ left_child black g u ∷ path) n last (left_left _ _ x e y p)
      w =
    rw e (
      Yields-above _ _ (settle_left-Yields red n k s x e)
        λ t v. inorder-plug (left_child black g u ∷ path) t (node red n k s) v)
remove_loop-Yields (left_child red k s ∷ right_child black u g ∷ path) n last
      (left_right _ _ x e y p) w =
    rw e (
      Yields-above _ _ (settle_left-Yields red n k s x e)
        λ t v. inorder-plug (right_child black u g ∷ path) t (node red n k s) v)
remove_loop-Yields (right_child red s k ∷ left_child black g u ∷ path) n last
      (right_left _ _ x e y p) w =
    rw e (
      Yields-above _ _ (settle_right-Yields red n k s x e)
        λ t v. inorder-plug (left_child black g u ∷ path) t (node red s k n) v)
remove_loop-Yields (right_child red s k ∷ right_child black u g ∷ path) n last
      (right_right _ _ x e y p) w =
    rw e (
      Yields-above _ _ (settle_right-Yields red n k s x e)
        λ t v. inorder-plug (right_child black u g ∷ path) t (node red s k n) v)
remove_loop-Yields (left_child red k r ∷ []) n last z w = elim z [ ]
remove_loop-Yields (left_child red k r ∷ left_child red g u ∷ path) n last z w = elim z [ ]
remove_loop-Yields (left_child red k r ∷ right_child red u g ∷ path) n last z w = elim z [ ]
remove_loop-Yields (right_child red l k ∷ []) n last z w = elim z [ ]
remove_loop-Yields (right_child red l k ∷ left_child red g u ∷ path) n last z w = elim z [ ]
remove_loop-Yields (right_child red l k ∷ right_child red u g ∷ path) n last z w = elim z [ ]
