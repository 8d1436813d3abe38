-- ===== src/Equal/Datum.antt =====
-- What an object of the heap denotes for `equal?`: a finite tree of pairs and vectors, with bytevectors
-- and strings by their contents and all other objects by themselves.
use navi_scheme.Base.{
  ℕ, ◌+◌, ◌≤◌, ◌≡◌, Bool, true, false, ◌&&◌, some, List, [], ◌∷◌, length, take, ◌==◌, if◌then◌else◌,
}
use navi_scheme.Types.{NaviType, code}
use navi_scheme.Object.{Obj, ptr, Cell, NaviString, Store, type_in, eqp}
use navi_scheme.Object.Chain.{PairAt}

mutual
  pub data Datum : Type 0 where
    self : Obj → Datum
    pair_of : Datum → Datum → Datum
    vector_of : Data → Datum
    bytes_of : List ℕ → Datum
    text_of : ℕ → List ℕ → Datum

  pub data Data : Type 0 where
    none : Data
    more : Datum → Data → Data

-- 0 for the types of objects that are compared by themselves.
unfoldable pub kind_of : NaviType → ℕ
unfolding code
kind_of t =
    if code t == 6
    then 1
    else (if code t == 10
        then 2
        else (if code t == 11
            then 3
            else (if code t == 8 then 4 else (if code t == 23 then 5 else 0))))

mutual
  pub data Denotes (h : Store) : Obj → Datum → Type 0 where
    alone : {o : Obj} (t : NaviType) → type_in h o ≡ some t → kind_of t ≡ 0 → Denotes h o (self o)
    paired :
        {p : ℕ} {a d : Obj} {x y : Datum}
        → PairAt h p a d
        → Denotes h a x
        → Denotes h d y
        → Denotes h (ptr p) (pair_of x y)
    listed :
        {p : ℕ} {xs : List Obj} {l : Data}
        → h.cell p ≡ some (Cell.vector xs)
        → DenoteAll h xs l
        → Denotes h (ptr p) (vector_of l)
    bytes :
        {p : ℕ} {bs : List ℕ} → h.cell p ≡ some (Cell.bytevec bs) → Denotes h (ptr p) (bytes_of bs)
    text :
        {p : ℕ} (s : NaviString) (t : List ℕ)
        → h.cell p ≡ some (Cell.string s)
        → s.size ≤ length s.text
        → t ≡ take s.size s.text
        → Denotes h (ptr p) (text_of s.length t)

  pub data DenoteAll (h : Store) : List Obj → Data → Type 0 where
    finished : DenoteAll h [] none
    also :
        {o : Obj} {os : List Obj} {x : Datum} {l : Data}
        → Denotes h o x
        → DenoteAll h os l
        → DenoteAll h (o ∷ os) (more x l)

abbrev pub same_bytes : List ℕ → List ℕ → Bool
same_bytes [] [] = true
same_bytes [] (_ ∷ _) = false
same_bytes (_ ∷ _) [] = false
same_bytes (x ∷ xs) (y ∷ ys) = (x == y) && same_bytes xs ys

unfoldable mutual
  pub same_datum : Datum → Datum → Bool
  same_datum (self a) (self b) = eqp a b
  same_datum (pair_of x y) (pair_of z w) = same_datum x z && same_datum y w
  same_datum (vector_of l) (vector_of m) = same_data l m
  same_datum (bytes_of a) (bytes_of b) = same_bytes a b
  same_datum (text_of n a) (text_of m b) = (n == m) && same_bytes a b
  same_datum _ _ = false

  pub same_data : Data → Data → Bool
  same_data none none = true
  same_data (more x l) (more y m) = same_datum x y && same_data l m
  same_data _ _ = false

-- The depth of calls and rounds that a datum asks for.
unfoldable mutual
  pub weight : Datum → ℕ
  weight (self _) = 1
  weight (pair_of x y) = weight x + weight y + 1
  weight (vector_of l) = weights l + 1
  weight (bytes_of _) = 1
  weight (text_of _ _) = 1

  pub weights : Data → ℕ
  weights none = 0
  weights (more x l) = weight x + weights l + 1
