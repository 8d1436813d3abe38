-- ===== src/Lists/Read/Laws.antt =====
-- What the readers of list.c return on a list of the heap.
use navi_scheme.Base.{
  ℕ, zero, suc, ◌+◌, ◌<◌, ◌≤◌, ◌≡◌, ap, ◌∙◌, Bool, true, false, ◌&&◌, ◌||◌, List, [], ◌∷◌, arith,
  length, Bool-cases, inl, inr, none, some, if◌then◌else◌,
}
use navi_scheme.Base.Int.{pos, negsuc}
use navi_scheme.Types.{NaviType, exactly, same_type}
use navi_scheme.Object.{Obj, fixnum, Store, type_in}
use navi_scheme.Object.Run.{ok, raised, not_proper_list, is_nil, is_type, navi_type}
use navi_scheme.Object.Chain.{
  Chain, done, link, IsEnd, is_pair-ok, is_nil-ok, car-ok, cdr-ok, is_pair-end, is_type-end,
}
use navi_scheme.Lists.Read.{
  int_max, next_int, list_length_loop, list_length, list_end, list_length_safe_loop,
  list_length_safe, is_proper_list, is_list_of, is_arg_type, scm_length,
}

next_int-ok : {h : Store} (i : ℕ) → i < int_max → next_int i h ≡ ok (i + 1) h
unfolding next_int
next_int-ok i lt = ground arith

module _ {h : Store} {n : ℕ} {end : Obj} (e : IsEnd h n end) where
  list_length_loop-length :
      (k i : ℕ) {o : Obj} {xs : List Obj}
      → Chain h n end o xs
      → length xs < k
      → i + length xs ≤ int_max
      → list_length_loop k o i h ≡ ok (i + length xs) h
  unfolding list_length_loop
  list_length_loop-length zero i c fuel small = absurd (omega arith)
  list_length_loop-length (suc k) i done fuel small =
      rw (is_pair-end e) (ap (λ j. ok j h) (omega arith))
  list_length_loop-length (suc k) i (link lt at c) fuel small =
      rw (is_pair-ok at, cdr-ok at, next_int-ok i (omega arith))
        (list_length_loop-length k (i + 1) c (omega arith) (omega arith)
          ∙ ap (λ j. ok j h) (omega arith))

  -- `navi_list_length` counts the pairs of a list, proper or not, whose number an `int` holds, and changes nothing.
  pub list_length-length :
      (k : ℕ) {o : Obj} {xs : List Obj}
      → Chain h n end o xs
      → length xs < k
      → length xs ≤ int_max
      → list_length k o h ≡ ok (length xs) h
  unfolding list_length
  list_length-length k c fuel small =
      list_length_loop-length k 0 c fuel (omega arith) ∙ ap (λ j. ok j h) (omega arith)

  pub list_end-end :
      (k : ℕ) {o : Obj} {xs : List Obj}
      → Chain h n end o xs
      → length xs < k
      → list_end k o h ≡ ok end h
  unfolding list_end
  list_end-end zero c fuel = absurd (omega arith)
  list_end-end (suc k) done fuel = rw (is_pair-end e)
  list_end-end (suc k) (link lt at c) fuel =
      rw (is_pair-ok at, cdr-ok at) (list_end-end k c (omega arith))

  is_nil-end : is_nil end h ≡ ok (same_type e.type NaviType.nil) h
  unfolding is_type navi_type
  is_nil-end = ground arith

  -- A list is proper exactly when it ends in nil.
  pub is_proper_list-end :
      (k : ℕ) {o : Obj} {xs : List Obj}
      → Chain h n end o xs
      → length xs < k
      → is_proper_list k o h ≡ ok (same_type e.type NaviType.nil) h
  unfolding is_proper_list
  is_proper_list-end k done fuel = ground (arith, is_nil-end, is_pair-end e)
  is_proper_list-end k (link lt at c) fuel =
      rw (is_nil-ok at, is_pair-ok at, list_end-end k (link lt at c) fuel) is_nil-end

  list_length_safe_loop-length :
      (k i : ℕ) {o : Obj} {xs : List Obj}
      → Chain h n end o xs
      → length xs < k
      → i + length xs ≤ int_max
      → list_length_safe_loop k o i h
        ≡ ok (if same_type e.type NaviType.nil then pos (i + length xs) else negsuc 0) h
  unfolding list_length_safe_loop
  list_length_safe_loop-length zero i c fuel small = absurd (omega arith)
  list_length_safe_loop-length (suc k) i done fuel small = ground (arith, is_nil-end, is_pair-end e)
  list_length_safe_loop-length (suc k) i (link lt at c) fuel small =
      rw (is_pair-ok at, cdr-ok at, next_int-ok i (omega arith))
        (list_length_safe_loop-length k (i + 1) c (omega arith) (omega arith) ∙ ground arith)

  -- `length` of a list whose number of pairs an `int` holds returns that number if the list is proper,
  -- and raises an error if it is not.
  pub scm_length-length :
      (k : ℕ) {o : Obj} {xs : List Obj}
      → Chain h n end o xs
      → length xs < k
      → length xs ≤ int_max
      → scm_length k o h ≡ (
          if same_type e.type NaviType.nil
          then ok (fixnum (pos (length xs))) h
          else raised not_proper_list)
  unfolding scm_length list_length_safe
  scm_length-length k c fuel small =
      rw (list_length_safe_loop-length k 0 c fuel (omega arith)) (ground arith)

-- The object's type is known in the heap, and is `t`.
unfoldable pub has_type : Store → NaviType → Obj → Bool
has_type h t o = elim (type_in h o) [ none ↦ false | some t' ↦ same_type t' t ]

pub record IsKnown (h : Store) (o : Obj) : Type 0 where
  pub type : NaviType
  pub known : type_in h o ≡ some type

abbrev pub AllKnown : Store → List Obj → Type 0
AllKnown h [] = Unit {0}
AllKnown h (x ∷ xs) = IsKnown h x × AllKnown h xs

pub all_have : Store → NaviType → List Obj → Bool
unfolding has_type
all_have h t [] = true
all_have h t (x ∷ xs) = has_type h t x && all_have h t xs

pub is_type-known :
    {h : Store} {o : Obj} (t : NaviType) → IsKnown h o → is_type t o h ≡ ok (has_type h t o) h
unfolding is_type navi_type has_type
is_type-known t known = ground arith

-- `navi_is_list_of` for a type of objects: every element has the type, and the list is proper, or a
-- dotted tail is allowed and has the type too.
pub is_list_of-all_have :
    {h : Store} {n : ℕ} {end : Obj} (e : IsEnd h n end) (t : NaviType) (dotted : Bool) (k : ℕ)
    {o : Obj} {xs : List Obj}
    → Chain h n end o xs
    → AllKnown h xs
    → length xs < k
    → is_list_of k o (exactly t) dotted h
      ≡ ok (all_have h t xs && (same_type e.type NaviType.nil || (dotted && same_type e.type t))) h
unfolding is_list_of all_have is_arg_type
is_list_of-all_have e t dotted zero c known fuel = absurd (omega arith)
is_list_of-all_have e t dotted (suc k) done known fuel =
    rw (is_pair-end e) (ground (arith, is_type-end e t, is_type-end e NaviType.nil))
is_list_of-all_have {h} e t dotted (suc k) (link {a = x} {xs = ys} lt at c) (known, rest) fuel =
    rw (is_pair-ok at, car-ok at, is_type-known t known)
      (elim (Bool-cases (has_type h t x)) [
        | inl yes' ↦ rw (yes', cdr-ok at) (is_list_of-all_have e t dotted k c rest (omega arith))
        | inr no' ↦ rw no'
      ])
