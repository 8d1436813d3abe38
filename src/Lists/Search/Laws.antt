-- ===== src/Lists/Search/Laws.antt =====
-- What the functions that look into a list find.
use navi_scheme.Base.{
  ℕ, zero, suc, ◌+◌, ◌-◌, ◌≤◌, ◌<◌, ◌≡◌, refl, ap, leb, Bool, true, false, if◌then◌else◌, Option,
  none, some, List, [], ◌∷◌, arith, length, get_elem?, Bool-cases, inl, inr,
}
use navi_scheme.Base.Int.{pos, negsuc}
use navi_scheme.Types.{NaviType, same_type, same_type_refl, code}
use navi_scheme.Object.{Obj, ptr, void, bool, Store, Cell, eqp, eq_ℤ, type_in, cell_type}
use navi_scheme.Object.Run.{
  Run, Cmd, and_then, pure, raise, ◌>>=◌, ok, raised, list_index, not_positive, navi_type, is_type,
  car,
}
use navi_scheme.Object.Encode.{eq_of_eqp}
use navi_scheme.Object.Chain.{
  PairAt, Chain, done, link, IsEnd, is_pair-ok, is_pair-end, car-ok, cdr-ok,
}
use navi_scheme.Lists.Read.Laws.{IsKnown}
use navi_scheme.Lists.Search.{
  list_tail_loop, list_tail, pair_at, scm_list_ref, member_loop, eqvp, same_eq, scm_memq, eqv_value,
}

-- The pair with index `i` of a list, if there is one.
abbrev pub ref_of : List Obj → ℕ → Store → Run Obj
ref_of xs i h = elim (get_elem? xs i) [ none ↦ raised list_index | some x ↦ ok x h ]

module _ {h : Store} {n : ℕ} {end : Obj} (e : IsEnd h n end) where
  -- A search in which the comparison is a Boolean test of the objects.
  pub data IsMember (test : Obj → Bool) : List Obj → Run Obj → Type 0 where
    absent : IsMember test [] (ok (bool false) h)
    here :
        {x : Obj} {xs : List Obj} {t : Obj}
        → test x ≡ true
        → Chain h n end t (x ∷ xs)
        → IsMember test (x ∷ xs) (ok t h)
    later :
        {x : Obj} {xs : List Obj} {r : Run Obj}
        → test x ≡ false
        → IsMember test xs r
        → IsMember test (x ∷ xs) r

  -- What `navi_list_tail` returns: the pair of the element, or no pair.
  data IsTail : Option Obj → Run Obj → Type 0 where
    at_pair : {p : ℕ} {x d : Obj} → PairAt h p x d → IsTail (some x) (ok (ptr p) h)
    no_pair : {t : Obj} → is_type NaviType.pair t h ≡ ok false h → IsTail none (ok t h)

  void-no_pair : is_type NaviType.pair void h ≡ ok false h
  unfolding is_type navi_type type_in same_type code
  void-no_pair = refl

  list_tail_loop-IsTail :
      (k i j : ℕ) {o : Obj} {xs : List Obj}
      → Chain h n end o xs
      → length xs < k
      → i ≤ j
      → IsTail (get_elem? xs (j - i)) (list_tail_loop k o i (pos j) h)
  unfolding list_tail_loop
  list_tail_loop-IsTail zero i j c fuel le = absurd (omega arith)
  list_tail_loop-IsTail (suc k) i j done fuel le =
      rw (is_pair-end e) (elim (Bool-cases (eq_ℤ (pos i) (pos j))) [
        | inl yes' ↦ rw yes' (no_pair (is_pair-end e))
        | inr no' ↦ rw no' (no_pair void-no_pair)
      ])
  list_tail_loop-IsTail (suc k) i j (link lt at c) fuel le =
      rw (is_pair-ok at) (elim (Bool-cases (eq_ℤ (pos i) (pos j))) [
        | inl yes' ↦ (let here' : j - i ≡ 0 = ground arith in rw (yes', here') (at_pair at))
        | inr no' ↦
            (let further : j - i ≡ suc (j - (i + 1)) = ground arith in
              rw (no', further, cdr-ok at)
                (list_tail_loop-IsTail k (i + 1) j c (omega arith) (ground arith)))
      ])

  read_tail :
      {o : Option Obj} {r : Run Obj}
      → IsTail o r
      → and_then
          (and_then r λ result. do
            more ← is_type NaviType.pair result
            if more then pure result else raise list_index)
          car
        ≡ elim o [ none ↦ raised list_index | some x ↦ ok x h ]
  read_tail (at_pair at) = rw (is_pair-ok at, car-ok at) refl
  read_tail (no_pair not_one) = rw not_one refl

  -- `list-ref` at an index from 0 on returns the element and changes nothing, or raises an error where
  -- there is none, also for a dotted list; for a negative index it raises an error.
  pub scm_list_ref-ref_of :
      (k i j : ℕ) {o : Obj} {xs : List Obj}
      → Chain h n end o xs
      → length xs < k
      → (scm_list_ref k o (pos i) h ≡ ref_of xs i h)
        × (scm_list_ref k o (negsuc j) h ≡ raised not_positive)
  unfolding scm_list_ref pair_at list_tail
  scm_list_ref-ref_of k i j {xs} c fuel =
      let from_start : i - 0 ≡ i = omega arith in
      (
        ground (
          arith,
          read_tail (rw from_start at (list_tail_loop-IsTail k 0 i c fuel (omega arith))),
        ),
        ground arith,
      )

  member_loop-IsMember :
      (k : ℕ) (same : Obj → Obj → Cmd Bool) (test : Obj → Bool) (x : Obj) {o : Obj} {xs : List Obj}
      → ((y : Obj) → same x y h ≡ ok (test y) h)
      → Chain h n end o xs
      → length xs < k
      → IsMember test xs (member_loop same k x o h)
  unfolding member_loop
  member_loop-IsMember zero same test x tests c fuel = absurd (omega arith)
  member_loop-IsMember (suc k) same test x tests done fuel = rw (is_pair-end e) absent
  member_loop-IsMember (suc k) same test x tests (link {a = y} lt at c) fuel =
      rw (is_pair-ok at, car-ok at, tests y)
        (elim (Bool-cases (test y)) [
          | inl yes' ↦ rw yes' (here yes' (link lt at c))
          | inr no' ↦
              rw (no', cdr-ok at)
                (later no' (member_loop-IsMember k same test x tests c (omega arith)))
        ])

  -- `memq` returns the rest of the list from the first element that is `eq?` to the object, or #f where
  -- there is none, and changes nothing.
  pub scm_memq-IsMember :
      (k : ℕ) (x : Obj) {o : Obj} {xs : List Obj}
      → Chain h n end o xs
      → length xs < k
      → IsMember (eqp x) xs (scm_memq k x o h)
  unfolding scm_memq
  scm_memq-IsMember k x c fuel = member_loop-IsMember k same_eq (eqp x) x (λ y. refl) c fuel

is_ptr : Obj → Bool
is_ptr (ptr p) = true
is_ptr _ = false

ptr_cell : (c : Cell) → leb 6 (code (cell_type c)) ≡ true
unfolding cell_type code
ptr_cell c = ground arith

-- The types of the objects behind pointers are those from `NAVI_PAIR` on.
is_ptr-type :
    (h : Store) (a : Obj) {t : NaviType} → type_in h a ≡ some t → is_ptr a ≡ leb 6 (code t)
unfolding is_ptr type_in code
is_ptr-type h (ptr p) {t} known = by_cell (h.cell p) known
  where
    by_cell :
        (o : Option Cell)
        → elim o [ none ↦ none | some c ↦ some (cell_type c) ] ≡ some t
        → true ≡ leb 6 (code t)
    by_cell none e = cc
    by_cell (some c) e = let is : cell_type c ≡ t = cc in ground (arith, ptr_cell c)
is_ptr-type h a known = ground arith

module _ {h : Store} (a b : Obj) where
  pub known_same :
      (s : IsKnown h a) (t : IsKnown h b) → eqp a b ≡ true → same_type s.type t.type ≡ true
  known_same s t same =
      let is : type_in h a ≡ type_in h b = ap (type_in h) (eq_of_eqp a b same) in
      let st : s.type ≡ t.type = cc in rw st (same_type_refl t.type)

  pub eqv_value-eqp :
      (s : IsKnown h a) (t : IsKnown h b) → same_type s.type t.type ≡ true → eqv_value a b ≡ eqp a b
  unfolding eqv_value eqp type_in same_type is_ptr code
  eqv_value-eqp s t same = ground (arith, is_ptr-type h a s.known, is_ptr-type h b t.known)

  -- `eqv?` on objects of the heap is `eq?`.
  pub eqvp-eqp :
      (s : IsKnown h a)
      → IsKnown h b
      → same_type s.type NaviType.trap ≡ false
      → eqvp a b h ≡ ok (eqp a b) h
  unfolding eqvp navi_type
  eqvp-eqp s t ne = ground (arith, eqv_value-eqp s t, known_same s t)
