-- ===== src/Lists/Build/Append.antt =====
-- `append`: all lists but the last are copied, and the last is joined to the copies.
use mathlib.Core.List.{append_assoc}
use navi_scheme.Base.{
  ℕ, zero, suc, ◌+◌, ◌<◌, ◌≤◌, ◌≡◌, ◌≢◌, refl, ap, ◌∙◌, true, List, [], ◌∷◌, ◌++◌, arith, length,
  inl, inr, ◌⊎◌, length-append,
}
use navi_scheme.Types.{same_type, code}
use navi_scheme.Object.{Obj, nil, ptr, pair, Store, extend, write, type_in}
use navi_scheme.Object.Run.{ok, is_list, is_nil, is_type, cdr, make_pair, make_object, navi_type}
use navi_scheme.Object.Returns.{Returns, returns}
use navi_scheme.Object.Returns
use navi_scheme.Object.Chain.{
  PairAt, PairAt-same, Chain, done, link, Chain-same, Chain-mono, Chain-but, SameBelow,
  SameBelow-mono, SameBelow-trans, SameBelow-extend, SameBelow-write, SameBut, SameBut-write,
  Visited, Visited-mono, Visited-but, next-write, next-extend, written-pair, made-pair, nil-IsEnd,
  is_pair-ok, is_nil-ok, car-ok, cdr-ok, set_cdr-ok,
}
use navi_scheme.Lists.Read.{is_proper_list}
use navi_scheme.Lists.Read.Laws.{is_proper_list-end}
use navi_scheme.Lists.Build.{append_loop, scm_append, is_last_pair}
use navi_scheme.Lists.Build.Last.{Lead, Lead-but, Lead-Chain, Last, last_cons-Last, last-Visited}
use navi_scheme.Lists.Build.Laws.{Builds}
use navi_scheme.Lists.Build.Copy.{IsCopy, list_copy-IsCopy}

-- The arguments of `append` and what they append to: all are proper lists but the last, which may be
-- any object, a list with any end among them.
pub data Args (h : Store) (n : ℕ) (end : Obj) : List Obj → List Obj → Type 0 where
  final : {o : Obj} {xs : List Obj} → Chain h n end o xs → Args h n end (o ∷ []) xs
  more :
      {o o' : Obj} {os xs ys : List Obj}
      → Chain h n nil o xs
      → Args h n end (o' ∷ os) ys
      → Args h n end (o ∷ o' ∷ os) (xs ++ ys)

Args-same :
    {n : ℕ} {h g : Store} {end : Obj} {os xs : List Obj}
    → SameBelow n h g
    → Args h n end os xs
    → Args g n end os xs
Args-same same (final c) = final (Chain-same same c)
Args-same same (more c args) = more (Chain-same same c) (Args-same same args)

-- The result grows behind the pair at `p`, the only one of the old pairs that changes.
record Joined (h : Store) (end : Obj) (p : ℕ) (xs : List Obj) (g : Store) : Type 0 where
  chain : Chain g g.next end (ptr p) xs
  same : SameBut h.next p h g
  grown : h.next ≤ g.next

module _ {h : Store} {n : ℕ} {o : Obj} {xs : List Obj} where
  is_proper_list-nil :
      (k : ℕ) → Chain h n nil o xs → length xs < k → is_proper_list k o h ≡ ok true h
  unfolding nil-IsEnd same_type code
  is_proper_list-nil k c fuel = is_proper_list-end (nil-IsEnd h n) k c fuel

is_list-nil :
    {h : Store} {n : ℕ} {o : Obj} {xs : List Obj} → Chain h n nil o xs → is_list o h ≡ ok true h
unfolding is_list navi_type type_in same_type code
is_list-nil done = refl
is_list-nil (link lt at c) = ground (arith, at.holds)

is_nil-nil : (h : Store) → is_nil nil h ≡ ok true h
unfolding is_type navi_type type_in same_type code
is_nil-nil h = refl

-- One round: the copy `o` of a list is hung behind `p`, and the round ends at its last pair.
record Round (n : ℕ) (h g : Store) (k p : ℕ) (v o : Obj) (xs : List Obj) : Type 0 where
  pair_at : PairAt g p v nil
  hung : Last (write g p (pair v o)) g.next nil k p (v ∷ xs)
  new : (hung.last ≡ p) ⊎ (h.next ≤ hung.last)

round :
    {n : ℕ} {h g : Store} (k : ℕ) {p : ℕ} {v o : Obj} {xs : List Obj}
    → p < h.next
    → PairAt h p v nil
    → IsCopy h nil xs o g
    → length xs < k
    → Round n h g k p v o xs
round {n} {h} {g} k {p} {v} {o} {xs} lt at copy fuel =
    let g' : Store = write g p (pair v o) in
    let away : Visited (λ q. q ≢ p) copy.chain =
      Visited-mono (λ q le e. absurd (omega arith)) copy.chain copy.fresh in
    let c : Chain g' g.next nil o xs =
      Chain-but (SameBut-write g.next g p (pair v o)) copy.chain away in
    let below : p < g.next = omega (arith, copy.grown) in
    let put : PairAt g' p v o = written-pair g p v o in
    record {
      pair_at = PairAt-same copy.same lt at;
      hung = last_cons-Last (nil-IsEnd g' g.next) k below put c fuel;
      new =
          last-Visited (nil-IsEnd g' g.next) k (λ q. (q ≡ p) ⊎ (h.next ≤ q)) below put c fuel
            (inl refl)
            (Visited-but (λ q. (q ≡ p) ⊎ (h.next ≤ q)) (SameBut-write g.next g p (pair v o))
              copy.chain away (Visited-mono (λ q le. inr le) copy.chain copy.fresh));
    }

-- Behind the round, the rest of the arguments.
joined :
    {n : ℕ} {h g f : Store} {k p : ℕ} {v o end : Obj} {xs ys : List Obj}
    → p < h.next
    → IsCopy h nil xs o g
    → (r : Round n h g k p v o xs)
    → Joined (write g p (pair v o)) end r.hung.last (r.hung.value ∷ ys) f
    → Joined h end p (v ∷ xs ++ ys) f
joined {n} {h} {g} {f} {k} {p} {v} {o} {end} {xs} {ys} lt copy r j =
    let next_g : (write g p (pair v o)).next ≡ g.next = next-write g p (pair v o) in
    let lead : Lead f g.next r.hung.last p r.hung.front =
      Lead-but (record { at = λ q below ne. j.same.at q (omega arith) ne }) r.hung.lead in
    let whole : Chain f f.next end (ptr p) (r.hung.front ++ r.hung.value ∷ ys) =
      Lead-Chain (λ q below. omega (arith, j.grown)) lead j.chain in
    let parts : v ∷ xs ++ ys ≡ r.hung.front ++ r.hung.value ∷ ys =
      ap (λ l. l ++ ys) r.hung.parts ∙ append_assoc r.hung.front (r.hung.value ∷ []) ys in
    record {
      chain = rw parts whole;
      same = record {
        at = λ q below ne.
            j.same.at q (omega (arith, copy.grown)) (old-ne-last q below ne r.new)
            ∙ (SameBut-write g.next g p (pair v o)).at q (omega (arith, copy.grown)) ne
            ∙ copy.same.at q below;
      };
      grown = omega (arith, j.grown, copy.grown);
    }
  where
    old-ne-last :
        (q : ℕ) → q < h.next → q ≢ p → (r.hung.last ≡ p) ⊎ (h.next ≤ r.hung.last) → q ≢ r.hung.last
    old-ne-last q below ne (inl e) = λ same. ne (same ∙ e)
    old-ne-last q below ne (inr le) = λ same. absurd (omega arith)

short : (xs ys : List Obj) (m k : ℕ) → m + length (xs ++ ys) < suc k → length xs < suc k
short xs ys m k fuel = omega (arith, length-append xs ys)

module _ {n : ℕ} {end : Obj} where
  append_loop-Joined :
      (k : ℕ) (h : Store) {p : ℕ} {v args : Obj} {os xs : List Obj}
      → n ≤ p
      → p < h.next
      → PairAt h p v nil
      → Chain h n nil args os
      → Args h n end os xs
      → length os + length xs < k
      → Returns (λ _ g. Joined h end p (v ∷ xs) g) (append_loop k args (ptr p) h)
  unfolding append_loop is_last_pair
  append_loop-Joined zero h new lt at args a fuel = absurd (omega arith)
  append_loop-Joined (suc k) h new lt at done a fuel = elim a [ ]
  append_loop-Joined (suc k) h {p} {v} new lt at (link lt' at' done) (final {o} c) fuel =
      let g : Store = write h p (pair v o) in
      let grown : g.next ≡ h.next = next-write h p (pair v o) in
      let same : SameBelow n h g = SameBelow-write h (pair v o) new in
      let r : Joined h end p (v ∷ _) g = record {
        chain =
            link (omega arith) (written-pair h p v o)
              (Chain-mono (omega arith) (Chain-same same c));
        same = SameBut-write h.next h p (pair v o);
        grown = omega arith;
      } in
      rw (is_pair-ok at', cdr-ok at', is_nil-nil h, car-ok at', set_cdr-ok at o) (returns r)
  append_loop-Joined (suc k) h {p} {v} new lt at (link {a = o} lt' at' (link lt2 at2 args))
        (more {xs} {ys} c a) fuel =
      rw
        (
          is_pair-ok at',
          cdr-ok at',
          is_nil-ok at2,
          car-ok at',
          is_proper_list-nil (suc k) c (short xs _ _ _ fuel),
        )
        (Returns.bind
          (list_copy-IsCopy (suc k) h (nil-IsEnd h h.next) (Chain-mono (omega arith) c)
            (is_list-nil c) (short xs _ _ _ fuel))
          λ copy g is.
            let r = round {n = n} (suc k) lt at is (short xs _ _ _ fuel) in
            let g' : Store = write g p (pair v copy) in
            let next_g : g'.next ≡ g.next = next-write g p (pair v copy) in
            let same : SameBelow n h g' =
              SameBelow-trans (omega arith) (SameBelow-mono (omega arith) is.same)
                (SameBelow-write g (pair v copy) new) in
            rw (set_cdr-ok r.pair_at copy, r.hung.found, cdr-ok (PairAt-same same lt' at'))
              (Returns.weaken
                (append_loop-Joined k g' (omega (arith, r.new)) (omega (arith, r.hung.below))
                  r.hung.at (Chain-same same (link lt2 at2 args)) (Args-same same a)
                  (omega (arith, length-append xs ys)))
                λ _ f j. joined lt is r j))

cdr-Chain :
    {h : Store} {n : ℕ} {end o x : Obj} {xs : List Obj}
    → Chain h n end o (x ∷ xs)
    → Returns (λ d g. (g ≡ h) × Chain h n end d xs) (cdr o h)
cdr-Chain (link lt at c) = rw (cdr-ok at) (returns (refl, c))

-- `append` returns the concatenation of its arguments: the elements of all the lists in order, with
-- the end of the last one, which is shared and not copied. It leaves the heap that it found as it was.
pub scm_append-append :
    (k : ℕ) (h : Store) {end args : Obj} {os xs : List Obj}
    → Chain h h.next nil args os
    → Args h h.next end os xs
    → length os + length xs < k
    → Returns (Builds h end xs) (scm_append k args h)
unfolding scm_append make_pair make_object
scm_append-append k h c a fuel =
    let h1 : Store = extend h (pair nil nil) in
    let made : SameBelow h.next h h1 = SameBelow-extend h (pair nil nil) in
    let n1 : h1.next ≡ h.next + 1 = next-extend h (pair nil nil) in
    Returns.bind
      (append_loop-Joined k h1 {p = h.next} (omega arith) (omega arith) (made-pair nil nil h)
        (Chain-same made c) (Args-same made a) fuel)
      λ _ g j. Returns.weaken (cdr-Chain j.chain) λ o f (e, c'). rw e (
        c',
        record { at = λ q below. j.same.at q (omega arith) (omega arith) ∙ made.at q below },
        omega (arith, j.grown),
      )
