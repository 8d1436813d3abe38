-- ===== src/Lists/Build/Copy.antt =====
-- `navi_list_copy`.
use navi_scheme.Base.{
  ℕ, zero, suc, ◌+◌, ◌<◌, ◌≤◌, ◌≡◌, refl, ◌∙◌, true, List, [], ◌∷◌, arith, length, inl, inr, ◌⊎◌,
  some,
}
use navi_scheme.Types.{NaviType, same_type, code}
use navi_scheme.Object.{Obj, nil, ptr, pair, Store, extend, write, type_in, cell_type}
use navi_scheme.Object.Run.{ok, is_list, make_pair, make_object, navi_type}
use navi_scheme.Object.Returns.{Returns, returns}
use navi_scheme.Object.Returns
use navi_scheme.Object.Chain.{
  PairAt, PairAt-same, Chain, done, link, Chain-same, IsEnd, IsEnd-same, SameBelow, SameBelow-mono,
  SameBelow-trans, SameBelow-extend, SameBelow-refl, SameBelow-write, SameBut, SameBut-write,
  Visited, Visited-mono, next-write, next-extend, written-pair, made-pair, is_pair-ok, is_nil-ok,
  is_type-end, car-ok, cdr-ok, set_cdr-ok, is_pair-end,
}
use navi_scheme.Lists.Build.{copy_loop, list_copy}

-- The rest of a list is copied behind the pair at `p`; only that pair changes.
record Copied (h : Store) (end : Obj) (p : ℕ) (xs : List Obj) (g : Store) : Type 0 where
  chain : Chain g g.next end (ptr p) xs
  fresh : Visited (λ q. (q ≡ p) ⊎ (h.next ≤ q)) chain
  same : SameBut h.next p h g
  grown : h.next ≤ g.next

newer : {m k : ℕ} (a : ℕ) → k ≡ m + 1 → (a ≡ m) ⊎ (k ≤ a) → m ≤ a
newer a e out = omega arith

module _ {n : ℕ} {end : Obj} where
  copy_loop-Copied :
      (k : ℕ) (h : Store) {p : ℕ} {v d o : Obj} {xs : List Obj}
      → n ≤ p
      → p < h.next
      → PairAt h p v d
      → IsEnd h n end
      → Chain h n end o xs
      → length xs < k
      → Returns (λ _ g. Copied h end p (v ∷ xs) g) (copy_loop k (ptr p) o h)
  unfolding copy_loop make_pair make_object
  copy_loop-Copied zero h new lt atp e c fuel = absurd (omega arith)
  copy_loop-Copied (suc k) h {p} {v} new lt atp e done fuel =
      let g : Store = write h p (pair v end) in
      let grown : g.next ≡ h.next = next-write h p (pair v end) in
      let r : Copied h end p (v ∷ []) g = record {
        chain = link (omega arith) (written-pair h p v end) done;
        fresh = (inl refl, tt);
        same = SameBut-write h.next h p (pair v end);
        grown = omega arith;
      } in
      rw (is_pair-end e, set_cdr-ok atp end) (returns r)
  copy_loop-Copied (suc k) h {p} {v} {d} new lt atp e (link {a = x} lt' at c) fuel =
      let h1 : Store = extend h (pair x nil) in
      let q : ℕ = h.next in
      let h2 : Store = write h1 p (pair v (ptr q)) in
      let made : SameBelow h.next h h1 = SameBelow-extend h (pair x nil) in
      let n1 : h1.next ≡ h.next + 1 = next-extend h (pair x nil) in
      let n2 : h2.next ≡ h.next + 1 = next-write h1 p (pair v (ptr q)) ∙ n1 in
      let same : SameBelow n h h2 =
        SameBelow-trans (omega arith) (SameBelow-mono (omega arith) made)
          (SameBelow-write h1 (pair v (ptr q)) new) in
      let atq : PairAt h2 q x nil = record {
        holds =
            (SameBut-write h1.next h1 p (pair v (ptr q))).at q (omega arith) (omega arith)
            ∙ (made-pair x nil h).holds;
      } in
      rw
        (
          is_pair-ok at,
          car-ok at,
          set_cdr-ok (PairAt-same made lt atp) (ptr q),
          cdr-ok (PairAt-same same lt' at),
        )
        (Returns.weaken
          (copy_loop-Copied k h2 (omega arith) (omega arith) atq (IsEnd-same same end e)
            (Chain-same same c) (omega arith))
          λ _ g r. record {
            chain =
                link (omega (arith, r.grown))
                  (record {
                    holds =
                        r.same.at p (omega arith) (omega arith)
                        ∙ (written-pair h1 p v (ptr q)).holds;
                  })
                  r.chain;
            fresh = (inl refl, Visited-mono (λ a out. inr (newer a n2 out)) r.chain r.fresh);
            same = record {
              at = λ a below ne.
                  r.same.at a (omega arith) (omega arith)
                  ∙ (SameBut-write h1.next h1 p (pair v (ptr q))).at a (omega arith) ne
                  ∙ made.at a below;
            };
            grown = omega (arith, r.grown);
          })

nil_of_same : (t : NaviType) → same_type t NaviType.nil ≡ true → t ≡ NaviType.nil
unfolding same_type code
nil_of_same t e = ground arith

-- The only object of the type of nil is nil.
nil_of_type : (h : Store) (o : Obj) → type_in h o ≡ some NaviType.nil → o ≡ nil
unfolding type_in cell_type
nil_of_type h o e = ground arith

module _ {h : Store} {n : ℕ} {end : Obj} (e : IsEnd h n end) (lst : is_list end h ≡ ok true h) where
  nil_type : same_type e.type NaviType.nil ≡ true
  unfolding is_list navi_type
  nil_type = ground arith

  end_nil : end ≡ nil
  end_nil = nil_of_type h end (rw (nil_of_same e.type nil_type) at e.known)

-- A list in new pairs.
pub record IsCopy (h : Store) (end : Obj) (xs : List Obj) (o : Obj) (g : Store) : Type 0 where
  pub chain : Chain g g.next end o xs
  pub fresh : Visited (λ q. h.next ≤ q) chain
  pub same : SameBelow h.next h g
  pub grown : h.next ≤ g.next

-- `navi_list_copy` of a list, as its callers check with NAVI_LIST, builds a list of new pairs with
-- the same elements and the same end (a dotted tail is kept), and leaves the heap that it found as
-- it was.
pub list_copy-IsCopy :
    (k : ℕ) (h : Store) {end o : Obj} {xs : List Obj}
    → IsEnd h h.next end
    → Chain h h.next end o xs
    → is_list o h ≡ ok true h
    → length xs < k
    → Returns (IsCopy h end xs) (list_copy k o h)
unfolding list_copy make_pair make_object
list_copy-IsCopy k h {end} e done lst fuel =
    let is : end ≡ nil = end_nil e lst in
    rw (is_type-end e NaviType.nil, nil_type e lst, is)
      (returns
        (record { chain = done; fresh = tt; same = SameBelow-refl _ h; grown = omega arith }))
list_copy-IsCopy k h {end} e (link {a = x} lt at c) lst fuel =
    let h1 : Store = extend h (pair x nil) in
    let made : SameBelow h.next h h1 = SameBelow-extend h (pair x nil) in
    let n1 : h1.next ≡ h.next + 1 = next-extend h (pair x nil) in
    rw (is_nil-ok at, car-ok at, cdr-ok (PairAt-same made lt at))
      (Returns.bind
        (copy_loop-Copied k h1 {p = h.next} (omega arith) (omega arith) (made-pair x nil h)
          (IsEnd-same made end e) (Chain-same made c) (omega arith))
        λ _ g r. returns (record {
          chain = r.chain;
          fresh = Visited-mono (λ a out. newer a n1 out) r.chain r.fresh;
          same = record { at = λ p lt'. r.same.at p (omega arith) (omega arith) ∙ made.at p lt' };
          grown = omega (arith, r.grown);
        }))
