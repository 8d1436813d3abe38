-- ===== src/Equal/Same.antt =====
-- navi_equalp of heap.c answers whether two objects denote the same.
use navi_scheme.Base.{
  ℕ, zero, suc, ◌<◌, ◌≤◌, ◌≡◌, refl, sym, ap, ◌∙◌, inl, inr, Bool, false, ◌&&◌, some, List, length,
  take, ◌==◌, if◌then◌else◌, Bool-cases, arith,
}
use navi_scheme.Types.{NaviType, code, same_type, same_type_refl}
use navi_scheme.Object.{Obj, ptr, Cell, NaviString, Store, type_in, cell_type, eqp}
use navi_scheme.Object.Run.{Cmd, ok, load, navi_type}
use navi_scheme.Object.Chain.{PairAt}
use navi_scheme.Array.{elements}
use navi_scheme.Vector.{vector_layout, view_vector}
use navi_scheme.Bytevector.{bytevec_layout, view_bytevec}
use navi_scheme.Lists.Search.{eqv_value}
use navi_scheme.Lists.Read.Laws.{IsKnown}
use navi_scheme.Lists.Search.Laws.{eqv_value-eqp, known_same}
use navi_scheme.Equal.{
  list_equal, vector_equal, bytevec_equal, navi_string, string_equal, equal_as, equalp,
}
use navi_scheme.Equal.Datum.{
  Datum, self, pair_of, vector_of, bytes_of, text_of, Data, kind_of, Denotes, alone, paired, listed,
  bytes, text, DenoteAll, same_bytes, same_datum, same_data, weight, weights,
}
use navi_scheme.Equal.Laws.{
  bytes_match-take, take_all, same_bytes-length, length_take, kind, Denotes-HasKind, same_type-kind,
}
use navi_scheme.Equal.Loops.{
  list_equal-pairs, same_data-length, elements_equal-same_data, weight_positive,
}

same_datum-kind : (x y : Datum) → (kind x == kind y) ≡ false → same_datum x y ≡ false
unfolding same_datum
same_datum-kind (self a) (self b) e = absurd (ground (arith, e))
same_datum-kind (self a) (pair_of b d) e = refl
same_datum-kind (self a) (vector_of b) e = refl
same_datum-kind (self a) (bytes_of b) e = refl
same_datum-kind (self a) (text_of b d) e = refl
same_datum-kind (pair_of a c) (self b) e = refl
same_datum-kind (pair_of a c) (pair_of b d) e = absurd (ground (arith, e))
same_datum-kind (pair_of a c) (vector_of b) e = refl
same_datum-kind (pair_of a c) (bytes_of b) e = refl
same_datum-kind (pair_of a c) (text_of b d) e = refl
same_datum-kind (vector_of a) (self b) e = refl
same_datum-kind (vector_of a) (pair_of b d) e = refl
same_datum-kind (vector_of a) (vector_of b) e = absurd (ground (arith, e))
same_datum-kind (vector_of a) (bytes_of b) e = refl
same_datum-kind (vector_of a) (text_of b d) e = refl
same_datum-kind (bytes_of a) (self b) e = refl
same_datum-kind (bytes_of a) (pair_of b d) e = refl
same_datum-kind (bytes_of a) (vector_of b) e = refl
same_datum-kind (bytes_of a) (bytes_of b) e = absurd (ground (arith, e))
same_datum-kind (bytes_of a) (text_of b d) e = refl
same_datum-kind (text_of a c) (self b) e = refl
same_datum-kind (text_of a c) (pair_of b d) e = refl
same_datum-kind (text_of a c) (vector_of b) e = refl
same_datum-kind (text_of a c) (bytes_of b) e = refl
same_datum-kind (text_of a c) (text_of b d) e = absurd (ground (arith, e))

equal_as_self :
    (same : Obj → Obj → Cmd Bool) (n : ℕ) (t : NaviType) (a b : Obj) (h : Store)
    → kind_of t ≡ 0
    → equal_as same n t a b h ≡ ok (eqv_value a b) h
unfolding equal_as kind_of code
equal_as_self same n NaviType.void a b h k = refl
equal_as_self same n NaviType.nil a b h k = refl
equal_as_self same n NaviType.fixnum a b h k = refl
equal_as_self same n NaviType.eof a b h k = refl
equal_as_self same n NaviType.bool a b h k = refl
equal_as_self same n NaviType.char a b h k = refl
equal_as_self same n NaviType.pair a b h k = absurd (omega (arith, k))
equal_as_self same n NaviType.port a b h k = refl
equal_as_self same n NaviType.string a b h k = absurd (omega (arith, k))
equal_as_self same n NaviType.symbol a b h k = refl
equal_as_self same n NaviType.vector a b h k = absurd (omega (arith, k))
equal_as_self same n NaviType.bytevec a b h k = absurd (omega (arith, k))
equal_as_self same n NaviType.values a b h k = refl
equal_as_self same n NaviType.macro a b h k = refl
equal_as_self same n NaviType.special a b h k = refl
equal_as_self same n NaviType.promise a b h k = refl
equal_as_self same n NaviType.thunk a b h k = refl
equal_as_self same n NaviType.procedure a b h k = refl
equal_as_self same n NaviType.caselambda a b h k = refl
equal_as_self same n NaviType.escape a b h k = refl
equal_as_self same n NaviType.parameter a b h k = refl
equal_as_self same n NaviType.bounce a b h k = refl
equal_as_self same n NaviType.environment a b h k = refl
equal_as_self same n NaviType.trap a b h k = absurd (omega (arith, k))

module _ (h : Store) where
  equalp-step :
      (n : ℕ) (a b : Obj) (s t : NaviType)
      → type_in h a ≡ some s
      → type_in h b ≡ some t
      → equalp (suc n) a b h ≡ (if same_type s t then equal_as (equalp n) n s a b h else ok false h)
  unfolding equalp navi_type
  equalp-step n a b s t ks kt = ground (arith, ks, kt)

  string_equal-same :
      {p q : ℕ} (s t : NaviString)
      → h.cell p ≡ some (Cell.string s)
      → h.cell q ≡ some (Cell.string t)
      → s.size ≤ length s.text
      → t.size ≤ length t.text
      → string_equal (ptr p) (ptr q) h
        ≡ ok ((s.length == t.length) && same_bytes (take s.size s.text) (take t.size t.text)) h
  unfolding string_equal navi_string load
  string_equal-same s t ks kt ls lt = elim (Bool-cases (s.size == t.size)) [
    | inl e ↦
        let w : s.size ≡ t.size = ground (arith, e) in
        let m = bytes_match-take s.size s.text t.text h ls (rw w lt) in
        let v : take t.size t.text ≡ take s.size t.text = ap (λ (n : ℕ). take n t.text) (sym w) in
        ground (arith, ks, kt, e, m, v)
    | inr e ↦
        let d =
          same_bytes-length (take s.size s.text) (take t.size t.text)
            (ground (arith, e, length_take s.size s.text ls, length_take t.size t.text lt)) in
        ground (arith, ks, kt, e, d)
  ]

  bytevec_equal-same :
      {p q : ℕ} (xs ys : List ℕ)
      → h.cell p ≡ some (Cell.bytevec xs)
      → h.cell q ≡ some (Cell.bytevec ys)
      → bytevec_equal (ptr p) (ptr q) h ≡ ok (same_bytes xs ys) h
  unfolding bytevec_equal elements load bytevec_layout view_bytevec
  bytevec_equal-same xs ys kx ky = elim (Bool-cases (length xs == length ys)) [
    | inl e ↦
        let w : length xs ≡ length ys = ground (arith, e) in
        let m = bytes_match-take (length xs) xs ys h (omega arith) (omega (arith, w)) in
        let v : take (length xs) ys ≡ ys = ap (λ (n : ℕ). take n ys) w ∙ take_all ys in
        ground (arith, kx, ky, e, m, v, take_all xs)
    | inr e ↦ ground (arith, kx, ky, e, same_bytes-length xs ys e)
  ]

  -- Objects that are compared by themselves.
  self-same :
      (n : ℕ) (a b : Obj) (s t : NaviType)
      → type_in h a ≡ some s
      → type_in h b ≡ some t
      → kind_of s ≡ 0
      → equalp (suc n) a b h ≡ ok (eqp a b) h
  self-same n a b s t ks kt z =
      let known_a : IsKnown h a = record { type = s; known = ks } in
      let known_b : IsKnown h b = record { type = t; known = kt } in
      elim (Bool-cases (same_type s t)) [
        | inl e ↦
            let v = eqv_value-eqp a b known_a known_b e in
            ground (arith, equalp-step n a b s t ks kt, e, equal_as_self (equalp n) n s a b h z, v)
        | inr e ↦ ground (arith, equalp-step n a b s t ks kt, e, known_same a b known_a known_b)
      ]

  differ :
      (n : ℕ) (a b : Obj) (x y : Datum)
      → Denotes h a x
      → Denotes h b y
      → (kind x == kind y) ≡ false
      → equalp (suc n) a b h ≡ ok (same_datum x y) h
  differ n a b x y da db e =
      let ka = Denotes-HasKind da in
      let kb = Denotes-HasKind db in
      let ne : same_type ka.type kb.type ≡ false =
        ground (arith, e, ka.is, kb.is, same_type-kind ka.type kb.type) in
      ground (arith, equalp-step n a b ka.type kb.type ka.known kb.known, ne, same_datum-kind x y e)

  vector_equal-same :
      (n : ℕ) (same : Obj → Obj → Cmd Bool)
      → ((a b : Obj) (x y : Datum)
          → Denotes h a x
          → Denotes h b y
          → weight x < n
          → same a b h ≡ ok (same_datum x y) h)
      → {p q : ℕ} (xs ys : List Obj) {l m : Data} → h.cell p ≡ some (Cell.vector xs)
      → h.cell q ≡ some (Cell.vector ys)
      → DenoteAll h xs l
      → DenoteAll h ys m
      → weights l < n
      → vector_equal same (ptr p) (ptr q) h ≡ ok (same_data l m) h
  unfolding vector_equal elements load vector_layout view_vector
  vector_equal-same n same ih xs ys kx ky dx dy lt = elim (Bool-cases (length xs == length ys)) [
    | inl e ↦ ground (arith, kx, ky, e, elements_equal-same_data n same h ih xs ys dx dy e lt)
    | inr e ↦ ground (arith, kx, ky, e, same_data-length xs ys dx dy e)
  ]

  known_at : {p : ℕ} (c : Cell) → h.cell p ≡ some c → type_in h (ptr p) ≡ some (cell_type c)
  unfolding type_in
  known_at c e = ground (arith, e)

  -- Objects of one type that is compared by its contents.
  module _ (n : ℕ) (p q : ℕ) (c d : Cell) (r : Bool) (kc : h.cell p ≡ some c)
      (kd : h.cell q ≡ some d) where
    by_type :
        cell_type c ≡ cell_type d
        → equal_as (equalp n) n (cell_type c) (ptr p) (ptr q) h ≡ ok r h
        → equalp (suc n) (ptr p) (ptr q) h ≡ ok r h
    by_type same e = ground (
      arith,
      equalp-step n (ptr p) (ptr q) (cell_type c) (cell_type d) (known_at c kc) (known_at d kd),
      same,
      same_type_refl (cell_type c),
      e,
    )

  by_list :
      (n : ℕ) {p q : ℕ} {a d b e : Obj} {r : Bool}
      → PairAt h p a d
      → PairAt h q b e
      → list_equal (equalp n) n (ptr p) (ptr q) h ≡ ok r h
      → equalp (suc n) (ptr p) (ptr q) h ≡ ok r h
  unfolding equal_as cell_type
  by_list n {p} {q} {a} {d} {b} {e} {r} at bt same =
      by_type n p q (Cell.pair a d) (Cell.pair b e) r at.holds bt.holds refl same

  by_vector :
      (n : ℕ) {p q : ℕ} {xs ys : List Obj} {r : Bool}
      → h.cell p ≡ some (Cell.vector xs)
      → h.cell q ≡ some (Cell.vector ys)
      → vector_equal (equalp n) (ptr p) (ptr q) h ≡ ok r h
      → equalp (suc n) (ptr p) (ptr q) h ≡ ok r h
  unfolding equal_as cell_type
  by_vector n {p} {q} {xs} {ys} {r} at bt same =
      by_type n p q (Cell.vector xs) (Cell.vector ys) r at bt refl same

  by_bytes :
      (n : ℕ) {p q : ℕ} {xs ys : List ℕ}
      → h.cell p ≡ some (Cell.bytevec xs)
      → h.cell q ≡ some (Cell.bytevec ys)
      → equalp (suc n) (ptr p) (ptr q) h ≡ ok (same_bytes xs ys) h
  unfolding equal_as cell_type
  by_bytes n {p} {q} {xs} {ys} at bt =
      by_type n p q (Cell.bytevec xs) (Cell.bytevec ys) (same_bytes xs ys) at bt refl
        (bytevec_equal-same xs ys at bt)

  by_text :
      (n : ℕ) {p q : ℕ} (s t : NaviString)
      → h.cell p ≡ some (Cell.string s)
      → h.cell q ≡ some (Cell.string t)
      → s.size ≤ length s.text
      → t.size ≤ length t.text
      → equalp (suc n) (ptr p) (ptr q) h
        ≡ ok ((s.length == t.length) && same_bytes (take s.size s.text) (take t.size t.text)) h
  unfolding equal_as cell_type
  by_text n {p} {q} s t at bt ls lt =
      by_type n p q (Cell.string s) (Cell.string t) _ at bt refl (string_equal-same s t at bt ls lt)

  pub equalp-same_datum :
      (n : ℕ) (a b : Obj) (x y : Datum)
      → Denotes h a x
      → Denotes h b y
      → weight x < n
      → equalp n a b h ≡ ok (same_datum x y) h
  unfolding same_datum weight
  equalp-same_datum zero a b x y da db lt = absurd (omega (arith, lt))
  equalp-same_datum (suc n) a b x y (alone t1 k1 z1) (alone t2 k2 z2) lt =
      self-same n a b t1 t2 k1 k2 z1
  equalp-same_datum (suc n) a b x y (alone t1 k1 z1) (paired at2 da2 dd2) lt =
      differ n a b x y (alone t1 k1 z1) (paired at2 da2 dd2) (ground arith)
  equalp-same_datum (suc n) a b x y (alone t1 k1 z1) (listed at2 all2) lt =
      differ n a b x y (alone t1 k1 z1) (listed at2 all2) (ground arith)
  equalp-same_datum (suc n) a b x y (alone t1 k1 z1) (bytes at2) lt =
      differ n a b x y (alone t1 k1 z1) (bytes at2) (ground arith)
  equalp-same_datum (suc n) a b x y (alone t1 k1 z1) (text s2 t2 at2 le2 e2) lt =
      differ n a b x y (alone t1 k1 z1) (text s2 t2 at2 le2 e2) (ground arith)
  equalp-same_datum (suc n) a b x y (paired at1 da1 dd1) (alone t2 k2 z2) lt =
      differ n a b x y (paired at1 da1 dd1) (alone t2 k2 z2) (ground arith)
  equalp-same_datum (suc zero) (ptr p) (ptr q) x y (paired {x = x1} {y = y1} at1 da1 dd1)
        (paired at2 da2 dd2) lt =
      absurd (omega (arith, lt))
  equalp-same_datum (suc (suc n)) (ptr p) (ptr q) x y (paired {x = x1} {y = y1} at1 da1 dd1)
        (paired at2 da2 dd2) lt =
      by_list (suc n) at1 at2 (
        list_equal-pairs (suc n) (equalp (suc n)) h (equalp-same_datum (suc n)) n at1 at2 da1 dd1
          da2 dd2 (omega (arith, lt)) (omega (arith, lt, weight_positive x1)))
  equalp-same_datum (suc n) a b x y (paired at1 da1 dd1) (listed at2 all2) lt =
      differ n a b x y (paired at1 da1 dd1) (listed at2 all2) (ground arith)
  equalp-same_datum (suc n) a b x y (paired at1 da1 dd1) (bytes at2) lt =
      differ n a b x y (paired at1 da1 dd1) (bytes at2) (ground arith)
  equalp-same_datum (suc n) a b x y (paired at1 da1 dd1) (text s2 t2 at2 le2 e2) lt =
      differ n a b x y (paired at1 da1 dd1) (text s2 t2 at2 le2 e2) (ground arith)
  equalp-same_datum (suc n) a b x y (listed at1 all1) (alone t2 k2 z2) lt =
      differ n a b x y (listed at1 all1) (alone t2 k2 z2) (ground arith)
  equalp-same_datum (suc n) a b x y (listed at1 all1) (paired at2 da2 dd2) lt =
      differ n a b x y (listed at1 all1) (paired at2 da2 dd2) (ground arith)
  equalp-same_datum (suc n) (ptr p) (ptr q) x y (listed {xs = xs} at1 all1)
        (listed {xs = ys} at2 all2) lt =
      by_vector n at1 at2 (
        vector_equal-same n (equalp n) (equalp-same_datum n) xs ys at1 at2 all1 all2
          (omega (arith, lt)))
  equalp-same_datum (suc n) a b x y (listed at1 all1) (bytes at2) lt =
      differ n a b x y (listed at1 all1) (bytes at2) (ground arith)
  equalp-same_datum (suc n) a b x y (listed at1 all1) (text s2 t2 at2 le2 e2) lt =
      differ n a b x y (listed at1 all1) (text s2 t2 at2 le2 e2) (ground arith)
  equalp-same_datum (suc n) a b x y (bytes at1) (alone t2 k2 z2) lt =
      differ n a b x y (bytes at1) (alone t2 k2 z2) (ground arith)
  equalp-same_datum (suc n) a b x y (bytes at1) (paired at2 da2 dd2) lt =
      differ n a b x y (bytes at1) (paired at2 da2 dd2) (ground arith)
  equalp-same_datum (suc n) a b x y (bytes at1) (listed at2 all2) lt =
      differ n a b x y (bytes at1) (listed at2 all2) (ground arith)
  equalp-same_datum (suc n) (ptr p) (ptr q) (bytes_of xs) (bytes_of ys) (bytes at1) (bytes at2) lt =
      by_bytes n at1 at2
  equalp-same_datum (suc n) a b x y (bytes at1) (text s2 t2 at2 le2 e2) lt =
      differ n a b x y (bytes at1) (text s2 t2 at2 le2 e2) (ground arith)
  equalp-same_datum (suc n) a b x y (text s1 t1 at1 le1 e1) (alone t2 k2 z2) lt =
      differ n a b x y (text s1 t1 at1 le1 e1) (alone t2 k2 z2) (ground arith)
  equalp-same_datum (suc n) a b x y (text s1 t1 at1 le1 e1) (paired at2 da2 dd2) lt =
      differ n a b x y (text s1 t1 at1 le1 e1) (paired at2 da2 dd2) (ground arith)
  equalp-same_datum (suc n) a b x y (text s1 t1 at1 le1 e1) (listed at2 all2) lt =
      differ n a b x y (text s1 t1 at1 le1 e1) (listed at2 all2) (ground arith)
  equalp-same_datum (suc n) a b x y (text s1 t1 at1 le1 e1) (bytes at2) lt =
      differ n a b x y (text s1 t1 at1 le1 e1) (bytes at2) (ground arith)
  equalp-same_datum (suc n) (ptr p) (ptr q) x y (text s1 t1 at1 le1 e1) (text s2 t2 at2 le2 e2) lt =
      rw (e1, e2) (by_text n s1 s2 at1 at2 le1 le2)
