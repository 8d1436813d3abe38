-- ===== src/Environment/Scope.antt =====
-- One scope as a map from symbols to objects: `navi_scope_set` and `navi_scope_unset` through the
-- lookup.
use navi_scheme.Base.{
  ℕ, ◌≡◌, refl, ap, true, false, Option, none, some, List, if◌then◌else◌, arith, Bool-cases, inl,
  inr, ◌==◌,
}
use navi_scheme.Object.{Obj, eqp}
use navi_scheme.Object.Encode.{eq_of_eqp}
use navi_scheme.Environment.{
  Binding, ScopeTable, bucket_of, find, scope_lookup, remove, put_bucket, assign_binding,
  insert_binding, navi_scope_set, navi_scope_unset,
}
use navi_scheme.Environment.Bucket.{
  value, value-find-replace, value-find-remove, Distinct, Distinct-replace, Distinct-remove,
}

-- The map that a scope stands for.
abbrev pub bound : ScopeTable → Obj → Option Obj
bound s k = value (scope_lookup s k)

bucket_of-eqp : (k j : Obj) → eqp k j ≡ true → bucket_of k ≡ bucket_of j
bucket_of-eqp k j e = ap bucket_of (eq_of_eqp k j e)

pub bound-assign :
    (s : ScopeTable) (k v j : Obj) {b : Binding}
    → scope_lookup s k ≡ some b
    → bound (assign_binding s k v) j ≡ (if eqp k j then some v else bound s j)
unfolding scope_lookup assign_binding put_bucket
bound-assign s k v j {b} e =
    ground (arith, bucket_of-eqp k j, value-find-replace (s.bucket (bucket_of k)) k j v e)

pub bound-insert :
    (s : ScopeTable) (k v j : Obj)
    → bound (insert_binding s k v) j ≡ (if eqp k j then some v else bound s j)
unfolding scope_lookup insert_binding put_bucket find
bound-insert s k v j = ground (arith, bucket_of-eqp k j)

module _ (s : ScopeTable) (k : Obj) where
  set-bound :
      (v : Obj) {b : Binding}
      → scope_lookup s k ≡ some b
      → navi_scope_set s k v ≡ assign_binding s k v
  unfolding navi_scope_set
  set-bound v e = ground (arith, e)

  set-free : (v : Obj) → scope_lookup s k ≡ none → navi_scope_set s k v ≡ insert_binding s k v
  unfolding navi_scope_set
  set-free v e = ground (arith, e)

  unset-bound :
      {b : Binding}
      → scope_lookup s k ≡ some b
      → navi_scope_unset s k
        ≡ (true, put_bucket s (bucket_of k) (remove (s.bucket (bucket_of k)) k))
  unfolding navi_scope_unset
  unset-bound e = ground (arith, e)

  unset-free : scope_lookup s k ≡ none → navi_scope_unset s k ≡ (false, s)
  unfolding navi_scope_unset
  unset-free e = ground (arith, e)

-- After `navi_scope_set` the symbol is bound to the object, whether it was bound before or not, and
-- every other symbol as before.
pub bound-navi_scope_set :
    (s : ScopeTable) (k v j : Obj)
    → bound (navi_scope_set s k v) j ≡ (if eqp k j then some v else bound s j)
bound-navi_scope_set s k v j = by_lookup (scope_lookup s k) refl
  where
    by_lookup :
        (o : Option Binding)
        → scope_lookup s k ≡ o
        → bound (navi_scope_set s k v) j ≡ (if eqp k j then some v else bound s j)
    by_lookup none e = rw (set-free s k v e) (bound-insert s k v j)
    by_lookup (some b) e = rw (set-bound s k v e) (bound-assign s k v j e)

-- No bucket binds a symbol twice.
pub record IsScope (s : ScopeTable) : Type 0 where
  pub distinct : (i : ℕ) → Distinct (s.bucket i)

Distinct-put :
    {s : ScopeTable} (i : ℕ) (bs : List Binding)
    → IsScope s
    → Distinct bs
    → IsScope (put_bucket s i bs)
unfolding put_bucket
Distinct-put {s} i bs is d = record { distinct = each }
  where
    each : (j : ℕ) → Distinct (if j == i then bs else s.bucket j)
    each j = elim (Bool-cases (j == i)) [ inl yes' ↦ rw yes' d | inr no' ↦ rw no' (is.distinct j) ]

-- `navi_scope_set` and `navi_scope_unset` never leave a symbol bound twice in a scope.
pub navi_scope_set-IsScope :
    {s : ScopeTable} (k v : Obj)
    → IsScope s
    → IsScope (navi_scope_set s k v) × IsScope (navi_scope_unset s k).1
unfolding assign_binding insert_binding scope_lookup Distinct
navi_scope_set-IsScope {s} k v is = by_lookup (scope_lookup s k) refl
  where
    by_lookup :
        (o : Option Binding)
        → scope_lookup s k ≡ o
        → IsScope (navi_scope_set s k v) × IsScope (navi_scope_unset s k).1
    by_lookup none e =
        rw (set-free s k v e, unset-free s k e)
          (Distinct-put (bucket_of k) _ is (e, is.distinct (bucket_of k)), is)
    by_lookup (some b) e =
        rw (set-bound s k v e, unset-bound s k e)
          (
            Distinct-put (bucket_of k) _ is (Distinct-replace _ k v (is.distinct (bucket_of k))),
            Distinct-put (bucket_of k) _ is (Distinct-remove _ k (is.distinct (bucket_of k))),
          )

bound-remove :
    (s : ScopeTable) (k j : Obj)
    → IsScope s
    → bound (put_bucket s (bucket_of k) (remove (s.bucket (bucket_of k)) k)) j
      ≡ (if eqp k j then none else bound s j)
unfolding scope_lookup put_bucket
bound-remove s k j is = ground (
  arith,
  bucket_of-eqp k j,
  value-find-remove (s.bucket (bucket_of k)) k j (is.distinct (bucket_of k)),
)

eqp_lookup : (s : ScopeTable) (k j : Obj) → eqp k j ≡ true → scope_lookup s k ≡ scope_lookup s j
eqp_lookup s k j e = ap (scope_lookup s) (eq_of_eqp k j e)

-- `navi_scope_unset` reports whether the symbol was bound; after it the symbol is not bound, and every
-- other symbol as before.
pub bound-navi_scope_unset :
    {s : ScopeTable} (k j : Obj)
    → IsScope s
    → ((navi_scope_unset s k).0 ≡ elim (bound s k) [ none ↦ false | some _ ↦ true ])
      × (bound (navi_scope_unset s k).1 j ≡ (if eqp k j then none else bound s j))
bound-navi_scope_unset {s} k j is = by_lookup (scope_lookup s k) refl
  where
    free : scope_lookup s k ≡ none → bound s j ≡ (if eqp k j then none else bound s j)
    free e = ground (arith, e, eqp_lookup s k j)

    by_lookup :
        (o : Option Binding)
        → scope_lookup s k ≡ o
        → ((navi_scope_unset s k).0 ≡ elim (bound s k) [ none ↦ false | some _ ↦ true ])
          × (bound (navi_scope_unset s k).1 j ≡ (if eqp k j then none else bound s j))
    by_lookup none e = rw (unset-free s k e, e) (refl, free e)
    by_lookup (some b) e = rw (unset-bound s k e, e) (refl, bound-remove s k j is)
