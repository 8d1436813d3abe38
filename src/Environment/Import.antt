-- ===== src/Environment/Import.antt =====
-- `navi_import_all`: the bindings of one scope go over those of another.
use navi_scheme.Base.{
  ℕ, zero, suc, ◌+◌, ◌<◌, ◌≡◌, ◌≢◌, refl, ◌∙◌, if◌then◌else◌, Option, none, some, List, [], ◌∷◌,
  arith,
}
use navi_scheme.Object.{Obj}
use navi_scheme.Array.Slice.{inside}
use navi_scheme.Environment.{
  Binding, ScopeTable, bucket_of, find, scope_lookup, navi_scope_set, import_bucket, import_buckets,
  navi_import_all,
}
use navi_scheme.Environment.Bucket.{value, Distinct, find-eqp}
use navi_scheme.Environment.Scope.{bound, IsScope, bound-navi_scope_set}

abbrev pub or_else : Option Obj → Option Obj → Option Obj
or_else none b = b
or_else (some a) b = some a

bound-import_bucket :
    (bs : List Binding) (dst : ScopeTable) (j : Obj)
    → Distinct bs
    → bound (import_bucket dst bs) j ≡ or_else (value (find bs j)) (bound dst j)
unfolding import_bucket find Distinct
bound-import_bucket [] dst j d = refl
bound-import_bucket (b ∷ bs) dst j (new, d) = ground (
  arith,
  bound-import_bucket bs (navi_scope_set dst b.symbol b.object) j d,
  bound-navi_scope_set dst b.symbol b.object j,
  new,
  find-eqp bs b.symbol j,
)

-- Each symbol is bound in the bucket of its word only.
pub record IsPlaced (s : ScopeTable) : Type 0 where
  pub elsewhere : (i : ℕ) (j : Obj) → bucket_of j ≢ i → find (s.bucket i) j ≡ none

own_bucket :
    (s : ScopeTable) (i : ℕ) (j : Obj) → bucket_of j ≡ i → find (s.bucket i) j ≡ scope_lookup s j
unfolding scope_lookup
own_bucket s i j e = rw e refl

bound-import_buckets :
    (n i : ℕ) (dst src : ScopeTable) (j : Obj)
    → IsScope src
    → IsPlaced src
    → bound (import_buckets n i dst src) j
      ≡ (if inside i n (bucket_of j) then or_else (bound src j) (bound dst j) else bound dst j)
unfolding import_buckets
bound-import_buckets zero i dst src j is placed = ground arith
bound-import_buckets (suc n) i dst src j is placed =
    bound-import_buckets n (i + 1) (import_bucket dst (src.bucket i)) src j is placed
    ∙ ground (
      arith,
      bound-import_bucket (src.bucket i) dst j (is.distinct i),
      own_bucket src i j,
      placed.elsewhere i j,
    )

bucket_of-lt : (j : Obj) → bucket_of j < 64
unfolding bucket_of
bucket_of-lt j = omega arith

-- After `navi_import_all` every symbol that the source binds is bound as there, and every other symbol
-- as before.
pub bound-navi_import_all :
    (dst src : ScopeTable) (j : Obj)
    → IsScope src
    → IsPlaced src
    → bound (navi_import_all dst src) j ≡ or_else (bound src j) (bound dst j)
unfolding navi_import_all
bound-navi_import_all dst src j is placed =
    bound-import_buckets 64 0 dst src j is placed ∙ ground (arith, bucket_of-lt j)
