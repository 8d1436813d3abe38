-- ===== src/Symbols/Interning.antt =====
-- Interning: one symbol for each name.
use navi_scheme.Base.{
  ℕ, ◌+◌, ◌%◌, ◌<◌, ◌≡◌, refl, ap, ◌∙◌, true, false, Option, none, some, List, [], ◌∷◌, ◌==◌,
  if◌then◌else◌, arith, Bool-cases, inl, inr,
}
use navi_scheme.Object.{Cell, symbol, Store, extend, write}
use navi_scheme.Symbols.{
  same_string, symbol_hash, SymbolTable, symbol_data, names, lookup_bucket, symbol_lookup,
  make_uninterned, Interned, new_symbol, make_symbol,
}

same_string_refl : (a : List ℕ) → same_string a a ≡ true
unfolding same_string
same_string_refl [] = refl
same_string_refl (x ∷ a) = ground (arith, same_string_refl a)

eq_of_same_string : (a b : List ℕ) → same_string a b ≡ true → a ≡ b
unfolding same_string
eq_of_same_string [] [] e = refl
eq_of_same_string [] (x ∷ b) e = cc
eq_of_same_string (x ∷ a) [] e = cc
eq_of_same_string (x ∷ a) (y ∷ b) e = ground (arith, eq_of_same_string a b)

same_hash : (a b : List ℕ) → same_string a b ≡ true → symbol_hash a ≡ symbol_hash b
same_hash a b e = ap symbol_hash (eq_of_same_string a b e)

-- The symbols of a table lie below the first free address.
abbrev pub AllBelow : ℕ → List ℕ → Type 0
AllBelow n [] = Unit {0}
AllBelow n (p ∷ ps) = (p < n) × AllBelow n ps

pub record IsTable (t : SymbolTable) (h : Store) : Type 0 where
  pub below : (i : ℕ) → AllBelow h.next (t.bucket i)

names-extend :
    (h : Store) (c : Cell) (p : ℕ) (str : List ℕ)
    → p < h.next
    → names (extend h c) p str ≡ names h p str
unfolding names symbol_data extend write
names-extend h c p str lt = ground arith

names-new :
    (h : Store) (new str : List ℕ) → names (extend h (symbol new)) h.next str ≡ same_string new str
unfolding names symbol_data extend write
names-new h new str = ground arith

lookup_bucket-extend :
    (h : Store) (c : Cell) (ps str : List ℕ)
    → AllBelow h.next ps
    → lookup_bucket (extend h c) ps str ≡ lookup_bucket h ps str
unfolding lookup_bucket
lookup_bucket-extend h c [] str b = refl
lookup_bucket-extend h c (p ∷ ps) str (lt, b) =
    rw (names-extend h c p str lt, lookup_bucket-extend h c ps str b) refl

lookup_new :
    (t : SymbolTable) (h : Store) (str other : List ℕ)
    → IsTable t h
    → symbol_lookup (new_symbol t h str).table (new_symbol t h str).heap other
      ≡ (if same_string str other then some h.next else symbol_lookup t h other)
unfolding symbol_lookup new_symbol make_uninterned lookup_bucket
lookup_new t h str other is = ground (
  arith,
  names-new h str other,
  eq_of_same_string str other,
  same_hash str other,
  lookup_bucket-extend h (symbol str) (t.bucket (symbol_hash other % 64)) other
      (is.below (symbol_hash other % 64)),
)

AllBelow-mono : {m n : ℕ} (ps : List ℕ) → m < n → AllBelow m ps → AllBelow n ps
AllBelow-mono [] lt b = tt
AllBelow-mono (p ∷ ps) lt (b, bs) = (omega arith, AllBelow-mono ps lt bs)

IsTable-new :
    {t : SymbolTable} {h : Store} (str : List ℕ)
    → IsTable t h
    → IsTable (new_symbol t h str).table (new_symbol t h str).heap
unfolding new_symbol make_uninterned extend
IsTable-new {t} {h} str is = record { below = each }
  where
    grown : h.next < h.next + 1
    grown = omega arith

    each :
        (j : ℕ)
        → AllBelow (h.next + 1) (
            if j == symbol_hash str % 64
            then h.next ∷ t.bucket (symbol_hash str % 64)
            else t.bucket j)
    each j = elim (Bool-cases (j == symbol_hash str % 64)) [
      | inl yes' ↦ rw yes' (grown, AllBelow-mono _ grown (is.below (symbol_hash str % 64)))
      | inr no' ↦ rw no' (AllBelow-mono _ grown (is.below j))
    ]

names-data : (h : Store) (q : ℕ) (str : List ℕ) → names h q str ≡ true → symbol_data h q ≡ some str
unfolding names
names-data h q str e = by_data (symbol_data h q) e
  where
    by_data :
        (o : Option (List ℕ))
        → elim o [ none ↦ false | some data' ↦ same_string data' str ] ≡ true
        → o ≡ some str
    by_data none e = cc
    by_data (some name) e = ap some (eq_of_same_string name str e)

named :
    (h : Store) (ps str : List ℕ) {p : ℕ}
    → lookup_bucket h ps str ≡ some p
    → symbol_data h p ≡ some str
unfolding lookup_bucket
named h [] str e = cc
named h (q ∷ ps) str {p} e = elim (Bool-cases (names h q str)) [
  | inl yes' ↦ let is : q ≡ p = ground arith in rw is at (names-data h q str yes')
  | inr no' ↦ named h ps str (ground arith)
]

-- What `navi_make_symbol` guarantees of the symbol and the table that it returns.
pub record IsInterned (t : SymbolTable) (h : Store) (str : List ℕ) (r : Interned) : Type 0 where
  pub table : IsTable r.table r.heap
  pub name : symbol_data r.heap r.address ≡ some str
  pub each :
      (other : List ℕ)
      → symbol_lookup r.table r.heap other
        ≡ (if same_string str other then some r.address else symbol_lookup t h other)
  pub again : make_symbol r.table r.heap str ≡ r

make_symbol-new :
    (t : SymbolTable) (h : Store) (str : List ℕ)
    → symbol_lookup t h str ≡ none
    → make_symbol t h str ≡ new_symbol t h str
unfolding make_symbol
make_symbol-new t h str e = ground (arith, e)

make_symbol-old :
    (t : SymbolTable) (h : Store) (str : List ℕ) {p : ℕ}
    → symbol_lookup t h str ≡ some p
    → make_symbol t h str ≡ record { address = p; table = t; heap = h }
unfolding make_symbol
make_symbol-old t h str e = ground (arith, e)

same_lookup :
    (t : SymbolTable) (h : Store) (a b : List ℕ)
    → same_string a b ≡ true
    → symbol_lookup t h a ≡ symbol_lookup t h b
same_lookup t h a b e = ap (symbol_lookup t h) (eq_of_same_string a b e)

new-name :
    (t : SymbolTable) (h : Store) (str : List ℕ)
    → symbol_data (new_symbol t h str).heap (new_symbol t h str).address ≡ some str
unfolding symbol_data new_symbol make_uninterned extend write
new-name t h str = ground arith

new-address : (t : SymbolTable) (h : Store) (str : List ℕ) → (new_symbol t h str).address ≡ h.next
unfolding new_symbol make_uninterned
new-address t h str = refl

again-new :
    (t : SymbolTable) (h : Store) (str : List ℕ)
    → IsTable t h
    → make_symbol (new_symbol t h str).table (new_symbol t h str).heap str ≡ new_symbol t h str
again-new t h str is =
    make_symbol-old (new_symbol t h str).table (new_symbol t h str).heap str
      (lookup_new t h str str is ∙ ground (arith, same_string_refl str))
    ∙ new-again t h str
  where
    new-again :
        (t : SymbolTable) (h : Store) (str : List ℕ)
        → record {
          address = h.next;
          table = (new_symbol t h str).table;
          heap = (new_symbol t h str).heap;
        }
          ≡ new_symbol t h str
    new-again t h str = unfold new_symbol make_uninterned in refl

-- `navi_make_symbol` returns a symbol with the name; a lookup of the name then finds this symbol, and a
-- lookup of any other name finds what it found before; the same call again returns the same symbol
-- and changes nothing.
pub make_symbol-IsInterned :
    {t : SymbolTable} {h : Store} (str : List ℕ)
    → IsTable t h
    → IsInterned t h str (make_symbol t h str)
make_symbol-IsInterned {t} {h} str is = by_lookup (symbol_lookup t h str) refl
  where
    by_lookup :
        (o : Option ℕ) → symbol_lookup t h str ≡ o → IsInterned t h str (make_symbol t h str)
    by_lookup none e = rw (make_symbol-new t h str e) (record {
      table = IsTable-new str is;
      name = new-name t h str;
      each = λ other. unfold new_symbol make_uninterned in lookup_new t h str other is;
      again = again-new t h str is;
    })
    by_lookup (some p) e = rw (make_symbol-old t h str e) (record {
      table = is;
      name = unfold symbol_lookup in named h _ str e;
      each = λ other. ground (arith, e, same_lookup t h str other);
      again = make_symbol-old t h str e;
    })
