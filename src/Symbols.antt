-- ===== src/Symbols.antt =====
-- The symbol table of heap.c. A name is the bytes of a C string without the zero behind them; the
-- table has the addresses of the interned symbols in its buckets.
pub mod Interning
use Prim.Native.Nat.{bit_xor}
use navi_scheme.Base.{
  ℕ, zero, suc, ◌+◌, ◌*◌, ◌-◌, ◌%◌, ◌^◌, ◌==◌, ◌&&◌, ltb, Bool, true, false, Option, none, some,
  List, [], ◌∷◌, if◌then◌else◌,
}
use navi_scheme.Object.{Cell, symbol, Store, extend}

-- `!strcmp(a, b)`
unfoldable pub same_string : List ℕ → List ℕ → Bool
same_string [] [] = true
same_string (x ∷ a) (y ∷ b) = (x == y) && same_string a b
same_string _ _ = false

-- A `char` is signed, so a byte from 128 on is negative as the `int` that joins the hash.
char_bits : ℕ → ℕ
char_bits c = if ltb c 128 then c else 2 ^ 64 - 256 + c

hash_loop : ℕ → List ℕ → ℕ
unfolding char_bits
hash_loop hash [] = hash
hash_loop hash (c ∷ cs) = hash_loop (bit_xor ((hash * 2 ^ 5 + hash) % 2 ^ 64) (char_bits c)) cs

-- `symbol_hash`
unfoldable pub symbol_hash : List ℕ → ℕ
unfolding hash_loop
symbol_hash str = hash_loop 5381 str

-- `symbol_table`: a list of symbols for each index below `SYMTAB_SIZE`.
pub record SymbolTable : Type 0 where
  pub bucket : ℕ → List ℕ

-- `it->data`
unfoldable pub symbol_data : Store → ℕ → Option (List ℕ)
symbol_data h p = elim (h.cell p) [ some (symbol str) ↦ some str | _ ↦ none ]

unfoldable pub names : Store → ℕ → List ℕ → Bool
unfolding symbol_data same_string
names h p str = elim (symbol_data h p) [ none ↦ false | some data' ↦ same_string data' str ]

-- The loop of `symbol_lookup`.
unfoldable pub lookup_bucket : Store → List ℕ → List ℕ → Option ℕ
unfolding names
lookup_bucket h [] str = none
lookup_bucket h (p ∷ ps) str = if names h p str then some p else lookup_bucket h ps str

-- `symbol_lookup`: `none` is the void object.
unfoldable pub symbol_lookup : SymbolTable → Store → List ℕ → Option ℕ
unfolding lookup_bucket symbol_hash
symbol_lookup table h str = lookup_bucket h (table.bucket (symbol_hash str % 64)) str

-- `navi_make_uninterned`
unfoldable pub make_uninterned : Store → List ℕ → ℕ × Store
make_uninterned h str = (h.next, extend h (symbol str))

-- The table and the heap after a symbol has been made, and the symbol.
pub record Interned : Type 0 where
  pub address : ℕ
  pub table : SymbolTable
  pub heap : Store

-- `new_symbol`
unfoldable pub new_symbol : SymbolTable → Store → List ℕ → Interned
unfolding make_uninterned symbol_hash
new_symbol t h str =
    let (p, h') = make_uninterned h str in
    let i : ℕ = symbol_hash str % 64 in
    record {
      address = p;
      table = record { bucket = λ j. if j == i then p ∷ t.bucket i else t.bucket j };
      heap = h';
    }

-- `navi_make_symbol`
unfoldable pub make_symbol : SymbolTable → Store → List ℕ → Interned
unfolding symbol_lookup new_symbol
make_symbol t h str = elim (symbol_lookup t h str) [
  | none ↦ new_symbol t h str
  | some p ↦ record { address = p; table = t; heap = h }
]
