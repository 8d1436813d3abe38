-- ===== src/Strings.antt =====
-- Strings: `struct navi_string` with navi_make_string and navi_string_grow_storage of heap.c, the
-- functions of string.c that change or compare strings, and the functions of port.c for string ports.
-- The macros for UTF-8 are those of unicode.h for ASCII: a character is one byte. `left` is what new
-- memory holds before it is written.
pub mod Content
pub mod Compare
pub mod Ports
use navi_scheme.Base.{
  ℕ, zero, suc, ◌+◌, ◌-◌, ◌%◌, Bool, true, false, Option, none, some, List, [], ◌∷◌, ◌++◌, length,
  take, drop, set, get_elem?, tabulate, ltb, leb, ◌==◌, if◌then◌else◌,
}
use navi_scheme.Base.Int.{ℤ, pos, negsuc, ltb_ℤ}
use navi_scheme.Object.{NaviString}
use navi_scheme.Port.{NaviPort, eof_value, make_port, PortRun, done}
use navi_scheme.Port.Chars.{uint8}
use navi_scheme.Port.Output.{signed_byte}

-- `navi_make_string`
unfoldable pub make_string : (left : ℕ → ℕ) → (capacity size length : ℕ) → NaviString
make_string left capacity size length = record {
  size = size;
  length = length;
  capacity = capacity;
  text = set (set (tabulate (capacity + 1) left) capacity 0) size 0;
}

-- The counts of a string and the position in one are of type `int32_t`: 32 bits, and from `int32_max` on
-- C has no defined sum.
abbrev pub int32_max : ℕ
int32_max = 2147483647

abbrev pub int32_mod : ℕ
int32_mod = 4294967296

-- `navi_string_grow_storage`: `capacity - size > need` is written without the difference, and the new
-- capacity `capacity + (need - (capacity - size))` is the sum of `size` and `need`.
unfoldable pub grow_storage : (left : ℕ → ℕ) → NaviString → (need : ℕ) → NaviString
grow_storage left s need =
    if ltb (need + s.size) s.capacity
    then s
    else (let capacity = (s.size + need) % int32_mod in
        record s {
          capacity = capacity;
          text =
              set (take (s.size + need + 1) (s.text ++ tabulate (s.size + need + 1) left)) capacity
                0;
        })

-- `string_write`
unfoldable pub string_write : (left : ℕ → ℕ) → ℤ → NaviString → NaviString
unfolding grow_storage
string_write left ch str =
    let s = grow_storage left str 1 in
    record s {
      text = set (set s.text s.size (uint8 ch)) ((s.size + 1) % int32_mod) 0;
      size = (s.size + 1) % int32_mod;
      length = (s.length + 1) % int32_mod;
    }

-- What `string_read` works on: the string and `port->pos`.
pub record StringInput : Type 0 where
  pub str : NaviString
  pub pos : ℕ

abbrev byte_at : List ℕ → ℕ → ℤ
byte_at bytes i = elim (get_elem? bytes i) [ none ↦ pos 0 | some b ↦ pos b ]

-- `string_read`
unfoldable pub string_read : StringInput → ℤ × StringInput
string_read p =
    if p.pos == p.str.size
    then (eof_value, p)
    else (byte_at p.str.text p.pos, record p { pos = (p.pos + 1) % int32_mod })

-- `navi_open_input_string`, `navi_open_output_string`: 64 is STRING_INIT_SIZE.
unfoldable pub open_input_string : NaviString → NaviPort StringInput
open_input_string s =
    make_port none none (some string_read) none none none (pos 0) (record { str = s; pos = 0 })

unfoldable pub open_output_string : (left : ℕ → ℕ) → NaviPort NaviString
unfolding make_string
open_output_string left =
    let p =
      make_port none none none (some (string_write left)) none none (pos 0)
        (make_string left 64 0 0) in
    record p { flags = record p.flags { string_output = true } }

-- `memcpy(to->data, from->data, n)`
unfoldable pub copy_front : ℕ → List ℕ → List ℕ → List ℕ
copy_front n to from = take n from ++ drop n to

-- `navi_get_output_string`, whose new string has the size as capacity.
unfoldable pub get_output_string : (left : ℕ → ℕ) → NaviString → NaviString
unfolding make_string copy_front
get_output_string left str =
    let s = make_string left str.size str.size str.length in
    record s { text = copy_front str.size s.text str.text }

-- `navi_strdup`
unfoldable pub strdup : (left : ℕ → ℕ) → NaviString → NaviString
unfolding make_string copy_front
strdup left from =
    let to = make_string left from.size from.size from.length in
    record to { text = copy_front from.size to.text from.text }

-- `navi_string_set`, where the old and the new character have one byte each, so that nothing is shifted.
unfoldable pub string_set : NaviString → ℕ → ℤ → NaviString
string_set str k ch = record str { text = set (set str.text k (uint8 ch)) str.size 0 }

-- The loop of `string-fill!` over the characters from index `i`.
unfoldable pub fill_chars : ℕ → ℕ → ℤ → List ℕ → List ℕ
fill_chars zero i ch text = text
fill_chars (suc n) i ch text = fill_chars n (i + 1) ch (set text i (uint8 ch))

-- The comparison of the bytes that both strings have, and then of the sizes. `fold` is `tolower` or
-- nothing; a byte is compared as a `char`, which has a sign.
unfoldable pub strcoll_loop : (fold : ℕ → ℕ) → (m n : ℕ) → List ℕ → List ℕ → ℤ
strcoll_loop fold zero zero xs ys = pos 0
strcoll_loop fold zero (suc n) xs ys = negsuc 0
strcoll_loop fold (suc m) zero xs ys = pos 1
strcoll_loop fold (suc m) (suc n) (x ∷ xs) (y ∷ ys) =
    if ltb_ℤ (signed_byte (fold x)) (signed_byte (fold y))
    then negsuc 0
    else (if ltb_ℤ (signed_byte (fold y)) (signed_byte (fold x))
        then pos 1
        else strcoll_loop fold m n xs ys)
strcoll_loop fold (suc m) (suc n) [] ys = pos 0
strcoll_loop fold (suc m) (suc n) (x ∷ xs) [] = pos 0

-- `navi_strcoll` without ICU.
unfoldable pub strcoll : (fold : ℕ → ℕ) → NaviString → NaviString → ℤ
unfolding strcoll_loop
strcoll fold a b = strcoll_loop fold a.size b.size a.text b.text

-- STRING_COMPARE: the first string is compared with each of the others by `op`.
unfoldable pub string_compare :
    (op : ℤ → Bool) → (fold : ℕ → ℕ) → NaviString → List NaviString → Bool
string_compare op fold fst [] = true
string_compare op fold fst (snd ∷ others) =
    if op (strcoll fold fst snd) then string_compare op fold fst others else false
