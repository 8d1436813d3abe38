-- ===== src/Tests/StringTests.antt =====
-- The results on strings, applied to short ones.
use navi_scheme.Base.{ℕ, ◌≡◌, ◌↔◌, refl, Bool, true, List, [], ◌∷◌, ◌++◌, length, arith}
use navi_scheme.Base.Int.{ℤ, pos, ltb_ℤ}
use navi_scheme.Object.{Obj, NaviString, char, eof}
use navi_scheme.Port.Chars.{ascii}
use navi_scheme.Port.Stream.{Gives}
use navi_scheme.Strings.{
  StringInput, string_compare, open_output_string, open_input_string, get_output_string,
}
use navi_scheme.Strings.Content.{IsString}
use navi_scheme.Strings.Compare.{no_fold, AllRelated, string_compare-first}
use navi_scheme.Strings.Ports.{write_codes, read_codes, read_codes-write_codes}

abbrev letters : List ℕ → NaviString
letters l = record { size = length l; length = length l; capacity = length l; text = l ++ (0 ∷ []) }

IsString-one : (a : ℕ) → IsString (letters (a ∷ []))
IsString-one a = record { fits = omega arith; room = refl; ends = refl }

abbrev junk : ℕ → ℕ
junk n = 7

abbrev below : ℤ → Bool
below v = ltb_ℤ v (pos 0)

string_compare-first_example :
    (string_compare below no_fold (letters (97 ∷ [])) (letters (99 ∷ []) ∷ letters (98 ∷ []) ∷ [])
      ≡ true)
    ↔ AllRelated below (letters (97 ∷ [])) (letters (99 ∷ []) ∷ letters (98 ∷ []) ∷ [])
string_compare-first_example =
    string_compare-first below (letters (97 ∷ [])) (letters (99 ∷ []) ∷ letters (98 ∷ []) ∷ [])
      (IsString-one 97) (omega arith)
      (IsString-one 99, (omega arith), (IsString-one 98, (omega arith), tt))

read_codes-write_codes_example :
    Gives NaviString
      (Unit {0})
      (write_codes ascii (72 ∷ 105 ∷ []) (open_output_string junk))
      (λ _ q.
        Gives StringInput
          (List Obj)
          (read_codes ascii 3 (open_input_string (get_output_string junk q.device)))
          (λ os _. os ≡ char 72 ∷ char 105 ∷ eof ∷ []))
read_codes-write_codes_example =
    read_codes-write_codes ascii junk junk (72 ∷ 105 ∷ []) (omega arith) (omega arith)
