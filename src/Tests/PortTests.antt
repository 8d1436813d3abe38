-- ===== src/Tests/PortTests.antt =====
-- The results on ports, applied to ports that read from and write to a list of bytes.
use navi_scheme.Base.{
  ℕ, ◌-◌, ◌^◌, ◌≡◌, refl, true, none, some, List, [], ◌∷◌, ◌++◌, map, length, replicate, ◌+◌, arith,
}
use navi_scheme.Base.Int.{ℤ, pos}
use navi_scheme.Object.{Obj, char, eof}
use navi_scheme.Port.{
  NaviPort, done, eof_value, make_port, close_input_port, check_input_port, call_close_in,
}
use navi_scheme.Port.Bytes.{read_byte, peek_byte}
use navi_scheme.Port.Chars.{ascii, read_char, peek_char, utf8_char_size}
use navi_scheme.Port.Output.{write_char}
use navi_scheme.Port.Calls.{scm_close_input_port}
use navi_scheme.Port.Stream.{
  IsByteSource, IsReadable, Gives, unread, Read, Peeked, read_byte-unread, peek_byte-unread,
}
use navi_scheme.Port.Drain.{read_times, read_times-all, byte_object}
use navi_scheme.Port.Safety.Every.{here}
use navi_scheme.Port.Closed.{ReadsFail, read-close}
use navi_scheme.Port.Text.{IsEncoded, IsByteInput}
use navi_scheme.Port.RoundTrip.{IsByteSink, read_char-write_char, peek_char-eof}

abbrev read_list : List ℕ → ℤ × List ℕ
read_list [] = (eof_value, [])
read_list (b ∷ bytes) = (pos b, bytes)

abbrev remaining : List ℕ → List ℕ
remaining bytes = bytes

IsByteSource-list : IsByteSource (List ℕ) read_list remaining
IsByteSource-list = record {
  at_end = λ s e. rw e (refl, refl);
  at_byte = λ s b bytes e. rw e (refl, refl);
}

abbrev write_list : ℕ → List ℕ → List ℕ
write_list b bytes = bytes ++ (b ∷ [])

IsByteSink-list : IsByteSink (List ℕ) write_list remaining
IsByteSink-list = record { appends = λ b t. refl }

abbrev input : List ℕ → NaviPort (List ℕ)
input bytes = make_port (some read_list) none none none none none (pos 0) bytes

abbrev output : NaviPort (List ℕ)
output = make_port none (some write_list) none none none none (pos 0) (1 ∷ [])

IsReadable-input : (bytes : List ℕ) → IsReadable (List ℕ) read_list (input bytes)
IsReadable-input bytes = record { reads = refl; not_closed = refl; filled = λ e. absurd (cc (e)) }

abbrev two_letters : List ℕ
two_letters = 65 ∷ 66 ∷ []

read_byte-unread_example :
    Gives
      (List ℕ)
      Obj
      (read_byte (input two_letters))
      (Read read_list remaining (input two_letters))
read_byte-unread_example =
    read_byte-unread read_list remaining IsByteSource-list (input two_letters)
      (IsReadable-input two_letters)

peek_byte-unread_example :
    Gives
      (List ℕ)
      Obj
      (peek_byte (input two_letters))
      (Peeked read_list remaining (input two_letters))
peek_byte-unread_example =
    peek_byte-unread read_list remaining IsByteSource-list (input two_letters)
      (IsReadable-input two_letters)

read_times-all_example :
    Gives
      (List ℕ)
      (List Obj)
      (read_times (length (unread read_list remaining (input two_letters)) + 3) (input two_letters))
      (λ os q.
        os ≡ map byte_object (unread read_list remaining (input two_letters)) ++ replicate 3 eof)
read_times-all_example =
    read_times-all read_list remaining IsByteSource-list 3 (input two_letters)
      (IsReadable-input two_letters)

closed : NaviPort (List ℕ)
closed = record (input two_letters) {
  flags = record (input two_letters).flags { input_closed = true };
}

read-close_example : ReadsFail ascii closed
unfolding closed
read-close_example = read-close ascii (input two_letters) closed closed closes here
  where
    closes : scm_close_input_port (input two_letters) ≡ done tt closed
    closes = unfold scm_close_input_port close_input_port check_input_port call_close_in in refl

IsEncoded-letter : IsEncoded ascii 65 65 []
unfolding ascii utf8_char_size
IsEncoded-letter = record {
  encoded = 65 ∷ [];
  appends = refl;
  bytes = refl;
  lead_size = refl;
  decodes = refl;
}

IsByteInput-input :
    (bytes : List ℕ) → IsByteInput read_list remaining IsByteSource-list (input bytes)
IsByteInput-input bytes = record {
  reads = refl;
  no_chars = refl;
  not_closed = refl;
  not_eof = refl;
  not_full = refl;
}

read_char-write_char_example :
    Gives (List ℕ) (Unit {0}) (write_char ascii (pos 65) output) (λ _ q. q.device ≡ 1 ∷ 65 ∷ [])
    × Gives
        (List ℕ)
        Obj
        (read_char ascii (input two_letters))
        (λ o q. (o ≡ char 65) × (q.device ≡ 66 ∷ []))
read_char-write_char_example =
    read_char-write_char write_list remaining IsByteSink-list read_list remaining IsByteSource-list
      ascii 65 65 [] IsEncoded-letter (omega arith) (omega arith) output
      (record { writes = refl; no_chars = refl; not_closed = refl }) (input two_letters) (66 ∷ [])
      (IsByteInput-input two_letters) refl

peek_char-eof_example :
    Gives
      (List ℕ)
      Obj
      (peek_char ascii (input []))
      (λ o q. (o ≡ char (2 ^ 60 - 1)) × (peek_char ascii q ≡ done eof q))
peek_char-eof_example =
    peek_char-eof read_list remaining IsByteSource-list ascii (input []) (IsByteInput-input []) refl
