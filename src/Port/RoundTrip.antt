-- ===== src/Port/RoundTrip.antt =====
-- Writing a character to one port of bytes and reading it from another that has the bytes.
use mathlib.Core.List.{append-nil, append_assoc}
use navi_scheme.Base.{
  ℕ, ◌-◌, ◌<◌, ◌^◌, ◌≡◌, refl, sym, ◌∙◌, ap, true, false, none, some, List, [], ◌∷◌, ◌++◌, take,
  arith,
}
use navi_scheme.Base.Int.{ℤ, pos}
use navi_scheme.Object.{Obj, char, eof}
use navi_scheme.Port.{
  NaviPort, done, eof_value, char_object, set_eof, set_full, check_can_write, check_output_port,
  is_output_port, check_can_read, check_input_port, is_input_port,
}
use navi_scheme.Port.Bytes.{call_read_u8}
use navi_scheme.Port.Chars.{Utf8, read_char, peek_char, fill_char, buffer_char, decode_char}
use navi_scheme.Port.Output.{call_write_u8, write_each, write_encoded, write_char}
use navi_scheme.Port.Stream.{IsByteSource, Gives, gives}
use navi_scheme.Port.Text.{IsEncoded, AreBytes, IsByteInput, read_char-IsEncoded}

-- What the function `write_u8` of a port promises: `written` are the bytes that it was given.
pub record IsByteSink (T : Type 0) (write_u8 : ℕ → T → T) (written : T → List ℕ) : Type 0 where
  pub appends : (b : ℕ) (t : T) → written (write_u8 b t) ≡ written t ++ (b ∷ [])

-- An open port to which bytes are written.
pub record IsByteOutput (T : Type 0) (g : ℕ → T → T) (p : NaviPort T) : Type 0 where
  pub writes : p.write_u8 ≡ some g
  pub no_chars : p.write_char ≡ none
  pub not_closed : p.flags.output_closed ≡ false

module _ {T : Type 0} (g : ℕ → T → T) (written : T → List ℕ) (sink : IsByteSink T g written) where
  abbrev write_all : List ℕ → T → T
  write_all [] t = t
  write_all (b ∷ bytes) t = write_all bytes (g b t)

  written-write_all : (bytes : List ℕ) (t : T) → written (write_all bytes t) ≡ written t ++ bytes
  written-write_all [] t = sym (append-nil (written t))
  written-write_all (b ∷ bytes) t =
      written-write_all bytes (g b t)
      ∙ ap (λ l. l ++ bytes) (sink.appends b t)
      ∙ append_assoc (written t) (b ∷ []) bytes

  write_each-write_all :
      (bytes : List ℕ) (p : NaviPort T)
      → p.write_u8 ≡ some g
      → write_each bytes p ≡ done tt (record p { device = write_all bytes p.device })
  unfolding write_each call_write_u8
  write_each-write_all [] p w = refl
  write_each-write_all (b ∷ bytes) p w =
      ground (arith, w, write_each-write_all bytes (record p { device = g b p.device }) w)

  pub write_char-written :
      (u : Utf8) (c : ℤ) (encoded : List ℕ) (p : NaviPort T)
      → u.u8_append c ≡ some encoded
      → IsByteOutput T g p
      → Gives T
          (Unit {0})
          (write_char u c p)
          (λ _ q. written q.device ≡ written p.device ++ take (u.u8_length c) encoded)
  unfolding write_encoded write_char check_can_write check_output_port is_output_port
  write_char-written u c encoded p a h =
      let bytes = take (u.u8_length c) encoded in
      gives tt (record p { device = write_all bytes p.device })
        (ground
          (arith, a, h.writes, h.no_chars, h.not_closed, write_each-write_all bytes p h.writes))
        (written-write_all bytes p.device)

  module _ {S : Type 0} (f : S → ℤ × S) (rest : S → List ℕ) (source : IsByteSource S f rest) where
    pub read_char-write_char :
        (u : Utf8) (c lead : ℕ) (more : List ℕ)
        → IsEncoded u c lead more
        → c < 2 ^ 31
        → AreBytes (lead ∷ more)
        → (out : NaviPort T) → IsByteOutput T g out
        → (input : NaviPort S) (after : List ℕ) → IsByteInput f rest source input
        → rest input.device ≡ lead ∷ (more ++ after)
        → Gives T
            (Unit {0})
            (write_char u (pos c) out)
            (λ _ q. written q.device ≡ written out.device ++ (lead ∷ more))
          × Gives S Obj (read_char u input) (λ o q. (o ≡ char c) × (rest q.device ≡ after))
    read_char-write_char u c lead more enc small bs out ho input after hi r = (
      rw (sym enc.bytes) (write_char-written u (pos c) enc.encoded out enc.appends ho),
      read_char-IsEncoded f rest source u c lead more after input enc small bs hi r,
    )

module _ {S : Type 0} (f : S → ℤ × S) (rest : S → List ℕ) (source : IsByteSource S f rest) where
  -- At the end of the input the first look returns a character, and the next one the end of file.
  pub peek_char-eof :
      (u : Utf8) (p : NaviPort S)
      → IsByteInput f rest source p
      → rest p.device ≡ []
      → Gives S Obj (peek_char u p) (λ o q. (o ≡ char (2 ^ 60 - 1)) × (peek_char u q ≡ done eof q))
  unfolding peek_char fill_char buffer_char decode_char call_read_u8 check_can_read check_input_port
      is_input_port char_object
  peek_char-eof u p i e =
      let first = source.at_end p.device e in
      gives (char (2 ^ 60 - 1))
        (set_full true (set_eof (record p { device = (f p.device).1; buffer = eof_value })))
        (ground (arith, i.reads, i.no_chars, i.not_closed, i.not_eof, i.not_full, first.0))
        (refl, ground (arith, i.reads, i.no_chars, i.not_closed, i.not_eof, i.not_full))
