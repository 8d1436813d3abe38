-- ===== src/Port/Text.antt =====
-- A character that is written to a port of bytes and read again, and the end of the input.
use navi_scheme.Base.{
  ℕ, zero, suc, ◌<◌, ◌^◌, ◌≡◌, refl, true, false, none, some, List, [], ◌∷◌, ◌++◌, take, length,
  arith,
}
use mathlib.Core.List.{append-nil, append_assoc}
use navi_scheme.Base.Int.{ℤ, pos, ltb_ℤ}
use navi_scheme.Object.{Obj, char}
use navi_scheme.Port.{
  NaviPort, done, int32, char_object, check_can_read, check_input_port, is_input_port,
}
use navi_scheme.Port.Bytes.{call_read_u8}
use navi_scheme.Port.Chars.{
  Utf8, uint8, rounds, utf8_char_size, more_bytes, keep_decoded, decode_from, decode_char,
  buffer_char, next_char, read_char,
}
use navi_scheme.Port.Stream.{IsByteSource, Gives, gives}

-- What an encoding promises of a character: its bytes, as many as `u8_length` says, are led by a byte
-- that tells their number, and they decode to it.
pub record IsEncoded (u : Utf8) (c : ℕ) (lead : ℕ) (more : List ℕ) : Type 0 where
  pub encoded : List ℕ
  pub appends : u.u8_append (pos c) ≡ some encoded
  pub bytes : take (u.u8_length (pos c)) encoded ≡ lead ∷ more
  pub lead_size : utf8_char_size lead ≡ pos (suc (length more))
  pub decodes : u.u8_get_unchecked (lead ∷ more) ≡ pos c

abbrev pub AreBytes : List ℕ → Type 0
AreBytes [] = Unit {0}
AreBytes (b ∷ bytes) = (b < 256) × AreBytes bytes

module _ {S : Type 0} (f : S → ℤ × S) (rest : S → List ℕ) (source : IsByteSource S f rest) where
  -- The device after so many bytes.
  abbrev advance : ℕ → S → S
  advance zero s = s
  advance (suc n) s = advance n (f s).1

  abbrev moved : NaviPort S → S → NaviPort S
  moved p s = record p { device = s }

  more_bytes-rest :
      (more before after : List ℕ) (p : NaviPort S)
      → p.read_u8 ≡ some f
      → AreBytes more
      → rest p.device ≡ more ++ after
      → more_bytes (length more) before p
        ≡ done (before ++ more) (moved p (advance (length more) p.device))
  unfolding more_bytes call_read_u8
  more_bytes-rest [] before after p r h e = ground (arith, append-nil before)
  more_bytes-rest (b ∷ more) before after p r h e =
      let here = source.at_byte p.device b (more ++ after) e in
      let tail =
        more_bytes-rest more (before ++ (b ∷ [])) after (moved p (f p.device).1) r h.1 here.1 in
      ground (arith, here.0, r, h.0, tail, append_assoc before (b ∷ []) more)

  rest-advance :
      (more after : List ℕ) (s : S)
      → rest s ≡ more ++ after
      → rest (advance (length more) s) ≡ after
  rest-advance [] after s e = e
  rest-advance (b ∷ more) after s e =
      rest-advance more after (f s).1 (source.at_byte s b (more ++ after) e).1

  -- An open port of bytes with nothing in its buffer, read for characters.
  pub record IsByteInput (p : NaviPort S) : Type 0 where
    pub reads : p.read_u8 ≡ some f
    pub no_chars : p.read_char ≡ none
    pub not_closed : p.flags.input_closed ≡ false
    pub not_eof : p.flags.got_eof ≡ false
    pub not_full : p.flags.buffer_full ≡ false

  size_positive : (n : ℕ) → ltb_ℤ (pos 0) (pos (suc n)) ≡ true
  size_positive n = ground arith

  rounds-suc : (n : ℕ) → rounds (pos (suc n)) ≡ n
  rounds-suc n = omega arith

  uint8_byte : (b : ℕ) → b < 256 → uint8 (pos b) ≡ b
  uint8_byte b h = omega arith

  int32_char : (c : ℕ) → c < 2 ^ 31 → int32 (pos c) ≡ pos c
  unfolding int32
  int32_char c h = ground arith

  char_object_char : (c : ℕ) → c < 2 ^ 31 → char_object (pos c) ≡ char c
  unfolding char_object
  char_object_char c h = ground arith

  decode_from-IsEncoded :
      (u : Utf8) (c lead : ℕ) (more after : List ℕ) (p : NaviPort S)
      → IsEncoded u c lead more
      → c < 2 ^ 31
      → lead < 256
      → AreBytes more
      → p.read_u8 ≡ some f
      → rest p.device ≡ more ++ after
      → decode_from u (pos lead) p
        ≡ done tt (record p { device = advance (length more) p.device; buffer = pos c })
  unfolding decode_from keep_decoded
  decode_from-IsEncoded u c lead more after p enc small h hs r e =
      simp (uint8_byte lead h, enc.lead_size, size_positive (length more), rounds-suc (length more))
        (simp (more_bytes-rest more (lead ∷ []) after p r hs e, enc.decodes, int32_char c small)
          (ground arith))

  -- `navi_port_read_char` decodes the character.
  pub read_char-IsEncoded :
      (u : Utf8) (c lead : ℕ) (more after : List ℕ) (p : NaviPort S)
      → IsEncoded u c lead more
      → c < 2 ^ 31
      → AreBytes (lead ∷ more)
      → IsByteInput p
      → rest p.device ≡ lead ∷ (more ++ after)
      → Gives S Obj (read_char u p) (λ o q. (o ≡ char c) × (rest q.device ≡ after))
  unfolding read_char next_char buffer_char decode_char call_read_u8 check_can_read check_input_port
      is_input_port
  read_char-IsEncoded u c lead more after p enc small bs i e =
      let first = source.at_byte p.device lead (more ++ after) e in
      let decoded =
        decode_from-IsEncoded u c lead more after (record p { device = (f p.device).1 }) enc small
          bs.0 bs.1 i.reads first.1 in
      gives (char c) (record p { device = advance (length more) (f p.device).1; buffer = pos c })
        (ground (
          arith,
          i.reads,
          i.no_chars,
          i.not_closed,
          i.not_eof,
          i.not_full,
          first.0,
          decoded,
          char_object_char c small,
        ))
        (refl, rest-advance more after (f p.device).1 first.1)
