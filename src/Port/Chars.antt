-- ===== src/Port/Chars.antt =====
-- Reading characters from a port: navi_port_read_char and navi_port_peek_char of port.c, which decode
-- UTF-8 from the bytes of a port that has no characters. The macros of UTF-8 come from ICU, or from
-- unicode.h for ASCII: `Utf8` stands for either, `ascii` is the second.
use navi_scheme.Base.{
  ℕ, zero, suc, ◌-◌, ◌%◌, true, false, not, Option, none, some, List, [], ◌∷◌, ◌++◌, ltb,
  if◌then◌else◌,
}
use navi_scheme.Base.Int.{ℤ, pos, negsuc, ltb_ℤ}
use navi_scheme.Object.{Obj, eof, eq_ℤ}
use navi_scheme.Port.{
  done, failed, crashed, invalid_lead_byte, unexpected_eof, invalid_sequence, PortCmd, give, unless,
  get, put, ◌>>=◌, ◌>>◌, eof_value, int32, char_object, check_can_read, set_eof, set_full,
}
use navi_scheme.Port.Bytes.{call_read_u8}

-- `u8_length`, the bytes that `u8_append` writes, or nothing where its assertion fails, and the character that `u8_get_unchecked` finds in a
-- buffer, which is negative for bytes that are not UTF-8.
pub record Utf8 : Type 0 where
  pub u8_length : ℤ → ℕ
  pub u8_append : ℤ → Option (List ℕ)
  pub u8_get_unchecked : List ℕ → ℤ

-- A number as an `unsigned char`.
abbrev pub uint8 : ℤ → ℕ
uint8 (pos n) = n % 256
uint8 (negsuc n) = 255 - n % 256

abbrev first_byte : List ℕ → ℤ
first_byte [] = pos 0
first_byte (b ∷ _) = pos b

unfoldable pub ascii : Utf8
ascii = record {
  u8_length = λ _. 1;
  u8_append = λ c. some (uint8 c ∷ []);
  u8_get_unchecked = first_byte;
}

-- The table `len_tab`: the length of the sequence that a byte leads.
unfoldable pub utf8_char_size : ℕ → ℤ
utf8_char_size b =
    if ltb b 128
    then pos 1
    else (if ltb b 192
        then pos 0
        else (if ltb b 224
            then pos 2
            else (if ltb b 240 then pos 3 else (if ltb b 245 then pos 4 else negsuc 0))))

abbrev pub rounds : ℤ → ℕ
rounds (pos n) = n - 1
rounds (negsuc _) = 0

module _ {S : Type 0} where
  -- `port->read_char(port, env)`
  unfoldable pub call_read_char : PortCmd S ℤ
  call_read_char p = elim p.read_char [
    | none ↦ crashed
    | some f ↦ let r = f p.device in done r.0 (record p { device = r.1 })
  ]

  -- `port->buffer = c; if (port->buffer == EOF) port->flags |= GOT_EOF;`
  unfoldable pub keep_char : ℤ → PortCmd S (Unit {0})
  unfolding int32
  keep_char c p =
      let q = record p { buffer = int32 c } in
      if eq_ℤ (int32 c) eof_value then done tt (set_eof q) else done tt q

  -- The loop over the bytes after the first one; it returns the bytes that it read.
  unfoldable pub more_bytes : ℕ → List ℕ → PortCmd S (List ℕ)
  unfolding call_read_u8
  more_bytes zero bytes = give bytes
  more_bytes (suc n) bytes = do
    byte ← call_read_u8
    unless (not (eq_ℤ byte eof_value)) unexpected_eof
    more_bytes n (bytes ++ (uint8 byte ∷ []))

  -- `u8_get_unchecked(..., port->buffer); if (port->buffer < 0) ...`
  unfoldable pub keep_decoded : ℤ → PortCmd S (Unit {0})
  unfolding int32
  keep_decoded c p =
      let q = record p { buffer = int32 c } in
      if ltb_ℤ (int32 c) (pos 0) then failed invalid_sequence q else done tt q

module _ (u : Utf8) {S : Type 0} where
  -- What follows the first byte.
  unfoldable pub decode_from : ℤ → PortCmd S (Unit {0})
  unfolding utf8_char_size more_bytes keep_decoded
  decode_from byte = do
    let size = utf8_char_size (uint8 byte)
    unless (ltb_ℤ (pos 0) size) invalid_lead_byte
    bytes ← more_bytes (rounds size) (uint8 byte ∷ [])
    keep_decoded (u.u8_get_unchecked bytes)

  unfoldable pub decode_char : PortCmd S (Unit {0})
  unfolding call_read_u8 decode_from
  decode_char = do
    byte ← call_read_u8
    if eq_ℤ byte eof_value
        then (get >>= λ p. put (set_eof (record p { buffer = eof_value })))
        else decode_from byte

  unfoldable pub buffer_char : PortCmd S (Unit {0})
  unfolding call_read_char keep_char decode_char
  buffer_char p = elim p.read_char [
    | none ↦ decode_char p
    | some _ ↦ (call_read_char >>= keep_char) p
  ]

  unfoldable pub fill_char : PortCmd S (Unit {0})
  unfolding buffer_char
  fill_char p =
      if p.flags.buffer_full
      then done tt p
      else (buffer_char >>= λ _. get >>= λ q. put (set_full true q)) p

  -- The character that is not in the buffer yet.
  unfoldable pub next_char : PortCmd S Obj
  unfolding buffer_char char_object
  next_char = do buffer_char; p ← get; give (if p.flags.got_eof then eof else char_object p.buffer)

  unfoldable pub read_char : PortCmd S Obj
  unfolding check_can_read next_char char_object
  read_char = do
    check_can_read
    p ← get
    if p.flags.got_eof
        then give eof
        else (if p.flags.buffer_full
            then (put (set_full false p) >> give (char_object p.buffer))
            else next_char)

  unfoldable pub peek_char : PortCmd S Obj
  unfolding check_can_read fill_char char_object
  peek_char = do
    check_can_read
    p ← get
    if p.flags.got_eof
        then give eof
        else (fill_char >>= λ _. get >>= λ q. give (char_object q.buffer))
