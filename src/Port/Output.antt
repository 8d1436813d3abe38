-- ===== src/Port/Output.antt =====
-- Writing to a port: navi_port_write_byte, navi_port_write_char and navi_port_write_cstr of port.c.
use navi_scheme.Base.{ℕ, ◌-◌, Option, none, some, List, [], ◌∷◌, take, ◌==◌, ltb, if◌then◌else◌}
use navi_scheme.Base.Int.{ℤ, pos, negsuc}
use navi_scheme.Port.{
  done, crashed, PortCmd, give, get, ◌>>=◌, ◌>>◌, present, check_can_write, check_can_write_u8,
}
use navi_scheme.Port.Chars.{Utf8}

-- The bytes up to the first that is 0, or to the end of the buffer, where a 0 stands.
unfoldable pub cstr : List ℕ → List ℕ
cstr [] = []
cstr (b ∷ bytes) = if b == 0 then [] else b ∷ cstr bytes

-- A byte as a `char`, which is signed.
abbrev pub signed_byte : ℕ → ℤ
signed_byte b = if ltb b 128 then pos b else negsuc (255 - b)

module _ {S : Type 0} where
  -- `port->write_u8(b, port, env)` and `port->write_char(c, port, env)`
  unfoldable pub call_write_u8 : ℕ → PortCmd S (Unit {0})
  call_write_u8 b p = elim p.write_u8 [
    | none ↦ crashed
    | some f ↦ done tt (record p { device = f b p.device })
  ]

  unfoldable pub call_write_char : ℤ → PortCmd S (Unit {0})
  call_write_char c p = elim p.write_char [
    | none ↦ crashed
    | some f ↦ done tt (record p { device = f c p.device })
  ]

  unfoldable pub write_byte : ℕ → PortCmd S (Unit {0})
  unfolding check_can_write_u8 call_write_u8
  write_byte b = do check_can_write_u8; call_write_u8 b

  -- The loop over the encoded bytes.
  unfoldable pub write_each : List ℕ → PortCmd S (Unit {0})
  unfolding call_write_u8
  write_each [] = give tt
  write_each (b ∷ bytes) = do call_write_u8 b; write_each bytes

  -- The bytes behind the assertion of `u8_append`, cut to the length.
  unfoldable pub write_encoded : ℕ → Option (List ℕ) → PortCmd S (Unit {0})
  unfolding write_each
  write_encoded n none p = crashed
  write_encoded n (some bytes) p = write_each (take n bytes) p

  unfoldable pub write_char : Utf8 → ℤ → PortCmd S (Unit {0})
  unfolding check_can_write call_write_char write_encoded
  write_char u c = do
    check_can_write
    p ← get
    if present p.write_char
        then call_write_char c
        else write_encoded (u.u8_length c) (u.u8_append c)

  unfoldable pub write_bytes : List ℕ → PortCmd S (Unit {0})
  unfolding write_byte
  write_bytes [] = give tt
  write_bytes (b ∷ bytes) = do write_byte b; write_bytes bytes

  unfoldable pub write_chars : Utf8 → List ℕ → PortCmd S (Unit {0})
  unfolding write_char
  write_chars u [] = give tt
  write_chars u (b ∷ bytes) = do write_char u (signed_byte b); write_chars u bytes

  unfoldable pub write_cstr : Utf8 → List ℕ → PortCmd S (Unit {0})
  unfolding write_bytes write_chars cstr
  write_cstr u text p =
      if present p.write_u8 then write_bytes (cstr text) p else write_chars u (cstr text) p
