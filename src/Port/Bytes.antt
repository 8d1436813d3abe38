-- ===== src/Port/Bytes.antt =====
-- Reading bytes from a port: navi_port_peek_byte and navi_port_read_byte of port.c. A byte that was
-- looked at stays in the buffer of the port, marked by BUFFER_FULL.
use navi_scheme.Base.{true, false, none, some, if◌then◌else◌}
use navi_scheme.Base.Int.{ℤ}
use navi_scheme.Object.{Obj, eof, fixnum, eq_ℤ}
use navi_scheme.Port.{
  done, crashed, PortCmd, give, get, put, ◌>>=◌, ◌>>◌, eof_value, check_can_read_u8, set_eof,
  set_full,
}

module _ {S : Type 0} where
  -- `port->read_u8(port, env)`
  unfoldable pub call_read_u8 : PortCmd S ℤ
  call_read_u8 p = elim p.read_u8 [
    | none ↦ crashed
    | some f ↦ let r = f p.device in done r.0 (record p { device = r.1 })
  ]

  unfoldable pub buffer_byte : PortCmd S (Unit {0})
  unfolding call_read_u8
  buffer_byte = do b ← call_read_u8; p ← get; put (record p { buffer = b })

  -- `if (!(port->flags & BUFFER_FULL)) { ... }`
  unfoldable pub fill_byte : PortCmd S (Unit {0})
  unfolding buffer_byte
  fill_byte p =
      if p.flags.buffer_full
      then done tt p
      else (buffer_byte >>= λ _. get >>= λ q. put (set_full true q)) p

  unfoldable pub peek_c_byte : PortCmd S ℤ
  unfolding check_can_read_u8 fill_byte
  peek_c_byte = do
    check_can_read_u8
    p ← get
    if p.flags.got_eof then give eof_value else (fill_byte >>= λ _. get >>= λ q. give q.buffer)

  unfoldable pub peek_byte : PortCmd S Obj
  unfolding peek_c_byte
  peek_byte = do b ← peek_c_byte; give (if eq_ℤ b eof_value then eof else fixnum b)

  -- The byte that is in the buffer, or else the next one.
  unfoldable pub take_byte : PortCmd S (Unit {0})
  unfolding buffer_byte
  take_byte p = if p.flags.buffer_full then done tt (set_full false p) else buffer_byte p

  unfoldable pub read_c_byte : PortCmd S ℤ
  unfolding check_can_read_u8 take_byte
  read_c_byte = do
    check_can_read_u8
    p ← get
    if p.flags.got_eof then give eof_value else (take_byte >>= λ _. get >>= λ q. give q.buffer)

  -- At the end of the input the flag GOT_EOF is set.
  unfoldable pub byte_result : ℤ → PortCmd S Obj
  byte_result b p = if eq_ℤ b eof_value then done eof (set_eof p) else done (fixnum b) p

  unfoldable pub read_byte : PortCmd S Obj
  unfolding read_c_byte byte_result
  read_byte = do b ← read_c_byte; byte_result b
