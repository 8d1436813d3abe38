-- ===== src/Port.antt =====
-- Ports: `struct navi_port` of internal.h, `navi_make_port` of heap.c, and the flags, the checks and
-- the closing of port.c. `Bytes` and `Chars` read, `Output` writes. A port has the functions that its
-- maker gives it; `S` is what these functions work on, a FILE or a string with a position in it, which
-- is part of the port.
pub mod Bytes
pub mod Chars
pub mod Output
pub mod Stream
pub mod Drain
pub mod Calls
pub mod Passing
pub mod Closed
pub mod Text
pub mod RoundTrip
pub mod Safety
use navi_scheme.Base.{
  ℕ, ◌+◌, ◌-◌, ◌%◌, ◌^◌, Bool, true, false, not, Option, none, some, List, ltb, if◌then◌else◌, ◌||◌,
}
use navi_scheme.Base.Int.{ℤ, pos, negsuc}
use navi_scheme.Word.{pattern_of}
use navi_scheme.Object.{Obj, char}

-- The bits GOT_EOF, BUFFER_FULL, INPUT_CLOSED, OUTPUT_CLOSED, STRING_OUTPUT and FOLD_CASE of `flags`.
pub record Flags : Type 0 where
  pub got_eof : Bool
  pub buffer_full : Bool
  pub input_closed : Bool
  pub output_closed : Bool
  pub string_output : Bool
  pub fold_case : Bool

abbrev pub no_flags : Flags
no_flags = record {
  got_eof = false;
  buffer_full = false;
  input_closed = false;
  output_closed = false;
  string_output = false;
  fold_case = false;
}

-- The functions return the number that was read, or EOF, and the new state; a close may fail.
pub record NaviPort (S : Type 0) : Type 0 where
  pub read_u8 : Option (S → ℤ × S)
  pub write_u8 : Option (ℕ → S → S)
  pub read_char : Option (S → ℤ × S)
  pub write_char : Option (ℤ → S → S)
  pub close_in : Option (S → Option S)
  pub close_out : Option (S → Option S)
  pub flags : Flags
  pub buffer : ℤ
  pub device : S

-- The messages of port.c.
pub data PortError : Type 0 where
  not_input not_output closed_input closed_output no_binary_input no_binary_output : PortError
  failed_close invalid_lead_byte unexpected_eof invalid_sequence not_string_output : PortError

-- A command on a port returns a value, or raises an error; either way the port is what it is then. It
-- has crashed when it calls a function that the port does not have, or when an assertion of unicode.h
-- fails.
pub data PortRun (S : Type 0) (A : Type 0) : Type 0 where
  done : A → NaviPort S → PortRun S A
  failed : PortError → NaviPort S → PortRun S A
  crashed : PortRun S A

abbrev pub PortCmd : Type 0 → Type 0 → Type 0
PortCmd S A = NaviPort S → PortRun S A

module _ {S : Type 0} where
  abbrev pub give : {A : Type 0} → A → PortCmd S A
  give a p = done a p

  abbrev pub fail : {A : Type 0} → PortError → PortCmd S A
  fail e p = failed e p

  abbrev pub unless : Bool → PortError → PortCmd S (Unit {0})
  unless b e p = if b then done tt p else failed e p

  abbrev pub get : PortCmd S (NaviPort S)
  get p = done p p

  abbrev pub put : NaviPort S → PortCmd S (Unit {0})
  put q p = done tt q

module _ {S A B : Type 0} where
  abbrev pub continue : PortRun S A → (A → NaviPort S → PortRun S B) → PortRun S B
  continue (done a p) next = next a p
  continue (failed e p) next = failed e p
  continue crashed next = crashed

  infixl 5 ◌>>=◌
  abbrev pub ◌>>=◌ : PortCmd S A → (A → PortCmd S B) → PortCmd S B
  (before >>= next) p = continue (before p) next

  infixl 5 ◌>>◌
  abbrev pub ◌>>◌ : PortCmd S A → PortCmd S B → PortCmd S B
  (before >> after) p = continue (before p) (λ _. after)

abbrev pub present {ℓ} : {A : Type ℓ} → Option A → Bool
present none = false
present (some _) = true

abbrev pub eof_value : ℤ
eof_value = negsuc 0

-- The value of a number as an `int32_t`.
unfoldable pub int32 : ℤ → ℤ
int32 v = let w = pattern_of v % 2 ^ 32 in if ltb w (2 ^ 31) then pos w else negsuc (2 ^ 32 - w - 1)

-- `navi_make_char(port->buffer)`: the 60 bits of the word above its tag. `navi_char` reads them with a
-- sign.
unfoldable pub char_object : ℤ → Obj
char_object v = char (pattern_of v % 2 ^ 60)

module _ {S : Type 0} where
  -- `navi_make_port`; the memory of the buffer holds what it held.
  abbrev pub make_port :
      Option (S → ℤ × S)
      → Option (ℕ → S → S)
      → Option (S → ℤ × S)
      → Option (ℤ → S → S)
      → Option (S → Option S)
      → Option (S → Option S)
      → ℤ
      → S
      → NaviPort S
  make_port r8 w8 rc wc ci co old s = record {
    read_u8 = r8;
    write_u8 = w8;
    read_char = rc;
    write_char = wc;
    close_in = ci;
    close_out = co;
    flags = no_flags;
    buffer = old;
    device = s;
  }

  unfoldable pub is_input_port : NaviPort S → Bool
  is_input_port p = present p.read_u8 || present p.read_char

  unfoldable pub is_output_port : NaviPort S → Bool
  is_output_port p = present p.write_u8 || present p.write_char

  unfoldable pub check_input_port : PortCmd S (Unit {0})
  unfolding is_input_port
  check_input_port = do p ← get; unless (is_input_port p) not_input

  unfoldable pub check_output_port : PortCmd S (Unit {0})
  unfolding is_output_port
  check_output_port = do p ← get; unless (is_output_port p) not_output

  unfoldable pub check_can_read : PortCmd S (Unit {0})
  unfolding check_input_port
  check_can_read = do check_input_port; p ← get; unless (not p.flags.input_closed) closed_input

  unfoldable pub check_can_read_u8 : PortCmd S (Unit {0})
  unfolding check_can_read
  check_can_read_u8 = do check_can_read; p ← get; unless (present p.read_u8) no_binary_input

  unfoldable pub check_can_write : PortCmd S (Unit {0})
  unfolding check_output_port
  check_can_write = do check_output_port; p ← get; unless (not p.flags.output_closed) closed_output

  unfoldable pub check_can_write_u8 : PortCmd S (Unit {0})
  unfolding check_can_write
  check_can_write_u8 = do check_can_write; p ← get; unless (present p.write_u8) no_binary_output

  -- `p->flags |= ...` and `p->flags &= ~...`.
  abbrev pub set_eof : NaviPort S → NaviPort S
  set_eof p = record p { flags = record p.flags { got_eof = true } }

  abbrev pub set_full : Bool → NaviPort S → NaviPort S
  set_full b p = record p { flags = record p.flags { buffer_full = b } }

  abbrev pub set_input_closed : NaviPort S → NaviPort S
  set_input_closed p = record p { flags = record p.flags { input_closed = true } }

  abbrev pub set_output_closed : NaviPort S → NaviPort S
  set_output_closed p = record p { flags = record p.flags { output_closed = true } }

  unfoldable pub is_fold_case : NaviPort S → Bool
  is_fold_case p = p.flags.fold_case

  unfoldable pub set_fold_case : Bool → NaviPort S → NaviPort S
  set_fold_case fold p = record p { flags = record p.flags { fold_case = fold } }

  unfoldable pub closed_in : NaviPort S → Option S → PortRun S (Unit {0})
  closed_in p none = failed failed_close p
  closed_in p (some s) = done tt (record p { device = s; close_in = none })

  unfoldable pub closed_out : NaviPort S → Option S → PortRun S (Unit {0})
  closed_out p none = failed failed_close p
  closed_out p (some s) = done tt (record p { device = s; close_out = none })

  -- `if (p->close_in) { p->close_in(p, env); p->close_in = NULL; }`, whose error leaves the port.
  unfoldable pub call_close_in : PortCmd S (Unit {0})
  unfolding closed_in
  call_close_in p = elim p.close_in [ none ↦ done tt p | some f ↦ closed_in p (f p.device) ]

  unfoldable pub call_close_out : PortCmd S (Unit {0})
  unfolding closed_out
  call_close_out p = elim p.close_out [ none ↦ done tt p | some f ↦ closed_out p (f p.device) ]

  unfoldable pub close_input_port : PortCmd S (Unit {0})
  unfolding call_close_in
  close_input_port = do call_close_in; p ← get; put (set_input_closed p)

  unfoldable pub close_output_port : PortCmd S (Unit {0})
  unfolding call_close_out
  close_output_port = do call_close_out; p ← get; put (set_output_closed p)
