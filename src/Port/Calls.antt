-- ===== src/Port/Calls.antt =====
-- The calls that a program can make on one port, in any order: a port as a state machine.
use navi_scheme.Base.{ℕ, Bool, List, if◌then◌else◌}
use navi_scheme.Base.Int.{ℤ}
use navi_scheme.Port.{
  done, failed, not_string_output, PortCmd, give, get, is_input_port, is_output_port, ◌>>=◌, ◌>>◌,
  close_input_port, close_output_port, check_input_port, check_output_port, set_fold_case,
}
use navi_scheme.Port.Bytes.{peek_byte, read_byte}
use navi_scheme.Port.Chars.{Utf8, peek_char, read_char}
use navi_scheme.Port.Output.{write_byte, write_char, write_cstr}

pub data PortCall : Type 0 where
  peeks_u8 reads_u8 peeks_char reads_char closes_input closes_output : PortCall
  closes asks_output_string : PortCall
  writes_u8 : ℕ → PortCall
  writes_char : ℤ → PortCall
  writes_cstr : List ℕ → PortCall
  folds_case : Bool → PortCall

module _ {S : Type 0} where
  -- `close-input-port` and `close-output-port` on a port.
  unfoldable pub scm_close_input_port : PortCmd S (Unit {0})
  unfolding check_input_port close_input_port
  scm_close_input_port = do check_input_port; close_input_port

  unfoldable pub scm_close_output_port : PortCmd S (Unit {0})
  unfolding check_output_port close_output_port
  scm_close_output_port = do check_output_port; close_output_port

  -- `close-port`
  unfoldable pub scm_close_port : PortCmd S (Unit {0})
  unfolding is_input_port is_output_port close_input_port close_output_port
  scm_close_port = do
    p ← get
    if is_input_port p then close_input_port else give tt
    q ← get
    if is_output_port q then close_output_port else give tt

  -- `get-output-string`, whose result is dropped.
  unfoldable pub gets_output_string : PortCmd S (Unit {0})
  gets_output_string p = if p.flags.string_output then done tt p else failed not_string_output p

  -- A call whose result is dropped.
  abbrev pub quietly : {A : Type 0} → PortCmd S A → PortCmd S (Unit {0})
  quietly m = m >>= λ _. give tt

  unfoldable pub perform : Utf8 → PortCall → PortCmd S (Unit {0})
  unfolding set_fold_case scm_close_port gets_output_string
  perform u peeks_u8 = quietly peek_byte
  perform u reads_u8 = quietly read_byte
  perform u peeks_char = quietly (peek_char u)
  perform u reads_char = quietly (read_char u)
  perform u closes = scm_close_port
  perform u asks_output_string = gets_output_string
  perform u closes_input = scm_close_input_port
  perform u closes_output = scm_close_output_port
  perform u (writes_u8 b) = write_byte b
  perform u (writes_char c) = write_char u c
  perform u (writes_cstr text) = write_cstr u text
  perform u (folds_case fold) = λ p. done tt (set_fold_case fold p)
