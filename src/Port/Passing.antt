-- ===== src/Port/Passing.antt =====
-- What the checks of port.c let pass: each returns with the port as it was, or raises an error and
-- leaves the port as it was.
use navi_scheme.Base.{◌≡◌, refl, true, false, inl, inr, Bool-cases}
use navi_scheme.Port.{
  NaviPort, PortRun, done, failed, PortError, not_input, not_output, closed_input, closed_output,
  no_binary_input, no_binary_output, present, is_input_port, is_output_port, check_input_port,
  check_output_port, check_can_read, check_can_read_u8, check_can_write, check_can_write_u8,
}

pub data Checked (S : Type 0) (p : NaviPort S) (r : PortRun S (Unit {0})) (P : Type 0)
    : Type 0 where
  passes : r ≡ done tt p → P → Checked S p r P
  fails : (e : PortError) → r ≡ failed e p → Checked S p r P

module _ {S : Type 0} (p : NaviPort S) where
  abbrev pub OpenInput : Type 0
  OpenInput = (is_input_port p ≡ true) × (p.flags.input_closed ≡ false)

  abbrev pub OpenOutput : Type 0
  OpenOutput = (is_output_port p ≡ true) × (p.flags.output_closed ≡ false)

  pub check_input_port-Checked : Checked S p (check_input_port p) (is_input_port p ≡ true)
  unfolding check_input_port
  check_input_port-Checked = elim (Bool-cases (is_input_port p)) [
    | inl e ↦ passes (rw e refl) e
    | inr e ↦ fails not_input (rw e refl)
  ]

  pub check_output_port-Checked : Checked S p (check_output_port p) (is_output_port p ≡ true)
  unfolding check_output_port
  check_output_port-Checked = elim (Bool-cases (is_output_port p)) [
    | inl e ↦ passes (rw e refl) e
    | inr e ↦ fails not_output (rw e refl)
  ]

  pub check_can_read-Checked : Checked S p (check_can_read p) OpenInput
  unfolding check_can_read
  check_can_read-Checked = elim check_input_port-Checked [
    | fails x e ↦ fails x (rw e refl)
    | passes e i ↦ elim (Bool-cases p.flags.input_closed) [
      | inl c ↦ fails closed_input (rw (e, c) refl)
      | inr c ↦ passes (rw (e, c) refl) (i, c)
    ]
  ]

  pub check_can_read_u8-Checked :
      Checked S p (check_can_read_u8 p) (OpenInput × (present p.read_u8 ≡ true))
  unfolding check_can_read_u8
  check_can_read_u8-Checked = elim check_can_read-Checked [
    | fails x e ↦ fails x (rw e refl)
    | passes e i ↦ elim (Bool-cases (present p.read_u8)) [
      | inl c ↦ passes (rw (e, c) refl) (i, c)
      | inr c ↦ fails no_binary_input (rw (e, c) refl)
    ]
  ]

  pub check_can_write-Checked : Checked S p (check_can_write p) OpenOutput
  unfolding check_can_write
  check_can_write-Checked = elim check_output_port-Checked [
    | fails x e ↦ fails x (rw e refl)
    | passes e i ↦ elim (Bool-cases p.flags.output_closed) [
      | inl c ↦ fails closed_output (rw (e, c) refl)
      | inr c ↦ passes (rw (e, c) refl) (i, c)
    ]
  ]

  pub check_can_write_u8-Checked :
      Checked S p (check_can_write_u8 p) (OpenOutput × (present p.write_u8 ≡ true))
  unfolding check_can_write_u8
  check_can_write_u8-Checked = elim check_can_write-Checked [
    | fails x e ↦ fails x (rw e refl)
    | passes e i ↦ elim (Bool-cases (present p.write_u8)) [
      | inl c ↦ passes (rw (e, c) refl) (i, c)
      | inr c ↦ fails no_binary_output (rw (e, c) refl)
    ]
  ]
