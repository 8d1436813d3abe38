-- ===== src/Port/Closed.antt =====
-- A closed port: what fails after navi_close_input_port of port.c.
use navi_scheme.Base.{◌≡◌, refl, true, arith}
use navi_scheme.Port.{
  NaviPort, PortRun, done, failed, crashed, closed_input, continue, get, put, is_input_port,
  check_input_port, check_can_read, check_can_read_u8, call_close_in, close_input_port,
  set_input_closed, ◌>>=◌,
}
use navi_scheme.Port.Passing.{passes, fails, check_input_port-Checked}
use navi_scheme.Port.Bytes.{read_byte, peek_byte, read_c_byte, peek_c_byte}
use navi_scheme.Port.Chars.{Utf8, read_char, peek_char}
use navi_scheme.Port.Calls.{scm_close_input_port}
use navi_scheme.Port.Safety.{IsKept, IsKept-trans}
use navi_scheme.Port.Safety.Writes.{Safe-scm_close_input_port}
use navi_scheme.Port.Safety.Every.{Reached, Reached-IsKept, Safe-done}

module _ {S : Type 0} (u : Utf8) where
  abbrev pub ReadsFail : NaviPort S → Type 0
  ReadsFail p =
      (read_byte p ≡ failed closed_input p)
      × (peek_byte p ≡ failed closed_input p)
      × (read_char u p ≡ failed closed_input p)
      × (peek_char u p ≡ failed closed_input p)

  closed_fails :
      (p : NaviPort S) → is_input_port p ≡ true → p.flags.input_closed ≡ true → ReadsFail p
  unfolding read_byte peek_byte read_c_byte peek_c_byte read_char peek_char check_can_read_u8
      check_can_read check_input_port
  closed_fails p i c = (simp (i, c) refl, simp (i, c) refl, simp (i, c) refl, simp (i, c) refl)

  closing :
      (r : PortRun S (Unit {0})) (q : NaviPort S)
      → continue r (λ _. get >>= λ p. put (set_input_closed p)) ≡ done tt q
      → q.flags.input_closed ≡ true
  closing (done _ p) q e = ground (arith, e)
  closing (failed _ p) q e = absurd (cc (e))
  closing crashed q e = absurd (cc (e))

  IsKept-is_input_port :
      {p q : NaviPort S} → IsKept S p q → is_input_port p ≡ true → is_input_port q ≡ true
  unfolding is_input_port
  IsKept-is_input_port k h = rw (k.read_u8, k.read_char) h

  closed_now :
      (p q : NaviPort S)
      → scm_close_input_port p ≡ done tt q
      → (is_input_port p ≡ true) × (q.flags.input_closed ≡ true)
  unfolding scm_close_input_port close_input_port
  closed_now p q e = elim (check_input_port-Checked p) [
    | passes c i ↦ (i, closing (call_close_in p) q (rw c at e))
    | fails x c ↦ absurd (cc (c, e))
  ]

  pub read-close :
      (p q r : NaviPort S) → scm_close_input_port p ≡ done tt q → Reached u q r → ReadsFail r
  read-close p q r e reached =
      let now = closed_now p q e in
      let k : IsKept S q r = Reached-IsKept u reached in
      let before : IsKept S p q =
        Safe-done u (scm_close_input_port p) tt (Safe-scm_close_input_port p) e in
      closed_fails r (IsKept-is_input_port (IsKept-trans before k) now.0) (k.input_closed now.1)
