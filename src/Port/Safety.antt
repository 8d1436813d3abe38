-- ===== src/Port/Safety.antt =====
-- No operation of port.c calls a function that its port does not have, and none gives a port other
-- functions or opens what was closed.
pub mod Reads
pub mod Writes
pub mod Every
use navi_scheme.Base.{
  ℕ, zero, suc, ◌≡◌, refl, ◌∙◌, inl, inr, ◌⊎◌, Bool, true, false, Option, none, some, List, [], ◌∷◌,
  ◌++◌, take, Bool-cases, Option-cases, if◌then◌else◌, not, ltb, arith,
}
use navi_scheme.Base.Int.{ℤ, pos, ltb_ℤ}
use navi_scheme.Object.{Obj, eq_ℤ}
use navi_scheme.Port.{
  NaviPort, PortRun, done, failed, crashed, PortError, PortCmd, continue, give, unless, get, put,
  ◌>>=◌, ◌>>◌, eof_value, present, is_input_port, is_output_port, check_input_port,
  check_output_port, check_can_read, check_can_read_u8, check_can_write, check_can_write_u8,
  call_close_in, call_close_out, close_input_port, close_output_port, set_fold_case,
}
use navi_scheme.Port.Passing.{Checked, passes, fails, check_can_read_u8-Checked}
use navi_scheme.Port.Bytes.{
  call_read_u8, buffer_byte, fill_byte, take_byte, byte_result, peek_c_byte, peek_byte, read_c_byte,
  read_byte,
}
use navi_scheme.Port.Chars.{
  Utf8, call_read_char, keep_char, more_bytes, decode_from, decode_char, buffer_char, fill_char,
  next_char, peek_char, read_char,
}
use navi_scheme.Port.Output.{
  call_write_u8, call_write_char, write_each, write_byte, write_bytes, write_chars, write_char,
  write_cstr,
}
use navi_scheme.Port.Calls.{
  PortCall, peeks_u8, reads_u8, peeks_char, reads_char, closes_input, closes_output, writes_u8,
  writes_char, writes_cstr, folds_case, perform, scm_close_input_port, scm_close_output_port,
}

-- A function to close the port is the one it was, or gone.
abbrev pub CloserKept : {S : Type 0} → Option (S → Option S) → Option (S → Option S) → Type 0
CloserKept before now = (now ≡ before) ⊎ (now ≡ none)

CloserKept-trans :
    {S : Type 0} {f g h : Option (S → Option S)} → CloserKept f g → CloserKept g h → CloserKept f h
CloserKept-trans (inl a) (inl b) = inl (b ∙ a)
CloserKept-trans (inr a) (inl b) = inr (b ∙ a)
CloserKept-trans a (inr b) = inr b

-- What stays of a port: its functions for reading and writing, and what is closed.
pub record IsKept (S : Type 0) (p q : NaviPort S) : Type 0 where
  pub read_u8 : q.read_u8 ≡ p.read_u8
  pub write_u8 : q.write_u8 ≡ p.write_u8
  pub read_char : q.read_char ≡ p.read_char
  pub write_char : q.write_char ≡ p.write_char
  pub close_in : CloserKept p.close_in q.close_in
  pub close_out : CloserKept p.close_out q.close_out
  pub input_closed : p.flags.input_closed ≡ true → q.flags.input_closed ≡ true
  pub output_closed : p.flags.output_closed ≡ true → q.flags.output_closed ≡ true

pub IsKept-refl : {S : Type 0} (p : NaviPort S) → IsKept S p p
IsKept-refl p = record {
  read_u8 = refl;
  write_u8 = refl;
  read_char = refl;
  write_char = refl;
  close_in = inl refl;
  close_out = inl refl;
  input_closed = λ e. e;
  output_closed = λ e. e;
}

pub IsKept-trans : {S : Type 0} {p q r : NaviPort S} → IsKept S p q → IsKept S q r → IsKept S p r
IsKept-trans a b = record {
  read_u8 = b.read_u8 ∙ a.read_u8;
  write_u8 = b.write_u8 ∙ a.write_u8;
  read_char = b.read_char ∙ a.read_char;
  write_char = b.write_char ∙ a.write_char;
  close_in = CloserKept-trans a.close_in b.close_in;
  close_out = CloserKept-trans a.close_out b.close_out;
  input_closed = λ e. b.input_closed (a.input_closed e);
  output_closed = λ e. b.output_closed (a.output_closed e);
}

-- The buffer, the device and the flags of the buffer are not kept.
pub IsKept-state :
    {S : Type 0} (p : NaviPort S) (s : S) (v : ℤ) (a b : Bool)
    → IsKept S p (record p {
      device = s;
      buffer = v;
      flags = record p.flags { got_eof = a; buffer_full = b };
    })
IsKept-state p s v a b = record {
  read_u8 = refl;
  write_u8 = refl;
  read_char = refl;
  write_char = refl;
  close_in = inl refl;
  close_out = inl refl;
  input_closed = λ e. e;
  output_closed = λ e. e;
}

-- A run from a port that returns or raises an error, with a port in which this is kept.
pub data Safe (S A : Type 0) (p : NaviPort S) : PortRun S A → Type 0 where
  returns : (a : A) (q : NaviPort S) → IsKept S p q → Safe S A p (done a q)
  raises : (e : PortError) (q : NaviPort S) → IsKept S p q → Safe S A p (failed e q)

pub Safe-extend :
    {S A : Type 0} {p q : NaviPort S} (r : PortRun S A) → IsKept S p q → Safe S A q r → Safe S A p r
Safe-extend (done a r) k (returns _ _ k') = returns a r (IsKept-trans k k')
Safe-extend (failed e r) k (raises _ _ k') = raises e r (IsKept-trans k k')
Safe-extend crashed k h = elim h [ ]

module _ {S : Type 0} {A B : Type 0} where
  pub Safe-continue :
      (p : NaviPort S) (r : PortRun S A) (next : A → PortCmd S B)
      → Safe S A p r
      → ((a : A) (q : NaviPort S) → IsKept S p q → Safe S B q (next a q))
      → Safe S B p (continue r next)
  Safe-continue p (done a q) next (returns _ _ k) h = Safe-extend (next a q) k (h a q k)
  Safe-continue p (failed e q) next (raises _ _ k) h = raises e q k
  Safe-continue p crashed next s h = elim s [ ]

module _ {S : Type 0} {B : Type 0} where
  pub Safe-if :
      {p : NaviPort S} (b : Bool) {x y : PortRun S B}
      → (b ≡ true → Safe S B p x)
      → (b ≡ false → Safe S B p y)
      → Safe S B p (if b then x else y)
  Safe-if true hx hy = hx refl
  Safe-if false hx hy = hy refl

  -- A branch between commands.
  pub Safe-branch :
      (b : Bool) (x y : PortCmd S B) (p : NaviPort S)
      → (b ≡ true → Safe S B p (x p))
      → (b ≡ false → Safe S B p (y p))
      → Safe S B p ((if b then x else y) p)
  Safe-branch true x y p hx hy = hx refl
  Safe-branch false x y p hx hy = hy refl

  pub Safe-check :
      (p : NaviPort S) (r : PortRun S (Unit {0})) (P : Type 0) (next : Unit {0} → PortCmd S B)
      → Checked S p r P
      → (P → Safe S B p (next tt p))
      → Safe S B p (continue r next)
  Safe-check p r P next (passes e w) h = rw e (h w)
  Safe-check p r P next (fails x e) h = rw e (raises x p (IsKept-refl p))

module _ {S : Type 0} where
  pub Safe-call_read_u8 : (p : NaviPort S) → present p.read_u8 ≡ true → Safe S ℤ p (call_read_u8 p)
  unfolding call_read_u8
  Safe-call_read_u8 p =
      elim p.read_u8
        as (λ o.
          present o ≡ true
          → Safe S ℤ p (elim o [
            | none ↦ crashed
            | some f ↦ done (f p.device).0 (record p { device = (f p.device).1 })
          ])) [
            | none ↦ λ h. absurd (ground (arith, h))
            | some f ↦ λ h. returns _ _ (IsKept-state p _ _ _ _)
          ]

  pub Safe-call_read_char :
      (p : NaviPort S) → present p.read_char ≡ true → Safe S ℤ p (call_read_char p)
  unfolding call_read_char
  Safe-call_read_char p =
      elim p.read_char
        as (λ o.
          present o ≡ true
          → Safe S ℤ p (elim o [
            | none ↦ crashed
            | some f ↦ done (f p.device).0 (record p { device = (f p.device).1 })
          ])) [
            | none ↦ λ h. absurd (ground (arith, h))
            | some f ↦ λ h. returns _ _ (IsKept-state p _ _ _ _)
          ]

  pub Safe-buffer_byte :
      (p : NaviPort S) → present p.read_u8 ≡ true → Safe S (Unit {0}) p (buffer_byte p)
  unfolding buffer_byte
  Safe-buffer_byte p h =
      Safe-continue p (call_read_u8 p) _ (Safe-call_read_u8 p h)
        (λ b q k. returns _ _ (IsKept-state q _ _ _ _))

  pub Safe-fill_byte :
      (p : NaviPort S) → present p.read_u8 ≡ true → Safe S (Unit {0}) p (fill_byte p)
  unfolding fill_byte
  Safe-fill_byte p h =
      Safe-if p.flags.buffer_full (λ _. returns _ _ (IsKept-refl p))
        (λ _.
          Safe-continue p (buffer_byte p) _ (Safe-buffer_byte p h)
            (λ _ q k. returns _ _ (IsKept-state q _ _ _ _)))

  pub Safe-take_byte :
      (p : NaviPort S) → present p.read_u8 ≡ true → Safe S (Unit {0}) p (take_byte p)
  unfolding take_byte
  Safe-take_byte p h =
      Safe-if p.flags.buffer_full (λ _. returns _ _ (IsKept-state p _ _ _ _))
        (λ _. Safe-buffer_byte p h)

  pub Safe-peek_byte : (p : NaviPort S) → Safe S Obj p (peek_byte p)
  unfolding peek_byte peek_c_byte
  Safe-peek_byte p =
      Safe-continue p _ _
        (Safe-check p (check_can_read_u8 p) _ _ (check_can_read_u8-Checked p) (λ c.
          Safe-branch p.flags.got_eof _ _ p (λ _. returns _ _ (IsKept-refl p))
            (λ _.
              (Safe-continue p (fill_byte p) _ (Safe-fill_byte p c.1)
                (λ _ q k. returns _ _ (IsKept-refl q))))))
        (λ b q k. returns _ _ (IsKept-refl q))

  pub Safe-byte_result : (b : ℤ) (p : NaviPort S) → Safe S Obj p (byte_result b p)
  unfolding byte_result
  Safe-byte_result b p =
      Safe-if (eq_ℤ b eof_value) (λ _. returns _ _ (IsKept-state p _ _ _ _))
        (λ _. returns _ _ (IsKept-refl p))

  pub Safe-read_byte : (p : NaviPort S) → Safe S Obj p (read_byte p)
  unfolding read_byte read_c_byte
  Safe-read_byte p =
      Safe-continue p _ _
        (Safe-check p (check_can_read_u8 p) _ _ (check_can_read_u8-Checked p) (λ c.
          Safe-branch p.flags.got_eof _ _ p (λ _. returns _ _ (IsKept-refl p))
            (λ _.
              (Safe-continue p (take_byte p) _ (Safe-take_byte p c.1)
                (λ _ q k. returns _ _ (IsKept-refl q))))))
        (λ b q k. Safe-byte_result b q)
