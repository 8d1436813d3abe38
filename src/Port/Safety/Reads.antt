-- ===== src/Port/Safety/Reads.antt =====
-- Reading characters is safe: navi_port_read_char and navi_port_peek_char of port.c.
use navi_scheme.Base.{
  ℕ, zero, suc, ◌≡◌, refl, ◌∙◌, Bool, true, false, none, some, List, [], ◌∷◌, ◌++◌, not, ◌||◌,
  arith,
}
use navi_scheme.Base.Int.{ℤ, pos, ltb_ℤ}
use navi_scheme.Object.{Obj, eq_ℤ}
use navi_scheme.Port.{
  NaviPort, PortError, continue, unless, eof_value, present, is_input_port, check_can_read, int32,
  unexpected_eof, invalid_lead_byte,
}
use navi_scheme.Port.Passing.{check_can_read-Checked}
use navi_scheme.Port.Bytes.{call_read_u8}
use navi_scheme.Port.Chars.{
  Utf8, uint8, utf8_char_size, rounds, keep_decoded, call_read_char, keep_char, more_bytes,
  decode_from, decode_char, buffer_char, fill_char, next_char, peek_char, read_char,
}
use navi_scheme.Port.Safety.{
  IsKept-refl, IsKept-state, Safe, returns, raises, Safe-continue, Safe-check, Safe-if, Safe-branch,
  Safe-call_read_u8, Safe-call_read_char,
}

module _ {S : Type 0} where
  Safe-unless : (b : Bool) (e : PortError) (p : NaviPort S) → Safe S (Unit {0}) p (unless b e p)
  Safe-unless true e p = returns _ _ (IsKept-refl p)
  Safe-unless false e p = raises _ _ (IsKept-refl p)

  Safe-keep_char : (c : ℤ) (p : NaviPort S) → Safe S (Unit {0}) p (keep_char c p)
  unfolding keep_char
  Safe-keep_char c p =
      Safe-if (eq_ℤ (int32 c) eof_value) (λ _. returns _ _ (IsKept-state p _ _ _ _))
        (λ _. returns _ _ (IsKept-state p _ _ _ _))

  Safe-more_bytes :
      (n : ℕ) (bytes : List ℕ) (p : NaviPort S)
      → present p.read_u8 ≡ true
      → Safe S (List ℕ) p (more_bytes n bytes p)
  unfolding more_bytes
  Safe-more_bytes zero bytes p h = returns _ _ (IsKept-refl p)
  Safe-more_bytes (suc n) bytes p h =
      Safe-continue p (call_read_u8 p) _ (Safe-call_read_u8 p h) λ byte q k.
        Safe-continue q (unless (not (eq_ℤ byte eof_value)) unexpected_eof q) _ (Safe-unless _ _ q)
          λ _ r k'. Safe-more_bytes n (bytes ++ (uint8 byte ∷ [])) r (rw (k'.read_u8 ∙ k.read_u8) h)

  Safe-keep_decoded : (c : ℤ) (p : NaviPort S) → Safe S (Unit {0}) p (keep_decoded c p)
  unfolding keep_decoded
  Safe-keep_decoded c p =
      Safe-if (ltb_ℤ (int32 c) (pos 0)) (λ _. raises _ _ (IsKept-state p _ _ _ _))
        (λ _. returns _ _ (IsKept-state p _ _ _ _))

  module _ (u : Utf8) where
    Safe-decode_from :
        (byte : ℤ) (p : NaviPort S)
        → present p.read_u8 ≡ true
        → Safe S (Unit {0}) p (decode_from u byte p)
    unfolding decode_from
    Safe-decode_from byte p h =
        let size = utf8_char_size (uint8 byte) in
        Safe-continue p (unless (ltb_ℤ (pos 0) size) invalid_lead_byte p) _ (Safe-unless _ _ p)
          λ _ q k.
            Safe-continue q (more_bytes (rounds size) (uint8 byte ∷ []) q) _
              (Safe-more_bytes _ _ q (rw k.read_u8 h)) λ bytes r k'. Safe-keep_decoded _ r

    Safe-decode_char :
        (p : NaviPort S) → present p.read_u8 ≡ true → Safe S (Unit {0}) p (decode_char u p)
    unfolding decode_char
    Safe-decode_char p h = Safe-continue p _ _ (Safe-call_read_u8 p h) λ byte q k.
        Safe-branch (eq_ℤ byte eof_value) _ _ q (λ _. returns _ _ (IsKept-state q _ _ _ _))
          (λ _. Safe-decode_from byte q (rw k.read_u8 h))

    Safe-buffer_char :
        (p : NaviPort S) → is_input_port p ≡ true → Safe S (Unit {0}) p (buffer_char u p)
    unfolding buffer_char is_input_port
    Safe-buffer_char p h0 =
        (elim p.read_char
            as (λ o.
              ((present p.read_u8 || present o) ≡ true)
              → present o ≡ present p.read_char
              → Safe S (Unit {0}) p (elim o [
                | none ↦ decode_char u p
                | some _ ↦ continue (call_read_char p) keep_char
              ])) [
                | none ↦ λ h _. Safe-decode_char p (ground (arith, h))
                | some f ↦ λ h e.
                    Safe-continue p _ _ (Safe-call_read_char p (ground (arith, e)))
                      λ c q k. Safe-keep_char c q
              ])
          h0 refl

    Safe-fill_char : (p : NaviPort S) → is_input_port p ≡ true → Safe S (Unit {0}) p (fill_char u p)
    unfolding fill_char
    Safe-fill_char p h =
        Safe-if p.flags.buffer_full (λ _. returns _ _ (IsKept-refl p))
          λ _.
            Safe-continue p _ _ (Safe-buffer_char p h) λ _ q k. returns _ _ (IsKept-state q _ _ _ _)

    Safe-next_char : (p : NaviPort S) → is_input_port p ≡ true → Safe S Obj p (next_char u p)
    unfolding next_char
    Safe-next_char p h =
        Safe-continue p _ _ (Safe-buffer_char p h) λ _ q k. returns _ _ (IsKept-refl q)

    pub Safe-read_char : (p : NaviPort S) → Safe S Obj p (read_char u p)
    unfolding read_char
    Safe-read_char p = Safe-check p (check_can_read p) _ _ (check_can_read-Checked p) λ c.
        Safe-branch p.flags.got_eof _ _ p (λ _. returns _ _ (IsKept-refl p))
          λ _.
            Safe-branch p.flags.buffer_full _ _ p (λ _. returns _ _ (IsKept-state p _ _ _ _))
              λ _. Safe-next_char p c.0

    pub Safe-peek_char : (p : NaviPort S) → Safe S Obj p (peek_char u p)
    unfolding peek_char
    Safe-peek_char p = Safe-check p (check_can_read p) _ _ (check_can_read-Checked p) λ c.
        Safe-branch p.flags.got_eof _ _ p (λ _. returns _ _ (IsKept-refl p))
          λ _. Safe-continue p _ _ (Safe-fill_char p c.0) λ _ q k. returns _ _ (IsKept-refl q)
