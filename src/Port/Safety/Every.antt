-- ===== src/Port/Safety/Every.antt =====
-- Every call on a port, and sequences of calls.
use navi_scheme.Base.{◌≡◌, refl, sym, ap, inl, inr, ◌⊎◌, false}
use navi_scheme.Port.{NaviPort, PortRun, done, failed, crashed, PortError, PortCmd, present}
use navi_scheme.Port.Bytes.{read_byte, peek_byte}
use navi_scheme.Port.Chars.{Utf8, read_char, peek_char}
use navi_scheme.Port.Calls.{
  PortCall, peeks_u8, reads_u8, peeks_char, reads_char, closes_input, closes_output, writes_u8,
  writes_char, writes_cstr, folds_case, closes, asks_output_string, scm_close_port,
  gets_output_string, quietly, perform,
}
use navi_scheme.Port.Safety.{
  IsKept, IsKept-refl, IsKept-trans, Safe, returns, raises, Safe-continue, Safe-peek_byte,
  Safe-read_byte, Safe-if,
}
use navi_scheme.Port.Safety.Reads.{Safe-peek_char, Safe-read_char}
use navi_scheme.Port.Safety.Writes.{
  Safe-scm_close_input_port, Safe-scm_close_output_port, Safe-write_byte, Safe-write_char,
  Safe-write_cstr, Safe-scm_close_port, IsAppended, write_char-Safe_or_crashed,
}

abbrev port_of : {S A : Type 0} → NaviPort S → PortRun S A → NaviPort S
port_of d (done _ p) = p
port_of d (failed _ p) = p
port_of d crashed = d

module _ {S : Type 0} (u : Utf8) where
  Safe-quietly :
      {A : Type 0} (m : PortCmd S A) (p : NaviPort S)
      → Safe S A p (m p)
      → Safe S (Unit {0}) p (quietly m p)
  Safe-quietly m p s = Safe-continue p (m p) _ s λ a q k. returns _ _ (IsKept-refl q)

  -- A character that is encoded, for want of a function for characters, passes the assertion of the
  -- encoder.
  abbrev pub CanEncode : NaviPort S → PortCall → Type 0
  CanEncode p (writes_char c) = present p.write_char ≡ false → IsAppended u c
  CanEncode p _ = Unit

  pub perform-Safe :
      (call : PortCall) (p : NaviPort S) → CanEncode p call → Safe S (Unit {0}) p (perform u call p)
  unfolding perform scm_close_port gets_output_string
  perform-Safe peeks_u8 p _ = Safe-quietly peek_byte p (Safe-peek_byte p)
  perform-Safe reads_u8 p _ = Safe-quietly read_byte p (Safe-read_byte p)
  perform-Safe peeks_char p _ = Safe-quietly (peek_char u) p (Safe-peek_char u p)
  perform-Safe reads_char p _ = Safe-quietly (read_char u) p (Safe-read_char u p)
  perform-Safe closes_input p _ = Safe-scm_close_input_port p
  perform-Safe closes_output p _ = Safe-scm_close_output_port p
  perform-Safe (writes_u8 b) p _ = Safe-write_byte b p
  perform-Safe (writes_char c) p can = Safe-write_char u c p can
  perform-Safe (writes_cstr text) p _ = Safe-write_cstr u text p
  perform-Safe (folds_case fold) p _ = returns _ _ (record {
    read_u8 = refl;
    write_u8 = refl;
    read_char = refl;
    write_char = refl;
    close_in = inl refl;
    close_out = inl refl;
    input_closed = λ e. e;
    output_closed = λ e. e;
  })
  perform-Safe closes p _ = Safe-scm_close_port p
  perform-Safe asks_output_string p _ =
      Safe-if p.flags.string_output (λ _. returns _ _ (IsKept-refl p))
        (λ _. raises _ _ (IsKept-refl p))

  -- A call that does not crash keeps all this, whatever it writes.
  perform-Safe_or_crashed :
      (call : PortCall) (p : NaviPort S)
      → Safe S (Unit {0}) p (perform u call p) ⊎ (perform u call p ≡ crashed)
  unfolding perform
  perform-Safe_or_crashed (writes_char c) p = write_char-Safe_or_crashed u c p
  perform-Safe_or_crashed peeks_u8 p = inl (perform-Safe peeks_u8 p tt)
  perform-Safe_or_crashed reads_u8 p = inl (perform-Safe reads_u8 p tt)
  perform-Safe_or_crashed peeks_char p = inl (perform-Safe peeks_char p tt)
  perform-Safe_or_crashed reads_char p = inl (perform-Safe reads_char p tt)
  perform-Safe_or_crashed closes_input p = inl (perform-Safe closes_input p tt)
  perform-Safe_or_crashed closes_output p = inl (perform-Safe closes_output p tt)
  perform-Safe_or_crashed closes p = inl (perform-Safe closes p tt)
  perform-Safe_or_crashed asks_output_string p = inl (perform-Safe asks_output_string p tt)
  perform-Safe_or_crashed (writes_u8 b) p = inl (perform-Safe (writes_u8 b) p tt)
  perform-Safe_or_crashed (writes_cstr text) p = inl (perform-Safe (writes_cstr text) p tt)
  perform-Safe_or_crashed (folds_case fold) p = inl (perform-Safe (folds_case fold) p tt)

  -- The ports that calls lead to, in any order, whether a call returned or raised an error that was
  -- handled.
  pub data Reached (p : NaviPort S) : NaviPort S → Type 0 where
    here : Reached p p
    returned :
        {q r : NaviPort S} (call : PortCall)
        → Reached p q
        → perform u call q ≡ done tt r
        → Reached p r
    handled :
        {q r : NaviPort S} (call : PortCall) (e : PortError)
        → Reached p q
        → perform u call q ≡ failed e r
        → Reached p r

  pub Safe-done :
      {A : Type 0} {p q : NaviPort S} (r : PortRun S A) (a : A)
      → Safe S A p r
      → r ≡ done a q
      → IsKept S p q
  Safe-done (done b t) a (returns _ _ k) e = rw (sym (ap (port_of t) e)) k
  Safe-done (failed x t) a s e = absurd (cc (e))
  Safe-done crashed a s e = elim s [ ]

  Safe-failed :
      {A : Type 0} {p q : NaviPort S} (r : PortRun S A) (x : PortError)
      → Safe S A p r
      → r ≡ failed x q
      → IsKept S p q
  Safe-failed (done b t) x s e = absurd (cc (e))
  Safe-failed (failed y t) x (raises _ _ k) e = rw (sym (ap (port_of t) e)) k
  Safe-failed crashed x s e = elim s [ ]

  pub Reached-IsKept : {p q : NaviPort S} → Reached p q → IsKept S p q
  Reached-IsKept {p} here = IsKept-refl p
  Reached-IsKept (returned {q} call before e) =
      IsKept-trans (Reached-IsKept before) (elim (perform-Safe_or_crashed call q) [
        | inl s ↦ Safe-done (perform u call q) tt s e
        | inr c ↦ absurd (cc (c, e))
      ])
  Reached-IsKept (handled {q} call x before e) =
      IsKept-trans (Reached-IsKept before) (elim (perform-Safe_or_crashed call q) [
        | inl s ↦ Safe-failed (perform u call q) x s e
        | inr c ↦ absurd (cc (c, e))
      ])
