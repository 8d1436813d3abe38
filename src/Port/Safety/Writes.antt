-- ===== src/Port/Safety/Writes.antt =====
-- Writing and closing are safe: the rest of port.c.
use navi_scheme.Base.{
  ℕ, ◌≡◌, refl, inl, inr, ◌⊎◌, Bool-cases, Bool, true, false, Option, none, some, List, [], ◌∷◌,
  take, arith,
}
use navi_scheme.Base.Int.{ℤ}
use navi_scheme.Port.{
  NaviPort, done, crashed, present, is_input_port, is_output_port, check_can_write,
  check_can_write_u8, check_input_port, check_output_port, closed_in, closed_out, call_close_in,
  call_close_out, close_input_port, close_output_port,
}
use navi_scheme.Port.Passing.{
  passes, fails, check_can_write-Checked, check_can_write_u8-Checked, check_input_port-Checked,
  check_output_port-Checked,
}
use navi_scheme.Port.Chars.{Utf8}
use navi_scheme.Port.Output.{
  call_write_u8, call_write_char, write_byte, write_each, write_encoded, write_char, write_bytes,
  write_chars, write_cstr, cstr, signed_byte,
}
use navi_scheme.Port.Calls.{scm_close_input_port, scm_close_output_port, scm_close_port}
use navi_scheme.Port.Safety.{
  IsKept, IsKept-refl, IsKept-state, Safe, returns, raises, Safe-continue, Safe-check, Safe-if,
  Safe-branch, CloserKept,
}

-- `u8_append` passes its assertion.
abbrev pub IsAppended : Utf8 → ℤ → Type 0
IsAppended u c = present (u.u8_append c) ≡ true

module _ {S : Type 0} where
  Safe-call_write_u8 :
      (b : ℕ) (p : NaviPort S) → present p.write_u8 ≡ true → Safe S (Unit {0}) p (call_write_u8 b p)
  unfolding call_write_u8
  Safe-call_write_u8 b p =
      elim p.write_u8
        as (λ o.
          present o ≡ true
          → Safe S (Unit {0}) p
              (elim o [ none ↦ crashed | some f ↦ done tt (record p { device = f b p.device }) ])) [
                | none ↦ λ h. absurd (ground (arith, h))
                | some f ↦ λ h. returns _ _ (IsKept-state p _ _ _ _)
              ]

  Safe-call_write_char :
      (c : ℤ) (p : NaviPort S)
      → present p.write_char ≡ true
      → Safe S (Unit {0}) p (call_write_char c p)
  unfolding call_write_char
  Safe-call_write_char c p =
      elim p.write_char
        as (λ o.
          present o ≡ true
          → Safe S (Unit {0}) p
              (elim o [ none ↦ crashed | some f ↦ done tt (record p { device = f c p.device }) ])) [
                | none ↦ λ h. absurd (ground (arith, h))
                | some f ↦ λ h. returns _ _ (IsKept-state p _ _ _ _)
              ]

  pub Safe-write_byte : (b : ℕ) (p : NaviPort S) → Safe S (Unit {0}) p (write_byte b p)
  unfolding write_byte
  Safe-write_byte b p =
      Safe-check p (check_can_write_u8 p) _ _ (check_can_write_u8-Checked p)
        λ c. Safe-call_write_u8 b p c.1

  Safe-write_each :
      (bytes : List ℕ) (p : NaviPort S)
      → present p.write_u8 ≡ true
      → Safe S (Unit {0}) p (write_each bytes p)
  unfolding write_each
  Safe-write_each [] p h = returns _ _ (IsKept-refl p)
  Safe-write_each (b ∷ bytes) p h =
      Safe-continue p _ _ (Safe-call_write_u8 b p h)
        λ _ q k. Safe-write_each bytes q (rw k.write_u8 h)

  fallback :
      (p : NaviPort S)
      → is_output_port p ≡ true
      → present p.write_char ≡ false
      → present p.write_u8 ≡ true
  unfolding is_output_port
  fallback p h e = ground (arith, h, e)

  Safe-write_encoded :
      (n : ℕ) (bytes : Option (List ℕ)) (p : NaviPort S)
      → present bytes ≡ true
      → present p.write_u8 ≡ true
      → Safe S (Unit {0}) p (write_encoded n bytes p)
  unfolding write_encoded
  Safe-write_encoded n none p b h = absurd (cc (b))
  Safe-write_encoded n (some bytes) p b h = Safe-write_each (take n bytes) p h

  pub Safe-write_char :
      (u : Utf8) (c : ℤ) (p : NaviPort S)
      → (present p.write_char ≡ false → IsAppended u c)
      → Safe S (Unit {0}) p (write_char u c p)
  unfolding write_char
  Safe-write_char u c p can = Safe-check p (check_can_write p) _ _ (check_can_write-Checked p) λ o.
      Safe-branch (present p.write_char) _ _ p (λ e. Safe-call_write_char c p e)
        (λ e. Safe-write_encoded (u.u8_length c) (u.u8_append c) p (can e) (fallback p o.0 e))

  write_encoded-crashed :
      (n : ℕ) (bytes : Option (List ℕ)) (p : NaviPort S)
      → present bytes ≡ false
      → write_encoded n bytes p ≡ crashed
  unfolding write_encoded
  write_encoded-crashed n none p b = refl
  write_encoded-crashed n (some bytes) p b = absurd (cc (b))

  -- Where the assertion fails, the call is not reached or crashes.
  pub write_char-Safe_or_crashed :
      (u : Utf8) (c : ℤ) (p : NaviPort S)
      → Safe S (Unit {0}) p (write_char u c p) ⊎ (write_char u c p ≡ crashed)
  unfolding write_char
  write_char-Safe_or_crashed u c p = elim (Bool-cases (present (u.u8_append c))) [
    | inl e ↦ inl (Safe-write_char u c p (λ _. e))
    | inr e ↦ elim (Bool-cases (present p.write_char)) [
      | inl w ↦ inl (Safe-write_char u c p (λ n. absurd (cc (n, w))))
      | inr w ↦ elim (check_can_write-Checked p) [
        | passes r o ↦ inr (rw (r, w) (write_encoded-crashed (u.u8_length c) (u.u8_append c) p e))
        | fails x r ↦ inl (rw r (raises x p (IsKept-refl p)))
      ]
    ]
  ]

  Safe-write_bytes : (bytes : List ℕ) (p : NaviPort S) → Safe S (Unit {0}) p (write_bytes bytes p)
  unfolding write_bytes
  Safe-write_bytes [] p = returns _ _ (IsKept-refl p)
  Safe-write_bytes (b ∷ bytes) p =
      Safe-continue p _ _ (Safe-write_byte b p) λ _ q k. Safe-write_bytes bytes q

  -- Without a function for bytes nothing is encoded.
  Safe-write_char_direct :
      (u : Utf8) (c : ℤ) (p : NaviPort S)
      → present p.write_u8 ≡ false
      → Safe S (Unit {0}) p (write_char u c p)
  unfolding write_char
  Safe-write_char_direct u c p none_u8 =
      Safe-check p (check_can_write p) _ _ (check_can_write-Checked p) λ o.
        Safe-branch (present p.write_char) _ _ p (λ e. Safe-call_write_char c p e)
          (λ e. absurd (cc (none_u8, fallback p o.0 e)))

  Safe-write_chars :
      (u : Utf8) (bytes : List ℕ) (p : NaviPort S)
      → present p.write_u8 ≡ false
      → Safe S (Unit {0}) p (write_chars u bytes p)
  unfolding write_chars
  Safe-write_chars u [] p none_u8 = returns _ _ (IsKept-refl p)
  Safe-write_chars u (b ∷ bytes) p none_u8 =
      Safe-continue p _ _ (Safe-write_char_direct u (signed_byte b) p none_u8)
        λ _ q k. Safe-write_chars u bytes q (rw k.write_u8 none_u8)

  pub Safe-write_cstr :
      (u : Utf8) (text : List ℕ) (p : NaviPort S) → Safe S (Unit {0}) p (write_cstr u text p)
  unfolding write_cstr
  Safe-write_cstr u text p =
      Safe-if (present p.write_u8) (λ _. Safe-write_bytes (cstr text) p)
        (λ e. Safe-write_chars u (cstr text) p e)

  IsKept-close :
      (p : NaviPort S) (s : S) (ci co : Option (S → Option S)) (a b : Bool)
      → (p.flags.input_closed ≡ true → a ≡ true)
      → (p.flags.output_closed ≡ true → b ≡ true)
      → CloserKept p.close_in ci
      → CloserKept p.close_out co
      → IsKept S p (record p {
        device = s;
        close_in = ci;
        close_out = co;
        flags = record p.flags { input_closed = a; output_closed = b };
      })
  IsKept-close p s ci co a b ha hb ki ko = record {
    read_u8 = refl;
    write_u8 = refl;
    read_char = refl;
    write_char = refl;
    close_in = ki;
    close_out = ko;
    input_closed = ha;
    output_closed = hb;
  }

  Safe-closed_in : (p : NaviPort S) (o : Option S) → Safe S (Unit {0}) p (closed_in p o)
  unfolding closed_in
  Safe-closed_in p none = raises _ _ (IsKept-refl p)
  Safe-closed_in p (some s) =
      returns _ _ (IsKept-close p _ _ _ _ _ (λ e. e) (λ e. e) (inr refl) (inl refl))

  Safe-closed_out : (p : NaviPort S) (o : Option S) → Safe S (Unit {0}) p (closed_out p o)
  unfolding closed_out
  Safe-closed_out p none = raises _ _ (IsKept-refl p)
  Safe-closed_out p (some s) =
      returns _ _ (IsKept-close p _ _ _ _ _ (λ e. e) (λ e. e) (inl refl) (inr refl))

  Safe-call_close_in : (p : NaviPort S) → Safe S (Unit {0}) p (call_close_in p)
  unfolding call_close_in
  Safe-call_close_in p =
      elim p.close_in
        as (λ o.
          Safe S (Unit {0}) p (elim o [ none ↦ done tt p | some f ↦ closed_in p (f p.device) ])) [
            | none ↦ returns _ _ (IsKept-refl p)
            | some f ↦ Safe-closed_in p (f p.device)
          ]

  Safe-call_close_out : (p : NaviPort S) → Safe S (Unit {0}) p (call_close_out p)
  unfolding call_close_out
  Safe-call_close_out p =
      elim p.close_out
        as (λ o.
          Safe S (Unit {0}) p (elim o [ none ↦ done tt p | some f ↦ closed_out p (f p.device) ])) [
            | none ↦ returns _ _ (IsKept-refl p)
            | some f ↦ Safe-closed_out p (f p.device)
          ]

  Safe-close_input_port : (p : NaviPort S) → Safe S (Unit {0}) p (close_input_port p)
  unfolding close_input_port
  Safe-close_input_port p =
      Safe-continue p _ _ (Safe-call_close_in p)
        λ _ q k. returns _ _ (IsKept-close q _ _ _ _ _ (λ _. refl) (λ e. e) (inl refl) (inl refl))

  Safe-close_output_port : (p : NaviPort S) → Safe S (Unit {0}) p (close_output_port p)
  unfolding close_output_port
  Safe-close_output_port p =
      Safe-continue p _ _ (Safe-call_close_out p)
        λ _ q k. returns _ _ (IsKept-close q _ _ _ _ _ (λ e. e) (λ _. refl) (inl refl) (inl refl))

  pub Safe-scm_close_port : (p : NaviPort S) → Safe S (Unit {0}) p (scm_close_port p)
  unfolding scm_close_port
  Safe-scm_close_port p =
      Safe-continue p _ _
        (Safe-branch (is_input_port p) _ _ p (λ _. Safe-close_input_port p)
          (λ _. returns _ _ (IsKept-refl p)))
        λ _ q k.
          Safe-branch (is_output_port q) _ _ q (λ _. Safe-close_output_port q)
            (λ _. returns _ _ (IsKept-refl q))

  pub Safe-scm_close_input_port : (p : NaviPort S) → Safe S (Unit {0}) p (scm_close_input_port p)
  unfolding scm_close_input_port
  Safe-scm_close_input_port p =
      Safe-check p (check_input_port p) _ _ (check_input_port-Checked p)
        λ _. Safe-close_input_port p

  pub Safe-scm_close_output_port : (p : NaviPort S) → Safe S (Unit {0}) p (scm_close_output_port p)
  unfolding scm_close_output_port
  Safe-scm_close_output_port p =
      Safe-check p (check_output_port p) _ _ (check_output_port-Checked p)
        λ _. Safe-close_output_port p
