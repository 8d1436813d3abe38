-- ===== src/Strings/Ports.antt =====
-- String ports: what is written to one is read back, string_write and string_read of port.c.
use navi_scheme.Base.{
  ℕ, zero, suc, ◌+◌, ◌%◌, ◌<◌, ◌≤◌, ◌≡◌, refl, sym, ap, ◌∙◌, true, false, some, List, [], ◌∷◌, ◌++◌,
  map, length, take, drop, get_elem?, arith,
}
use mathlib.Core.List.{append_assoc, append-nil}
use navi_scheme.Base.Int.{pos}
use navi_scheme.Object.{Obj, char, eof, NaviString}
use navi_scheme.Port.{
  NaviPort, done, PortCmd, give, ◌>>=◌, ◌>>◌, eof_value, int32, char_object, check_can_write,
  check_output_port, is_output_port, check_can_read, check_input_port, is_input_port,
}
use navi_scheme.Port.Chars.{
  Utf8, uint8, read_char, next_char, buffer_char, call_read_char, keep_char,
}
use navi_scheme.Port.Output.{write_char, call_write_char}
use navi_scheme.Port.Stream.{Gives, gives}
use navi_scheme.Strings.{
  int32_max, int32_mod, StringInput, string_write, string_read, open_input_string,
  open_output_string, get_output_string,
}
use navi_scheme.Strings.Compare.{IsAscii}
use navi_scheme.Strings.Content.{
  IsString, content, string_write-content, get_output_string-content, make_string-IsString,
}

-- `write-char` for each character, and `read-char` called so many times.
pub write_codes : {S : Type 0} → Utf8 → List ℕ → PortCmd S (Unit {0})
write_codes u [] = give tt
write_codes u (c ∷ codes) = do write_char u (pos c); write_codes u codes

pub read_codes : {S : Type 0} → Utf8 → ℕ → PortCmd S (List Obj)
read_codes u zero = give []
read_codes u (suc n) = do o ← read_char u; objects ← read_codes u n; give (o ∷ objects)

record IsOutput (left : ℕ → ℕ) (p : NaviPort NaviString) : Type 0 where
  writes : p.write_char ≡ some (string_write left)
  not_closed : p.flags.output_closed ≡ false
  string : IsString p.device

module _ (u : Utf8) (left : ℕ → ℕ) where
  write_one :
      (c : ℕ) (p : NaviPort NaviString)
      → IsOutput left p
      → write_char u (pos c) p ≡ done tt (record p { device = string_write left (pos c) p.device })
  unfolding write_char call_write_char check_can_write check_output_port is_output_port
  write_one c p h = ground (arith, h.writes, h.not_closed)

  write_codes-content :
      (codes : List ℕ) (p : NaviPort NaviString)
      → IsAscii codes
      → IsOutput left p
      → p.device.size + length codes ≤ int32_max
      → Gives NaviString (Unit {0}) (write_codes u codes p) (λ _ q.
        IsOutput left q
        × (q.device.size ≡ p.device.size + length codes)
        × (content q.device ≡ content p.device ++ codes))
  unfolding write_codes
  write_codes-content [] p a h small =
      gives tt p refl (h, omega arith, sym (append-nil (content p.device)))
  write_codes-content (c ∷ codes) p a h small =
      let written = string_write-content left (pos c) p.device h.string (omega arith) in
      let q = record p { device = string_write left (pos c) p.device } in
      let byte : uint8 (pos c) ≡ c = omega (arith, a.0) in
      elim (write_codes-content codes q a.1
        (record { writes = h.writes; not_closed = h.not_closed; string = written.0 })
        (omega (arith, written.1))) [
          | gives v r e (hr, n, w) ↦ gives v r (rw (write_one c p h) e) (
            hr,
            omega (arith, n, written.1),
            w
                ∙ ap (λ l. l ++ codes) (written.2 ∙ ap (λ b. content p.device ++ (b ∷ [])) byte)
                ∙ append_assoc (content p.device) (c ∷ []) codes,
          )
        ]

-- The characters from a position on, in the buffer.
drop-cons :
    (n i : ℕ) (l : List ℕ) {c : ℕ} {rest : List ℕ}
    → drop i (take n l) ≡ c ∷ rest
    → (i < n) × (get_elem? l i ≡ some c) × (drop (i + 1) (take n l) ≡ rest)
drop-cons zero zero l e = absurd (cc (e))
drop-cons zero (suc i) l e = absurd (cc (e))
drop-cons (suc n) zero [] e = absurd (cc (e))
drop-cons (suc n) (suc i) [] e = absurd (cc (e))
drop-cons (suc n) zero (x ∷ l) e = (omega arith, cc (e), cc (e))
drop-cons (suc n) (suc i) (x ∷ l) e =
    let r = drop-cons n i l e in
    let step : suc i + 1 ≡ suc (i + 1) = omega arith in (omega (arith, r.0), r.1, rw step r.2)

drop-nil : (n i : ℕ) (l : List ℕ) → n ≤ length l → i ≤ n → drop i (take n l) ≡ [] → i ≡ n
drop-nil zero i l h le e = omega (arith, le)
drop-nil (suc n) i [] h le e = absurd (omega (arith, h))
drop-nil (suc n) zero (x ∷ l) h le e = absurd (cc (e))
drop-nil (suc n) (suc i) (x ∷ l) h le e =
    ap suc (drop-nil n i l (omega (arith, h)) (omega (arith, le)) e)

record IsInput (p : NaviPort StringInput) : Type 0 where
  reads : p.read_char ≡ some string_read
  not_closed : p.flags.input_closed ≡ false
  not_eof : p.flags.got_eof ≡ false
  not_full : p.flags.buffer_full ≡ false
  within : p.device.pos ≤ p.device.str.size
  room : p.device.str.size ≤ length p.device.str.text
  small : p.device.str.size ≤ int32_max

abbrev left_to_read : NaviPort StringInput → List ℕ
left_to_read p = drop p.device.pos (content p.device.str)

module _ (u : Utf8) where
  small_char : (c : ℕ) → c < 128 → (int32 (pos c) ≡ pos c) × (char_object (pos c) ≡ char c)
  unfolding int32 char_object
  small_char c h = (ground arith, ground arith)

  read_one :
      (c : ℕ) (rest : List ℕ) (p : NaviPort StringInput)
      → IsInput p
      → c < 128
      → left_to_read p ≡ c ∷ rest
      → read_char u p
        ≡ done
            (char c)
            (record p { buffer = pos c; device = record p.device { pos = p.device.pos + 1 } })
  unfolding read_char next_char buffer_char call_read_char keep_char check_can_read check_input_port
      is_input_port string_read
  read_one c rest p h lt e =
      let d = drop-cons p.device.str.size p.device.pos p.device.str.text e in
      let small = small_char c lt in
      let fits32 : (p.device.pos + 1) % int32_mod ≡ p.device.pos + 1 =
        omega (arith, d.0, h.small) in
      ground
        (arith, h.reads, h.not_closed, h.not_eof, h.not_full, d.0, d.1, small.0, small.1, fits32)

  read_end :
      (p : NaviPort StringInput)
      → IsInput p
      → left_to_read p ≡ []
      → Gives StringInput Obj (read_char u p) (λ o _. o ≡ eof)
  unfolding read_char next_char buffer_char call_read_char keep_char check_can_read check_input_port
      is_input_port string_read int32
  read_end p h e =
      let d = drop-nil p.device.str.size p.device.pos p.device.str.text h.room h.within e in
      gives eof (record p { buffer = eof_value; flags = record p.flags { got_eof = true } })
        (ground (arith, h.reads, h.not_closed, h.not_eof, h.not_full, d)) refl

  read_codes-all :
      (codes : List ℕ) (p : NaviPort StringInput)
      → IsAscii codes
      → IsInput p
      → left_to_read p ≡ codes
      → Gives StringInput
          (List Obj)
          (read_codes u (suc (length codes)) p)
          (λ os _. os ≡ map char codes ++ (eof ∷ []))
  unfolding read_codes
  read_codes-all [] p a h e = elim (read_end p h e) [
    | gives o q r w ↦ gives (o ∷ []) q (rw r refl) (rw w refl)
  ]
  read_codes-all (c ∷ codes) p a h e =
      let d = drop-cons p.device.str.size p.device.pos p.device.str.text e in
      let q = record p { buffer = pos c; device = record p.device { pos = p.device.pos + 1 } } in
      elim (read_codes-all codes q a.1
        (record {
          reads = h.reads;
          not_closed = h.not_closed;
          not_eof = h.not_eof;
          not_full = h.not_full;
          within = omega (arith, d.0);
          room = h.room;
          small = h.small;
        })
        d.2) [
          | gives os r e' w ↦
              gives (char c ∷ os) r (rw (read_one c codes p h a.0 e, e') refl) (rw w refl)
        ]

  -- ASCII characters, as many as an `int32_t` counts, that are written to a new string port are what a
  -- port on its string gives, one after another, and then the end of file.
  pub read_codes-write_codes :
      (left new : ℕ → ℕ) (codes : List ℕ)
      → IsAscii codes
      → length codes ≤ int32_max
      → Gives NaviString (Unit {0}) (write_codes u codes (open_output_string left)) (λ _ q.
        Gives StringInput
          (List Obj)
          (read_codes u (suc (length codes)) (open_input_string (get_output_string new q.device)))
          (λ os _. os ≡ map char codes ++ (eof ∷ [])))
  unfolding open_output_string open_input_string
  read_codes-write_codes left new codes a small =
      elim (write_codes-content u left codes (open_output_string left) a
        (record {
          writes = refl;
          not_closed = refl;
          string = make_string-IsString left 64 0 0 (omega arith);
        })
        (omega arith)) [
          | gives v q e (h, n, w) ↦ gives v q e (
              let s = get_output_string new q.device in
              let c = get_output_string-content new q.device h.string in
              read_codes-all codes (open_input_string s) a
                (record {
                  reads = refl;
                  not_closed = refl;
                  not_eof = refl;
                  not_full = refl;
                  within = omega arith;
                  room = omega (arith, c.1, c.2);
                  small = omega (arith, c.1, n, small);
                })
                (c.0 ∙ w))
        ]
