-- ===== src/Port/Stream.antt =====
-- A port of bytes as a sequence of bytes that are still to be read.
use navi_scheme.Base.{
  ℕ, ◌≡◌, refl, sym, ◌⊎◌, inl, inr, true, false, some, List, [], ◌∷◌, if◌then◌else◌, Bool-cases,
  List-cases, arith,
}
use navi_scheme.Base.Int.{ℤ, pos, negsuc}
use navi_scheme.Object.{Obj, eof, fixnum, eq_ℤ}
use navi_scheme.Port.{NaviPort, PortRun, done, eof_value, set_eof, set_full}
use navi_scheme.Port.Bytes.{byte_result, read_byte, peek_byte}

-- What the function `read_u8` of a port promises: `rest` are the bytes that are left, and at their end
-- it returns EOF.
pub record IsByteSource (S : Type 0) (read_u8 : S → ℤ × S) (rest : S → List ℕ) : Type 0 where
  pub at_end : (s : S) → rest s ≡ [] → ((read_u8 s).0 ≡ eof_value) × (rest (read_u8 s).1 ≡ [])
  pub at_byte :
      (s : S) (b : ℕ) (bytes : List ℕ)
      → rest s ≡ b ∷ bytes
      → ((read_u8 s).0 ≡ pos b) × (rest (read_u8 s).1 ≡ bytes)

abbrev pub IsByteOrEof : ℤ → Type 0
IsByteOrEof v = (v ≡ eof_value) ⊎ ((b : ℕ) × (v ≡ pos b))

-- An open port of bytes, whose buffer holds what was read when it is full.
pub record IsReadable (S : Type 0) (f : S → ℤ × S) (p : NaviPort S) : Type 0 where
  pub reads : p.read_u8 ≡ some f
  pub not_closed : p.flags.input_closed ≡ false
  pub filled : p.flags.buffer_full ≡ true → IsByteOrEof p.buffer

pub data Gives (S A : Type 0) (r : PortRun S A) (P : A → NaviPort S → Type 0) : Type 0 where
  gives : (a : A) (p : NaviPort S) → r ≡ done a p → P a p → Gives S A r P

abbrev pub head_object : List ℕ → Obj
head_object [] = eof
head_object (b ∷ _) = fixnum (pos b)

abbrev pub head_value : List ℕ → ℤ
head_value [] = eof_value
head_value (b ∷ _) = pos b

head_value-IsByteOrEof : (l : List ℕ) → IsByteOrEof (head_value l)
head_value-IsByteOrEof [] = inl refl
head_value-IsByteOrEof (b ∷ _) = inr (b, refl)

abbrev pub rest_of : List ℕ → List ℕ
rest_of [] = []
rest_of (_ ∷ bytes) = bytes

abbrev pub buffered : ℤ → List ℕ → List ℕ
buffered (pos b) bytes = b ∷ bytes
buffered (negsuc _) bytes = []

buffered-split : (l : List ℕ) → buffered (head_value l) (rest_of l) ≡ l
buffered-split [] = refl
buffered-split (b ∷ l) = refl

module _ {S : Type 0} (f : S → ℤ × S) (rest : S → List ℕ) where
  -- The bytes that are still to be read: none after the end, the one in the buffer first.
  unfoldable pub unread : NaviPort S → List ℕ
  unread p =
      if p.flags.got_eof
      then []
      else (if p.flags.buffer_full then buffered p.buffer (rest p.device) else rest p.device)

  read_byte_eof :
      (p : NaviPort S)
      → IsReadable S f p
      → p.flags.got_eof ≡ true
      → read_byte p ≡ done eof (set_eof p)
  unfolding read_byte byte_result
  read_byte_eof p h e = ground (arith, h.reads, h.not_closed)

  read_byte_full :
      (p : NaviPort S)
      → IsReadable S f p
      → p.flags.got_eof ≡ false
      → p.flags.buffer_full ≡ true
      → read_byte p ≡ byte_result p.buffer (set_full false p)
  unfolding read_byte
  read_byte_full p h e b = ground (arith, h.reads, h.not_closed)

  abbrev taken : NaviPort S → NaviPort S
  taken p = record p { device = (f p.device).1; buffer = (f p.device).0 }

  read_byte_empty :
      (p : NaviPort S)
      → IsReadable S f p
      → p.flags.got_eof ≡ false
      → p.flags.buffer_full ≡ false
      → read_byte p ≡ byte_result (f p.device).0 (taken p)
  unfolding read_byte
  read_byte_empty p h e b = ground (arith, h.reads, h.not_closed)

  abbrev pub Read : NaviPort S → Obj → NaviPort S → Type 0
  Read p o q = (o ≡ head_object (unread p)) × (unread q ≡ rest_of (unread p)) × IsReadable S f q

  abbrev pub Peeked : NaviPort S → Obj → NaviPort S → Type 0
  Peeked p o q = (o ≡ head_object (unread p)) × (unread q ≡ unread p) × IsReadable S f q

  Read-buffered :
      (p q : NaviPort S) (v : ℤ)
      → IsReadable S f q
      → q.flags.got_eof ≡ false
      → q.flags.buffer_full ≡ false
      → unread p ≡ buffered v (rest q.device)
      → IsByteOrEof v
      → Gives S Obj (byte_result v q) (Read p)
  unfolding byte_result unread
  Read-buffered p q v h e b u (inl w) = rw w (
      gives eof (set_eof q) refl (
        rw (u, w) refl,
        rw (u, w) refl,
        record { reads = h.reads; not_closed = h.not_closed; filled = h.filled },
      ))
  Read-buffered p q v h e b u (inr (c, w)) =
      rw w (gives (fixnum (pos c)) q (ground arith) (rw (u, w) refl, ground (arith, e, b, u, w), h))

  module _ (source : IsByteSource S f rest) where
    -- One call of `read_u8` returns the next byte, or EOF at the end.
    call : (s : S) → ((f s).0 ≡ head_value (rest s)) × (rest (f s).1 ≡ rest_of (rest s))
    call s = elim (List-cases (rest s)) [
      | inl e ↦ rw e (source.at_end s e)
      | inr (b, bytes, e) ↦ rw e (source.at_byte s b bytes e)
    ]

    pub read_byte-unread : (p : NaviPort S) → IsReadable S f p → Gives S Obj (read_byte p) (Read p)
    unfolding unread
    read_byte-unread p h = elim (Bool-cases p.flags.got_eof) [
      | inl e ↦ rw (read_byte_eof p h e) (
          gives eof (set_eof p) refl (
            rw e refl,
            rw e refl,
            record { reads = h.reads; not_closed = h.not_closed; filled = h.filled },
          ))
      | inr e ↦ elim (Bool-cases p.flags.buffer_full) [
        | inl b ↦ rw (read_byte_full p h e b) (
            Read-buffered p (set_full false p) p.buffer
              (record { reads = h.reads; not_closed = h.not_closed; filled = λ _. h.filled b }) e
              refl (ground (arith, e, b)) (h.filled b))
        | inr b ↦ rw (read_byte_empty p h e b) (
            Read-buffered p (taken p) (f p.device).0
              (record {
                reads = h.reads;
                not_closed = h.not_closed;
                filled = λ w. ground (arith, w, b);
              })
              e b
              (rw ((call p.device).0, (call p.device).1, buffered-split (rest p.device))
                (ground (arith, e, b)))
              (rw (call p.device).0 (head_value-IsByteOrEof (rest p.device))))
      ]
    ]

    peek_byte_eof :
        (p : NaviPort S) → IsReadable S f p → p.flags.got_eof ≡ true → peek_byte p ≡ done eof p
    unfolding peek_byte
    peek_byte_eof p h e = ground (arith, h.reads, h.not_closed)

    peek_byte_full :
        (p : NaviPort S)
        → IsReadable S f p
        → p.flags.got_eof ≡ false
        → p.flags.buffer_full ≡ true
        → peek_byte p ≡ done (if eq_ℤ p.buffer eof_value then eof else fixnum p.buffer) p
    unfolding peek_byte
    peek_byte_full p h e b = ground (arith, h.reads, h.not_closed)

    peek_byte_empty :
        (p : NaviPort S)
        → IsReadable S f p
        → p.flags.got_eof ≡ false
        → p.flags.buffer_full ≡ false
        → peek_byte p
          ≡ done
              (if eq_ℤ (f p.device).0 eof_value then eof else fixnum (f p.device).0)
              (set_full true (taken p))
    unfolding peek_byte
    peek_byte_empty p h e b = ground (arith, h.reads, h.not_closed)

    object_of_value :
        (v : ℤ) (l : List ℕ)
        → IsByteOrEof v
        → (if eq_ℤ v eof_value then eof else fixnum v) ≡ head_object (buffered v l)
    object_of_value v l (inl w) = rw w refl
    object_of_value v l (inr (b, w)) = rw w (ground arith)

    pub peek_byte-unread :
        (p : NaviPort S) → IsReadable S f p → Gives S Obj (peek_byte p) (Peeked p)
    unfolding unread
    peek_byte-unread p h = elim (Bool-cases p.flags.got_eof) [
      | inl e ↦ rw (peek_byte_eof p h e) (gives eof p refl (rw e refl, refl, h))
      | inr e ↦ elim (Bool-cases p.flags.buffer_full) [
        | inl b ↦ rw (peek_byte_full p h e b) (
            gives _ p refl
              (rw (e, b) (object_of_value p.buffer (rest p.device) (h.filled b)), refl, h))
        | inr b ↦
            let c = call p.device in
            rw (peek_byte_empty p h e b) (
              gives _ (set_full true (taken p)) refl (
                rw (e, b, c.0) (rw (sym (buffered-split (rest p.device))) (ground (arith))),
                rw (e, b, c.0, c.1) (buffered-split (rest p.device)),
                record {
                  reads = h.reads;
                  not_closed = h.not_closed;
                  filled = λ _. rw c.0 (head_value-IsByteOrEof (rest p.device));
                },
              ))
      ]
    ]
