-- ===== src/Port/Drain.antt =====
-- A client that keeps reading bytes from a port.
use navi_scheme.Base.{
  ℕ, zero, suc, ◌+◌, ◌≡◌, refl, ap, List, [], ◌∷◌, ◌++◌, map, length, replicate, arith,
}
use navi_scheme.Base.Int.{ℤ, pos}
use navi_scheme.Object.{Obj, eof, fixnum}
use navi_scheme.Port.{NaviPort, PortCmd, give, ◌>>=◌}
use navi_scheme.Port.Bytes.{read_byte}
use navi_scheme.Port.Stream.{
  IsByteSource, IsReadable, Gives, gives, head_object, rest_of, unread, read_byte-unread,
}

-- `read-u8` called so many times.
pub read_times : {S : Type 0} → ℕ → PortCmd S (List Obj)
read_times zero = give []
read_times (suc n) = do o ← read_byte; objects ← read_times n; give (o ∷ objects)

first_objects : ℕ → List ℕ → List Obj
first_objects zero bytes = []
first_objects (suc n) bytes = head_object bytes ∷ first_objects n (rest_of bytes)

abbrev pub byte_object : ℕ → Obj
byte_object b = fixnum (pos b)

first_objects_end : (k : ℕ) → first_objects k [] ≡ replicate k eof
unfolding first_objects
first_objects_end zero = refl
first_objects_end (suc k) = ap (λ l. eof ∷ l) (first_objects_end k)

first_objects_all :
    (bytes : List ℕ) (k : ℕ)
    → first_objects (length bytes + k) bytes ≡ map byte_object bytes ++ replicate k eof
unfolding first_objects
first_objects_all [] k = let e : 0 + k ≡ k = omega arith in rw e (first_objects_end k)
first_objects_all (b ∷ bytes) k =
    rw (suc_plus (length bytes) k) (ap (λ l. byte_object b ∷ l) (first_objects_all bytes k))
  where
    suc_plus : (n k : ℕ) → suc n + k ≡ suc (n + k)
    suc_plus n k = omega arith

module _ {S : Type 0} (f : S → ℤ × S) (rest : S → List ℕ) (source : IsByteSource S f rest) where
  read_times_first :
      (n : ℕ) (p : NaviPort S)
      → IsReadable S f p
      → Gives S
          (List Obj)
          (read_times n p)
          (λ os q. (os ≡ first_objects n (unread f rest p)) × IsReadable S f q)
  unfolding read_times first_objects
  read_times_first zero p h = gives [] p refl (refl, h)
  read_times_first (suc n) p h = elim (read_byte-unread f rest source p h) [
    | gives o q e (eo, eu, hq) ↦ elim (read_times_first n q hq) [
      | gives os r e' (eos, hr) ↦ gives (o ∷ os) r (rw (e, e') refl) (rw (eo, eos, eu) refl, hr)
    ]
  ]

  pub read_times-all :
      (k : ℕ) (p : NaviPort S)
      → IsReadable S f p
      → Gives S
          (List Obj)
          (read_times (length (unread f rest p) + k) p)
          (λ os q. os ≡ map byte_object (unread f rest p) ++ replicate k eof)
  read_times-all k p h = elim (read_times_first (length (unread f rest p) + k) p h) [
    | gives os q e (eos, hq) ↦ gives os q e (rw eos (first_objects_all (unread f rest p) k))
  ]
