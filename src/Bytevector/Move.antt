-- ===== src/Bytevector/Move.antt =====
-- `bytevector-copy` and `bytevector-copy!`.
use navi_scheme.Base.{
  ℕ, ◌-◌, ◌≡◌, ◌≢◌, Option, List, arith, length, tabulate, length-tabulate, refl,
}
use navi_scheme.Base.Int.{ℤ, pos, pos_part}
use navi_scheme.Object.{Obj, ptr, bytevec, Store, IsStore, extend, write}
use navi_scheme.Object.Run.{ok, make_object}
use navi_scheme.Object.Returns.{Returns, returns}
use navi_scheme.Object.Returns
use navi_scheme.Array.Laws.{ArrayAt, size-ok, IsCopied, copy_loop-IsCopied}
use navi_scheme.Array.Fresh.{IsSlice, copy_loop-IsSlice}
use navi_scheme.Checks.{check_copy, check_copy_to}
use navi_scheme.Checks.Copy.{IsIndex, index_or-ok, check-Span}
use navi_scheme.Bytevector.{
  bytevec_layout, make_bytevec, copy_bytes, scm_bytevector_copy, scm_bytevector_copy_to,
}

-- A fresh bytevector, not initialised.
pub made-bytevec :
    (left : ℕ → ℕ) (n : ℕ) (h : Store)
    → ArrayAt bytevec_layout (extend h (bytevec (tabulate n left))) h.next (tabulate n left)
unfolding bytevec_layout extend write
made-bytevec left n h = record {
  cell = bytevec (tabulate n left);
  holds = ground arith;
  viewed = refl;
}

module _ {h : Store} {p : ℕ} {xs : List ℕ} (a : ArrayAt bytevec_layout h p xs) where
  -- `bytevector-copy!` from another bytevector, with indices that pass the check: the bytes from
  -- `start` to `end` stand in the target from `at` on, its other bytes and all else in the heap are as
  -- they were.
  pub scm_bytevector_copy_to-IsCopied :
      {q : ℕ} {ys : List ℕ} {start? end? : Option Obj} {start end : ℤ} (at : ℤ)
      → ArrayAt bytevec_layout h q ys
      → p ≢ q
      → IsIndex (pos 0) start? start
      → IsIndex (pos (length ys)) end? end
      → check_copy_to (length xs) at (length ys) start end h ≡ ok tt h
      → Returns
          (λ _.
            IsCopied bytevec_layout h p xs
              (pos_part at)
              ys
              (pos_part start)
              (pos_part end - pos_part start))
          (scm_bytevector_copy_to (ptr p) at (ptr q) start? end? h)
  unfolding scm_bytevector_copy_to copy_bytes
  scm_bytevector_copy_to-IsCopied {ys} {start} {end} at b ne is_start is_end passed =
      let span = check-Span (length xs) at (length ys) start end h passed in
      rw
        (
          size-ok bytevec_layout a,
          size-ok bytevec_layout b,
          index_or-ok is_start h,
          index_or-ok is_end h,
          passed,
        )
        (Returns.bind
          (Returns.bind
            (copy_loop-IsCopied bytevec_layout a (pos_part end - pos_part start) (pos_part at)
              (pos_part start) b ne span.target (omega (arith, span.source, span.ordered)))
            λ _ g is. returns is)
          λ _ g is. returns is)

  -- `bytevector-copy` with indices that pass the check returns a new bytevector of the bytes from
  -- `start` to `end`, whatever the new memory held, and keeps the old heap.
  pub scm_bytevector_copy-IsSlice :
      (left : ℕ → ℕ) {start? end? : Option Obj} {start end : ℤ}
      → IsStore h
      → IsIndex (pos 0) start? start
      → IsIndex (pos (length xs)) end? end
      → check_copy (length xs) start end h ≡ ok tt h
      → Returns
          (IsSlice bytevec_layout h xs (pos_part start) (pos_part end - pos_part start))
          (scm_bytevector_copy left (ptr p) start? end? h)
  unfolding scm_bytevector_copy copy_bytes make_bytevec make_object
  scm_bytevector_copy-IsSlice left {start} {end} is is_start is_end passed =
      let span = check-Span (length xs) (pos 0) (length xs) start end h passed in
      let n : ℕ = pos_part end - pos_part start in
      rw (size-ok bytevec_layout a, index_or-ok is_start h, index_or-ok is_end h, passed)
        (Returns.bind
          (copy_loop-IsSlice bytevec_layout is n (pos_part start) (bytevec (tabulate n left))
            (made-bytevec left n h) (length-tabulate n left) a
            (omega (arith, span.source, span.ordered)))
          λ _ g is. returns is)
