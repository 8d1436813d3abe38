-- ===== src/Vector/Move.antt =====
-- `vector-fill!`, `vector-copy` and `vector-copy!`.
use navi_scheme.Base.{ℕ, ◌-◌, ◌≡◌, ◌≢◌, Option, List, arith, length, replicate, length-replicate}
use navi_scheme.Base.Int.{ℤ, pos, pos_part}
use navi_scheme.Object.{Obj, void, ptr, vector, Store, IsStore}
use navi_scheme.Object.Run.{ok, make_object}
use navi_scheme.Object.Returns.{Returns, returns}
use navi_scheme.Object.Returns
use navi_scheme.Array.Laws.{
  ArrayAt, size-ok, IsCopied, IsFilled, copy_loop-IsCopied, fill_loop-IsFilled,
}
use navi_scheme.Array.Fresh.{IsSlice, copy_loop-IsSlice}
use navi_scheme.Checks.{check_copy, check_copy_to}
use navi_scheme.Checks.Copy.{IsIndex, index_or-ok, check-Span}
use navi_scheme.Vector.{
  vector_layout, make_vector, copy_to, scm_vector_copy_to, scm_vector_copy, scm_vector_fill,
}
use navi_scheme.Vector.Convert.{made-vector}

module _ {h : Store} {p : ℕ} {xs : List Obj} (a : ArrayAt vector_layout h p xs) where
  -- `vector-copy!` from another vector, with indices that pass the check: the elements from `start`
  -- to `end` stand in the target from `at` on, its other elements and all else in the heap are as
  -- they were.
  pub scm_vector_copy_to-IsCopied :
      {q : ℕ} {ys : List Obj} {start? end? : Option Obj} {start end : ℤ} (at : ℤ)
      → ArrayAt vector_layout h q ys
      → p ≢ q
      → IsIndex (pos 0) start? start
      → IsIndex (pos (length ys)) end? end
      → check_copy_to (length xs) at (length ys) start end h ≡ ok tt h
      → Returns
          (λ _.
            IsCopied vector_layout h p xs
              (pos_part at)
              ys
              (pos_part start)
              (pos_part end - pos_part start))
          (scm_vector_copy_to (ptr p) at (ptr q) start? end? h)
  unfolding scm_vector_copy_to copy_to
  scm_vector_copy_to-IsCopied {ys} {start} {end} at b ne is_start is_end passed =
      let span = check-Span (length xs) at (length ys) start end h passed in
      rw
        (
          size-ok vector_layout a,
          size-ok vector_layout b,
          index_or-ok is_start h,
          index_or-ok is_end h,
          passed,
        )
        (Returns.bind
          (Returns.bind
            (copy_loop-IsCopied vector_layout a (pos_part end - pos_part start) (pos_part at)
              (pos_part start) b ne span.target (omega (arith, span.source, span.ordered)))
            λ _ g is. returns is)
          λ _ g is. returns is)

  -- `vector-fill!` with indices that pass the check sets the elements from `start` to `end` and
  -- nothing else.
  pub scm_vector_fill-IsFilled :
      {start? end? : Option Obj} {start end : ℤ} (fill : Obj)
      → IsIndex (pos 0) start? start
      → IsIndex (pos (length xs)) end? end
      → check_copy (length xs) start end h ≡ ok tt h
      → Returns
          (λ _. IsFilled vector_layout h p xs (pos_part start) (pos_part end - pos_part start) fill)
          (scm_vector_fill (ptr p) fill start? end? h)
  unfolding scm_vector_fill
  scm_vector_fill-IsFilled {start} {end} fill is_start is_end passed =
      let span = check-Span (length xs) (pos 0) (length xs) start end h passed in
      rw (size-ok vector_layout a, index_or-ok is_start h, index_or-ok is_end h, passed)
        (Returns.bind
          (fill_loop-IsFilled vector_layout a (pos_part end - pos_part start) (pos_part start) fill
            (omega (arith, span.source, span.ordered)))
          λ _ g is. returns is)

  -- `vector-copy` with indices that pass the check returns a new vector of the elements from `start`
  -- to `end`, and keeps the old heap.
  pub scm_vector_copy-IsSlice :
      {start? end? : Option Obj} {start end : ℤ}
      → IsStore h
      → IsIndex (pos 0) start? start
      → IsIndex (pos (length xs)) end? end
      → check_copy (length xs) start end h ≡ ok tt h
      → Returns
          (IsSlice vector_layout h xs (pos_part start) (pos_part end - pos_part start))
          (scm_vector_copy (ptr p) start? end? h)
  unfolding scm_vector_copy copy_to make_vector make_object
  scm_vector_copy-IsSlice {start} {end} is is_start is_end passed =
      let span = check-Span (length xs) (pos 0) (length xs) start end h passed in
      let n : ℕ = pos_part end - pos_part start in
      rw (size-ok vector_layout a, index_or-ok is_start h, index_or-ok is_end h, passed)
        (Returns.bind
          (copy_loop-IsSlice vector_layout is n (pos_part start) (vector (replicate n void))
            (made-vector n h) (length-replicate n void) a
            (omega (arith, span.source, span.ordered)))
          λ _ g is. returns is)
