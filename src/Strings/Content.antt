-- ===== src/Strings/Content.antt =====
-- The characters of a string, and the functions of heap.c and string.c that change them.
use navi_scheme.Base.{
  ℕ, zero, suc, ◌+◌, ◌%◌, ◌<◌, ◌≤◌, ◌≡◌, refl, ap, ◌∙◌, inl, inr, some, List, [], ◌∷◌, ◌++◌, length,
  take, drop, set, get_elem?, tabulate, length-append, length-take, length-set, length-tabulate,
  get_elem?-set_self, ltb, Bool-cases, arith,
}
use navi_scheme.Base.Int.{ℤ}
use navi_scheme.Object.{NaviString}
use navi_scheme.Port.Chars.{uint8}
use navi_scheme.Strings.{
  int32_max, int32_mod, make_string, grow_storage, string_write, copy_front, get_output_string,
  string_set,
}

-- The buffer has one byte more than the capacity, and a 0 behind the characters.
pub record IsString (s : NaviString) : Type 0 where
  pub fits : s.size ≤ s.capacity
  pub room : length s.text ≡ s.capacity + 1
  pub ends : get_elem? s.text s.size ≡ some 0

abbrev pub content : NaviString → List ℕ
content s = take s.size s.text

module _ {A : Type 0} where
  take-set : (n i : ℕ) (l : List A) (v : A) → n ≤ i → take n (set l i v) ≡ take n l
  take-set zero i l v h = refl
  take-set (suc n) i [] v h = refl
  take-set (suc n) zero (x ∷ l) v h = absurd (omega (arith, h))
  take-set (suc n) (suc i) (x ∷ l) v h = ap (λ k. x ∷ k) (take-set n i l v (omega (arith, h)))

  take-take : (n m : ℕ) (l : List A) → n ≤ m → take n (take m l) ≡ take n l
  take-take zero m l h = refl
  take-take (suc n) zero l h = absurd (omega (arith, h))
  take-take (suc n) (suc m) [] h = refl
  take-take (suc n) (suc m) (x ∷ l) h = ap (λ k. x ∷ k) (take-take n m l (omega (arith, h)))

  pub take-append : (n : ℕ) (l k : List A) → n ≤ length l → take n (l ++ k) ≡ take n l
  take-append zero l k h = refl
  take-append (suc n) [] k h = absurd (omega (arith, h))
  take-append (suc n) (x ∷ l) k h = ap (λ m. x ∷ m) (take-append n l k (omega (arith, h)))

  take-set_at :
      (n : ℕ) (l : List A) (v : A) → n < length l → take (suc n) (set l n v) ≡ take n l ++ (v ∷ [])
  take-set_at n [] v h = absurd (omega (arith, h))
  take-set_at zero (x ∷ l) v h = refl
  take-set_at (suc n) (x ∷ l) v h = ap (λ m. x ∷ m) (take-set_at n l v (omega (arith, h)))

  set-take : (n i : ℕ) (l : List A) (v : A) → i < n → take n (set l i v) ≡ set (take n l) i v
  set-take zero i l v h = absurd (omega (arith, h))
  set-take (suc n) i [] v h = refl
  set-take (suc n) zero (x ∷ l) v h = refl
  set-take (suc n) (suc i) (x ∷ l) v h = ap (λ k. x ∷ k) (set-take n i l v (omega (arith, h)))

record IsGrown (s t : NaviString) (need : ℕ) : Type 0 where
  same_size : t.size ≡ s.size
  room : length t.text ≡ t.capacity + 1
  enough : s.size + need ≤ t.capacity
  same : take s.size t.text ≡ take s.size s.text

grow_storage-IsGrown :
    (left : ℕ → ℕ) (s : NaviString) (need : ℕ)
    → IsString s
    → 0 < need
    → s.size + need ≤ int32_max
    → IsGrown s (grow_storage left s need) need
unfolding grow_storage
grow_storage-IsGrown left s need h z small = elim (Bool-cases (ltb (need + s.size) s.capacity)) [
  | inl e ↦
      rw e (record { same_size = refl; room = h.room; enough = ground (arith, e); same = refl })
  | inr e ↦
      let n = s.size + need + 1 in
      let n' = s.size + need in
      let junk = tabulate n left in
      let fits32 : n' % int32_mod ≡ n' = omega arith in
      rw (e, fits32)
        (record {
          same_size = refl;
          room =
              length-set (take n (s.text ++ junk)) (s.size + need) 0
              ∙ omega (
                arith,
                length-take n (s.text ++ junk),
                length-append s.text junk,
                length-tabulate n left,
              );
          enough = omega arith;
          same =
              take-set s.size (s.size + need) (take n (s.text ++ junk)) 0 (omega arith)
              ∙ take-take s.size n (s.text ++ junk) (omega arith)
              ∙ take-append s.size s.text junk (omega (arith, h.room, h.fits));
        })
]

-- `string_write` puts one character behind the others, where an `int32_t` holds the new size.
pub string_write-content :
    (left : ℕ → ℕ) (c : ℤ) (s : NaviString)
    → IsString s
    → s.size < int32_max
    → IsString (string_write left c s)
      × ((string_write left c s).size ≡ s.size + 1)
      × (content (string_write left c s) ≡ content s ++ (uint8 c ∷ []))
unfolding string_write
string_write-content left c s h small =
    let t = grow_storage left s 1 in
    let g = grow_storage-IsGrown left s 1 h (omega arith) (omega arith) in
    let fits32 : (t.size + 1) % int32_mod ≡ t.size + 1 = omega (arith, g.same_size) in
    let v = uint8 c in
    let inside : t.size + 1 < length (set t.text t.size v) =
      omega (arith, length-set t.text t.size v, g.room, g.enough, g.same_size) in
    rw fits32 (
      record {
        fits = omega (arith, g.enough, g.same_size);
        room =
            length-set (set t.text t.size v) (t.size + 1) 0 ∙ length-set t.text t.size v ∙ g.room;
        ends = get_elem?-set_self (set t.text t.size v) (t.size + 1) 0 inside;
      },
      omega (arith, g.same_size),
      let step : t.size + 1 ≡ suc t.size = omega arith in
          take-set (t.size + 1) (t.size + 1) (set t.text t.size v) 0 (omega arith)
          ∙ ap (λ (n : ℕ). take n (set t.text t.size v)) step
          ∙ take-set_at t.size t.text v (omega (arith, g.room, g.enough, g.same_size))
          ∙ ap (λ l. l ++ (v ∷ [])) (ap (λ (n : ℕ). take n t.text) g.same_size ∙ g.same),
    )

-- What a memcpy of the first bytes leaves at the front.
take-copy_front :
    (n : ℕ) (to from : List ℕ) → n ≤ length from → take n (copy_front n to from) ≡ take n from
unfolding copy_front
take-copy_front n to from h =
    take-append n (take n from) (drop n to) (omega (arith, length-take n from))
    ∙ take-take n n from (omega arith)

-- `get-output-string` and navi_strdup copy the characters.
pub get_output_string-content :
    (left : ℕ → ℕ) (s : NaviString)
    → IsString s
    → (content (get_output_string left s) ≡ content s)
      × ((get_output_string left s).size ≡ s.size)
      × (s.size ≤ length (get_output_string left s).text)
unfolding get_output_string make_string copy_front
get_output_string-content left s h =
    let n = s.size in
    let old = set (set (tabulate (n + 1) left) n 0) n 0 in
    (
      take-copy_front n old s.text (omega (arith, h.fits, h.room)),
      refl,
      omega
          (arith, length-append (take n s.text) (drop n old), length-take n s.text, h.fits, h.room),
    )

-- `string-set!` in range replaces one character.
pub string_set-content :
    (s : NaviString) (k : ℕ) (c : ℤ)
    → IsString s
    → k < s.size
    → IsString (string_set s k c) × (content (string_set s k c) ≡ set (content s) k (uint8 c))
unfolding string_set
string_set-content s k c h lt =
    let l = set s.text k (uint8 c) in
    (
      record {
        fits = h.fits;
        room = length-set l s.size 0 ∙ length-set s.text k (uint8 c) ∙ h.room;
        ends =
            get_elem?-set_self l s.size 0
              (omega (arith, length-set s.text k (uint8 c), h.room, h.fits));
      },
      take-set s.size s.size l 0 (omega arith) ∙ set-take s.size k s.text (uint8 c) lt,
    )

pub make_string-IsString :
    (left : ℕ → ℕ) (capacity size length : ℕ)
    → size ≤ capacity
    → IsString (make_string left capacity size length)
unfolding make_string
make_string-IsString left capacity size count h =
    let l = tabulate (capacity + 1) left in
    let a = length-set l capacity 0 in
    record {
      fits = h;
      room = length-set (set l capacity 0) size 0 ∙ a ∙ length-tabulate (capacity + 1) left;
      ends =
          get_elem?-set_self (set l capacity 0) size 0
            (omega (arith, a, length-tabulate (capacity + 1) left, h));
    }
