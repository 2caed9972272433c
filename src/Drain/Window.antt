-- ===== src/Drain/Window.antt =====
-- A ring's bytes in the order of their positions, and `copy_wrapped` as a read of them.
use native.Mathlib.Nat.{
  mod-add-mod, mod-lt, mod-mod, mod-eq_of_lt, add-mod_right, zero-add, add-zero,
}
use cache_lens.Prelude.{
  ℕ, zero, suc, ◌+◌, ◌-◌, ◌%◌, ◌^◌, ◌≤◌, ◌<◌, min, ◌≡◌, refl, sym, ap, ap₂, ◌∙◌, subst, inl, inr,
  List, [], ◌∷◌, ◌++◌, arith, ltb, lt→ltb, ltb_of_le, le→leb, length-append, take-append,
  drop-append, take, drop, get_or, length, take-drop_step, Bool-cases, ok,
}
use cache_lens.Prelude.Words.{sub64}
use cache_lens.Drain.{read_bytes, copy_wrapped}

module _ (bytes : List ℕ) (size : ℕ) where
  -- The `n` bytes from position `h` on; a position is taken modulo the ring's size.
  abbrev pub window : ℕ → ℕ → List ℕ
  window h zero = []
  window h (suc n) = get_or bytes (h % size) 0 ∷ window (suc h) n

  pub length-window : (h n : ℕ) → length (window h n) ≡ n
  length-window h zero = refl
  length-window h (suc n) = ap suc (length-window (suc h) n)

  suc-mod : (h k : ℕ) → h % size ≡ k % size → suc h % size ≡ suc k % size
  suc-mod h k e =
      let a : suc h ≡ h + 1 = omega arith in
      let b : suc k ≡ k + 1 = omega arith in
      rw (a, b)
        (sym (mod-add-mod h size 1) ∙ ap (λ (t : ℕ). (t + 1) % size) e ∙ mod-add-mod k size 1)

  -- Positions a multiple of the size apart show the same bytes.
  pub window-mod : (n h k : ℕ) → h % size ≡ k % size → window h n ≡ window k n
  window-mod zero h k e = refl
  window-mod (suc n) h k e =
      ap₂ (λ i l. get_or bytes i 0 ∷ l) e (window-mod n (suc h) (suc k) (suc-mod h k e))

  pub window-add : (m n h : ℕ) → window h (m + n) ≡ window h m ++ window (h + m) n
  window-add zero n h = rw (zero-add, add-zero)
  window-add (suc m) n h =
      let shift : suc h + m ≡ h + suc m = omega arith in
      let more : suc m + n ≡ suc (m + n) = omega arith in
      rw more (
        ap (λ l. get_or bytes (h % size) 0 ∷ l)
          (subst (λ k. window (suc h) (m + n) ≡ window (suc h) m ++ window k n) shift
            (window-add m n (suc h))))

  slice :
      (n off : ℕ) → off + n ≤ length bytes → off + n ≤ size → take n (drop off bytes) ≡ window off n
  slice zero off h k = refl
  slice (suc n) off h k =
      rw
        (
          take-drop_step bytes off n 0 (omega arith),
          mod-eq_of_lt {n = off} {m = size} (omega arith),
        )
        (ap (λ l. get_or bytes off 0 ∷ l) (slice n (suc off) (omega arith) (omega arith)))

  read_bytes_lem :
      (off n : ℕ)
      → off + n ≤ length bytes
      → off + n ≤ size
      → read_bytes bytes off n ≡ ok (window off n)
  unfolding read_bytes
  read_bytes_lem off n h k = rw (le→leb (off + n) (length bytes) h, slice n off h k)

  -- A window that runs over the ring's end goes on at its start.
  window_split :
      (off n : ℕ)
      → off < size
      → size < off + n
      → window off (size - off) ++ window 0 (n - (size - off)) ≡ window off n
  window_split off n inside over =
      let a : n ≡ (size - off) + (n - (size - off)) = omega arith in
      let b : 0 % size ≡ (off + (size - off)) % size =
        rw end (sym (add-mod_right 0 size) ∙ ap (λ (t : ℕ). t % size) (zero-add size)) in
      sym (
        ap (window off) a
        ∙ window-add (size - off) (n - (size - off)) off
        ∙ ap (λ l. window off (size - off) ++ l) (sym (window-mod (n - (size - off)) 0 _ b)))
    where
      end : off + (size - off) ≡ size
      end = omega arith

  -- A copy within the ring's size is in bounds, and gives the bytes in the order of positions.
  pub copy_wrapped_lem :
      (off n : ℕ)
      → length bytes ≡ size
      → size < 2 ^ 64
      → off < size
      → n ≤ size
      → copy_wrapped bytes size off n ≡ ok (window off n)
  unfolding copy_wrapped
  copy_wrapped_lem off n e small inside fits = elim (Bool-cases (ltb size (off + n))) [
    | inl over ↦
        let first : min n (sub64 size off) ≡ size - off = ground arith in
        rw (
          first,
          read_bytes_lem off (size - off) (omega arith) (omega arith),
          lt→ltb (size - off) n (ground arith),
          read_bytes_lem 0 (n - (size - off)) (omega arith) (omega arith),
          window_split off n inside (ground arith),
        )
    | inr whole ↦
        let first : min n (sub64 size off) ≡ n = ground arith in
        rw (first, read_bytes_lem off n (ground arith) (ground arith), ltb_of_le n n (omega arith))
  ]

  -- The bytes `xs` stand in the ring from position `h` on.
  abbrev pub Holds : ℕ → List ℕ → Type 0
  Holds h xs = window h (length xs) ≡ xs

  pub Holds-append :
      (h : ℕ) (xs ys : List ℕ) → Holds h (xs ++ ys) → Holds h xs × Holds (h + length xs) ys
  Holds-append h xs ys p = (
    sym (take-append (window h (length xs)) _ (length xs) (length-window h (length xs)))
        ∙ ap (take (length xs)) whole
        ∙ take-append xs ys (length xs) refl,
    sym (drop-append (window h (length xs)) _ (length xs) (length-window h (length xs)))
        ∙ ap (drop (length xs)) whole
        ∙ drop-append xs ys (length xs) refl,
  )
    where
      whole : window h (length xs) ++ window (h + length xs) (length ys) ≡ xs ++ ys
      whole =
          sym (window-add (length xs) (length ys) h) ∙ ap (window h) (sym (length-append xs ys)) ∙ p

  -- What stands in the ring is what a copy from there gives.
  pub copy_of_Holds :
      (h off n : ℕ) (xs : List ℕ)
      → length bytes ≡ size
      → size < 2 ^ 64
      → 0 < size
      → n ≤ size
      → length xs ≡ n
      → off ≡ h % size
      → Holds h xs
      → copy_wrapped bytes size off n ≡ ok xs
  copy_of_Holds h off n xs e small some_room fits len here p =
      copy_wrapped_lem off n e small (rw here (mod-lt h some_room)) fits
      ∙ ap ok (window-mod n off h (rw here (mod-mod h size)) ∙ ap (window h) (sym len) ∙ p)
