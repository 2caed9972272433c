-- ===== src/Drain/Safe.antt =====
-- `drain` over any contents of the ring, also such as no kernel writes.
use native.Mathlib.Nat.{mod-lt}
use cache_lens.Prelude.{
  ℕ, zero, suc, ◌+◌, ◌-◌, ◌%◌, ◌^◌, ◌≤◌, ◌<◌, ◌≡◌, refl, ap, sym, ◌∙◌, subst, Bool, true, false,
  if◌then◌else◌, inl, inr, List, [], ◌++◌, arith, ltb, ltb→lt, ltb-false, Bool-cases, append-nil,
  append_assoc, length, Result, ok, err, ◌>>=◌,
}
use cache_lens.Prelude.Words.{u64, sub64}
use cache_lens.Perf.{
  Sample, RingLabel, Fatal, overflow, size_too_small, size_past_head, throttled, out_of_bounds,
  out_of_fuel, Header, PerfAbi,
}
use cache_lens.Drain.{Drained, copy_wrapped, dispatch, drain_record, drain_loop, drain}
use cache_lens.Drain.Window.{window, copy_wrapped_lem}

-- The samples were only added to.
abbrev pub Extends : Drained → Drained → Type 0
Extends d d' = (fresh : List Sample) × (d'.samples ≡ d.samples ++ fresh)

-- An end by one of the program's own messages, which names the ring.
abbrev pub IsMessage : RingLabel → Fatal → Type 0
IsMessage label (overflow l) = l ≡ label
IsMessage label (size_too_small l) = l ≡ label
IsMessage label (size_past_head l) = l ≡ label
IsMessage label (throttled l) = l ≡ label
IsMessage label out_of_bounds = ⊥
IsMessage label out_of_fuel = ⊥

Extends-self : (d : Drained) → Extends d d
Extends-self d = ([], sym (append-nil d.samples))

Extends-trans : (a b c : Drained) → Extends a b → Extends b c → Extends a c
Extends-trans a b c (x, p) (y, q) = (x ++ y, q ∙ ap (λ l. l ++ y) p ∙ append_assoc a.samples x y)

-- What the `switch` may do: leave the tail alone and add samples, or stop with a message.
data Keeps (label : RingLabel) (d : Drained) : Result Fatal Drained → Type 0 where
  kept : {d' : Drained} → d'.tail ≡ d.tail → Extends d d' → Keeps label d (ok d')
  kept_not : {e : Fatal} → IsMessage label e → Keeps label d (err e)

-- What a round of the loop may do: move the tail on, at most to the head, or stop with a message.
data Onward (label : RingLabel) (head : ℕ) (d : Drained) : Result Fatal Drained → Type 0 where
  onward :
      {d' : Drained}
      → d.tail < d'.tail
      → d'.tail ≤ head
      → Extends d d'
      → Onward label head d (ok d')
  stopped : {e : Fatal} → IsMessage label e → Onward label head d (err e)

abbrev Ends : RingLabel → ℕ → Drained → Result Fatal Drained → Type 0
Ends label head d (ok d') = (d'.tail ≡ head) × Extends d d'
Ends label head d (err e) = IsMessage label e

-- What `drain` may return.
abbrev pub IsSound : RingLabel → ℕ → Drained → Result Fatal (Drained × ℕ) → Type 0
IsSound label head d (ok (d', t)) = (d'.tail ≡ head) × (t ≡ head) × Extends d d'
IsSound label head d (err e) = IsMessage label e

either : {A : Type 0} (P : A → Type 0) (b : Bool) (x y : A) → P x → P y → P (if b then x else y)
either P true x y p q = p
either P false x y p q = q

Ends-trans :
    (label : RingLabel) (head : ℕ) (d d' : Drained) (r : Result Fatal Drained)
    → Extends d d'
    → Ends label head d' r
    → Ends label head d r
Ends-trans label head d d' (ok d'') ext (same, more) = (same, Extends-trans d d' d'' ext more)
Ends-trans label head d d' (err e) ext m = m

module _ (abi : PerfAbi) (label : RingLabel) (bytes : List ℕ) (size : ℕ)
    (whole : length bytes ≡ size) (small : size < 2 ^ 64) (room : 24 ≤ size) where
  Keeps-copy :
      (off n : ℕ) (d : Drained) (f : List ℕ → Result Fatal Drained)
      → off < size
      → n ≤ size
      → ((body : List ℕ) → Keeps label d (f body))
      → Keeps label d (copy_wrapped bytes size off n >>= f)
  Keeps-copy off n d f inside fits h =
      subst (λ c. Keeps label d (c >>= f))
        (sym (copy_wrapped_lem bytes size off n whole small inside fits))
        (h (window bytes size off n))

  dispatch-Keeps :
      (off : ℕ) (hdr : Header) (d : Drained)
      → Keeps label d (dispatch abi label bytes size off hdr d)
  unfolding dispatch
  dispatch-Keeps off hdr d =
      either (Keeps label d) _ _ _
        (Keeps-copy ((off + 8) % size) 24 d _ (mod-lt (off + 8) (omega arith)) room
          (λ body. kept refl (_, refl)))
        (either (Keeps label d) _ _ _
          (Keeps-copy ((off + 8) % size) 16 d _ (mod-lt (off + 8) (omega arith)) (omega arith)
            (λ body. kept refl (Extends-self d)))
          (either (Keeps label d) _ _ _ (kept refl (Extends-self d))
            (either (Keeps label d) _ _ _ (kept_not refl) (kept refl (Extends-self d)))))

  -- The tail moves by the size that the header states.
  Onward-moved :
      (head n : ℕ) (d : Drained) (r : Result Fatal Drained)
      → Keeps label d r
      → d.tail < u64 (d.tail + n)
      → u64 (d.tail + n) ≤ head
      → Onward label head d (r >>= λ d'. ok (record d' { tail = u64 (d'.tail + n) }))
  Onward-moved head n d r (kept same more) up down =
      onward (subst (λ t. d.tail < u64 (t + n)) (sym same) up)
        (subst (λ t. u64 (t + n) ≤ head) (sym same) down) more
  Onward-moved head n d r (kept_not m) up down = stopped m

  drain_record-Onward :
      (head : ℕ) (d : Drained)
      → d.tail < head
      → head + 2 ^ 16 ≤ 2 ^ 64
      → ((raw : List ℕ) → (abi.parse_header raw).size < 2 ^ 16)
      → Onward label head d (drain_record abi label bytes size head d)
  unfolding drain_record
  drain_record-Onward head d below word short =
      rw
        (copy_wrapped_lem bytes size (d.tail % size) 8 whole small (mod-lt d.tail (omega arith))
          (omega arith))
        (elim (Bool-cases (ltb hdr.size 8)) [
          | inl tiny ↦ rw tiny (stopped refl)
          | inr fine ↦ rw fine (elim (Bool-cases (ltb head (u64 (d.tail + hdr.size)))) [
            | inl past ↦ rw past (stopped refl)
            | inr within ↦ rw within (
                Onward-moved head hdr.size d _ (dispatch-Keeps (d.tail % size) hdr d)
                  (omega (arith, short raw, ltb-false hdr.size 8 fine))
                  (ltb-false head (u64 (d.tail + hdr.size)) within))
          ])
        ])
    where
      raw : List ℕ
      raw = window bytes size (d.tail % size) 8

      hdr : Header
      hdr = abi.parse_header raw

  drain_loop-Ends :
      (fuel head : ℕ) (d : Drained)
      → d.tail ≤ head
      → head - d.tail < fuel
      → head + 2 ^ 16 ≤ 2 ^ 64
      → ((raw : List ℕ) → (abi.parse_header raw).size < 2 ^ 16)
      → Ends label head d (drain_loop abi label bytes size fuel head d)
  unfolding drain_loop
  drain_loop-Ends zero head d below enough word short = absurd (omega arith)
  drain_loop-Ends (suc fuel) head d below enough word short = elim (Bool-cases (ltb d.tail head)) [
    | inl more ↦
        rw (more, drain_loop)
          (go (drain_record abi label bytes size head d)
            (drain_record-Onward head d (ltb→lt d.tail head more) word short)
            (drain_loop-Ends fuel head))
    | inr done ↦ rw (done, drain_loop) (omega (arith, ltb-false d.tail head done), Extends-self d)
  ]
    where
      go :
          (r : Result Fatal Drained)
          → Onward label head d r
          → ((d' : Drained)
              → d'.tail ≤ head
              → head - d'.tail < fuel
              → head + 2 ^ 16 ≤ 2 ^ 64
              → ((raw : List ℕ) → (abi.parse_header raw).size < 2 ^ 16)
              → Ends label head d' (drain_loop abi label bytes size fuel head d'))
          → Ends label head d (r >>= drain_loop abi label bytes size fuel head)
      go r (stopped m) again = m
      go r (onward {d'} up down ext) again =
          Ends-trans label head d d' (drain_loop abi label bytes size fuel head d') ext
            (again d' down (omega arith) word short)

  -- Whatever bytes the ring holds and whatever lengths its headers state, `drain` reads no byte
  -- outside the ring's data and its loop ends: it stops with one of the program's messages, which
  -- names this ring, or it returns with the tail at the head, the head handed to the kernel, and the
  -- old samples as the beginning of the new ones. That is so for a ring of at least 24 bytes, a head
  -- not before the tail and farther than 2 ^ 16 from the end of the 64-bit numbers, and headers
  -- whose size is a 16-bit number.
  pub drain-IsSound :
      (head : ℕ) (d : Drained)
      → d.tail ≤ head
      → head + 2 ^ 16 ≤ 2 ^ 64
      → ((raw : List ℕ) → (abi.parse_header raw).size < 2 ^ 16)
      → IsSound label head d (drain abi label bytes size head d)
  unfolding drain
  drain-IsSound head d below word short = elim (Bool-cases (ltb size (sub64 head d.tail))) [
    | inl over ↦ rw over refl
    | inr fits ↦ rw fits (
        IsSound_of_Ends (drain_loop abi label bytes size (suc (head - d.tail)) head d)
          (drain_loop-Ends (suc (head - d.tail)) head d below (omega arith) word short))
  ]
    where
      IsSound_of_Ends :
          (r : Result Fatal Drained)
          → Ends label head d r
          → IsSound label head d (r >>= λ d'. ok (d', d'.tail))
      IsSound_of_Ends (ok d') (same, more) = (same, same, more)
      IsSound_of_Ends (err e) m = m
