-- ===== src/Spsc/Right.antt =====
-- What the interleavings of the producer and the consumer guarantee.
use cache_lens.Prelude.{
  ==_iff, ℕ, zero, suc, ◌+◌, ◌-◌, ◌*◌, ◌%◌, ◌^◌, ◌≤◌, ◌<◌, ◌≡◌, ◌≢◌, refl, sym, ap, ◌∙◌, arith, ◌⊎◌,
  inl, inr,
}
use cache_lens.Prelude.Bits.{bit_and-mask}
use cache_lens.Prime.Divisors.{mul_mono}
use cache_lens.Spsc.{main_status, capacity, slot, Push, Pop, State, Reach, expected}
use cache_lens.Spsc.Invariant.{PopKnows, extra_push, extra_pop, published, freed, sum_below}
use cache_lens.Spsc.Moves.{push_at, pop_at}
use cache_lens.Spsc.Steps.{Reach-Inv}

-- The value that the consumer holds.
abbrev pub Holds : Pop → ℕ → Type 0
Holds (Pop.freeing pos value) v = value ≡ v
Holds (Pop.storing_head pos value) v = value ≡ v
Holds _ v = Unit

Holds-right : (total received out : ℕ) (p : Pop) → PopKnows total received out p → Holds p received
Holds-right total received out Pop.idle k = tt
Holds-right total received out (Pop.waiting pos) k = tt
Holds-right total received out (Pop.reading pos) k = tt
Holds-right total received out (Pop.freeing pos value) (a, b, c) = c
Holds-right total received out (Pop.storing_head pos value) (a, b, c) = b

-- In every reachable state the value that the consumer has popped is the number of values that it
-- has added before, so that it receives 0, 1, 2, … in order, none lost and none twice. It has not
-- received more than the producer has sent, counting a push or a pop that has changed its slot and
-- not its index yet, and at most 1024 values are in the queue. The queue has `total` values to carry,
-- with `total + 1024` below 2 ^ 64.
pub fifo :
    (total : ℕ) (s : State)
    → total + 1024 < 2 ^ 64
    → Reach total s
    → Holds s.pop s.received × (freed s ≤ published s) × (published s ≤ freed s + capacity)
fifo total s small r =
    let inv = Reach-Inv small r in
    (Holds-right total s.received (published s) s.pop inv.pop_knows, inv.ordered, inv.bounded)

-- In a reachable state where the producer is about to write an item, or to publish it, and the consumer
-- is about to read one, or to free its slot, the two are at different slots: no item is read while
-- it is written, and none is written over before it has been read.
pub no_race :
    (total : ℕ) (s : State) (p q : ℕ)
    → total + 1024 < 2 ^ 64
    → Reach total s
    → (s.push ≡ Push.writing p) ⊎ (s.push ≡ Push.publishing p)
    → (s.pop ≡ Pop.reading q) ⊎ ((v : ℕ) × (s.pop ≡ Pop.freeing q v))
    → slot p ≢ slot q
no_race total s p q small r at_push at_pop same =
    let inv = Reach-Inv small r in
    let pushes : (p ≡ s.sent) × (s.sent < freed s + 1024) × (extra_push s.push ≡ 0) = elim at_push [
      | inl e ↦ ((push_at inv e).0, (push_at inv e).2, ap extra_push e)
      | inr e ↦ ((push_at inv e).0, (push_at inv e).2, ap extra_push e)
    ] in
    let pops : (q ≡ s.received) × (s.received < published s) × (extra_pop s.pop ≡ 0) = elim at_pop [
      | inl e ↦ ((pop_at inv e).0, (pop_at inv e).1, ap extra_pop e)
      | inr (v, e) ↦ ((pop_at inv e).0, (pop_at inv e).1, ap extra_pop e)
    ] in
    omega (
      arith,
      pushes.0,
      pushes.1,
      pushes.2,
      pops.0,
      pops.1,
      pops.2,
      same,
      bit_and-mask p,
      bit_and-mask q,
    )

sum_below_closed : (n : ℕ) → sum_below n * 2 + n ≡ n * n
sum_below_closed zero = refl
sum_below_closed (suc n) = omega (arith, sum_below_closed n)

square_below : (n : ℕ) → n < 2 ^ 32 → n * n < 2 ^ 64
square_below n h = omega (arith, mul_mono n (2 ^ 32 - 1) (2 ^ 32 - 1) (omega arith) (omega arith))

expected_closed : (n : ℕ) → n < 2 ^ 32 → expected n ≡ sum_below n % 2 ^ 64
expected_closed zero h = refl
expected_closed (suc n) h =
    let before : suc n - 1 ≡ n = omega arith in
    rw before (omega (arith, sum_below_closed (suc n), square_below (suc n) h))

checksum-eq-expected :
    (total : ℕ) (s : State)
    → total < 2 ^ 32
    → Reach total s
    → s.received ≡ total
    → s.checksum ≡ expected total
checksum-eq-expected total s small r all =
    let inv = Reach-Inv (omega arith) r in
    rw (sym all) inv.summed ∙ sym (expected_closed total small)

-- When `total`, below 2 ^ 32, values have been received, whatever the interleaving was, the checksum
-- is the one that `main` expects, and `main` returns 0.
pub checksum_right :
    (total : ℕ) (s : State)
    → total < 2 ^ 32
    → Reach total s
    → s.received ≡ total
    → (s.checksum ≡ expected total) × (main_status total s ≡ 0)
unfolding main_status
checksum_right total s small r all =
    let e = checksum-eq-expected total s small r all in
    (e, rw ((==_iff s.checksum (expected total)).1 e))
