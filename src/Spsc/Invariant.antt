-- ===== src/Spsc/Invariant.antt =====
-- What every reachable state of the queue satisfies.
use cache_lens.Prelude.{
  ℕ, zero, suc, ◌+◌, ◌%◌, ◌^◌, ◌≤◌, ◌<◌, ◌≡◌, refl, arith, leb, ltb, ◌&&◌, if◌then◌else◌,
}
use cache_lens.Spsc.{update, init_from, queue_init, Push, Pop, State, start}

-- Positions published, and positions freed: one ahead of the index between the two stores.
abbrev pub extra_push : Push → ℕ
extra_push (Push.storing_tail pos) = 1
extra_push _ = 0

abbrev pub extra_pop : Pop → ℕ
extra_pop (Pop.storing_head pos value) = 1
extra_pop _ = 0

abbrev pub published : State → ℕ
published s = s.sent + extra_push s.push

abbrev pub freed : State → ℕ
freed s = s.received + extra_pop s.pop

-- 0 + 1 + … + (n - 1)
abbrev pub sum_below : ℕ → ℕ
sum_below zero = 0
sum_below (suc n) = sum_below n + n

-- What the producer knows where it stands: its position, that there is room for it, and that the
-- slot (which holds `item`) has got the value.
abbrev pub PushKnows : (total sent gone item : ℕ) → Push → Type 0
PushKnows total sent gone item Push.idle = Unit
PushKnows total sent gone item (Push.waiting pos) = (pos ≡ sent) × (sent < total)
PushKnows total sent gone item (Push.writing pos) =
    (pos ≡ sent) × (sent < total) × (sent < gone + 1024)
PushKnows total sent gone item (Push.publishing pos) =
    (pos ≡ sent) × (sent < total) × (sent < gone + 1024) × (item ≡ sent)
PushKnows total sent gone item (Push.storing_tail pos) = (pos ≡ sent) × (sent < total)

-- What the consumer knows: its position, that it is published, and the value it has read.
abbrev pub PopKnows : (total received out : ℕ) → Pop → Type 0
PopKnows total received out Pop.idle = Unit
PopKnows total received out (Pop.waiting pos) = (pos ≡ received) × (received < total)
PopKnows total received out (Pop.reading pos) = (pos ≡ received) × (received < out)
PopKnows total received out (Pop.freeing pos value) =
    (pos ≡ received) × (received < out) × (value ≡ received)
PopKnows total received out (Pop.storing_head pos value) =
    (pos ≡ received) × (value ≡ received) × (received < total)

pub record Inv (total : ℕ) (s : State) : Type 0 where
  pub small : total + 1024 < 2 ^ 64
  pub tail_sent : s.queue.tail ≡ s.sent
  pub head_received : s.queue.head ≡ s.received
  pub push_knows : PushKnows total s.sent (freed s) (s.queue.item (s.sent % 1024)) s.push
  pub pop_knows : PopKnows total s.received (published s) s.pop
  pub within : published s ≤ total
  pub ordered : freed s ≤ published s
  pub bounded : published s ≤ freed s + 1024
  -- a published position that is not freed: its slot shows it, and holds its value
  pub full : (p : ℕ) → freed s ≤ p → p < published s → s.queue.sequence (p % 1024) ≡ p + 1
  pub held : (p : ℕ) → freed s ≤ p → p < published s → s.queue.item (p % 1024) ≡ p
  -- a position for which there is room: its slot waits for it
  pub empty : (p : ℕ) → published s ≤ p → p < freed s + 1024 → s.queue.sequence (p % 1024) ≡ p
  pub summed : s.checksum ≡ sum_below s.received % 2 ^ 64

init_from_lem :
    (rounds i : ℕ) (f : ℕ → ℕ) (j : ℕ)
    → init_from rounds i f j ≡ (if leb i j && ltb j (i + rounds) then j else f j)
unfolding init_from
init_from_lem zero i f j = ground arith
init_from_lem (suc rounds) i f j = ground (arith, init_from_lem rounds (i + 1) (update f i i) j)

pub start-Inv : (total : ℕ) → total + 1024 < 2 ^ 64 → Inv total start
unfolding start queue_init
start-Inv total small = record {
  small = small;
  tail_sent = refl;
  head_received = refl;
  push_knows = tt;
  pop_knows = tt;
  within = omega arith;
  ordered = omega arith;
  bounded = omega arith;
  full = λ p h k. absurd (omega arith);
  held = λ p h k. absurd (omega arith);
  empty = λ p h k. ground (arith, init_from_lem 1024 0 (λ _. 0) (p % 1024));
  summed = refl;
}
