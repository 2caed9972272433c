-- ===== src/Mpmc.antt =====
-- benchmarks/mpmc_queue.cpp: the bounded queue of several producers and consumers.
--
-- The threads are interleaved one access to shared memory at a time, each access seeing the last write.
-- `producers`, `consumers` and `total` are `kProducers`, `kConsumers` and `kTotalItems`; producers and
-- consumers are numbered from 0. `diff == 0` is the equality of the two unsigned numbers, and both other
-- branches load the position again.
pub mod Claims
pub mod Apart
mod Tests
use Prim.Native.Nat.{bit_and}
use cache_lens.Prelude.{ℕ, zero, suc, ◌+◌, ◌-◌, ◌*◌, ◌/◌, ◌<◌, ◌≡◌, ◌≢◌, ◌==◌, if◌then◌else◌}
use cache_lens.Prelude.Words.{u64}

abbrev pub capacity : ℕ
capacity = 1024

abbrev pub mask : ℕ
mask = capacity - 1

abbrev pub slot : ℕ → ℕ
slot pos = bit_and pos mask

-- A write to one element.
abbrev pub update : {A : Type 0} → (ℕ → A) → ℕ → A → ℕ → A
update f i v j = if j == i then v else f j

pub record Queue : Type 0 where
  pub sequence : ℕ → ℕ
  pub item : ℕ → ℕ
  pub enqueue_pos : ℕ
  pub dequeue_pos : ℕ

-- `queue_init`, with the rounds left.
pub init_from : ℕ → ℕ → (ℕ → ℕ) → ℕ → ℕ
init_from zero i f = f
init_from (suc rounds) i f = init_from rounds (i + 1) (update f i i)

pub queue_init : Queue
queue_init = record {
  sequence = init_from capacity 0 (λ _. 0);
  item = λ _. 0;
  enqueue_pos = 0;
  dequeue_pos = 0;
}

-- Where a producer stands in `push`: before a load of the position, before the load of the sequence
-- number, before the exchange, and before the two stores.
pub data Push : Type 0 where
  idle loading : Push
  looking claiming writing publishing : (pos : ℕ) → Push

-- Where a consumer stands in `pop`.
pub data Pop : Type 0 where
  idle loading : Pop
  looking claiming reading : (pos : ℕ) → Pop
  freeing : (pos value : ℕ) → Pop

-- The queue; of each producer its place and its `i`; of each consumer its place, its `i` and its
-- checksum.
pub record State : Type 0 where
  pub queue : Queue
  pub push : ℕ → Push
  pub sent : ℕ → ℕ
  pub pop : ℕ → Pop
  pub received : ℕ → ℕ
  pub checksum : ℕ → ℕ

pub record Work : Type 0 where
  pub total : ℕ
  pub producers : ℕ
  pub consumers : ℕ

-- The share of each producer, and of each consumer.
abbrev pub per_producer : Work → ℕ
per_producer w = w.total / w.producers

abbrev pub per_consumer : Work → ℕ
per_consumer w = w.total / w.consumers

pub start : Work → State
start w = record {
  queue = queue_init;
  push = λ _. Push.idle;
  sent = λ t. u64 (t * per_producer w);
  pop = λ _. Pop.idle;
  received = λ _. 0;
  checksum = λ _. 0;
}

abbrev pub at_push : State → ℕ → Push → State
at_push s t place = record s { push = update s.push t place }

abbrev pub at_pop : State → ℕ → Pop → State
at_pop s t place = record s { pop = update s.pop t place }

-- One access of one thread. `lose` and `lose_pop` are exchanges that fail, as a weak one may at any
-- time; they leave the position that stands there.
pub data Step (w : Work) (s : State) : State → Type 0 where
  begin :
      {t : ℕ}
      → t < w.producers
      → s.push t ≡ Push.idle
      → s.sent t < u64 ((t + 1) * per_producer w)
      → Step w s (at_push s t Push.loading)
  load :
      {t : ℕ} → s.push t ≡ Push.loading → Step w s (at_push s t (Push.looking s.queue.enqueue_pos))
  find_free :
      {t pos : ℕ}
      → s.push t ≡ Push.looking pos
      → s.queue.sequence (slot pos) ≡ pos
      → Step w s (at_push s t (Push.claiming pos))
  look_again :
      {t pos : ℕ}
      → s.push t ≡ Push.looking pos
      → s.queue.sequence (slot pos) ≢ pos
      → Step w s (at_push s t Push.loading)
  claim :
      {t pos : ℕ}
      → s.push t ≡ Push.claiming pos
      → s.queue.enqueue_pos ≡ pos
      → Step w s (record s {
        push = update s.push t (Push.writing pos);
        queue = record (s.queue) { enqueue_pos = u64 (pos + 1) };
      })
  lose :
      {t pos : ℕ}
      → s.push t ≡ Push.claiming pos
      → Step w s (at_push s t (Push.looking s.queue.enqueue_pos))
  write_item :
      {t pos : ℕ}
      → s.push t ≡ Push.writing pos
      → Step w s (record s {
        push = update s.push t (Push.publishing pos);
        queue = record (s.queue) { item = update s.queue.item (slot pos) (s.sent t) };
      })
  publish :
      {t pos : ℕ}
      → s.push t ≡ Push.publishing pos
      → Step w s (record s {
        push = update s.push t Push.idle;
        sent = update s.sent t (u64 (s.sent t + 1));
        queue = record (s.queue) { sequence = update s.queue.sequence (slot pos) (u64 (pos + 1)) };
      })
  begin_pop :
      {t : ℕ}
      → t < w.consumers
      → s.pop t ≡ Pop.idle
      → s.received t < per_consumer w
      → Step w s (at_pop s t Pop.loading)
  load_pop :
      {t : ℕ} → s.pop t ≡ Pop.loading → Step w s (at_pop s t (Pop.looking s.queue.dequeue_pos))
  find_ready :
      {t pos : ℕ}
      → s.pop t ≡ Pop.looking pos
      → s.queue.sequence (slot pos) ≡ u64 (pos + 1)
      → Step w s (at_pop s t (Pop.claiming pos))
  look_again_pop :
      {t pos : ℕ}
      → s.pop t ≡ Pop.looking pos
      → s.queue.sequence (slot pos) ≢ u64 (pos + 1)
      → Step w s (at_pop s t Pop.loading)
  claim_pop :
      {t pos : ℕ}
      → s.pop t ≡ Pop.claiming pos
      → s.queue.dequeue_pos ≡ pos
      → Step w s (record s {
        pop = update s.pop t (Pop.reading pos);
        queue = record (s.queue) { dequeue_pos = u64 (pos + 1) };
      })
  lose_pop :
      {t pos : ℕ}
      → s.pop t ≡ Pop.claiming pos
      → Step w s (at_pop s t (Pop.looking s.queue.dequeue_pos))
  read_item :
      {t pos : ℕ}
      → s.pop t ≡ Pop.reading pos
      → Step w s (at_pop s t (Pop.freeing pos (s.queue.item (slot pos))))
  free :
      {t pos value : ℕ}
      → s.pop t ≡ Pop.freeing pos value
      → Step w s (record s {
        pop = update s.pop t Pop.idle;
        received = update s.received t (u64 (s.received t + 1));
        checksum = update s.checksum t (u64 (s.checksum t + value));
        queue = record (s.queue) {
          sequence = update s.queue.sequence (slot pos) (u64 (pos + capacity));
        };
      })

-- So many accesses since the start.
pub data Run (w : Work) : ℕ → State → Type 0 where
  here : Run w 0 (start w)
  next : {n : ℕ} {s t : State} → Run w n s → Step w s t → Run w (suc n) t
