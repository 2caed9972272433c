-- ===== src/Spsc.antt =====
-- benchmarks/spsc_queue.cpp: the bounded queue of one producer and one consumer.
--
-- The two threads are interleaved one access to shared memory at a time, each access seeing the
-- last write. `total` is `kTotalItems`. The loops' counters `i` are `sent` and `received`.
pub mod Invariant
pub mod Progress
pub mod Right
pub mod Moves
pub mod Stores
pub mod Steps
mod Tests
use Prim.Native.Nat.{bit_and}
use cache_lens.Prelude.{ℕ, zero, suc, ◌+◌, ◌-◌, ◌*◌, ◌/◌, ◌<◌, ◌≡◌, ◌≢◌, Bool, ◌==◌, if◌then◌else◌}
use cache_lens.Prelude.Words.{u64}

abbrev pub capacity : ℕ
capacity = 1024

abbrev pub mask : ℕ
mask = capacity - 1

abbrev pub slot : ℕ → ℕ
slot pos = bit_and pos mask

-- `Queue`: the cells' two fields, and the two indices.
pub record Queue : Type 0 where
  pub sequence : ℕ → ℕ
  pub item : ℕ → ℕ
  pub tail : ℕ
  pub head : ℕ

-- A write to one cell.
abbrev pub update : (ℕ → ℕ) → ℕ → ℕ → ℕ → ℕ
update f i v j = if j == i then v else f j

-- `queue_init` on a new `Queue`: the loop over the cells, with the rounds left.
pub init_from : ℕ → ℕ → (ℕ → ℕ) → ℕ → ℕ
init_from zero i f = f
init_from (suc rounds) i f = init_from rounds (i + 1) (update f i i)

pub queue_init : Queue
queue_init = record { sequence = init_from capacity 0 (λ _. 0); item = λ _. 0; tail = 0; head = 0 }

-- Where the producer stands in `push`, with the value that it has loaded.
pub data Push : Type 0 where
  idle : Push
  waiting : (pos : ℕ) → Push
  writing : (pos : ℕ) → Push
  publishing : (pos : ℕ) → Push
  storing_tail : (pos : ℕ) → Push

-- Where the consumer stands in `pop`.
pub data Pop : Type 0 where
  idle : Pop
  waiting : (pos : ℕ) → Pop
  reading : (pos : ℕ) → Pop
  freeing : (pos value : ℕ) → Pop
  storing_head : (pos value : ℕ) → Pop

pub record State : Type 0 where
  pub queue : Queue
  pub push : Push
  pub sent : ℕ
  pub pop : Pop
  pub received : ℕ
  pub checksum : ℕ

pub start : State
start = record {
  queue = queue_init;
  push = Push.idle;
  sent = 0;
  pop = Pop.idle;
  received = 0;
  checksum = 0;
}

-- One access of one thread. `spin` and `spin_pop` are a round of the waiting loops.
pub data Step (total : ℕ) (s : State) : State → Type 0 where
  load_tail :
      s.push ≡ Push.idle
      → s.sent < total
      → Step total s (record s { push = Push.waiting s.queue.tail })
  spin : {pos : ℕ} → s.push ≡ Push.waiting pos → s.queue.sequence (slot pos) ≢ pos → Step total s s
  find_free :
      {pos : ℕ}
      → s.push ≡ Push.waiting pos
      → s.queue.sequence (slot pos) ≡ pos
      → Step total s (record s { push = Push.writing pos })
  write_item :
      {pos : ℕ}
      → s.push ≡ Push.writing pos
      → Step total s (record s {
        push = Push.publishing pos;
        queue = record (s.queue) { item = update s.queue.item (slot pos) s.sent };
      })
  publish :
      {pos : ℕ}
      → s.push ≡ Push.publishing pos
      → Step total s (record s {
        push = Push.storing_tail pos;
        queue = record (s.queue) { sequence = update s.queue.sequence (slot pos) (u64 (pos + 1)) };
      })
  store_tail :
      {pos : ℕ}
      → s.push ≡ Push.storing_tail pos
      → Step total s (record s {
        push = Push.idle;
        sent = u64 (s.sent + 1);
        queue = record (s.queue) { tail = u64 (pos + 1) };
      })
  load_head :
      s.pop ≡ Pop.idle
      → s.received < total
      → Step total s (record s { pop = Pop.waiting s.queue.head })
  spin_pop :
      {pos : ℕ}
      → s.pop ≡ Pop.waiting pos
      → s.queue.sequence (slot pos) ≢ u64 (pos + 1)
      → Step total s s
  find_ready :
      {pos : ℕ}
      → s.pop ≡ Pop.waiting pos
      → s.queue.sequence (slot pos) ≡ u64 (pos + 1)
      → Step total s (record s { pop = Pop.reading pos })
  read_item :
      {pos : ℕ}
      → s.pop ≡ Pop.reading pos
      → Step total s (record s { pop = Pop.freeing pos (s.queue.item (slot pos)) })
  free :
      {pos value : ℕ}
      → s.pop ≡ Pop.freeing pos value
      → Step total s (record s {
        pop = Pop.storing_head pos value;
        queue = record (s.queue) {
          sequence = update s.queue.sequence (slot pos) (u64 (pos + capacity));
        };
      })
  store_head :
      {pos value : ℕ}
      → s.pop ≡ Pop.storing_head pos value
      → Step total s (record s {
        pop = Pop.idle;
        received = u64 (s.received + 1);
        checksum = u64 (s.checksum + value);
        queue = record (s.queue) { head = u64 (pos + 1) };
      })

pub data Reach (total : ℕ) : State → Type 0 where
  here : Reach total start
  next : {s t : State} → Reach total s → Step total s t → Reach total t

-- `expected` in `main`
abbrev pub expected : ℕ → ℕ
expected total = u64 (total * (total - 1)) / 2

-- What `main` returns when the two threads have ended.
pub main_status : ℕ → State → ℕ
main_status total s = if s.checksum == expected total then 0 else 1
