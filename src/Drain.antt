-- ===== src/Drain.antt =====
-- src/main.cpp: `copy_wrapped` and `drain`, which empty one perf ring buffer.
--
-- The ring's data area is a list of bytes. `meta->data_head` is the argument `head`, read once at
-- the start as the code does; the kernel's writes after that are not seen. The fields of
-- `SamplingEvent` that `drain` is handed by reference are the record `Drained`.
pub mod Window
pub mod Records
pub mod Step
pub mod Notes
pub mod Refine
pub mod Safe
pub mod Stream
pub mod Linux
mod Tests
use cache_lens.Prelude.{
  ℕ, zero, suc, ◌+◌, ◌-◌, ◌%◌, min, true, false, ◌||◌, List, [], ◌∷◌, ◌++◌, ltb, leb, ◌==◌,
  if◌then◌else◌, take, drop, length, Result, ok, err, ◌>>=◌,
}
use cache_lens.Prelude.Words.{u64, sub64, le_word}
use cache_lens.Perf.{
  Sample, RecordHistogram, RingLabel, Fatal, overflow, size_too_small, size_past_head, throttled,
  out_of_bounds, out_of_fuel, Header, sizeof_header, PerfAbi,
}

-- What `drain` changes of one `SamplingEvent`.
pub record Drained : Type 0 where
  pub tail : ℕ
  pub samples : List Sample
  pub hist : RecordHistogram

-- `memcpy` out of the ring's data: `n` bytes at `off`, in bounds or not at all.
pub read_bytes : List ℕ → ℕ → ℕ → Result Fatal (List ℕ)
read_bytes bytes off n =
    if leb (off + n) (length bytes) then ok (take n (drop off bytes)) else err out_of_bounds

pub copy_wrapped : List ℕ → ℕ → ℕ → ℕ → Result Fatal (List ℕ)
copy_wrapped bytes data_size off len =
    let first = min len (sub64 data_size off) in
    read_bytes bytes off first >>= λ front.
    if ltb first len
    then read_bytes bytes 0 (len - first) >>= (λ back. ok (front ++ back))
    else ok front

-- The bodies of the records that are read: `{ uint64_t ip; uint32_t pid; uint32_t tid; uint64_t
-- period; }` and `{ uint64_t id; uint64_t lost; }`.
abbrev pub sizeof_sample_body : ℕ
sizeof_sample_body = 24

abbrev pub sizeof_lost_body : ℕ
sizeof_lost_body = 16

pub sample_of_body : List ℕ → Sample
sample_of_body body = record {
  ip = le_word (take 8 body);
  pid = le_word (take 4 (drop 8 body));
  tid = le_word (take 4 (drop 12 body));
  period = le_word (take 8 (drop 16 body));
}

pub lost_of_body : List ℕ → ℕ
lost_of_body body = le_word (take 8 (drop 8 body))

module _ (abi : PerfAbi) (label : RingLabel) (bytes : List ℕ) (data_size : ℕ) where
  -- The `switch` on the type of a record whose header stands at `off`.
  pub dispatch : ℕ → Header → Drained → Result Fatal Drained
  dispatch off hdr d =
      if hdr.kind == abi.record_sample
      then (copy_wrapped bytes data_size ((off + sizeof_header) % data_size) sizeof_sample_body
          >>= λ body. ok (record d {
            samples = d.samples ++ sample_of_body body ∷ [];
            hist = record hist { sample = u64 (hist.sample + 1) };
          }))
      else if hdr.kind == abi.record_lost
      then (copy_wrapped bytes data_size ((off + sizeof_header) % data_size) sizeof_lost_body
          >>= λ body. ok (record d {
            hist = record hist {
              lost_events = u64 (hist.lost_events + lost_of_body body);
              lost_records = u64 (hist.lost_records + 1);
            };
          }))
      else if hdr.kind == abi.record_exit
      then ok (record d { hist = record hist { exit_records = u64 (hist.exit_records + 1) } })
      else if (hdr.kind == abi.record_throttle) || (hdr.kind == abi.record_unthrottle)
      then err (throttled label)
      else ok (record d { hist = record hist { other = u64 (hist.other + 1) } })
    where
      open d use {hist}

  -- One round of the `while` loop.
  pub drain_record : ℕ → Drained → Result Fatal Drained
  drain_record head d =
      let off = d.tail % data_size in
      copy_wrapped bytes data_size off sizeof_header >>= λ raw.
      let hdr = abi.parse_header raw in
      if ltb hdr.size sizeof_header
      then err (size_too_small label)
      else if ltb head (u64 (d.tail + hdr.size))
      then err (size_past_head label)
      else (dispatch off hdr d >>= λ d'. ok (record d' { tail = u64 (d'.tail + hdr.size) }))

  pub drain_loop : ℕ → ℕ → Drained → Result Fatal Drained
  drain_loop zero head d = err out_of_fuel
  drain_loop (suc fuel) head d = elim (ltb d.tail head) [
    | true ↦ drain_record head d >>= drain_loop fuel head
    | false ↦ ok d
  ]

  -- The result's second part is what is stored to `meta->data_tail`. Each round consumes at least
  -- `sizeof_header` bytes, so that the distance to the head is fuel enough.
  pub drain : ℕ → Drained → Result Fatal (Drained × ℕ)
  drain head d =
      if ltb data_size (sub64 head d.tail)
      then err (overflow label)
      else (drain_loop (suc (head - d.tail)) head d >>= λ d'. ok (d', d'.tail))
