-- ===== src/Drain/Step.antt =====
-- One round of `drain`'s loop at a record that stands whole in the ring.
use native.Mathlib.Nat.{mod-add-mod}
use cache_lens.Prelude.{
  ℕ, ◌+◌, ◌%◌, ◌^◌, ◌≤◌, ◌<◌, ◌≡◌, refl, subst, true, List, [], ◌∷◌, ◌++◌, arith, ltb_of_le, ◌==◌,
  ==_iff, ==-false_of_ne, length, length-append, Result, ok, err, ◌>>=◌,
}
use cache_lens.Prelude.Words.{u64}
use cache_lens.Perf.{RingLabel, Fatal, throttled, sizeof_header, Header, PerfAbi}
use cache_lens.Drain.{Drained, dispatch, drain_record}
use cache_lens.Drain.Window.{Holds, Holds-append, copy_of_Holds}
use cache_lens.Drain.Records.{
  Event, Rec, sample, lost, exit, throttle, unthrottle, other, payload, body, kind, header,
  rec_bytes, Fits, FitsEvent, length-rec_bytes, sample_of_body-payload, lost_of_body-payload,
}

-- What the `switch` does at an event.
abbrev pub noted : Event → Drained → Drained
noted (sample s) d = record d {
  samples = d.samples ++ s ∷ [];
  hist = record (d.hist) { sample = u64 (d.hist.sample + 1) };
}
noted (lost id n) d = record d {
  hist = record (d.hist) {
    lost_events = u64 (d.hist.lost_events + n);
    lost_records = u64 (d.hist.lost_records + 1);
  };
}
noted exit d = record d { hist = record (d.hist) { exit_records = u64 (d.hist.exit_records + 1) } }
noted (other k) d = record d { hist = record (d.hist) { other = u64 (d.hist.other + 1) } }
noted _ d = d

abbrev pub outcome : RingLabel → Event → Drained → Result Fatal Drained
outcome label throttle d = err (throttled label)
outcome label unthrottle d = err (throttled label)
outcome label e d = ok (noted e d)

abbrev pub moved : Result Fatal Drained → ℕ → Result Fatal Drained
moved r t = r >>= λ d. ok (record d { tail = t })

==_self : (a : ℕ) → (a == a) ≡ true
==_self a = (==_iff a a).1 refl

module _ (abi : PerfAbi) (label : RingLabel) (bytes : List ℕ) (size : ℕ)
    (whole : length bytes ≡ size) (small : size < 2 ^ 64) where
  -- The `switch` at a record whose body stands behind its header.
  dispatch_lem :
      (e : Event) (h m : ℕ) (len : ℕ) (d : Drained)
      → FitsEvent abi e
      → length (payload e) ≤ size
      → 0 < size
      → Holds bytes size (h + sizeof_header) (payload e)
      → dispatch abi label bytes size
          (h % size)
          (record { kind = kind abi e; misc = m; size = len })
          d
        ≡ outcome label e d
  unfolding dispatch
  dispatch_lem (sample s) h m len d f room pos p = rw (
    ==_self abi.record_sample,
    copy_of_Holds bytes size (h + sizeof_header) ((h % size + sizeof_header) % size) 24
        (payload (sample s)) whole small pos room refl (mod-add-mod h size sizeof_header) p,
    sample_of_body-payload abi s f,
  )
  dispatch_lem (lost id n) h m len d f room pos p = rw (
    ==-false_of_ne _ _ abi.lost_ne_sample,
    ==_self abi.record_lost,
    copy_of_Holds bytes size (h + sizeof_header) ((h % size + sizeof_header) % size) 16
        (payload (lost id n)) whole small pos room refl (mod-add-mod h size sizeof_header) p,
    lost_of_body-payload id n f.1,
  )
  dispatch_lem exit h m len d f room pos p = rw (
    ==-false_of_ne _ _ abi.exit_ne_sample,
    ==-false_of_ne _ _ abi.exit_ne_lost,
    ==_self abi.record_exit,
  )
  dispatch_lem throttle h m len d f room pos p = rw (
    ==-false_of_ne _ _ abi.throttle_ne_sample,
    ==-false_of_ne _ _ abi.throttle_ne_lost,
    ==-false_of_ne _ _ abi.throttle_ne_exit,
    ==_self abi.record_throttle,
  )
  dispatch_lem unthrottle h m len d f room pos p =
      rw
        (
          ==-false_of_ne _ _ abi.unthrottle_ne_sample,
          ==-false_of_ne _ _ abi.unthrottle_ne_lost,
          ==-false_of_ne _ _ abi.unthrottle_ne_exit,
          ==_self abi.record_unthrottle,
        )
        (ground arith)
  dispatch_lem (other k) h m len d f room pos p = rw (
    ==-false_of_ne _ _ f.0,
    ==-false_of_ne _ _ f.1,
    ==-false_of_ne _ _ f.2,
    ==-false_of_ne _ _ f.3,
    ==-false_of_ne _ _ f.4,
  )

  moved-outcome :
      (e : Event) (d : Drained) (n t : ℕ)
      → u64 (d.tail + n) ≡ t
      → (outcome label e d >>= λ d'. ok (record d' { tail = u64 (d'.tail + n) }))
        ≡ moved (outcome label e d) t
  moved-outcome throttle d n t h = refl
  moved-outcome unthrottle d n t h = refl
  moved-outcome (sample s) d n t h = rw h
  moved-outcome (lost id m) d n t h = rw h
  moved-outcome exit d n t h = rw h
  moved-outcome (other k) d n t h = rw h

  -- A whole record between the tail and the head is noted, and the tail moves behind it.
  pub drain_record_lem :
      (r : Rec) (head : ℕ) (d : Drained)
      → Fits abi r
      → Holds bytes size d.tail (rec_bytes abi r)
      → length (rec_bytes abi r) ≤ size
      → d.tail + length (rec_bytes abi r) ≤ head
      → head < 2 ^ 64
      → drain_record abi label bytes size head d
        ≡ moved (outcome label r.event d) (d.tail + length (rec_bytes abi r))
  unfolding drain_record
  drain_record_lem r head d f p room below word =
      let parts = Holds-append bytes size d.tail (abi.header_bytes hdr) (body r) p in
      let shift : d.tail + length (abi.header_bytes hdr) ≡ d.tail + sizeof_header =
        omega (arith, len) in
      let inside =
        Holds-append bytes size (d.tail + sizeof_header) (payload r.event) r.rest
          (subst (λ k. Holds bytes size k (body r)) shift parts.1) in
      rw
        (
          copy_of_Holds bytes size d.tail (d.tail % size) sizeof_header (abi.header_bytes hdr) whole
              small (omega (arith, total)) (omega (arith, total)) len refl parts.0,
          abi.parse_header-header_bytes hdr f.kind_fits f.misc_fits f.size_fits,
          ltb_of_le hdr.size sizeof_header (omega arith),
          ltb_of_le head (u64 (d.tail + hdr.size)) (omega (arith, total)),
          dispatch_lem r.event d.tail r.misc hdr.size d f.event_fits
              (omega (arith, total, length-append (payload r.event) r.rest)) (omega (arith, total))
              inside.0,
        )
        (moved-outcome r.event d hdr.size (d.tail + length (rec_bytes abi r))
          (omega (arith, total)))
    where
      hdr : Header
      hdr = header abi r

      len : length (abi.header_bytes hdr) ≡ sizeof_header
      len = abi.length-header_bytes hdr

      total : length (rec_bytes abi r) ≡ sizeof_header + length (body r)
      total = length-rec_bytes abi r
