-- ===== src/System.antt =====
-- The system calls of src/main.cpp and of the probes: a program's part as the calls that it makes, in
-- order, and what it comes to. What the kernel answered stands in the call.
pub mod Post
pub mod Ends
pub mod Clean
use cache_lens.Prelude.{ℕ, ◌+◌, List, [], ◌∷◌, ◌++◌, Result, ok, err, ◌==◌, if◌then◌else◌}
use cache_lens.Keys.Order.{ℤ}

-- `struct perf_event_attr`, the fields that are set. Its other fields are 0, by memset.
pub record PerfEventAttr : Type 0 where
  pub kind : ℕ
  pub config : ℕ
  pub disabled : ℕ
  pub enable_on_exec : ℕ
  pub inherit : ℕ
  pub exclude_kernel : ℕ
  pub exclude_hv : ℕ
  pub read_format : ℕ
  pub sample_type : ℕ
  pub sample_period : ℕ
  pub precise_ip : ℕ
  pub wakeup_events : ℕ

-- The numbers of <linux/perf_event.h> that go into the attributes.
pub record PerfNumbers : Type 0 where
  pub type_hardware : ℕ
  pub hw_cache_misses : ℕ
  pub hw_cache_references : ℕ
  pub format_total_time_enabled : ℕ
  pub format_total_time_running : ℕ
  pub sample_ip : ℕ
  pub sample_tid : ℕ
  pub sample_period_bit : ℕ

-- Calls that succeeded, with what they were about.
pub data Call : Type 0 where
  forked : (child : ℕ) → Call
  saw_stop : (child : ℕ) → Call
  opened : PerfEventAttr → (pid : ℕ) → (cpu : ℤ) → (fd : ℕ) → Call
  mapped : (fd base len : ℕ) → Call
  resumed killed reaped : (child : ℕ) → Call
  counts_read : (fd : ℕ) → Call
  unmapped : (base len : ℕ) → Call
  closed : (fd : ℕ) → Call

pub record Traced (E A : Type 0) : Type 0 where
  pub calls : List Call
  pub result : Result E A

-- A call, and an end of the process.
abbrev pub call : {E : Type 0} → Call → Traced E (Unit {0})
call c = record { calls = c ∷ []; result = ok tt }

abbrev pub done : {E A : Type 0} → A → Traced E A
done a = record { calls = []; result = ok a }

abbrev pub halt : {E A : Type 0} → E → Traced E A
halt e = record { calls = []; result = err e }

-- What is left to do, with the calls made before.
abbrev pub behind : {E A : Type 0} → List Call → Traced E A → Traced E A
behind calls m = record { calls = calls ++ m.calls; result = m.result }

abbrev pub bind_from : {E A B : Type 0} → List Call → Result E A → (A → Traced E B) → Traced E B
bind_from calls (ok a) f = behind calls (f a)
bind_from calls (err e) f = record { calls = calls; result = err e }

infixl 5 ◌>>=◌ ◌>>◌
abbrev pub ◌>>=◌ : {E A B : Type 0} → Traced E A → (A → Traced E B) → Traced E B
m >>= f = bind_from m.calls m.result f

abbrev pub ◌>>◌ : {E B : Type 0} → Traced E (Unit {0}) → Traced E B → Traced E B
m >> k = m >>= λ _. k

-- Of the calls in a list: how often a descriptor was opened and closed, a mapping made and taken away,
-- a child made and waited for.
abbrev pub is_at : ℕ → ℕ → ℕ
is_at a b = if a == b then 1 else 0

abbrev pub opens : ℕ → Call → ℕ
opens fd (opened attr pid cpu fd') = is_at fd fd'
opens fd _ = 0

abbrev pub closes : ℕ → Call → ℕ
closes fd (closed fd') = is_at fd fd'
closes fd _ = 0

abbrev pub maps : ℕ → Call → ℕ
maps base (mapped fd base' len) = is_at base base'
maps base _ = 0

abbrev pub unmaps : ℕ → Call → ℕ
unmaps base (unmapped base' len) = is_at base base'
unmaps base _ = 0

abbrev pub forks : ℕ → Call → ℕ
forks child (forked child') = is_at child child'
forks child _ = 0

abbrev pub reaps : ℕ → Call → ℕ
reaps child (reaped child') = is_at child child'
reaps child _ = 0
