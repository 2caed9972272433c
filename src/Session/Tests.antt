-- ===== src/Session/Tests.antt =====
-- The session of Example.
use cache_lens.Prelude.{[]}
use cache_lens.Drain.Linux.{linux}
use cache_lens.Session.{measure}
use cache_lens.Session.Exact.{IsExact, measure-IsExact}
use cache_lens.Session.Example.{
  rings, tracks, all_records, rounds, shown_late, rounds-Runs, all_records-IsTrack, Has-opened,
}

measure-IsExact_example :
    IsExact linux rounds (tracks all_records) (measure linux 25 rounds shown_late rings)
measure-IsExact_example =
    measure-IsExact linux 25 rounds (tracks []) (tracks all_records) shown_late rings
      all_records-IsTrack rounds-Runs ((Has-opened 3 64, tt), (Has-opened 3 4, tt))
