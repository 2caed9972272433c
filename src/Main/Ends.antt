-- ===== src/Main/Ends.antt =====
-- The ends of the program before its report: none is taken for a success.
use cache_lens.Prelude.{◌≡◌, ◌≢◌, refl, Option, none, some, arith, Result, ok, err}
use cache_lens.Setup.{Halt, period_needs_value, bad_period, usage}
use cache_lens.Session.{Stop}
use cache_lens.Launch.{LaunchHalt}
use cache_lens.System.Post.{PostOr}
use cache_lens.Calibration.{CalibrationHalt}
use cache_lens.Main.{
  Why, in_setup, no_cpus, no_text_range, no_debug_info, in_launch, in_calibration, in_run,
  setup_status, why_status, lift, found,
}

pub lift-ends :
    {E A : Type 0} (F : Why → Type 0) (why : E → Why) (r : Result E A)
    → ((e : E) → r ≡ err e → F (why e))
    → PostOr (λ a calls. r ≡ ok a) F (lift why r)
lift-ends F why (ok a) f = refl
lift-ends F why (err e) f = f e refl

pub found-ends :
    {A : Type 0} (F : Why → Type 0) (why : Why) (o : Option A)
    → (o ≡ none → F why)
    → PostOr (λ a calls. o ≡ some a) F (found why o)
found-ends F why (some a) f = refl
found-ends F why none f = f refl

setup_status-fails : (h : Halt) → setup_status h ≢ 0
unfolding setup_status
setup_status-fails period_needs_value e = omega arith
setup_status-fails bad_period e = omega arith
setup_status-fails usage e = omega arith
setup_status-fails _ e = omega arith

pub in_setup-fails : (h : Halt) → why_status (in_setup h) ≢ 0
unfolding why_status
in_setup-fails h = setup_status-fails h

pub in_launch-fails : (e : LaunchHalt) → why_status (in_launch e) ≢ 0
unfolding why_status
in_launch-fails e h = omega arith

pub in_run-fails : (s : Stop) → why_status (in_run s) ≢ 0
unfolding why_status
in_run-fails s h = omega arith

pub no_cpus-fails : why_status no_cpus ≢ 0
unfolding why_status
no_cpus-fails h = omega arith

pub no_text_range-fails : why_status no_text_range ≢ 0
unfolding why_status
no_text_range-fails h = omega arith

pub no_debug_info-fails : why_status no_debug_info ≢ 0
unfolding why_status
no_debug_info-fails h = omega arith

pub in_calibration-fails : (e : CalibrationHalt) → why_status (in_calibration e) ≢ 0
unfolding why_status
in_calibration-fails e h = omega arith
