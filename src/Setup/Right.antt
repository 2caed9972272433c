-- ===== src/Setup/Right.antt =====
-- A start of the program: what it hands on, and why it ends.
use cache_lens.Prelude.{
  ℕ, ◌<◌, ◌≡◌, ◌≢◌, ◌⊎◌, refl, sym, ◌∙◌, ap, inl, inr, Option, none, some, List, [], ◌∷◌, length,
  ==_iff, ==-false_of_ne, Result, ok, err, ◌>>=◌, arith,
}
use cache_lens.Doubles.{Doubles, IsRounded}
use cache_lens.Session.{Both}
use cache_lens.Setup.{
  Halt, period_needs_value, bad_period, usage, cannot_open_rate, bad_rate, open_failed,
  resume_failed, short_read, never_reached_exec, contended_calibration, Text, Strtoll, period_flag,
  dashes, same_text, positive, period_value, take_period, take_command, parse_args, RateFile,
  CalibrationRun, choose_periods, set_up,
}
use cache_lens.Setup.Arguments.{
  IsNumber, TakenOf, take_period-TakenOf, CommandOf, take_command-CommandOf, first_text_eq,
  behind_two_eq,
}
use cache_lens.Setup.Calibrated.{TimesFit}
use cache_lens.Setup.Chosen.{NearFor, ChosenOf, choose_periods-ChosenOf}

abbrev with_option : Option ℕ → List Text → Result Halt (Option ℕ × List Text)
with_option option command = ok (option, command)

module _ (d : Doubles) (strtoll : Strtoll) (file : RateFile) (run : CalibrationRun) where
  -- How a command line and the periods fit together.
  abbrev pub FromOption : List Text → List Text → Both ℕ → Type 0
  FromOption args command period =
      (v : Text) × (n : ℕ) × (args ≡ period_flag ∷ v ∷ dashes ∷ command)
      × IsNumber strtoll v n
      × (period ≡ record { miss = n; access = n })

  -- Each end with what it says of the arguments and of the calibration.
  abbrev pub SetUp : List Text → Result Halt (Both ℕ × List Text) → Type 0
  SetUp args (ok (period, command)) =
      (0 < length command)
      × (FromOption args command period
          ⊎ ((args ≡ dashes ∷ command) × ChosenOf d none file run (ok period)))
  SetUp args (err period_needs_value) = args ≡ period_flag ∷ []
  SetUp args (err bad_period) =
      (v : Text) × (rest : List Text) × (args ≡ period_flag ∷ v ∷ rest)
      × ((n : ℕ) → 0 < length v → ¬ IsNumber strtoll v n)
  SetUp args (err usage) =
      (command : List Text)
      → 0 < length command
      → (args ≢ dashes ∷ command) × ((v : Text) → args ≢ period_flag ∷ v ∷ dashes ∷ command)
  SetUp args (err why) = ChosenOf d none file run (err why)

  module _ (rounded : IsRounded d) (fuel : ℕ) (near : NearFor d fuel file run)
      (fit_miss : TimesFit run.reads.miss) (fit_access : TimesFit run.reads.access) where
    by_choice :
        (args command : List Text)
        → args ≡ dashes ∷ command
        → 0 < length command
        → (o : Result Halt (Both ℕ)) → ChosenOf d none file run o
        → SetUp args (o >>= λ period. ok (period, command))
    by_choice args command e filled (ok period) p = (filled, inr (e, p))
    by_choice args command e filled (err cannot_open_rate) p = p
    by_choice args command e filled (err bad_rate) p = p
    by_choice args command e filled (err (open_failed event)) p = p
    by_choice args command e filled (err resume_failed) p = p
    by_choice args command e filled (err short_read) p = p
    by_choice args command e filled (err never_reached_exec) p = p
    by_choice args command e filled (err contended_calibration) p = p
    by_choice args command e filled (err _) p = absurd p

    by_command :
        (args : List Text) (option : Option ℕ) (rest : List Text)
        → TakenOf strtoll args (ok (option, rest))
        → (o : Result Halt (List Text)) → CommandOf rest o
        → SetUp args (
            (o >>= λ command. with_option option command) >>= λ r.
            choose_periods d fuel r.0 file run >>= λ period. ok (period, r.1))
    unfolding choose_periods
    by_command args none rest e (ok command) p =
        by_choice args command (e.0 ∙ p.0) p.1 (choose_periods d fuel none file run)
          (choose_periods-ChosenOf d rounded fuel file run near fit_miss fit_access none)
    by_command args (some n) rest t (ok command) p =
        (p.1, inl (t.0, n, t.1 ∙ ap (λ x. period_flag ∷ t.0 ∷ x) p.0, t.2, refl))
    by_command args none rest e (err usage) p =
        λ command filled. (λ h. p command filled (sym e.0 ∙ h), λ v h. e.1 (v ∷ dashes ∷ command) h)
    by_command args (some n) rest t (err usage) p = λ command filled. (
      λ h.
          omega (
            arith,
            ap length (first_text_eq period_flag dashes (t.0 ∷ rest) command (sym t.1 ∙ h)),
          ),
      λ v h.
          p command filled
            (behind_two_eq period_flag t.0 period_flag v rest (dashes ∷ command) (sym t.1 ∙ h)),
    )
    by_command args option rest e (err _) p = absurd p

    -- The start of the program. If it hands on two periods and a command, the command is not empty, and
    -- either the arguments are the option with a number above zero and both periods are that number,
    -- or there is no option and each period is the prime nearest to what the two rates give, from
    -- counters that ran for 99 % of their time. It ends early only for a reason that is so: a missing or
    -- bad number; in usage only if there is no command behind dashes that stand first or behind the
    -- option and its value; a cap that is not there or not above zero; a counter that did not open, could
    -- not be read, never ran or ran less than 99 % of its time; or a child that was not set going. The
    -- times read are below 2 ^ 53, and there is a prime below 2 ^ 63 within the rounds of the search
    -- from where it starts.
    pub set_up-IsRight : (args : List Text) → SetUp args (set_up d strtoll fuel args file run)
    unfolding set_up parse_args
    set_up-IsRight args = by_option (take_period strtoll args) (take_period-TakenOf strtoll args)
      where
        by_option :
            (o : Result Halt (Option ℕ × List Text))
            → TakenOf strtoll args o
            → SetUp args (
                (o >>= λ r. take_command r.1 >>= λ command. with_option r.0 command) >>= λ r.
                choose_periods d fuel r.0 file run >>= λ period. ok (period, r.1))
        by_option (ok (option, rest)) p =
            by_command args option rest p (take_command rest) (take_command-CommandOf rest)
        by_option (err period_needs_value) p = p
        by_option (err bad_period) p = p
        by_option (err _) p = absurd p

  -- A command line with the option is taken: whatever the calibration would have given, both periods
  -- are the number, and the command is what stands behind the dashes.
  pub set_up_option :
      (fuel n : ℕ) (v c : Text) (cs : List Text)
      → 0 < length v
      → IsNumber strtoll v n
      → set_up d strtoll fuel (period_flag ∷ v ∷ dashes ∷ c ∷ cs) file run
        ≡ ok (record { miss = n; access = n }, c ∷ cs)
  unfolding set_up parse_args take_period take_command same_text period_value positive
      choose_periods
  set_up_option fuel n v c cs filled (number, above) = rw (
    number,
    ==-false_of_ne (length v) 0 (omega arith),
    (==_iff (length v) (length v)).1 refl,
    ==-false_of_ne n 0 (omega arith),
  )
