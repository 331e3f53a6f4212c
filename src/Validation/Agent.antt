-- ===== src/Validation/Agent.antt =====
-- The sections of the alignment check, of the dry run and of the interactive mode
-- (validateAlignmentCheck, validateDryRun, validateInteractive of internal/resources/validation.go).
use kubernaut_operator.Base.{
  ℤ, at_least, at_most, IsAtLeast, IsAtMost, at_least_iff, at_most_iff, String, ◌≡◌, ◌↔◌, refl,
  Bool, true, false, not, ◌||◌, Option, none, some, List, [], ◌∷◌, ◌==◌,
}
use kubernaut_operator.Api.Llm.{AlignmentCheckSpec, InteractiveSpec, enabled_by_default}
use kubernaut_operator.Kube.Op.{Error}
use kubernaut_operator.Validation.Checks.{
  issue, report, only, unless, fails, when_given, ◌+++◌, IfSet, Given, Parses, ◌&◌,
}
use kubernaut_operator.Validation.Accept.{
  ◌⊗◌, report_iff, only_iff, unless_iff, optional_iff, fails_iff, flip_false, or_false, differs_not,
  is_true,
}
use kubernaut_operator.Validation.Go.{Go}

-- alignmentCheckTimeoutMin, alignmentCheckTimeoutMax, in nanoseconds
abbrev pub is_out_of_bounds : ℤ → Bool
is_out_of_bounds d = not (at_least 1000000000 d) || not (at_most 60000000000 d)

abbrev pub timeout_errors : Option ℤ → List Error
timeout_errors none = issue "spec.kubernautAgent.alignmentCheck.timeout" "invalid Go duration" ∷ []
timeout_errors (some d) =
    report (is_out_of_bounds d)
      (issue "spec.kubernautAgent.alignmentCheck.timeout" "must be between 1s and 1m0s")

module _ (go : Go) where
  -- validateAlignmentCheck
  unfoldable pub validate_alignment_check : AlignmentCheckSpec → List Error
  validate_alignment_check ac = unless (not ac.enabled) (
      only (not (ac.timeout == "")) (timeout_errors (go.parse_duration ac.timeout))
      +++ report (not (at_least 0 ac.max_step_tokens))
          (issue "spec.kubernautAgent.alignmentCheck.maxStepTokens" "must be positive"))

  -- `if _, err := time.ParseDuration(value); err != nil { ... }`
  abbrev pub validate_duration : String → String → List Error
  validate_duration path value =
      only (not (value == ""))
        (report (fails (go.parse_duration value) (λ d. false)) (issue path "invalid Go duration"))

  -- validateDryRun
  unfoldable pub validate_dry_run : Bool → String → List Error
  validate_dry_run dry_run hold_period =
      unless (not dry_run)
        (validate_duration "spec.remediationOrchestrator.dryRunHoldPeriod" hold_period)

  -- validateInteractive
  unfoldable pub validate_interactive : Option InteractiveSpec → List Error
  validate_interactive interactive = when_given interactive λ i.
      unless (not (enabled_by_default i.enabled)) (
        validate_duration "spec.kubernautAgent.interactive.sessionTTL" i.session_ttl
        +++ validate_duration "spec.kubernautAgent.interactive.inactivityTimeout"
            i.inactivity_timeout)

  -- A text that is left out or parses as a duration
  abbrev pub IsDuration : String → Type 0
  IsDuration = IfSet λ value. Parses (λ d. Unit) (go.parse_duration value)

  -- What the alignment check has to satisfy, where it is enabled: a timeout from a second to a
  -- minute, and a number of tokens that is not negative.
  abbrev pub IsValidAlignmentCheck : AlignmentCheckSpec → Type 0
  IsValidAlignmentCheck ac =
      ac.enabled ≡ true
      → IfSet
          (λ value.
            Parses (λ d. IsAtLeast 1000000000 d & IsAtMost 60000000000 d) (go.parse_duration value))
          ac.timeout
        & IsAtLeast 0 ac.max_step_tokens

  -- What the other two sections have to satisfy.
  abbrev pub IsValidDryRun : Bool → String → Type 0
  IsValidDryRun dry_run hold_period = dry_run ≡ true → IsDuration hold_period

  abbrev pub IsValidInteractive : Option InteractiveSpec → Type 0
  IsValidInteractive = Given λ i.
      enabled_by_default i.enabled ≡ true
      → IsDuration i.session_ttl & IsDuration i.inactivity_timeout

  timeout_iff :
      (o : Option ℤ)
      → (timeout_errors o ≡ []) ↔ Parses (λ d. IsAtLeast 1000000000 d & IsAtMost 60000000000 d) o
  timeout_iff none = (λ h. cc, λ h. absurd h)
  timeout_iff (some d) =
      report_iff _ (or_false (at_least_iff 1000000000 d) (at_most_iff 60000000000 d))

  -- validateAlignmentCheck has no complaint exactly if the check is off, or its timeout, where it is
  -- set, parses to a duration from one second to one minute, and its number of tokens is not
  -- negative.
  pub alignment_check_iff :
      (ac : AlignmentCheckSpec) → (validate_alignment_check ac ≡ []) ↔ IsValidAlignmentCheck ac
  unfolding validate_alignment_check
  alignment_check_iff ac = unless_iff (flip_false (is_true ac.enabled)) (
      only_iff (differs_not ac.timeout "") (timeout_iff (go.parse_duration ac.timeout))
      ⊗ report_iff _ (at_least_iff 0 ac.max_step_tokens))

  optional_time_iff : (path value : String) → (validate_duration path value ≡ []) ↔ IsDuration value
  optional_time_iff path value =
      only_iff (differs_not value "")
        (report_iff _ (fails_iff (go.parse_duration value) λ d. (λ h. tt, λ h. refl)))

  pub dry_run_iff :
      (dry_run : Bool) (hold_period : String)
      → (validate_dry_run dry_run hold_period ≡ []) ↔ IsValidDryRun dry_run hold_period
  unfolding validate_dry_run
  dry_run_iff dry_run hold_period =
      unless_iff (flip_false (is_true dry_run)) (optional_time_iff _ hold_period)

  pub interactive_iff :
      (interactive : Option InteractiveSpec)
      → (validate_interactive interactive ≡ []) ↔ IsValidInteractive interactive
  unfolding validate_interactive
  interactive_iff interactive = optional_iff interactive λ i.
      unless_iff (flip_false (is_true (enabled_by_default i.enabled)))
        (optional_time_iff _ i.session_ttl ⊗ optional_time_iff _ i.inactivity_timeout)
