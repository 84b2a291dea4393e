-- ===== src/Health/Classification.antt =====
-- What `Classify`, `CountsFor` and `StaleAfter` of internal/health/health.go compute.
use probehive.Base.{ok, err, ◌≡◌, ◌≢◌, ◌⊎◌, ◌↔◌, arith, ◌||◌, if◌then◌else◌, ℕ, ◌<◌, ◌^◌}
use probehive.Base.Int.{pos, negsuc, ◌*ℤ◌, wrap64}
use probehive.Health.Model.{Evidence, Kind, Outcome, FailureCode, Error}
use probehive.Health.Classify.{classify, stale_after}
use probehive.Base.{max, ◌*◌, ◌==◌}

-- The failures of an errored Run that count against the Monitor.
abbrev pub IsTargetFault : FailureCode → Type 0
IsTargetFault code =
    (code ≡ FailureCode.redirect_too_many)
    ⊎ (code ≡ FailureCode.certificate_invalid)
    ⊎ (code ≡ FailureCode.transport_failed)
    ⊎ (code ≡ FailureCode.resolution_failed)
    ⊎ (code ≡ FailureCode.resolution_empty)
    ⊎ (code ≡ FailureCode.connect_failed)

abbrev pub ShowsFailure : Outcome → FailureCode → Type 0
ShowsFailure outcome code =
    ((outcome ≡ Outcome.failed) × (code ≡ FailureCode.status_unexpected))
    ⊎ ((outcome ≡ Outcome.timed_out) × (code ≡ FailureCode.execution_timeout))
    ⊎ ((outcome ≡ Outcome.errored) × IsTargetFault code)

classify_passing :
    (k : Kind) (o : Outcome) (c : FailureCode)
    → classify k o c ≡ Evidence.passing
    → (k ≢ Kind.manual) × (o ≡ Outcome.passed) × (c ≡ FailureCode.empty)
unfolding classify
classify_passing k o c h = (λ e. ground arith, ground arith, ground arith)

passing_classify :
    (k : Kind) (o : Outcome) (c : FailureCode)
    → k ≢ Kind.manual
    → o ≡ Outcome.passed
    → c ≡ FailureCode.empty
    → classify k o c ≡ Evidence.passing
unfolding classify
passing_classify k o c n p e = ground arith

classify_failing :
    (k : Kind) (o : Outcome) (c : FailureCode)
    → classify k o c ≡ Evidence.failing
    → (k ≢ Kind.manual) × ShowsFailure o c
unfolding classify
classify_failing k o c h = (λ e. ground arith, ground arith)

failing_classify :
    (k : Kind) (o : Outcome) (c : FailureCode)
    → k ≢ Kind.manual
    → ShowsFailure o c
    → classify k o c ≡ Evidence.failing
unfolding classify
failing_classify k o c n s = ground arith

-- A Run is passing evidence exactly if it is not manual, passed and has no failure code; it is
-- failing evidence exactly if it is not manual and failed by an unexpected status, ran into the
-- execution timeout, or errored
-- with one of the six codes that blame the target.
pub classify_iff :
    (k : Kind) (o : Outcome) (c : FailureCode)
    → ((classify k o c ≡ Evidence.passing)
        ↔ ((k ≢ Kind.manual) × (o ≡ Outcome.passed) × (c ≡ FailureCode.empty)))
      × ((classify k o c ≡ Evidence.failing) ↔ ((k ≢ Kind.manual) × ShowsFailure o c))
classify_iff k o c = (
  (classify_passing k o c, λ h. passing_classify k o c h.0 h.1 h.2),
  (classify_failing k o c, λ h. failing_classify k o c h.0 h.1),
)

-- Where the products fit int64, staleness waits for the longer of three intervals and two execution
-- ceilings, both positive; a duration of zero, or a negative one, is refused.
pub stale_after_lem :
    (interval ceiling : ℕ)
    → 3 * interval < 2 ^ 63
    → 2 * ceiling < 2 ^ 63
    → (stale_after (pos interval) (pos ceiling) ≡ (
        if interval == 0 || ceiling == 0
        then err Error.intervals_not_positive
        else ok (pos (max (3 * interval) (2 * ceiling)))))
      × (stale_after (negsuc interval) (pos ceiling) ≡ err Error.intervals_not_positive)
      × (stale_after (pos interval) (negsuc ceiling) ≡ err Error.intervals_not_positive)
unfolding stale_after ◌*ℤ◌ wrap64
stale_after_lem interval ceiling bi bc = (ground arith, ground arith, ground arith)
