-- ===== src/Health/Classify.antt =====
-- internal/health/health.go: `Classify`, `CountsFor` and `StaleAfter`.
use probehive.Base.{Bool, true, false, ◌||◌, Result, ok, ◌>>◌, fail_if, if◌then◌else◌}
use probehive.Base.Int.{pos, ◌*ℤ◌, wrap64, ltb_ℤ, leb_ℤ}
use probehive.Base.Time.{Duration}
use probehive.Health.Model.{Evidence, Kind, Outcome, FailureCode, Counts, Error}

abbrev is_manual : Kind → Bool
is_manual Kind.manual = true
is_manual _ = false

abbrev is_unexecuted : Outcome → Bool
is_unexecuted Outcome.empty = true
is_unexecuted Outcome.cancelled = true
is_unexecuted Outcome.skipped = true
is_unexecuted _ = false

-- The inner switch on the code of an errored Run.
classify_errored : FailureCode → Evidence
classify_errored FailureCode.redirect_too_many = Evidence.failing
classify_errored FailureCode.certificate_invalid = Evidence.failing
classify_errored FailureCode.transport_failed = Evidence.failing
classify_errored FailureCode.resolution_failed = Evidence.failing
classify_errored FailureCode.resolution_empty = Evidence.failing
classify_errored FailureCode.connect_failed = Evidence.failing
classify_errored FailureCode.address_mismatch = Evidence.location_fault
classify_errored _ = Evidence.indeterminate

-- The outer switch on the outcome.
classify_outcome : Outcome → FailureCode → Evidence
unfolding classify_errored
classify_outcome Outcome.passed FailureCode.empty = Evidence.passing
classify_outcome Outcome.failed FailureCode.status_unexpected = Evidence.failing
classify_outcome Outcome.timed_out FailureCode.execution_timeout = Evidence.failing
classify_outcome Outcome.errored code = classify_errored code
classify_outcome _ _ = Evidence.indeterminate

unfoldable pub classify : Kind → Outcome → FailureCode → Evidence
unfolding classify_outcome
classify kind outcome code =
    if is_manual kind || is_unexecuted outcome
    then Evidence.indeterminate
    else classify_outcome outcome code

abbrev responding_counts : Counts
responding_counts = record {
  configured = 1;
  eligible = 1;
  responding = 1;
  passing = 0;
  failing = 0;
  location_fault = 0;
  indeterminate = 0;
  missing = 0;
}

unfoldable pub counts_for : Evidence → Counts
counts_for Evidence.passing = record responding_counts { passing = 1 }
counts_for Evidence.failing = record responding_counts { failing = 1 }
counts_for Evidence.location_fault = record responding_counts { location_fault = 1 }
counts_for Evidence.indeterminate = record responding_counts { indeterminate = 1 }
counts_for (Evidence.other _) = responding_counts

-- The products are int64 products.
unfoldable pub stale_after : Duration → Duration → Result Error Duration
stale_after effective_interval execution_ceiling = do
  fail_if (leb_ℤ effective_interval (pos 0) || leb_ℤ execution_ceiling (pos 0))
      Error.intervals_not_positive
  let interval_bound = wrap64 (pos 3 *ℤ effective_interval)
  let execution_bound = wrap64 (pos 2 *ℤ execution_ceiling)
  ok (if ltb_ℤ interval_bound execution_bound then execution_bound else interval_bound)
