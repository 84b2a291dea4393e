-- ===== src/Health/Snapshot.antt =====
-- internal/health/health.go: `Initial`, `validateSnapshot` and `setState`.
use probehive.Base.{
  String, Bool, true, false, not, ◌&&◌, ◌||◌, none, Result, ok, ◌>>◌, fail_if, if◌then◌else◌,
  is_empty,
}
use probehive.Base.Int.{ℤ, pos, ◌+ℤ◌, wrap64, ltb_ℤ}
use probehive.Base.Time.{Time, zero_time, to_utc, same_instant, is_utc_time}
use probehive.Health.Model.{State, Policy, Counts, Snapshot, Decision, Error, state_eq}

abbrev pub is_utc : Time → Bool
is_utc value = is_utc_time value && same_instant value (to_utc value)

abbrev pub valid_state : State → Bool
valid_state (State.other _) = false
valid_state _ = true

abbrev pub valid_stable_state : State → Bool
valid_stable_state State.unknown = true
valid_stable_state State.healthy = true
valid_stable_state State.down = true
valid_stable_state _ = false

abbrev pub is_policy_version : Policy → Bool
is_policy_version Policy.phase1_v1 = true
is_policy_version (Policy.other _) = false

unfoldable pub validate_snapshot : Snapshot → Result Error (Unit {0})
validate_snapshot value = do
  fail_if (is_empty value.organization_id || is_empty value.monitor_id) Error.identity_required
  fail_if (not (is_policy_version value.policy_version)) Error.policy_unsupported
  fail_if
      (not (valid_state value.state)
        || not (valid_stable_state value.stable_state)
        || ltb_ℤ value.version (pos 0))
      Error.state_invalid
  ok tt

-- The counts of a zero `Snapshot`.
abbrev pub no_counts : Counts
no_counts = record {
  configured = 0;
  eligible = 0;
  responding = 0;
  passing = 0;
  failing = 0;
  location_fault = 0;
  indeterminate = 0;
  missing = 0;
}

unfoldable pub initial : String → String → Time → Result Error Snapshot
initial organization_id monitor_id now = do
  fail_if (is_empty organization_id || is_empty monitor_id) Error.identity_required
  fail_if (not (is_utc now)) Error.timestamps_not_utc
  ok (record {
    organization_id = organization_id;
    monitor_id = monitor_id;
    state = State.unknown;
    stable_state = State.unknown;
    policy_version = Policy.phase1_v1;
    version = pos 0;
    source_revision_number = pos 0;
    last_scheduled_for = zero_time;
    last_determinate_finished_at = zero_time;
    last_run_id = "";
    last_run_scheduled_for = zero_time;
    candidate = none;
    counts = no_counts;
    transitioned_at = now;
    updated_at = now;
  })

unfoldable pub next_version : ℤ → ℤ
next_version version = wrap64 (version +ℤ pos 1)

unfoldable pub set_state : Decision → State → State → Time → Decision
set_state decision state stable now =
    if state_eq snapshot.state state
    then record decision { snapshot = record snapshot { stable_state = stable } }
    else record decision {
      snapshot = record snapshot {
        state = state;
        version = next_version snapshot.version;
        transitioned_at = now;
        stable_state = stable;
      };
      transitioned = true;
    }
  where
    open decision use {snapshot}
