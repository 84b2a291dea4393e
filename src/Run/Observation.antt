-- ===== src/Run/Observation.antt =====
-- internal/run/observation.go: the stored detail of one Run, and its validation.
use probehive.Base.{
  String, Bool, Option, none, some, ◌||◌, ◌&&◌, not, Result, ok, ◌>>◌, fail_if, ltb, is_empty,
  byte_len, ℕ,
}
use probehive.Base.Int.{ℤ, pos, ltb_ℤ}
use probehive.Base.Time.{Time, Duration, is_zero}
use probehive.Run.Model.{Run, is_utc}

pub record Phases : Type 0 where
  pub connect : Duration
  pub tls : Duration
  pub first_byte : Duration

pub record TlsDetail : Type 0 where
  pub version : String
  pub cipher_suite : String
  pub certificate_expires_at : Time

pub record HttpDetail : Type 0 where
  pub status_code : ℤ
  pub protocol : String
  pub redirect_count : ℤ
  pub body_bytes : ℤ
  pub body_truncated : Bool
  pub tls : Option TlsDetail

pub record Observation : Type 0 where
  pub run_id : String
  pub scheduled_for : Time
  pub organization_id : String
  pub failure_code : String
  pub failure_class : String
  pub duration : Duration
  pub phases : Phases
  pub http : Option HttpDetail

pub data ObservationError : Type 0 where
  identity_required slot_not_utc duration_negative phase_negative : ObservationError
  code_too_long class_without_code : ObservationError
  status_code_invalid protocol_too_long redirects_negative body_negative : ObservationError
  tls_too_long certificate_not_utc : ObservationError

abbrev pub max_code_length : ℕ
max_code_length = 100

abbrev pub max_protocol_length : ℕ
max_protocol_length = 20

abbrev pub max_tls_field_length : ℕ
max_tls_field_length = 64

abbrev pub is_negative : ℤ → Bool
is_negative x = ltb_ℤ x (pos 0)

unfoldable pub validate_tls : Option TlsDetail → Result ObservationError (Unit {0})
validate_tls none = ok tt
validate_tls (some tls) = do
  fail_if
      (ltb max_tls_field_length (byte_len tls.version)
        || ltb max_tls_field_length (byte_len tls.cipher_suite))
      ObservationError.tls_too_long
  fail_if (not (is_zero tls.certificate_expires_at) && not (is_utc tls.certificate_expires_at))
      ObservationError.certificate_not_utc
  ok tt

-- `HTTPDetail.validate`, where there is an HTTP detail.
unfoldable pub validate_http : Option HttpDetail → Result ObservationError (Unit {0})
validate_http none = ok tt
validate_http (some value) = do
  fail_if (ltb_ℤ value.status_code (pos 100) || ltb_ℤ (pos 599) value.status_code)
      ObservationError.status_code_invalid
  fail_if (ltb max_protocol_length (byte_len value.protocol)) ObservationError.protocol_too_long
  fail_if (is_negative value.redirect_count) ObservationError.redirects_negative
  fail_if (is_negative value.body_bytes) ObservationError.body_negative
  validate_tls value.tls

-- `Observation.Validate`.
unfoldable pub validate_observation : Observation → Result ObservationError (Unit {0})
validate_observation value = do
  fail_if (is_empty value.run_id || is_empty value.organization_id)
      ObservationError.identity_required
  fail_if (not (is_utc value.scheduled_for)) ObservationError.slot_not_utc
  fail_if (is_negative value.duration) ObservationError.duration_negative
  fail_if
      (is_negative value.phases.connect
        || is_negative value.phases.tls
        || is_negative value.phases.first_byte)
      ObservationError.phase_negative
  fail_if
      (ltb max_code_length (byte_len value.failure_code)
        || ltb max_code_length (byte_len value.failure_class))
      ObservationError.code_too_long
  fail_if (not (is_empty value.failure_class) && is_empty value.failure_code)
      ObservationError.class_without_code
  validate_http value.http

-- The observation of an execution, filed under the Run that was completed.
unfoldable pub filed_under : Run → Observation → Observation
filed_under completed observation = record observation {
  run_id = completed.id;
  scheduled_for = completed.slot.scheduled_for;
  organization_id = completed.slot.organization_id;
}
