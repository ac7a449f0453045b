-- ===== src/Backend.antt =====
-- The transport to the platform: models/common.py and client/base.py. HTTP itself (httpx, JSON
-- decoding, pydantic's validation) is not modelled: a body is what those answered of it.
pub mod Classify
pub mod Retry
pub mod Routes
use esim_opensource_mcp.Prelude.{
  ℕ, String, Bool, true, false, not, ◌&&◌, ◌||◌, ◌==◌, Option, none, some, is_some, ltb, leb,
  if◌then◌else◌, strip, lower, eq_codes, codes, or_empty,
}

-- `Any` data of an envelope, as one pydantic model reads it: no JSON object, an object that the
-- model refuses, or the fields that it accepts.
pub data Payload (R : Type 0) : Type 0 where
  not_object : Payload R
  refused : Payload R
  accepted : R → Payload R

-- Response codes below zero are not represented.
pub record BackendEnvelope (R : Type 0) : Type 0 where
  pub status : Option String
  pub data_payload : Payload R
  pub title : Option String
  pub message : Option String
  pub response_code : Option ℕ

-- `200 <= code < 300`
abbrev pub is_2xx : ℕ → Bool
is_2xx code = leb 200 code && ltb code 300

abbrev success_word : String → Bool
success_word s =
    eq_codes (lower s) (codes "success")
    || (eq_codes (lower s) (codes "succeeded") || eq_codes (lower s) (codes "ok"))

abbrev status_ok : Option String → Bool
status_ok none = true
status_ok (some s) = success_word (strip s)

abbrev code_ok : Option ℕ → Bool
code_ok none = true
code_ok (some c) = is_2xx c

module _ {R : Type 0} where
  unfoldable pub envelope_is_success : BackendEnvelope R → Bool
  unfolding strip lower eq_codes
  envelope_is_success e =
      if not (status_ok e.status)
      then false
      else if not (code_ok e.response_code)
      then false
      else is_some e.status || is_some e.response_code

  -- `title or message or ""`
  unfoldable pub error_hint : BackendEnvelope R → String
  unfolding strip
  error_hint e = strip (if or_empty e.title == "" then or_empty e.message else or_empty e.title)

-- What a response body was found to be.
pub data Body (R : Type 0) : Type 0 where
  empty_body : Body R
  not_json : Body R
  not_an_object : Body R
  not_an_envelope : Body R
  envelope : BackendEnvelope R → Body R

pub record Response (R : Type 0) : Type 0 where
  pub status_code : ℕ
  pub body : Body R

pub record BackendOutcome (R : Type 0) : Type 0 where
  pub status_code : ℕ
  pub read_envelope : Option (BackendEnvelope R)
  pub parsed : Bool

-- One request: it died in transport, or it was answered.
pub data Answer (R : Type 0) : Type 0 where
  timed_out : Answer R
  unreachable : Answer R
  answered : Response R → Answer R

abbrev failing_code : Option ℕ → ℕ → ℕ
failing_code none transport = transport
failing_code (some c) transport = if is_2xx c then transport else c

module _ {R : Type 0} where
  abbrev outcome : ℕ → Body R → BackendOutcome R
  outcome status (envelope e) = record {
    status_code = status;
    read_envelope = some e;
    parsed = true;
  }
  outcome status _ = record { status_code = status; read_envelope = none; parsed = false }

  unfoldable pub outcome_of : Response R → BackendOutcome R
  outcome_of r = outcome r.status_code r.body

  abbrev envelope_success : Option (BackendEnvelope R) → Bool
  envelope_success none = false
  envelope_success (some e) = envelope_is_success e

  -- `BackendOutcome.is_success`
  unfoldable pub is_success : BackendOutcome R → Bool
  unfolding envelope_is_success
  is_success o = is_2xx o.status_code && envelope_success o.read_envelope

  abbrev payload_of : Option (BackendEnvelope R) → Payload R
  payload_of none = not_object
  payload_of (some e) = e.data_payload

  -- `BackendOutcome.data`
  unfoldable pub outcome_data : BackendOutcome R → Payload R
  outcome_data o = payload_of o.read_envelope

  abbrev hint_of : Option (BackendEnvelope R) → String
  hint_of none = ""
  hint_of (some e) = error_hint e

  -- `BackendOutcome.error_hint`
  unfoldable pub outcome_hint : BackendOutcome R → String
  unfolding error_hint
  outcome_hint o = hint_of o.read_envelope

  abbrev code_of : Option (BackendEnvelope R) → Option ℕ
  code_of none = none
  code_of (some e) = e.response_code

  unfoldable pub effective_status : BackendOutcome R → ℕ
  effective_status o = failing_code (code_of o.read_envelope) o.status_code
