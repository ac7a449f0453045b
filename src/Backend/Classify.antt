-- ===== src/Backend/Classify.antt =====
-- client/base.py: `classify_backend_error` and `_parse`, the reading of an answer that raises.
use esim_opensource_mcp.Prelude.{
  ℕ, String, not, ◌||◌, Option, none, some, List, [], ◌∷◌, eqb, leb, if◌then◌else◌, lower,
}
use esim_opensource_mcp.Errors.{
  ErrorKind, McpError, Result, ok, err, plain, otp_too_frequent, otp_still_active,
  otp_limit_reached, expired_otp, invalid_otp, authentication_required, rate_limited, invalid_input,
  backend_unavailable, internal, invalid_backend_response,
}
use esim_opensource_mcp.Backend.{
  BackendEnvelope, Body, empty_body, envelope, Response, Payload, is_2xx, envelope_is_success,
  error_hint,
}
use esim_opensource_mcp.Purchase.Failure.{match_business}

-- `_OTP_ERROR_MATCHERS`
abbrev pub otp_error_matchers : List (List String × ErrorKind)
otp_error_matchers =
    ("otp_request_too_frequent" ∷ "too frequent" ∷ [], otp_too_frequent)
    ∷ ("otp_still_active" ∷ "active otp already exists" ∷ [], otp_still_active)
    ∷ ("otp_limit_reached" ∷ "maximum otp requests" ∷ [], otp_limit_reached)
    ∷ ("otp_expired" ∷ "otp has expired" ∷ [], expired_otp)
    ∷ ("otp_invalid" ∷ "otp provided is invalid" ∷ "otp invalid" ∷ [], invalid_otp)
    ∷ []

-- the code of the envelope where it reports a failure, the status otherwise, and a code of success
-- before a status of success
abbrev pub specific : ℕ → Option ℕ → ℕ
specific status none = status
specific status (some c) = if not (is_2xx c) then c else if not (is_2xx status) then status else c

abbrev pub by_status : ℕ → ErrorKind
by_status s =
    if eqb s 401 || eqb s 403
    then authentication_required
    else if eqb s 429
    then rate_limited
    else if eqb s 400 || (eqb s 404 || (eqb s 409 || eqb s 422))
    then invalid_input
    else if leb 500 s
    then backend_unavailable
    else internal

module _ {R : Type 0} where
  abbrev hint_in : Option (BackendEnvelope R) → String
  hint_in none = ""
  hint_in (some e) = error_hint e

  abbrev code_in : Option (BackendEnvelope R) → Option ℕ
  code_in none = none
  code_in (some e) = e.response_code

  unfoldable pub classify_backend_error : ℕ → Option (BackendEnvelope R) → McpError
  unfolding error_hint lower match_business
  classify_backend_error status e = plain (
      match_business (lower (hint_in e)) otp_error_matchers
        (by_status (specific status (code_in e))))

  abbrev parse_body : ℕ → Body R → Result (Option (Payload R))
  parse_body status empty_body =
      if is_2xx status then ok none else err (classify_backend_error status none)
  parse_body status (envelope e) =
      if not (is_2xx status) || not (envelope_is_success e)
      then err (classify_backend_error status (some e))
      else ok (some e.data_payload)
  parse_body status _ = err (plain invalid_backend_response)

  -- `_parse`: a body of the status 204 is not read
  unfoldable pub parse : Response R → Result (Option (Payload R))
  unfolding classify_backend_error envelope_is_success
  parse r = if eqb r.status_code 204 then ok none else parse_body r.status_code r.body
