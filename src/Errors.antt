-- ===== src/Errors.antt =====
-- errors.py: the typed errors. An error is its class and its details; the text of its message
-- is not modelled.
use esim_opensource_mcp.Prelude.{
  ℕ, String, Bool, true, false, Option, none, some, List, [], ◌∷◌, ◌==◌, if◌then◌else◌,
}

-- The subclasses of `EsimMcpError`, without the suffix `Error`.
pub data ErrorKind : Type 0 where
  authentication_required identity_unavailable invalid_otp expired_otp otp_still_active : ErrorKind
  otp_limit_reached otp_too_frequent invalid_input rate_limited backend_unavailable : ErrorKind
  backend_timeout account_read_timeout invalid_backend_response internal catalog_unavailable :
      ErrorKind
  country_not_found ambiguous_country region_not_found ambiguous_region bundle_not_found : ErrorKind
  no_matching_bundles bundle_unavailable wallet_unavailable insufficient_wallet_balance : ErrorKind
  unsupported_payment_method quote_not_found quote_expired quote_cancelled quote_consumed :
      ErrorKind
  quote_not_owned too_many_active_quotes non_wallet_quote purchase_rejected : ErrorKind
  purchase_currency_mismatch purchase_route_unavailable purchase_unavailable : ErrorKind
  purchase_in_progress idempotency_conflict purchase_manual_intervention : ErrorKind
  purchase_outcome_unknown purchase_attempt_limit non_card_quote card_checkout_unavailable :
      ErrorKind
  card_checkout_rejected card_checkout_outcome_unknown card_checkout_attempt_limit : ErrorKind
  unsafe_checkout_link card_payment_not_found card_payment_status_unavailable : ErrorKind
  card_payment_ambiguous card_payment_check_limit no_purchased_esims esim_not_found : ErrorKind
  esim_selection_unavailable esim_selection_out_of_range no_consumption_data : ErrorKind
  consumption_unavailable esim_topup_not_supported no_topup_options : ErrorKind
  esim_topup_options_unavailable topup_bundle_incompatible topup_quote_not_found : ErrorKind
  topup_quote_expired topup_quote_cancelled esim_topup_execution_unavailable : ErrorKind
  esim_topup_confirmation_required esim_topup_rejected esim_topup_outcome_unknown : ErrorKind
  esim_topup_already_attempted wallet_topup_amount_invalid wallet_topup_limit_reached : ErrorKind
  wallet_topup_unavailable wallet_topup_rejected wallet_topup_outcome_unknown : ErrorKind
  wallet_topup_quote_not_found wallet_topup_not_found wallet_topup_status_unavailable : ErrorKind
  forbidden_backend_route : ErrorKind

-- `code` of each class
unfoldable pub code : ErrorKind → String
code authentication_required = "authentication_required"
code identity_unavailable = "client_identity_unavailable"
code invalid_otp = "invalid_otp"
code expired_otp = "expired_otp"
code otp_still_active = "otp_still_active"
code otp_limit_reached = "otp_limit_reached"
code otp_too_frequent = "otp_request_too_frequent"
code invalid_input = "invalid_input"
code rate_limited = "rate_limited"
code backend_unavailable = "backend_unavailable"
code backend_timeout = "backend_timeout"
code account_read_timeout = "account_read_timeout"
code invalid_backend_response = "invalid_backend_response"
code internal = "internal_error"
code catalog_unavailable = "catalog_unavailable"
code country_not_found = "country_not_found"
code ambiguous_country = "ambiguous_country"
code region_not_found = "region_not_found"
code ambiguous_region = "ambiguous_region"
code bundle_not_found = "bundle_not_found"
code no_matching_bundles = "no_matching_bundles"
code bundle_unavailable = "bundle_unavailable"
code wallet_unavailable = "wallet_unavailable"
code insufficient_wallet_balance = "insufficient_wallet_balance"
code unsupported_payment_method = "unsupported_payment_method"
code quote_not_found = "quote_not_found"
code quote_expired = "quote_expired"
code quote_cancelled = "quote_cancelled"
code quote_consumed = "quote_consumed"
code quote_not_owned = "quote_not_owned"
code too_many_active_quotes = "too_many_active_quotes"
code non_wallet_quote = "unsupported_quote_payment_method"
code purchase_rejected = "purchase_rejected"
code purchase_currency_mismatch = "purchase_currency_mismatch"
code purchase_route_unavailable = "purchase_endpoint_unavailable"
code purchase_unavailable = "purchase_unavailable"
code purchase_in_progress = "purchase_in_progress"
code idempotency_conflict = "purchase_idempotency_conflict"
code purchase_manual_intervention = "purchase_needs_support"
code purchase_outcome_unknown = "purchase_outcome_unknown"
code purchase_attempt_limit = "purchase_attempt_limit_reached"
code non_card_quote = "unsupported_quote_payment_method_for_card"
code card_checkout_unavailable = "card_checkout_unavailable"
code card_checkout_rejected = "card_checkout_rejected"
code card_checkout_outcome_unknown = "card_checkout_outcome_unknown"
code card_checkout_attempt_limit = "card_checkout_attempt_limit_reached"
code unsafe_checkout_link = "unsafe_checkout_link"
code card_payment_not_found = "card_payment_not_found"
code card_payment_status_unavailable = "card_payment_status_unavailable"
code card_payment_ambiguous = "card_payment_ambiguous"
code card_payment_check_limit = "card_payment_check_limit_reached"
code no_purchased_esims = "no_purchased_esims"
code esim_not_found = "esim_not_found"
code esim_selection_unavailable = "esim_selection_unavailable"
code esim_selection_out_of_range = "esim_selection_out_of_range"
code no_consumption_data = "no_consumption_data"
code consumption_unavailable = "consumption_unavailable"
code esim_topup_not_supported = "esim_topup_not_supported"
code no_topup_options = "no_topup_options"
code esim_topup_options_unavailable = "esim_topup_options_unavailable"
code topup_bundle_incompatible = "topup_bundle_incompatible"
code topup_quote_not_found = "topup_quote_not_found"
code topup_quote_expired = "topup_quote_expired"
code topup_quote_cancelled = "topup_quote_cancelled"
code esim_topup_execution_unavailable = "esim_topup_execution_unavailable"
code esim_topup_confirmation_required = "esim_topup_confirmation_required"
code esim_topup_rejected = "esim_topup_rejected"
code esim_topup_outcome_unknown = "esim_topup_outcome_unknown"
code esim_topup_already_attempted = "esim_topup_already_attempted"
code wallet_topup_amount_invalid = "wallet_topup_amount_invalid"
code wallet_topup_limit_reached = "wallet_topup_limit_reached"
code wallet_topup_unavailable = "wallet_topup_unavailable"
code wallet_topup_rejected = "wallet_topup_rejected"
code wallet_topup_outcome_unknown = "wallet_topup_outcome_unknown"
code wallet_topup_quote_not_found = "wallet_topup_quote_not_found"
code wallet_topup_not_found = "wallet_topup_not_found"
code wallet_topup_status_unavailable = "wallet_topup_status_unavailable"
code forbidden_backend_route = "forbidden_backend_route"

-- `retryable` of each class; the subclasses of a retryable class inherit it
pub retryable : ErrorKind → Bool
retryable backend_unavailable = true
retryable backend_timeout = true
retryable account_read_timeout = true
retryable catalog_unavailable = true
retryable purchase_unavailable = true
retryable card_checkout_unavailable = true
retryable card_checkout_outcome_unknown = true
retryable card_payment_status_unavailable = true
retryable consumption_unavailable = true
retryable esim_topup_options_unavailable = true
retryable wallet_topup_unavailable = true
retryable wallet_topup_outcome_unknown = true
retryable wallet_topup_status_unavailable = true
retryable _ = false

-- The structured `details` that the services attach to an error.
pub data Details : Type 0 where
  no_details : Details
  unknown_purchase : ℕ → Details
  unknown_topup : Details
  unknown_checkout : ℕ → Details
  contact_support : Details
  support : Option String → Details

pub record McpError : Type 0 where
  pub kind : ErrorKind
  pub details : Details

-- `SomeError()`, with no details
abbrev pub plain : ErrorKind → McpError
plain k = record { kind = k; details = no_details }

-- `dict(error.details) if error.details else None`
abbrev pub stored_details : Details → Option Details
stored_details no_details = none
stored_details d = some d

-- `details or None`, as the constructor of an error reads it
abbrev pub restored_details : Option Details → Details
restored_details none = no_details
restored_details (some d) = d

-- A dictionary `{error_type.code: error_type for error_type in kinds}` asked for a code.
unfoldable pub find_code : String → List ErrorKind → Option ErrorKind
unfolding code
find_code c [] = none
find_code c (k ∷ ks) = if code k == c then some k else find_code c ks

abbrev pub or_else : Option ErrorKind → ErrorKind → ErrorKind
or_else none k = k
or_else (some j) k = j

pub data Result {ℓ} (A : Type ℓ) : Type ℓ where
  ok : A → Result A
  err : McpError → Result A

infixl 10 ◌>>=◌
abbrev pub ◌>>=◌ {ℓ κ} : {A : Type ℓ} {B : Type κ} → Result A → (A → Result B) → Result B
ok a >>= f = f a
err e >>= f = err e
