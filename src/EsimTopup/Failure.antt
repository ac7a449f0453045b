-- ===== src/EsimTopup/Failure.antt =====
-- What an answer to a top-up is taken to mean: `BackendLegacyTopupResult` of models/purchase.py
-- and `_classify_topup_failure` of tools/esim_topup.py.
use esim_opensource_mcp.Prelude.{
  ℕ, String, Bool, true, false, not, ◌&&◌, ◌||◌, ◌==◌, Option, none, some, List, [], ◌∷◌, eqb,
  if◌then◌else◌, strip, lower, or_empty,
}
use esim_opensource_mcp.Errors.{
  ErrorKind, McpError, plain, unknown_topup, authentication_required, rate_limited,
  esim_topup_rejected, esim_topup_outcome_unknown, insufficient_wallet_balance, wallet_unavailable,
  topup_bundle_incompatible,
}
use esim_opensource_mcp.Backend.{Payload, not_object, refused, accepted}
use esim_opensource_mcp.Purchase.Failure.{is_completed_word, match_business}

pub record BackendLegacyTopupResult : Type 0 where
  pub order_id : Option String
  pub payment_status : Option String

-- `is_completed`
unfoldable pub is_completed : BackendLegacyTopupResult → Bool
unfolding is_completed_word
is_completed r = is_completed_word r.payment_status

-- `parse_legacy_topup_result`
abbrev pub parse_legacy_topup_result :
    Payload BackendLegacyTopupResult → Option BackendLegacyTopupResult
parse_legacy_topup_result not_object = none
parse_legacy_topup_result refused = none
parse_legacy_topup_result (accepted r) = some r

-- `result is not None and result.order_id and result.is_completed`
unfoldable pub confirmed : BackendLegacyTopupResult → Bool
unfolding is_completed
confirmed r = not (or_empty r.order_id == "") && is_completed r

-- `_BUSINESS_ERROR_MATCHERS`
abbrev pub topup_matchers : List (List String × ErrorKind)
topup_matchers =
    ("insufficient_wallet_balance" ∷ "insufficient wallet" ∷ [], insufficient_wallet_balance)
    ∷ ("wallet_not_found" ∷ "wallet not found" ∷ [], wallet_unavailable)
    ∷ ("bundle_not_available" ∷ "bundle not available" ∷ [], topup_bundle_incompatible)
    ∷ ("invalid_payment_type" ∷ "payment type" ∷ [], esim_topup_rejected)
    ∷ []

abbrev pub outcome_unknown : McpError
outcome_unknown = record { kind = esim_topup_outcome_unknown; details = unknown_topup }

-- The truth value says that nothing was charged.
unfoldable pub classify_topup_failure : ℕ → String → Bool → McpError × Bool
unfolding strip lower match_business
classify_topup_failure status hint parsed =
    let lowered = lower (strip hint) in
    if eqb status 401 || eqb status 403
    then (plain authentication_required, true)
    else if eqb status 404
    then (plain esim_topup_rejected, true)
    else if eqb status 429
    then (plain rate_limited, true)
    else if (eqb status 400 || (eqb status 409 || eqb status 422)) && parsed
    then (plain (match_business lowered topup_matchers esim_topup_rejected), true)
    else (outcome_unknown, false)
