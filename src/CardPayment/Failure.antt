-- ===== src/CardPayment/Failure.antt =====
-- The classification of unsuccessful answers in tools/card_checkout.py.
use esim_opensource_mcp.Prelude.{
  ℕ, String, Bool, not, ◌&&◌, ◌||◌, List, [], ◌∷◌, eqb, leb, if◌then◌else◌, strip, lower,
}
use esim_opensource_mcp.Errors.{
  ErrorKind, McpError, plain, authentication_required, card_checkout_unavailable, rate_limited,
  card_checkout_outcome_unknown, idempotency_conflict, card_checkout_rejected, bundle_unavailable,
  purchase_currency_mismatch, non_card_quote, card_payment_status_unavailable,
}
use esim_opensource_mcp.Backend.{is_2xx}
use esim_opensource_mcp.Purchase.Failure.{names_one, match_business}

pub data Disposition : Type 0 where
  terminal unresolved retryable : Disposition

-- `_BUSINESS_ERROR_MATCHERS`
abbrev pub checkout_matchers : List (List String × ErrorKind)
checkout_matchers =
    ("bundle_not_available" ∷ "bundle not available" ∷ [], bundle_unavailable)
    ∷ ("unsupported_currency" ∷ "unsupported currency" ∷ [], purchase_currency_mismatch)
    ∷ ("unsupported_payment_type" ∷ "unsupported payment" ∷ [], non_card_quote)
    ∷ []

abbrev still_running : List ℕ → Bool
still_running lowered = names_one lowered ("in_progress" ∷ "in progress" ∷ "still processing" ∷ [])

unfoldable pub classify_checkout_failure : ℕ → String → Bool → McpError × Disposition
unfolding strip lower names_one match_business
classify_checkout_failure status hint parsed =
    let lowered = lower (strip hint) in
    if eqb status 401 || eqb status 403
    then (plain authentication_required, retryable)
    else if eqb status 404
    then (plain card_checkout_unavailable, retryable)
    else if eqb status 429
    then (plain rate_limited, retryable)
    else if eqb status 409
    then (if still_running lowered
        then (plain card_checkout_outcome_unknown, unresolved)
        else (plain idempotency_conflict, terminal))
    else if eqb status 400 || eqb status 422
    then (plain (match_business lowered checkout_matchers card_checkout_rejected), terminal)
    else if eqb status 503
    then (plain card_checkout_unavailable, retryable)
    else if not parsed && is_2xx status
    then (plain card_checkout_outcome_unknown, unresolved)
    else if leb 500 status
    then (plain card_checkout_outcome_unknown, unresolved)
    else (plain card_checkout_rejected, terminal)

unfoldable pub classify_status_failure : ℕ → McpError
classify_status_failure status =
    if eqb status 401 || eqb status 403
    then plain authentication_required
    else if eqb status 429
    then plain rate_limited
    else plain card_payment_status_unavailable
