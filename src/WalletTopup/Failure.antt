-- ===== src/WalletTopup/Failure.antt =====
-- The classification of unsuccessful answers in tools/wallet_topup.py.
use esim_opensource_mcp.Prelude.{
  ℕ, String, Bool, not, ◌&&◌, ◌||◌, List, [], ◌∷◌, eqb, leb, if◌then◌else◌, strip, lower,
}
use esim_opensource_mcp.Errors.{
  ErrorKind, McpError, plain, authentication_required, rate_limited, wallet_topup_amount_invalid,
  wallet_topup_limit_reached, wallet_topup_unavailable, wallet_topup_rejected,
  wallet_topup_outcome_unknown, wallet_topup_status_unavailable,
}
use esim_opensource_mcp.Backend.{is_2xx}
use esim_opensource_mcp.Purchase.Failure.{match_business}

pub data Disposition : Type 0 where
  terminal unresolved retryable : Disposition

-- `_BUSINESS_ERROR_MATCHERS`
abbrev pub topup_checkout_matchers : List (List String × ErrorKind)
topup_checkout_matchers =
    ("invalid_top_up_amount" ∷ "top up amount" ∷ [], wallet_topup_amount_invalid)
    ∷ ("top_up_limit_reached" ∷ "maximum number of top-ups" ∷ [], wallet_topup_limit_reached)
    ∷ ("top_up_amount_limit_exceeded" ∷ "maximum daily top-up" ∷ [], wallet_topup_limit_reached)
    ∷ ("mcp_unsupported_currency" ∷ "unsupported currency" ∷ [], wallet_topup_rejected)
    ∷ []

unfoldable pub classify_checkout_failure : ℕ → String → Bool → McpError × Disposition
unfolding strip lower match_business
classify_checkout_failure status hint parsed =
    let lowered = lower (strip hint) in
    if eqb status 401 || eqb status 403
    then (plain authentication_required, retryable)
    else if eqb status 404
    then (plain wallet_topup_unavailable, retryable)
    else if eqb status 429
    then (plain rate_limited, retryable)
    else if eqb status 400 || eqb status 422
    then (plain (match_business lowered topup_checkout_matchers wallet_topup_rejected), terminal)
    else if eqb status 503
    then (plain wallet_topup_unavailable, retryable)
    else if not parsed && is_2xx status
    then (plain wallet_topup_outcome_unknown, unresolved)
    else if leb 500 status
    then (plain wallet_topup_outcome_unknown, unresolved)
    else (plain wallet_topup_rejected, terminal)

unfoldable pub classify_status_failure : ℕ → McpError
classify_status_failure status =
    if eqb status 401 || eqb status 403
    then plain authentication_required
    else if eqb status 429
    then plain rate_limited
    else plain wallet_topup_status_unavailable
