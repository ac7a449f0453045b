-- ===== src/Purchase/Failure.antt =====
-- models/purchase.py and the classification of tools/purchase_execution.py: what an answer to a
-- purchase is taken to mean.
pub mod Charges
use esim_opensource_mcp.Prelude.{
  ℕ, String, Bool, true, false, not, ◌&&◌, ◌||◌, ◌==◌, Option, none, some, List, [], ◌∷◌, any, eqb,
  leb, if◌then◌else◌, strip, lower, contains, codes, eq_codes, or_empty,
}
use esim_opensource_mcp.Errors.{
  ErrorKind, McpError, support, plain, purchase_manual_intervention, authentication_required,
  purchase_route_unavailable, rate_limited, purchase_in_progress, idempotency_conflict,
  purchase_rejected, purchase_unavailable, purchase_outcome_unknown, insufficient_wallet_balance,
  wallet_unavailable, bundle_unavailable, purchase_currency_mismatch, non_wallet_quote,
}
use esim_opensource_mcp.Backend.{Payload, not_object, refused, accepted, is_2xx}

pub record BackendPurchaseResult : Type 0 where
  pub status : Option String
  pub order_id : Option String
  pub payment_status : Option String
  pub order_status : Option String
  pub idempotent_replay : Bool
  pub provisioning_status : Option String
  pub next_action : Option String

-- `strip().upper() == "COMPLETED"`: case is folded down instead
unfoldable pub is_completed_word : Option String → Bool
unfolding strip lower eq_codes
is_completed_word status = eq_codes (lower (strip (or_empty status))) (codes "completed")

unfoldable pub is_completed : BackendPurchaseResult → Bool
unfolding is_completed_word
is_completed r = is_completed_word r.status

unfoldable pub parse_purchase_result : Payload BackendPurchaseResult → Option BackendPurchaseResult
parse_purchase_result not_object = none
parse_purchase_result refused = none
parse_purchase_result (accepted r) = some r

pub data Disposition : Type 0 where
  escalate terminal unresolved retryable : Disposition

-- `_BUSINESS_ERROR_MATCHERS`
abbrev pub business_matchers : List (List String × ErrorKind)
business_matchers =
    ("insufficient_wallet_balance" ∷ "insufficient wallet" ∷ [], insufficient_wallet_balance)
    ∷ ("wallet_not_found" ∷ "wallet not found" ∷ [], wallet_unavailable)
    ∷ ("bundle_not_available" ∷ "bundle not available" ∷ [], bundle_unavailable)
    ∷ ("unsupported_currency" ∷ "unsupported currency" ∷ [], purchase_currency_mismatch)
    ∷ ("unsupported_payment_type" ∷ "unsupported payment" ∷ [], non_wallet_quote)
    ∷ []

-- `any(needle in lowered for needle in needles)`
unfoldable pub names_one : List ℕ → List String → Bool
unfolding contains
names_one lowered [] = false
names_one lowered (needle ∷ needles) = contains (codes needle) lowered || names_one lowered needles

unfoldable pub match_business : List ℕ → List (List String × ErrorKind) → ErrorKind → ErrorKind
unfolding names_one
match_business lowered [] default = default
match_business lowered ((needles, kind) ∷ rest) default =
    if names_one lowered needles then kind else match_business lowered rest default

abbrev order_id_of : Option BackendPurchaseResult → Option String
order_id_of none = none
order_id_of (some r) = r.order_id

-- an empty order id is left out of the details
abbrev support_details : Option String → Option String
support_details none = none
support_details (some id) = if id == "" then none else some id

abbrev still_running : List ℕ → Bool
still_running lowered = names_one lowered ("in_progress" ∷ "in progress" ∷ "still processing" ∷ [])

unfoldable pub classify_failure :
    ℕ → String → Bool → Payload BackendPurchaseResult → McpError × Disposition
unfolding strip lower names_one match_business parse_purchase_result
classify_failure status hint parsed data_payload =
    let lowered = lower (strip hint) in
    if eqb status 424
    then (
      record {
        kind = purchase_manual_intervention;
        details = support (support_details (order_id_of (parse_purchase_result data_payload)));
      },
      escalate,
    )
    else if eqb status 401 || eqb status 403
    then (plain authentication_required, retryable)
    else if eqb status 404
    then (plain purchase_route_unavailable, retryable)
    else if eqb status 429
    then (plain rate_limited, retryable)
    else if eqb status 409
    then (if still_running lowered
        then (plain purchase_in_progress, unresolved)
        else (plain idempotency_conflict, terminal))
    else if eqb status 400 || eqb status 422
    then (plain (match_business lowered business_matchers purchase_rejected), terminal)
    else if eqb status 503
    then (plain purchase_unavailable, retryable)
    else if not parsed && is_2xx status
    then (plain purchase_outcome_unknown, unresolved)
    else if leb 500 status
    then (plain purchase_outcome_unknown, unresolved)
    else (plain purchase_rejected, terminal)
