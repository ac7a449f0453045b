-- ===== src/Purchase/Failure/Charges.antt =====
-- What the classification of an unsuccessful answer allows to be done next.
use esim_opensource_mcp.Prelude.{
  ℕ, ◌≤◌, String, Bool, true, false, ◌||◌, eqb, ◌≡◌, ◌≢◌, ◌↔◌, arith, ◌⊎◌,
}
use esim_opensource_mcp.Errors.{purchase_outcome_unknown, purchase_manual_intervention}
use esim_opensource_mcp.Backend.{Payload, is_2xx}
use esim_opensource_mcp.Purchase.Failure.{
  BackendPurchaseResult, escalate, unresolved, retryable, classify_failure,
}

-- The statuses after which the same purchase may be sent again at once, and is not recorded.
abbrev pub may_retry : ℕ → Bool
may_retry s = eqb s 401 || eqb s 403 || eqb s 404 || eqb s 429 || eqb s 503

-- An unsuccessful answer releases the execution for an immediate retry exactly on the statuses
-- 401, 403, 404, 429 and 503.
pub classify_failure-retryable :
    (status : ℕ) (hint : String) (parsed : Bool) (data_payload : Payload BackendPurchaseResult)
    → ((classify_failure status hint parsed data_payload).1 ≡ retryable) ↔ (may_retry status ≡ true)
unfolding classify_failure
classify_failure-retryable status hint parsed p = ((λ h. ground arith), λ h. ground arith)

-- An answer is escalated to the support exactly on the status 424, and then the error is the one
-- that asks for manual intervention.
pub classify_failure-escalate :
    (status : ℕ) (hint : String) (parsed : Bool) (data_payload : Payload BackendPurchaseResult)
    → (((classify_failure status hint parsed data_payload).1 ≡ escalate) ↔ (status ≡ 424))
      × (status ≡ 424
          → (classify_failure status hint parsed data_payload).0.kind
            ≡ purchase_manual_intervention)
unfolding classify_failure
classify_failure-escalate status hint parsed p =
    (((λ h. ground arith), λ h. ground arith), λ h. ground arith)

-- A server error other than 503, and a success that cannot be read, never end the execution: the
-- outcome is unknown and stays open.
pub classify_failure-unresolved :
    (status : ℕ) (hint : String) (parsed : Bool) (data_payload : Payload BackendPurchaseResult)
    → ((500 ≤ status) × (status ≢ 503)) ⊎ ((parsed ≡ false) × (is_2xx status ≡ true))
    → ((classify_failure status hint parsed data_payload).0.kind ≡ purchase_outcome_unknown)
      × ((classify_failure status hint parsed data_payload).1 ≡ unresolved)
unfolding classify_failure
classify_failure-unresolved status hint parsed p h = ground arith
