-- ===== src/Confirm/Retry.antt =====
-- A purchase whose answer was lost, and the confirmation that tries again.
use esim_opensource_mcp.Prelude.{
  ℕ, ◌<◌, String, true, false, some, lookup, ◌≡◌, eq_refl, refl, ◌∙◌, ◌⊎◌, inl, inr,
}
use esim_opensource_mcp.Errors.{Result, err, purchase_outcome_unknown, unknown_purchase, plain}
use esim_opensource_mcp.Owner.{QuoteOwner}
use esim_opensource_mcp.Backend.{Answer, timed_out, unreachable}
use esim_opensource_mcp.Quotes.{is_usable}
use esim_opensource_mcp.Purchase.{PurchaseQuote, same_method, wallet, not_covered}
use esim_opensource_mcp.Purchase.Execution.{
  PurchaseExecution, unresolved, is_terminal, attempted, max_execution_attempts, mark_unresolved,
  mark_unsuccessful, attempts_remaining, unsuccessful,
}
use esim_opensource_mcp.Purchase.Execution.Laws.{lookup-save}
use esim_opensource_mcp.Purchase.Failure.{BackendPurchaseResult}
use esim_opensource_mcp.World.{World}
use esim_opensource_mcp.Confirm.{Call, Confirmation, finish, leave_unresolved}

-- When a confirmation may be sent: the quote is usable, for the wallet, and covered by it, and
-- there are attempts left.
abbrev pub Confirmable : PurchaseQuote → PurchaseExecution → ℕ → Type 0
Confirmable q e now =
    (is_usable q now ≡ true)
    × (same_method q.terms.payment_method wallet ≡ true)
    × (not_covered q.terms.wallet_snapshot ≡ false)
    × (e.attempts < max_execution_attempts)

abbrev pub sending : PurchaseQuote → PurchaseExecution → QuoteOwner → String → Call
sending q e owner device_id = record {
  quote = q;
  execution = attempted e;
  owner = owner;
  device_id = device_id;
}

-- The end of a call whose outcome is not known.
abbrev pub LeftOpen : Call → World → Result Confirmation × World → Type 0
LeftOpen c w (r, v) =
    (r
      ≡ err (record {
        kind = purchase_outcome_unknown;
        details = unknown_purchase (attempts_remaining c.execution);
      }))
    × (v.quotes ≡ w.quotes)
    × ((e : PurchaseExecution) × (lookup c.execution.quote_id v.executions ≡ some e)
        × (is_terminal e.status ≡ false)
        × (e.idempotency_key ≡ c.execution.idempotency_key)
        × (e.attempts ≡ c.execution.attempts))

leave_unresolved-LeftOpen : (c : Call) (w : World) → LeftOpen c w (leave_unresolved c w)
unfolding leave_unresolved mark_unresolved mark_unsuccessful is_terminal
leave_unresolved-LeftOpen c w =
    let e = unsuccessful (plain purchase_outcome_unknown) unresolved c.execution in
    let id = c.execution.quote_id in
    (refl, refl, (e, lookup-save e id w.executions ∙ rw (eq_refl id) refl, refl, refl, refl))

-- When the answer is lost, be it by a timeout or for want of a connection, the caller is told that
-- the outcome is unknown and how many attempts are left; the stored execution keeps its key and
-- its count and has not ended, and the stored quotes stay as they are.
pub finish-LeftOpen :
    (c : Call) (a : Answer BackendPurchaseResult) (w : World)
    → (a ≡ timed_out) ⊎ (a ≡ unreachable)
    → LeftOpen c w (finish c a w)
unfolding finish
finish-LeftOpen c a w (inl h) = rw h (leave_unresolved-LeftOpen c w)
finish-LeftOpen c a w (inr h) = rw h (leave_unresolved-LeftOpen c w)
