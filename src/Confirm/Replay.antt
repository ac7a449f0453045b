-- ===== src/Confirm/Replay.antt =====
-- What a confirmation returns on a quote whose execution has ended, and after one that completed.
use esim_opensource_mcp.Prelude.{ℕ, String, some, lookup, insert, ◌≡◌, refl, ◌⊎◌, inl, inr}
use esim_opensource_mcp.Errors.{Result, ok, err}
use esim_opensource_mcp.Owner.{QuoteOwner}
use esim_opensource_mcp.Purchase.{PurchaseQuote}
use esim_opensource_mcp.Purchase.Service.{get_record}
use esim_opensource_mcp.Purchase.Service.Laws.{spent, get_record-ok}
use esim_opensource_mcp.Purchase.Execution.{
  PurchaseExecution, failed, escalated, is_terminal, replay_error, save, succeeded_with,
}
use esim_opensource_mcp.Purchase.Execution.Laws.{BelongsTo, acquire_stored}
use esim_opensource_mcp.Purchase.Failure.{BackendPurchaseResult}
use esim_opensource_mcp.World.{World}
use esim_opensource_mcp.Confirm.{
  Call, done, Confirmation, begin, replay_if_terminal, completed_result,
}

-- What stands stored for the caller of a repeated confirmation.
abbrev pub Stored : QuoteOwner → String → World → PurchaseQuote → PurchaseExecution → Type 0
Stored owner reference w q e =
    (get_record owner reference w.quotes ≡ ok q)
    × (lookup reference w.executions ≡ some e)
    × BelongsTo owner e

-- A confirmation of a quote whose execution has a result to replay returns it, and changes nothing.
begin-replay :
    (window now : ℕ) (device_id : String) (owner : QuoteOwner) (reference key : String) (w : World)
    (q : PurchaseQuote) (e : PurchaseExecution) (r : Result Confirmation)
    → Stored owner reference w q e
    → replay_if_terminal e ≡ some r
    → begin window now device_id owner reference key w ≡ (done r, w)
unfolding begin
begin-replay window now device_id owner reference key w q e r s h =
    let named = (get_record-ok owner reference w.quotes q s.0).3 in
    rw (s.0, acquire_stored owner reference key w.executions e named s.1 s.2, h) refl

-- A confirmation, by its owner, of a quote whose purchase was refused or escalated returns the
-- replayed error; it sends nothing and changes nothing.
pub begin-ended :
    (window now : ℕ) (device_id : String) (owner : QuoteOwner) (reference key : String) (w : World)
    (q : PurchaseQuote) (e : PurchaseExecution)
    → Stored owner reference w q e
    → (e.status ≡ failed) ⊎ (e.status ≡ escalated)
    → begin window now device_id owner reference key w ≡ (done (err (replay_error e)), w)
unfolding replay_if_terminal is_terminal
begin-ended window now device_id owner reference key w q e s (inl f) =
    begin-replay window now device_id owner reference key w q e _ s (rw f refl)
begin-ended window now device_id owner reference key w q e s (inr f) =
    begin-replay window now device_id owner reference key w q e _ s (rw f refl)

-- the state after a completed purchase
abbrev pub purchased : Call → PurchaseQuote → BackendPurchaseResult → World → World
purchased c q b w = record w {
  executions = save (succeeded_with (completed_result c.quote b) c.execution) w.executions;
  quotes = insert c.quote.quote_id (spent q) w.quotes;
}

-- The call has the quote and the execution of its owner, as `begin` gives them to it.
abbrev pub OwnCall : Call → World → PurchaseQuote → Type 0
OwnCall c w q =
    (c.execution.quote_id ≡ c.quote.quote_id)
    × BelongsTo c.owner c.execution
    × (get_record c.owner c.quote.quote_id w.quotes ≡ ok q)
