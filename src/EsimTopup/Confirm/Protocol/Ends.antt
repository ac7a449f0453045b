-- ===== src/EsimTopup/Confirm/Protocol/Ends.antt =====
-- `finish`, the part of a call that records what the platform answered, keeps the invariant.
use esim_opensource_mcp.Prelude.{
  String, Bool, true, false, Option, none, some, Dict, lookup, ◌≡◌, refl, inl, inr, Bool-cases,
  subst, ◌∙◌,
}
use esim_opensource_mcp.Errors.{McpError, Result, ok, err}
use esim_opensource_mcp.Backend.{
  Answer, timed_out, unreachable, answered, BackendOutcome, is_success, outcome_of, outcome_data,
  outcome_hint, effective_status,
}
use esim_opensource_mcp.Topup.{EsimTopupQuote}
use esim_opensource_mcp.Topup.Quotes.{consume_esim}
use esim_opensource_mcp.Topup.Execution.{
  EsimTopupExecution, failed, unresolved, mark_succeeded, mark_failed, mark_unresolved,
  succeeded_with, unsuccessful,
}
use esim_opensource_mcp.World.{World}
use esim_opensource_mcp.EsimTopup.Failure.{
  BackendLegacyTopupResult, confirmed, parse_legacy_topup_result, outcome_unknown,
  classify_topup_failure,
}
use esim_opensource_mcp.EsimTopup.Confirm.{Call, TopupConfirmation}
use esim_opensource_mcp.EsimTopup.Confirm.Finish.{
  finish, on_outcome, on_success, on_failure, complete, consumed, leave_unresolved,
  completed_result,
}
use esim_opensource_mcp.EsimTopup.Confirm.Protocol.{times_sent}
use esim_opensource_mcp.EsimTopup.Confirm.Protocol.Invariant.{Good, At, Hold, free, taken}
use esim_opensource_mcp.EsimTopup.Confirm.Protocol.Records.{consumed-Good}
use esim_opensource_mcp.EsimTopup.Confirm.Protocol.Locks.{
  over, save_in, Variant, At-over, taken-quote, save-Good,
}

received-Good :
    (w : World) (locks : String → Hold) (receipt : TopupConfirmation) (r : Result EsimTopupQuote)
    (quotes : Dict EsimTopupQuote)
    → Good (record w { esim_quotes = quotes }) locks
    → Good (consumed receipt w (r, quotes)).1 locks
received-Good w locks receipt (err e) quotes g = g
received-Good w locks receipt (ok q) quotes g = g

module _ (w : World) (locks : String → Hold) (k : String) (c : Call) (l : locks k ≡ taken 1 1 c)
    (g : Good w locks) where
  -- An execution whose call is over is stored, and the lock let go.
  over-Good :
      (f : EsimTopupExecution) → Variant c.execution f → Good (save_in f w) (over k free locks)
  over-Good f v =
      let a =
        subst
          (λ h.
            At k (lookup k w.esim_quotes) (lookup k w.esim_executions) h
              (times_sent k w.topups_sent))
          l (g.each k) in
      save-Good w locks k f free (v.0 ∙ (taken-quote k _ _ _ 1 1 c a).1)
        (At-over k _ _ _ 1 1 c f v a) g

  leave_unresolved-Good :
      (error : McpError) → Good (leave_unresolved c error w).1 (over k free locks)
  unfolding leave_unresolved mark_unresolved
  leave_unresolved-Good error =
      over-Good (unsuccessful error unresolved c.execution) (refl, refl, refl, refl)

  complete-Good : (r : BackendLegacyTopupResult) → Good (complete c r w).1 (over k free locks)
  unfolding complete mark_succeeded
  complete-Good r =
      let receipt = completed_result c.quote r in
      let f = succeeded_with receipt c.execution in
      let end = consume_esim c.owner c.quote.quote_id w.esim_quotes in
      received-Good (save_in f w) (over k free locks)
        (record { receipt = receipt; replayed = false }) end.0 end.1
        (consumed-Good (save_in f w) (over k free locks) (over-Good f (refl, refl, refl, refl))
          c.owner c.quote.quote_id)

  on_success-Good :
      (r : Option BackendLegacyTopupResult) → Good (on_success c r w).1 (over k free locks)
  unfolding on_success
  on_success-Good none = leave_unresolved-Good outcome_unknown
  on_success-Good (some r) = elim (Bool-cases (confirmed r)) [
    | inl good ↦ rw good (complete-Good r)
    | inr bad ↦ rw bad (leave_unresolved-Good outcome_unknown)
  ]

  on_failure-Good :
      (error : McpError) (uncharged : Bool)
      → Good (on_failure c (error, uncharged) w).1 (over k free locks)
  unfolding on_failure mark_failed
  on_failure-Good error true =
      over-Good (unsuccessful error failed c.execution) (refl, refl, refl, refl)
  on_failure-Good error false = leave_unresolved-Good error

  on_outcome-Good :
      (o : BackendOutcome BackendLegacyTopupResult) → Good (on_outcome c o w).1 (over k free locks)
  unfolding on_outcome
  on_outcome-Good o =
      let failure = classify_topup_failure (effective_status o) (outcome_hint o) o.parsed in
      elim (Bool-cases (is_success o)) [
        | inl good ↦ rw good (on_success-Good (parse_legacy_topup_result (outcome_data o)))
        | inr bad ↦ rw bad (on_failure-Good failure.0 failure.1)
      ]

  pub finish-Good :
      (a : Answer BackendLegacyTopupResult) → Good (finish c a w).1 (over k free locks)
  unfolding finish
  finish-Good timed_out = leave_unresolved-Good outcome_unknown
  finish-Good unreachable = leave_unresolved-Good outcome_unknown
  finish-Good (answered r) = on_outcome-Good (outcome_of r)
