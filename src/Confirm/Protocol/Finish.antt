-- ===== src/Confirm/Protocol/Finish.antt =====
-- `continue_refreshed` and `finish`: the parts of a call that has counted its attempt.
use esim_opensource_mcp.Prelude.{
  String, Option, none, some, List, Dict, lookup, Bool-cases, inl, inr, ◌≡◌, arith, refl, subst,
  ◌∙◌,
}
use esim_opensource_mcp.Errors.{McpError, Result, ok, err, plain, purchase_outcome_unknown}
use esim_opensource_mcp.Session.{UserSession, AuthAnswer}
use esim_opensource_mcp.Backend.{
  Answer, timed_out, unreachable, answered, BackendOutcome, is_success, outcome_of, outcome_data,
  outcome_hint, effective_status,
}
use esim_opensource_mcp.Purchase.{PurchaseQuote}
use esim_opensource_mcp.Purchase.Service.{consume}
use esim_opensource_mcp.Purchase.Execution.{
  PurchaseExecution, ExecutionStatus, failed, unresolved, escalated, mark_succeeded, mark_failed,
  mark_unresolved, mark_escalated, mark_unsuccessful, unsuccessful, succeeded_with,
}
use esim_opensource_mcp.Purchase.Failure.{
  BackendPurchaseResult, Disposition, escalate, terminal, retryable, is_completed, classify_failure,
  parse_purchase_result,
}
use esim_opensource_mcp.Purchase.Failure
use esim_opensource_mcp.World.{World}
use esim_opensource_mcp.World.Manager.{
  refresh_finish, notify_invalidated, delete_session, save_session, rotated,
}
use esim_opensource_mcp.Confirm.{
  Call, Confirmation, continue_refreshed, finish, leave_unresolved, complete, on_success,
  on_failure, on_outcome, completed_result, consumed,
}
use esim_opensource_mcp.Confirm.Protocol.{sent_keys}
use esim_opensource_mcp.Confirm.Protocol.Invariant.{Good, At, Hold, free, counted, sent_call}
use esim_opensource_mcp.Confirm.Protocol.Records.{
  notify_invalidated-Good, consume_in-Good, elsewhere-Good,
}
use esim_opensource_mcp.Confirm.Protocol.Locks.{
  over, save_in, Variant, At-over, save-Good, send-Good, release-Good,
}
use esim_opensource_mcp.Confirm.Protocol.Begin.{Reached}

-- The call that has the lock is about the quote of the lock.
counted-quote :
    (k : String) (oq : Option PurchaseQuote) (oe : Option PurchaseExecution) (h : Hold) (c : Call)
    (keys : List String)
    → h ≡ counted c
    → At k oq oe h keys
    → c.quote.quote_id ≡ k
counted-quote k none oe h c keys e a = absurd (ground arith)
counted-quote k (some q) oe h c keys e a = ground (arith, subst (λ i. At k (some q) oe i keys) e a)

sent-execution :
    (k : String) (oq : Option PurchaseQuote) (oe : Option PurchaseExecution) (c : Call)
    (keys : List String)
    → At k oq oe (sent_call c) keys
    → c.execution.quote_id ≡ k
sent-execution k none oe c keys a = absurd (ground arith)
sent-execution k (some q) oe c keys a = a.2.1.0 ∙ a.0

consumed-Good :
    (w : World) (locks : String → Hold) (receipt : Confirmation) (r : Result PurchaseQuote)
    (quotes : Dict PurchaseQuote)
    → Good (record w { quotes = quotes }) locks
    → Good (consumed receipt w (r, quotes)).1 locks
consumed-Good w locks receipt (err e) quotes g = g
consumed-Good w locks receipt (ok q) quotes g = g

module _ (w : World) (locks : String → Hold) (k : String) where
  session_lost :
      (sk : String) → Good w locks → Good (notify_invalidated sk (delete_session sk w)) locks
  unfolding delete_session
  session_lost sk g =
      notify_invalidated-Good (delete_session sk w) locks
        (elsewhere-Good w locks g (delete_session sk w) (refl, refl, refl)) sk

  session_saved : (s : UserSession) → Good w locks → Good (save_session s w) locks
  unfolding save_session
  session_saved s g = elsewhere-Good w locks g (save_session s w) (refl, refl, refl)

  pub continue_refreshed-Good :
      (c : Call) (s : UserSession) (auth : Option AuthAnswer)
      → locks k ≡ counted c
      → Good w locks
      → Reached k locks (continue_refreshed c s auth w)
  unfolding continue_refreshed refresh_finish
  continue_refreshed-Good c s none l g =
      let sk = c.owner.session_key in
      release-Good (notify_invalidated sk (delete_session sk w)) k locks (session_lost sk g)
  continue_refreshed-Good c s (some auth) l g =
      let s1 = rotated auth s in
      send-Good (save_session s1 w) locks k c s1 l (counted-quote k _ _ (locks k) c _ l (g.each k))
        (session_saved s1 g)

  -- An execution whose call is over is stored, and the lock let go.
  over-Good :
      (c : Call) (f : PurchaseExecution)
      → Variant c.execution f
      → locks k ≡ sent_call c
      → Good w locks
      → Good (save_in f w) (over k free locks)
  over-Good c f v l g =
      let a =
        subst (λ h. At k (lookup k w.quotes) (lookup k w.executions) h (sent_keys k w.sent)) l
          (g.each k) in
      save-Good w locks k f free (v.0 ∙ sent-execution k _ _ c _ a) (At-over k _ _ c _ f v a) g

  -- Any unsuccessful end that is recorded.
  unsuccessful-Good :
      (c : Call) (error : McpError) (status : ExecutionStatus)
      → locks k ≡ sent_call c
      → Good w locks
      → Good
          (record w { executions = mark_unsuccessful c.execution error status w.executions })
          (over k free locks)
  unfolding mark_unsuccessful
  unsuccessful-Good c error status l g =
      over-Good c (unsuccessful error status c.execution) (refl, refl, refl, refl, refl) l g

  leave_unresolved-Good :
      (c : Call)
      → locks k ≡ sent_call c
      → Good w locks
      → Good (leave_unresolved c w).1 (over k free locks)
  unfolding leave_unresolved mark_unresolved
  leave_unresolved-Good c l g = unsuccessful-Good c (plain purchase_outcome_unknown) unresolved l g

  complete-Good :
      (c : Call) (r : BackendPurchaseResult)
      → locks k ≡ sent_call c
      → Good w locks
      → Good (complete c r w).1 (over k free locks)
  unfolding complete mark_succeeded
  complete-Good c r l g =
      let receipt = completed_result c.quote r in
      let f = succeeded_with receipt c.execution in
      let g1 = over-Good c f (refl, refl, refl, refl, refl) l g in
      let end = consume c.owner c.quote.quote_id w.quotes in
      consumed-Good (save_in f w) (over k free locks)
        (record { receipt = receipt; replayed = r.idempotent_replay }) end.0 end.1
        (consume_in-Good (save_in f w) (over k free locks) g1 c.owner c.quote.quote_id)

  on_success-Good :
      (c : Call) (r : Option BackendPurchaseResult)
      → locks k ≡ sent_call c
      → Good w locks
      → Good (on_success c r w).1 (over k free locks)
  unfolding on_success
  on_success-Good c none l g = leave_unresolved-Good c l g
  on_success-Good c (some r) l g = elim (Bool-cases (is_completed r)) [
    | inl good ↦ rw good (complete-Good c r l g)
    | inr bad ↦ rw bad (leave_unresolved-Good c l g)
  ]

  on_failure-Good :
      (c : Call) (error : McpError) (disposition : Disposition)
      → locks k ≡ sent_call c
      → Good w locks
      → Good (on_failure c (error, disposition) w).1 (over k free locks)
  unfolding on_failure mark_failed mark_unresolved mark_escalated
  on_failure-Good c error escalate l g = unsuccessful-Good c error escalated l g
  on_failure-Good c error terminal l g = unsuccessful-Good c error failed l g
  on_failure-Good c error Failure.unresolved l g = unsuccessful-Good c error unresolved l g
  on_failure-Good c error retryable l g = release-Good w k locks g

  on_outcome-Good :
      (c : Call) (o : BackendOutcome BackendPurchaseResult)
      → locks k ≡ sent_call c
      → Good w locks
      → Good (on_outcome c o w).1 (over k free locks)
  unfolding on_outcome
  on_outcome-Good c o l g =
      let failure =
        classify_failure (effective_status o) (outcome_hint o) o.parsed (outcome_data o) in
      elim (Bool-cases (is_success o)) [
        | inl good ↦ rw good (on_success-Good c (parse_purchase_result (outcome_data o)) l g)
        | inr bad ↦ rw bad (on_failure-Good c failure.0 failure.1 l g)
      ]

  pub finish-Good :
      (c : Call) (a : Answer BackendPurchaseResult)
      → locks k ≡ sent_call c
      → Good w locks
      → Good (finish c a w).1 (over k free locks)
  unfolding finish
  finish-Good c timed_out l g = leave_unresolved-Good c l g
  finish-Good c unreachable l g = leave_unresolved-Good c l g
  finish-Good c (answered r) l g = on_outcome-Good c (outcome_of r) l g
