-- ===== src/Topup/Execution/Once.antt =====
-- The top-up of an eSIM has no idempotency key, so it may be sent once and never again.
use esim_opensource_mcp.Prelude.{◌≤◌, Dict, ◌≡◌, ◌≢◌, arith, eq_refl, refl, sym, ◌∙◌}
use esim_opensource_mcp.Errors.{McpError, err, plain, esim_topup_already_attempted}
use esim_opensource_mcp.Owner.{QuoteOwner}
use esim_opensource_mcp.Records.Laws
use esim_opensource_mcp.Topup.Execution.{
  EsimTopupExecution, ExecutionStatus, TopupReceipt, execution_owned, get, save, acquire, attempted,
  succeeded_with, unsuccessful, require_never_attempted, was_sent,
}

-- What the service makes of an execution whose attempt was recorded.
pub data Later (e : EsimTopupExecution) : EsimTopupExecution → Type 0 where
  sent : Later e (attempted e)
  completed : {f : EsimTopupExecution} (r : TopupReceipt) → Later e f → Later e (succeeded_with r f)
  ended :
      {f : EsimTopupExecution} (error : McpError) (status : ExecutionStatus)
      → Later e f
      → Later e (unsuccessful error status f)

abbrev Same : EsimTopupExecution → EsimTopupExecution → Type 0
Same e f =
    (f.quote_id ≡ e.quote_id)
    × (f.owner_session_key ≡ e.owner_session_key)
    × (f.owner_user_ref ≡ e.owner_user_ref)
    × (1 ≤ f.attempts)

Later-Same : (e f : EsimTopupExecution) → Later e f → Same e f
Later-Same e f sent = (refl, refl, refl, omega arith)
Later-Same e f (completed r l) = Later-Same e _ l
Later-Same e f (ended error status l) = Later-Same e _ l

-- Once an attempt of its owner was recorded, whatever became of it, the stored execution is what the
-- owner acquires, and the gate before a send refuses it.
pub once :
    (owner : QuoteOwner) (e f : EsimTopupExecution) (d : Dict EsimTopupExecution)
    → e.owner_session_key ≡ owner.session_key
    → e.owner_user_ref ≡ owner.user_ref
    → e.quote_id ≢ ""
    → Later e f
    → (acquire owner e.quote_id (save f d) ≡ (f, save f d))
      × (require_never_attempted f ≡ err (plain esim_topup_already_attempted))
unfolding acquire get save require_never_attempted was_sent
once owner e f d s u n l =
    let (i, session, user, tried) = Later-Same e f l in
    (
      rw
          (Laws.get_of_lookup execution_owned owner e.quote_id (save f d) f
            (Laws.lookup-save execution_owned f e.quote_id d ∙ rw (i, eq_refl e.quote_id) refl)
            (sym s ∙ sym session) (sym u ∙ sym user) n)
          refl,
      ground arith,
    )
