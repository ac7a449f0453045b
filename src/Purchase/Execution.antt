-- ===== src/Purchase/Execution.antt =====
-- purchase/execution.py: the execution record of a quote, its store, and the service that says
-- whether a purchase may be sent. Time stamps of the record are not modelled; nothing reads them.
pub mod Laws
use esim_opensource_mcp.Prelude.{
  ℕ, ◌+◌, ◌-◌, String, Bool, true, false, not, ◌==◌, Option, none, some, List, [], ◌∷◌, Dict, leb,
  if◌then◌else◌, or_empty,
}
use esim_opensource_mcp.Prelude.Int.{ℤ}
use esim_opensource_mcp.Errors.{
  ErrorKind, McpError, Details, Result, ok, err, plain, code, find_code, or_else, stored_details,
  restored_details, idempotency_conflict, insufficient_wallet_balance, non_wallet_quote,
  purchase_attempt_limit, purchase_currency_mismatch, purchase_in_progress,
  purchase_manual_intervention, purchase_outcome_unknown, purchase_rejected,
  purchase_route_unavailable, purchase_unavailable,
}
use esim_opensource_mcp.Owner.{QuoteOwner, Owned}
use esim_opensource_mcp.Records
use esim_opensource_mcp.Purchase.{PurchaseQuote, same_method, not_covered, wallet}

abbrev pub max_execution_attempts : ℕ
max_execution_attempts = 3

pub data ExecutionStatus : Type 0 where
  pending succeeded failed unresolved escalated : ExecutionStatus

unfoldable pub is_terminal : ExecutionStatus → Bool
is_terminal succeeded = true
is_terminal failed = true
is_terminal escalated = true
is_terminal _ = false

-- The facts of the result payload of a completed purchase; its sentences are not modelled.
pub record Receipt : Type 0 where
  pub quote_reference : String
  pub order_created : Bool
  pub charged : Bool
  pub bundle_code : String
  pub quoted_amount : ℤ
  pub currency : String
  pub order_id : Option String
  pub order_status : Option String
  pub payment_status : Option String
  pub provisioning_status : Option String
  pub next_state : Option String

pub record PurchaseExecution : Type 0 where
  pub quote_id : String
  pub owner_session_key : String
  pub owner_user_ref : String
  pub idempotency_key : String
  pub attempts : ℕ
  pub status : ExecutionStatus
  pub result : Option Receipt
  pub failure_code : Option String
  pub failure_details : Option Details

abbrev pub execution_owned : Owned PurchaseExecution
execution_owned = record {
  record_id = λ e. e.quote_id;
  session_of = λ e. e.owner_session_key;
  user_of = λ e. e.owner_user_ref;
}

-- `max(0, MAX_EXECUTION_ATTEMPTS - attempts)`
unfoldable pub attempts_remaining : PurchaseExecution → ℕ
attempts_remaining e = max_execution_attempts - e.attempts

-- `InMemoryPurchaseExecutionStore`
unfoldable pub get : QuoteOwner → String → Dict PurchaseExecution → Option PurchaseExecution
unfolding Records.get
get = Records.get execution_owned

unfoldable pub save : PurchaseExecution → Dict PurchaseExecution → Dict PurchaseExecution
unfolding Records.save
save = Records.save execution_owned

unfoldable pub invalidate_session : String → Dict PurchaseExecution → Dict PurchaseExecution × ℕ
unfolding Records.invalidate_session
invalidate_session = Records.invalidate_session execution_owned

-- `_REPLAYABLE_ERRORS`
abbrev pub replayable_errors : List ErrorKind
replayable_errors =
    idempotency_conflict ∷ insufficient_wallet_balance ∷ non_wallet_quote ∷ purchase_attempt_limit
    ∷ purchase_currency_mismatch ∷ purchase_in_progress ∷ purchase_manual_intervention
    ∷ purchase_outcome_unknown ∷ purchase_rejected ∷ purchase_route_unavailable
    ∷ purchase_unavailable ∷ []

unfoldable pub replay_error : PurchaseExecution → McpError
unfolding find_code
replay_error e = record {
  kind = or_else (find_code (or_empty e.failure_code) replayable_errors) purchase_outcome_unknown;
  details = restored_details e.failure_details;
}

-- The record that `acquire` makes on first use. The random key is an argument.
abbrev pub new_execution : QuoteOwner → String → String → PurchaseExecution
new_execution owner quote_id key = record {
  quote_id = quote_id;
  owner_session_key = owner.session_key;
  owner_user_ref = owner.user_ref;
  idempotency_key = key;
  attempts = 0;
  status = pending;
  result = none;
  failure_code = none;
  failure_details = none;
}

abbrev acquired :
    QuoteOwner
    → String
    → String
    → Dict PurchaseExecution
    → Option PurchaseExecution
    → PurchaseExecution × Dict PurchaseExecution
acquired owner quote_id key d (some e) = (e, d)
acquired owner quote_id key d none =
    (new_execution owner quote_id key, save (new_execution owner quote_id key) d)

unfoldable pub acquire :
    QuoteOwner
    → String
    → String
    → Dict PurchaseExecution
    → PurchaseExecution × Dict PurchaseExecution
unfolding get save
acquire owner quote_id key d = acquired owner quote_id key d (get owner quote_id d)

-- The other methods return the new record; the caller's `save` stores it.
abbrev pub attempted : PurchaseExecution → PurchaseExecution
attempted e = record e { attempts = e.attempts + 1 }

unfoldable pub record_attempt :
    PurchaseExecution → Dict PurchaseExecution → PurchaseExecution × Dict PurchaseExecution
unfolding save
record_attempt e d = (attempted e, save (attempted e) d)

abbrev pub succeeded_with : Receipt → PurchaseExecution → PurchaseExecution
succeeded_with r e = record e {
  status = succeeded;
  result = some r;
  failure_code = none;
  failure_details = none;
}

unfoldable pub mark_succeeded :
    PurchaseExecution → Receipt → Dict PurchaseExecution → Dict PurchaseExecution
unfolding save
mark_succeeded e r d = save (succeeded_with r e) d

abbrev pub unsuccessful : McpError → ExecutionStatus → PurchaseExecution → PurchaseExecution
unsuccessful error status e = record e {
  status = status;
  failure_code = some (code error.kind);
  failure_details = stored_details error.details;
}

unfoldable pub mark_unsuccessful :
    PurchaseExecution → McpError → ExecutionStatus → Dict PurchaseExecution → Dict PurchaseExecution
unfolding save code
mark_unsuccessful e error status d = save (unsuccessful error status e) d

unfoldable pub mark_failed :
    PurchaseExecution → McpError → Dict PurchaseExecution → Dict PurchaseExecution
unfolding mark_unsuccessful
mark_failed e error = mark_unsuccessful e error failed

unfoldable pub mark_unresolved :
    PurchaseExecution → McpError → Dict PurchaseExecution → Dict PurchaseExecution
unfolding mark_unsuccessful
mark_unresolved e error = mark_unsuccessful e error unresolved

unfoldable pub mark_escalated :
    PurchaseExecution → McpError → Dict PurchaseExecution → Dict PurchaseExecution
unfolding mark_unsuccessful
mark_escalated e error = mark_unsuccessful e error escalated

unfoldable pub require_confirmable_quote : PurchaseQuote → Result PurchaseQuote
require_confirmable_quote q =
    if not (same_method q.terms.payment_method wallet)
    then err (plain non_wallet_quote)
    else if not_covered q.terms.wallet_snapshot
    then err (plain insufficient_wallet_balance)
    else ok q

unfoldable pub require_attempts_remaining : PurchaseExecution → Result PurchaseExecution
require_attempts_remaining e =
    if leb max_execution_attempts e.attempts then err (plain purchase_attempt_limit) else ok e
