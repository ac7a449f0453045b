-- ===== src/Topup/Execution.antt =====
-- The execution record of an eSIM top-up, its store and its service: topup/models.py,
-- topup/store.py and topup/service.py. There is no idempotency key: one quote, one attempt.
pub mod Once
pub mod Acquire
use esim_opensource_mcp.Prelude.{
  ℕ, ◌+◌, String, Bool, true, false, Option, none, some, List, [], ◌∷◌, Dict, ltb, if◌then◌else◌,
  or_empty,
}
use esim_opensource_mcp.Prelude.Int.{ℤ}
use esim_opensource_mcp.Errors.{
  ErrorKind, McpError, Details, Result, ok, err, plain, code, find_code, or_else, stored_details,
  restored_details, esim_topup_already_attempted, esim_topup_outcome_unknown, esim_topup_rejected,
}
use esim_opensource_mcp.Owner.{QuoteOwner, Owned}
use esim_opensource_mcp.Records

pub data ExecutionStatus : Type 0 where
  pending succeeded failed unresolved : ExecutionStatus

unfoldable pub is_terminal : ExecutionStatus → Bool
is_terminal pending = false
is_terminal _ = true

-- The facts of the payload of a completed top-up.
pub record TopupReceipt : Type 0 where
  pub quote_id : String
  pub charged : Bool
  pub topped_up : Bool
  pub bundle_code : String
  pub amount : ℤ
  pub currency : String
  pub order_id : Option String
  pub payment_status : Option String

pub record EsimTopupExecution : Type 0 where
  pub quote_id : String
  pub owner_session_key : String
  pub owner_user_ref : String
  pub attempts : ℕ
  pub status : ExecutionStatus
  pub result : Option TopupReceipt
  pub failure_code : Option String
  pub failure_details : Option Details

abbrev pub execution_owned : Owned EsimTopupExecution
execution_owned = record {
  record_id = λ e. e.quote_id;
  session_of = λ e. e.owner_session_key;
  user_of = λ e. e.owner_user_ref;
}

unfoldable pub was_sent : EsimTopupExecution → Bool
was_sent e = ltb 0 e.attempts

unfoldable pub get : QuoteOwner → String → Dict EsimTopupExecution → Option EsimTopupExecution
unfolding Records.get
get = Records.get execution_owned

unfoldable pub save : EsimTopupExecution → Dict EsimTopupExecution → Dict EsimTopupExecution
unfolding Records.save
save = Records.save execution_owned

unfoldable pub invalidate_session : String → Dict EsimTopupExecution → Dict EsimTopupExecution × ℕ
unfolding Records.invalidate_session
invalidate_session = Records.invalidate_session execution_owned

-- `_REPLAYABLE_EXECUTION_ERRORS`
abbrev pub replayable_errors : List ErrorKind
replayable_errors =
    esim_topup_already_attempted ∷ esim_topup_outcome_unknown ∷ esim_topup_rejected ∷ []

unfoldable pub replay_execution_error : EsimTopupExecution → McpError
unfolding find_code
replay_execution_error e = record {
  kind = or_else (find_code (or_empty e.failure_code) replayable_errors) esim_topup_outcome_unknown;
  details = restored_details e.failure_details;
}

abbrev pub new_execution : QuoteOwner → String → EsimTopupExecution
new_execution owner quote_id = record {
  quote_id = quote_id;
  owner_session_key = owner.session_key;
  owner_user_ref = owner.user_ref;
  attempts = 0;
  status = pending;
  result = none;
  failure_code = none;
  failure_details = none;
}

abbrev acquired :
    QuoteOwner
    → String
    → Dict EsimTopupExecution
    → Option EsimTopupExecution
    → EsimTopupExecution × Dict EsimTopupExecution
acquired owner quote_id d (some e) = (e, d)
acquired owner quote_id d none =
    (new_execution owner quote_id, save (new_execution owner quote_id) d)

unfoldable pub acquire :
    QuoteOwner → String → Dict EsimTopupExecution → EsimTopupExecution × Dict EsimTopupExecution
unfolding get save
acquire owner quote_id d = acquired owner quote_id d (get owner quote_id d)

abbrev pub attempted : EsimTopupExecution → EsimTopupExecution
attempted e = record e { attempts = e.attempts + 1 }

unfoldable pub record_attempt :
    EsimTopupExecution → Dict EsimTopupExecution → EsimTopupExecution × Dict EsimTopupExecution
unfolding save
record_attempt e d = (attempted e, save (attempted e) d)

abbrev pub succeeded_with : TopupReceipt → EsimTopupExecution → EsimTopupExecution
succeeded_with r e = record e {
  status = succeeded;
  result = some r;
  failure_code = none;
  failure_details = none;
}

unfoldable pub mark_succeeded :
    EsimTopupExecution → TopupReceipt → Dict EsimTopupExecution → Dict EsimTopupExecution
unfolding save
mark_succeeded e r d = save (succeeded_with r e) d

abbrev pub unsuccessful : McpError → ExecutionStatus → EsimTopupExecution → EsimTopupExecution
unsuccessful error status e = record e {
  status = status;
  failure_code = some (code error.kind);
  failure_details = stored_details error.details;
}

unfoldable pub mark_failed :
    EsimTopupExecution → McpError → Dict EsimTopupExecution → Dict EsimTopupExecution
unfolding save code
mark_failed e error d = save (unsuccessful error failed e) d

unfoldable pub mark_unresolved :
    EsimTopupExecution → McpError → Dict EsimTopupExecution → Dict EsimTopupExecution
unfolding save code
mark_unresolved e error d = save (unsuccessful error unresolved e) d

unfoldable pub require_never_attempted : EsimTopupExecution → Result EsimTopupExecution
unfolding was_sent
require_never_attempted e = if was_sent e then err (plain esim_topup_already_attempted) else ok e
