-- ===== src/Confirm.antt =====
-- tools/purchase_execution.py: `PurchaseConfirmationService.confirm_purchase`. The handler is
-- `begin`, up to the first call of the platform, `continue_refreshed`, after the tokens were
-- rotated, and `finish`, on the answer to the purchase; the lock of the quote is held over all of
-- it. `confirm_purchase` puts the three together.
pub mod Protocol
pub mod Sends
pub mod Replay
pub mod Retry
use esim_opensource_mcp.Prelude.{
  ℕ, ◌+◌, String, Bool, true, false, ◌==◌, Option, none, some, List, [], ◌∷◌, Dict, if◌then◌else◌,
  strip, or_empty,
}
use esim_opensource_mcp.Errors.{
  McpError, Result, ok, err, plain, ◌>>=◌, unknown_purchase, invalid_input, authentication_required,
  purchase_outcome_unknown,
}
use esim_opensource_mcp.Owner.{QuoteOwner}
use esim_opensource_mcp.Session.{UserSession, AuthAnswer, either_text}
use esim_opensource_mcp.Backend.{
  Answer, timed_out, unreachable, answered, BackendOutcome, outcome_of, is_success, outcome_data,
  outcome_hint, effective_status,
}
use esim_opensource_mcp.Purchase.{PurchaseQuote, require_usable_quote}
use esim_opensource_mcp.Purchase.Service.{get_record, consume}
use esim_opensource_mcp.Purchase.Execution.{
  PurchaseExecution, Receipt, ExecutionStatus, pending, succeeded, failed, is_terminal,
  replay_error, acquire, attempted, record_attempt, mark_succeeded, mark_failed, mark_unresolved,
  mark_escalated, attempts_remaining, require_confirmable_quote, require_attempts_remaining,
}
use esim_opensource_mcp.Purchase.Failure.{
  BackendPurchaseResult, Disposition, escalate, terminal, unresolved, retryable, classify_failure,
  is_completed, parse_purchase_result,
}
use esim_opensource_mcp.World.{World, PurchaseRequest, build_related_search}
use esim_opensource_mcp.World.Manager.{
  RefreshPlan, no_session, current, rotate, ensure_fresh_plan, refresh_finish, require_session,
}

-- The result of the tool: the receipt, and whether it is a replay.
pub record Confirmation : Type 0 where
  pub receipt : Receipt
  pub replayed : Bool

-- The local variables that a call keeps while it awaits the platform.
pub record Call : Type 0 where
  pub quote : PurchaseQuote
  pub execution : PurchaseExecution
  pub owner : QuoteOwner
  pub device_id : String

-- How `begin` leaves: with a result, or awaiting a rotation of tokens or the purchase itself.
pub data Stage : Type 0 where
  done : Result Confirmation → Stage
  refreshing : Call → UserSession → Stage
  purchasing : Call → Stage

-- `_replay_if_terminal`
abbrev replay_terminal : PurchaseExecution → Option (Result Confirmation)
replay_terminal e = if is_terminal e.status then some (err (replay_error e)) else none

abbrev replay_by :
    PurchaseExecution → ExecutionStatus → Option Receipt → Option (Result Confirmation)
replay_by e succeeded (some r) = some (ok (record { receipt = r; replayed = true }))
replay_by e _ _ = replay_terminal e

unfoldable pub replay_if_terminal : PurchaseExecution → Option (Result Confirmation)
unfolding is_terminal replay_error
replay_if_terminal e = replay_by e e.status e.result

-- the three gates before anything is sent
unfoldable pub gates : PurchaseQuote → PurchaseExecution → ℕ → Result PurchaseExecution
unfolding require_usable_quote require_confirmable_quote require_attempts_remaining
gates quote execution now = do
  q ← require_usable_quote quote now
  q' ← require_confirmable_quote quote
  require_attempts_remaining execution

abbrev pub purchase_request : Call → UserSession → PurchaseRequest
purchase_request c s = record {
  idempotency_key = c.execution.idempotency_key;
  access_token = s.access_token;
  device_id = c.device_id;
  bundle_code = c.quote.terms.bundle.bundle_code;
  quote_reference = c.quote.quote_id;
  related_search = build_related_search c.quote.terms.search_context;
  locale = c.quote.locale;
  currency = c.quote.terms.price.currency;
}

unfoldable pub send : Call → UserSession → World → World
send c s w = record w { sent = purchase_request c s ∷ w.sent }

abbrev pub by_plan : Call → World → RefreshPlan → Stage × World
by_plan c w no_session = (done (err (plain authentication_required)), w)
by_plan c w (current s) = (purchasing c, send c s w)
by_plan c w (rotate s) = (refreshing c s, w)

-- `_execute`, up to the first call of the platform; the attempt is counted first
unfoldable pub execute : ℕ → ℕ → Call → World → Stage × World
unfolding record_attempt ensure_fresh_plan send
execute window now c w =
    let (e, executions) = record_attempt c.execution w.executions in
    let w' = record w { executions = executions } in
    by_plan (record c { execution = e }) w' (ensure_fresh_plan window now c.owner.session_key w')

abbrev pub gated : ℕ → ℕ → Call → World → Result PurchaseExecution → Stage × World
gated window now c w (err e) = (done (err e), w)
gated window now c w (ok _) = execute window now c w

abbrev pub unless_replayed : ℕ → ℕ → Call → World → Option (Result Confirmation) → Stage × World
unless_replayed window now c w (some r) = (done r, w)
unless_replayed window now c w none = gated window now c w (gates c.quote c.execution now)

abbrev pub with_quote :
    ℕ → ℕ → String → QuoteOwner → String → String → World → Result PurchaseQuote → Stage × World
with_quote window now device_id owner reference key w (err e) = (done (err e), w)
with_quote window now device_id owner reference key w (ok quote) =
    let (e, executions) = acquire owner reference key w.executions in
    let w' = record w { executions = executions } in
    unless_replayed window now
      (record { quote = quote; execution = e; owner = owner; device_id = device_id }) w'
      (replay_if_terminal e)

-- Under the lock of the reference. `key` is the random key that a new execution would take.
unfoldable pub begin : ℕ → ℕ → String → QuoteOwner → String → String → World → Stage × World
unfolding get_record acquire replay_if_terminal gates execute
begin window now device_id owner reference key w =
    with_quote window now device_id owner reference key w (get_record owner reference w.quotes)

abbrev pub after_refresh : Call → Result UserSession × World → Stage × World
after_refresh c (err e, w) = (done (err e), w)
after_refresh c (ok s, w) = (purchasing c, send c s w)

-- `none` is a failed rotation.
unfoldable pub continue_refreshed : Call → UserSession → Option AuthAnswer → World → Stage × World
unfolding refresh_finish send
continue_refreshed c s auth w = after_refresh c (refresh_finish c.owner.session_key s auth w)

-- `_completed_result`
abbrev pub completed_result : PurchaseQuote → BackendPurchaseResult → Receipt
completed_result q r = record {
  quote_reference = q.quote_id;
  order_created = true;
  charged = true;
  bundle_code = q.terms.bundle.bundle_code;
  quoted_amount = q.terms.price.displayed_amount;
  currency = q.terms.price.currency;
  order_id = either_text r.order_id none;
  order_status = either_text r.order_status none;
  payment_status = either_text r.payment_status none;
  provisioning_status = either_text r.provisioning_status none;
  next_state = either_text r.next_action none;
}

abbrev pub unknown_outcome : Call → McpError
unknown_outcome c = record {
  kind = purchase_outcome_unknown;
  details = unknown_purchase (attempts_remaining c.execution);
}

-- the stored error has no details, the raised one has them
unfoldable pub leave_unresolved : Call → World → Result Confirmation × World
unfolding mark_unresolved attempts_remaining
leave_unresolved c w = (
  err (unknown_outcome c),
  record w {
    executions = mark_unresolved c.execution (plain purchase_outcome_unknown) w.executions;
  },
)

abbrev pub consumed :
    Confirmation → World → Result PurchaseQuote × Dict PurchaseQuote → Result Confirmation × World
consumed receipt w (err e, quotes) = (err e, record w { quotes = quotes })
consumed receipt w (ok _, quotes) = (ok receipt, record w { quotes = quotes })

unfoldable pub complete : Call → BackendPurchaseResult → World → Result Confirmation × World
unfolding mark_succeeded consume
complete c r w =
    let receipt = completed_result c.quote r in
    let w' = record w { executions = mark_succeeded c.execution receipt w.executions } in
    consumed (record { receipt = receipt; replayed = r.idempotent_replay }) w'
      (consume c.owner c.quote.quote_id w'.quotes)

-- `_on_success`
unfoldable pub on_success :
    Call → Option BackendPurchaseResult → World → Result Confirmation × World
unfolding is_completed complete leave_unresolved
on_success c none w = leave_unresolved c w
on_success c (some r) w = if is_completed r then complete c r w else leave_unresolved c w

abbrev pub recorded :
    PurchaseExecution → McpError → Disposition → Dict PurchaseExecution → Dict PurchaseExecution
recorded e error escalate d = mark_escalated e error d
recorded e error terminal d = mark_failed e error d
recorded e error unresolved d = mark_unresolved e error d
recorded e error retryable d = d

-- `_on_failure`
unfoldable pub on_failure : Call → McpError × Disposition → World → Result Confirmation × World
unfolding mark_escalated mark_failed mark_unresolved
on_failure c (error, disposition) w =
    (err error, record w { executions = recorded c.execution error disposition w.executions })

unfoldable pub on_outcome :
    Call → BackendOutcome BackendPurchaseResult → World → Result Confirmation × World
unfolding is_success outcome_data effective_status outcome_hint classify_failure
    parse_purchase_result on_success on_failure
on_outcome c o w =
    if is_success o
    then on_success c (parse_purchase_result (outcome_data o)) w
    else on_failure c
        (classify_failure (effective_status o) (outcome_hint o) o.parsed (outcome_data o)) w

unfoldable pub finish : Call → Answer BackendPurchaseResult → World → Result Confirmation × World
unfolding leave_unresolved outcome_of on_outcome
finish c timed_out w = leave_unresolved c w
finish c unreachable w = leave_unresolved c w
finish c (answered r) w = on_outcome c (outcome_of r) w

-- `_require_quote_reference`
unfoldable pub require_quote_reference : String → Result String
unfolding strip
require_quote_reference reference =
    if strip reference == "" then err (plain invalid_input) else ok (strip reference)

-- `user_ref_of`; `digest` is the hexadecimal SHA-256 under the namespace of user references
abbrev pub user_ref_of : (String → String) → UserSession → String
user_ref_of digest s = digest (or_empty (either_text s.user_id (some s.session_key)))

-- `_owner`, on the verified identity of the MCP client
unfoldable pub owner_of : (String → String) → String → World → Result QuoteOwner
unfolding require_session
owner_of digest session_key w = do
  s ← require_session session_key w
  ok (record { session_key = session_key; user_ref = user_ref_of digest s })

-- What the surroundings answer to one call.
pub record Surroundings : Type 0 where
  pub window : ℕ
  pub now : ℕ
  pub digest : String → String
  pub session_key : String
  pub device_id : String
  pub fresh_key : String
  pub auth : Option AuthAnswer
  pub answer : Answer BackendPurchaseResult

abbrev pub finished : Surroundings → Stage × World → Result Confirmation × World
finished s (done r, w) = (r, w)
finished s (purchasing c, w) = finish c s.answer w
finished s (refreshing c session, w) = (err (plain authentication_required), w)

abbrev pub refreshed : Surroundings → Stage × World → Result Confirmation × World
refreshed s (refreshing c session, w) = finished s (continue_refreshed c session s.auth w)
refreshed s (done r, w) = (r, w)
refreshed s (purchasing c, w) = finish c s.answer w

abbrev pub with_reference :
    Surroundings → QuoteOwner → World → Result String → Result Confirmation × World
with_reference s owner w (err e) = (err e, w)
with_reference s owner w (ok reference) =
    refreshed s (begin s.window s.now s.device_id owner reference s.fresh_key w)

abbrev pub with_owner :
    Surroundings → String → World → Result QuoteOwner → Result Confirmation × World
with_owner s reference w (err e) = (err e, w)
with_owner s reference w (ok owner) = with_reference s owner w (require_quote_reference reference)

-- The whole tool, run without another call in between.
unfoldable pub confirm_purchase : Surroundings → String → World → Result Confirmation × World
unfolding owner_of require_quote_reference begin continue_refreshed finish
confirm_purchase s reference w = with_owner s reference w (owner_of s.digest s.session_key w)
