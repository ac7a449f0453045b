-- ===== src/EsimTopup/Confirm/Finish.antt =====
-- The end of `confirm_esim_topup`, on the answer to the top-up, and the whole of it.
use esim_opensource_mcp.Prelude.{
  String, Bool, true, false, Option, none, some, Dict, ◌==◌, if◌then◌else◌, strip,
}
use esim_opensource_mcp.Errors.{
  McpError, Result, ok, err, plain, invalid_input, authentication_required,
  esim_topup_execution_unavailable,
}
use esim_opensource_mcp.Owner.{QuoteOwner}
use esim_opensource_mcp.Session.{AuthAnswer, either_text}
use esim_opensource_mcp.Backend.{
  Answer, timed_out, unreachable, answered, BackendOutcome, outcome_of, is_success, outcome_data,
  outcome_hint, effective_status,
}
use esim_opensource_mcp.Selection.{BackendEsim}
use esim_opensource_mcp.Topup.{EsimTopupQuote}
use esim_opensource_mcp.Topup.Quotes.{consume_esim}
use esim_opensource_mcp.Topup.Execution.{TopupReceipt, mark_succeeded, mark_failed, mark_unresolved}
use esim_opensource_mcp.World.{World}
use esim_opensource_mcp.Confirm.{owner_of}
use esim_opensource_mcp.EsimTopup.Reads.{Platform}
use esim_opensource_mcp.EsimTopup.Revalidate.{revalidate}
use esim_opensource_mcp.EsimTopup.Failure.{
  BackendLegacyTopupResult, parse_legacy_topup_result, confirmed, outcome_unknown,
  classify_topup_failure,
}
use esim_opensource_mcp.EsimTopup.Confirm.{
  Call, Stage, done, revalidating, refreshing, sending, Confirmed, TopupConfirmation, begin,
  after_reads, continue_refreshed, execution_enabled,
}

-- `_completed_result`
abbrev pub completed_result : EsimTopupQuote → BackendLegacyTopupResult → TopupReceipt
completed_result q r = record {
  quote_id = q.quote_id;
  charged = true;
  topped_up = true;
  bundle_code = q.terms.bundle.bundle_code;
  amount = q.terms.price.amount;
  currency = q.terms.price.currency;
  order_id = either_text r.order_id none;
  payment_status = either_text r.payment_status none;
}

unfoldable pub leave_unresolved : Call → McpError → World → Result TopupConfirmation × World
unfolding mark_unresolved
leave_unresolved c error w =
    (err error, record w { esim_executions = mark_unresolved c.execution error w.esim_executions })

abbrev pub consumed :
    TopupConfirmation
    → World
    → Result EsimTopupQuote × Dict EsimTopupQuote
    → Result TopupConfirmation × World
consumed receipt w (err e, quotes) = (err e, record w { esim_quotes = quotes })
consumed receipt w (ok _, quotes) = (ok receipt, record w { esim_quotes = quotes })

unfoldable pub complete : Call → BackendLegacyTopupResult → World → Result TopupConfirmation × World
unfolding mark_succeeded consume_esim
complete c r w =
    let receipt = completed_result c.quote r in
    let w' = record w { esim_executions = mark_succeeded c.execution receipt w.esim_executions } in
    consumed (record { receipt = receipt; replayed = false }) w'
      (consume_esim c.owner c.quote.quote_id w'.esim_quotes)

-- `_on_success`
unfoldable pub on_success :
    Call → Option BackendLegacyTopupResult → World → Result TopupConfirmation × World
unfolding confirmed complete leave_unresolved
on_success c none w = leave_unresolved c outcome_unknown w
on_success c (some r) w =
    if confirmed r then complete c r w else leave_unresolved c outcome_unknown w

-- `_on_failure`
unfoldable pub on_failure : Call → McpError × Bool → World → Result TopupConfirmation × World
unfolding mark_failed leave_unresolved
on_failure c (error, known_uncharged) w =
    if known_uncharged
    then (err error, record w { esim_executions = mark_failed c.execution error w.esim_executions })
    else leave_unresolved c error w

unfoldable pub on_outcome :
    Call → BackendOutcome BackendLegacyTopupResult → World → Result TopupConfirmation × World
unfolding is_success outcome_data effective_status outcome_hint classify_topup_failure on_success
    on_failure
on_outcome c o w =
    if is_success o
    then on_success c (parse_legacy_topup_result (outcome_data o)) w
    else on_failure c (classify_topup_failure (effective_status o) (outcome_hint o) o.parsed) w

unfoldable pub finish :
    Call → Answer BackendLegacyTopupResult → World → Result TopupConfirmation × World
unfolding leave_unresolved outcome_of on_outcome
finish c timed_out w = leave_unresolved c outcome_unknown w
finish c unreachable w = leave_unresolved c outcome_unknown w
finish c (answered r) w = on_outcome c (outcome_of r) w

-- `_require_quote_id`
unfoldable pub require_quote_id : String → Result String
unfolding strip
require_quote_id quote_id =
    if strip quote_id == "" then err (plain invalid_input) else ok (strip quote_id)

-- What the surroundings answer to one call.
pub record Surroundings : Type 0 where
  pub enabled : Bool
  pub is_production : Bool
  pub digest : String → String
  pub given : Confirmed
  pub platform : Platform
  pub auth : Option AuthAnswer
  pub answer : Answer BackendLegacyTopupResult

module _ (s : Surroundings) where
  abbrev pub finished : Stage × World → Result TopupConfirmation × World
  finished (done r, w) = (r, w)
  finished (sending c, w) = finish c s.answer w
  finished (_, w) = (err (plain authentication_required), w)

  abbrev pub refreshed : Stage × World → Result TopupConfirmation × World
  refreshed (refreshing c session, w) = finished (continue_refreshed c session s.auth w)
  refreshed (stage, w) = finished (stage, w)

  abbrev pub executed : Call → Result BackendEsim × World → Result TopupConfirmation × World
  executed c (r, w) = refreshed (after_reads s.platform.window s.platform.now c r w)

  abbrev pub revalidated : Stage × World → Result TopupConfirmation × World
  revalidated (revalidating c, w) = executed c (revalidate s.platform c.quote w)
  revalidated (stage, w) = finished (stage, w)

  abbrev pub with_reference : QuoteOwner → World → Result String → Result TopupConfirmation × World
  with_reference owner w (err e) = (err e, w)
  with_reference owner w (ok reference) = revalidated (begin s.given owner reference w)

  abbrev pub with_owner : String → World → Result QuoteOwner → Result TopupConfirmation × World
  with_owner quote_id w (err e) = (err e, w)
  with_owner quote_id w (ok owner) = with_reference owner w (require_quote_id quote_id)

  -- The whole tool, run without another call in between.
  unfoldable pub confirm_esim_topup : String → World → Result TopupConfirmation × World
  unfolding owner_of require_quote_id begin revalidate after_reads continue_refreshed finish
  confirm_esim_topup quote_id w =
      if execution_enabled s.enabled s.is_production
      then with_owner quote_id w (owner_of s.digest s.platform.session_key w)
      else (err (plain esim_topup_execution_unavailable), w)
