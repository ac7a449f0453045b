-- ===== src/EsimTopup/Confirm.antt =====
-- `confirm_esim_topup` of tools/esim_topup.py. The handler is `begin`, up to the reads that
-- revalidate the quote, `after_reads`, up to the next call of the platform, `continue_refreshed`,
-- after the tokens were rotated, and `finish`, on the answer to the top-up; the lock of the quote
-- is held over all of it. The child Finish has the end of it, and puts the parts together.
pub mod Finish
pub mod Sends
pub mod Outcomes
pub mod Protocol
use esim_opensource_mcp.Prelude.{
  ℕ, String, Bool, true, false, not, ◌==◌, Option, none, some, List, [], ◌∷◌, Dict, if◌then◌else◌,
  strip, or_empty,
}
use Prim.Native.String
use esim_opensource_mcp.Prelude.Int.{ℤ, eqb_ℤ}
use esim_opensource_mcp.Errors.{
  McpError, Result, ok, err, plain, ◌>>=◌, invalid_input, authentication_required,
  esim_topup_rejected, esim_topup_confirmation_required, esim_topup_execution_unavailable,
}
use esim_opensource_mcp.Owner.{QuoteOwner}
use esim_opensource_mcp.Selection.{BackendEsim}
use esim_opensource_mcp.Session.{UserSession, AuthAnswer, either_text}
use esim_opensource_mcp.Backend.{
  Answer, timed_out, unreachable, answered, BackendOutcome, outcome_of, is_success, outcome_data,
  outcome_hint, effective_status,
}
use esim_opensource_mcp.Topup.{EsimTopupQuote, require_usable_topup_quote}
use esim_opensource_mcp.Topup.Quotes.{get_esim_record, consume_esim}
use esim_opensource_mcp.Topup.Execution.{
  EsimTopupExecution, ExecutionStatus, TopupReceipt, pending, succeeded, is_terminal, was_sent,
  replay_execution_error, acquire, record_attempt, mark_succeeded, mark_failed, mark_unresolved,
  require_never_attempted,
}
use esim_opensource_mcp.World.{World, TopupRequest}
use esim_opensource_mcp.World.Manager.{
  RefreshPlan, no_session, current, rotate, ensure_fresh_plan, refresh_finish,
}
use esim_opensource_mcp.EsimTopup.Target.{require_iccid, require_bundle_code}
use esim_opensource_mcp.EsimTopup.Reads.{Platform}
use esim_opensource_mcp.EsimTopup.Revalidate.{revalidate}
use esim_opensource_mcp.EsimTopup.Failure.{
  BackendLegacyTopupResult, parse_legacy_topup_result, confirmed, outcome_unknown,
  classify_topup_failure,
}

-- The result of the tool: the receipt, and whether it is a replay.
pub record TopupConfirmation : Type 0 where
  pub receipt : TopupReceipt
  pub replayed : Bool

-- The local variables that a call keeps while it awaits the platform.
pub record Call : Type 0 where
  pub quote : EsimTopupQuote
  pub execution : EsimTopupExecution
  pub owner : QuoteOwner
  pub device_id : String

pub data Stage : Type 0 where
  done : Result TopupConfirmation → Stage
  revalidating : Call → Stage
  refreshing : Call → UserSession → Stage
  sending : Call → Stage

-- `execution_enabled`
abbrev pub execution_enabled : Bool → Bool → Bool
execution_enabled flag is_production = if flag then not is_production else false

abbrev pub replay_attempted : EsimTopupExecution → Option (Result TopupConfirmation)
replay_attempted e =
    if is_terminal e.status
    then some (err (replay_execution_error e))
    else if was_sent e
    then some (err outcome_unknown)
    else none

abbrev pub replay_by :
    EsimTopupExecution → ExecutionStatus → Option TopupReceipt → Option (Result TopupConfirmation)
replay_by e succeeded (some r) = some (ok (record { receipt = r; replayed = true }))
replay_by e _ _ = replay_attempted e

unfoldable pub replay_if_attempted : EsimTopupExecution → Option (Result TopupConfirmation)
unfolding is_terminal was_sent replay_execution_error
replay_if_attempted e = replay_by e e.status e.result

-- `_require_wallet_quote`
unfoldable pub require_wallet_quote : EsimTopupQuote → Result EsimTopupQuote
require_wallet_quote q =
    if q.terms.payment_method == "Wallet" then ok q else err (plain esim_topup_rejected)

-- `s.replace(",", "")`
abbrev pub drop_commas : String → String
drop_commas String.[] = ""
drop_commas (String.◌∷◌ c s) =
    let rest = drop_commas s in if String.◌∷◌ c "" == "," then rest else String.◌∷◌ c rest

abbrev pub equals_amount : Option ℤ → ℤ → Bool
equals_amount none amount = false
equals_amount (some read) amount = eqb_ℤ read amount

-- `_require_confirmed_amount`; `decimal` is the constructor of decimals, `none` where it raises
unfoldable pub require_confirmed_amount :
    (String → Option ℤ) → EsimTopupQuote → String → Result EsimTopupQuote
unfolding strip
require_confirmed_amount decimal q confirmed_amount =
    let candidate = drop_commas (strip confirmed_amount) in
    if candidate == ""
    then err (plain esim_topup_confirmation_required)
    else if equals_amount (decimal candidate) q.terms.price.amount
    then ok q
    else err (plain esim_topup_confirmation_required)

-- What one call is given: the device of the client, the decimals, the amount that the user
-- confirmed, and the time.
pub record Confirmed : Type 0 where
  pub device_id : String
  pub decimal : String → Option ℤ
  pub confirmed_amount : String
  pub now : ℕ

unfoldable pub gates : Confirmed → EsimTopupQuote → EsimTopupExecution → Result EsimTopupExecution
unfolding require_usable_topup_quote require_wallet_quote require_confirmed_amount
    require_never_attempted
gates given quote execution = do
  usable ← require_usable_topup_quote quote given.now
  by_wallet ← require_wallet_quote quote
  read_back ← require_confirmed_amount given.decimal quote given.confirmed_amount
  require_never_attempted execution

abbrev pub gated : Call → World → Result EsimTopupExecution → Stage × World
gated c w (err e) = (done (err e), w)
gated c w (ok _) = (revalidating c, w)

abbrev pub unless_replayed :
    Confirmed → Call → World → Option (Result TopupConfirmation) → Stage × World
unless_replayed given c w (some r) = (done r, w)
unless_replayed given c w none = gated c w (gates given c.quote c.execution)

abbrev pub with_quote :
    Confirmed → QuoteOwner → String → World → Result EsimTopupQuote → Stage × World
with_quote given owner reference w (err e) = (done (err e), w)
with_quote given owner reference w (ok quote) =
    let (e, executions) = acquire owner reference w.esim_executions in
    let w' = record w { esim_executions = executions } in
    unless_replayed given
      (record { quote = quote; execution = e; owner = owner; device_id = given.device_id }) w'
      (replay_if_attempted e)

-- Under the lock of the reference.
unfoldable pub begin : Confirmed → QuoteOwner → String → World → Stage × World
unfolding get_esim_record acquire replay_if_attempted gates
begin given owner reference w =
    with_quote given owner reference w (get_esim_record owner reference w.esim_quotes)

abbrev pub topup_request : Call → UserSession → String → String → TopupRequest
topup_request c s reference bundle = record {
  access_token = s.access_token;
  device_id = c.device_id;
  iccid = reference;
  bundle_code = bundle;
  quote_reference = c.quote.quote_id;
  locale = c.quote.locale;
  currency = c.quote.terms.price.currency;
}

abbrev pub post : Call → UserSession → World → Result (String × String) → Stage × World
post c s w (err e) = (done (err e), w)
post c s w (ok (reference, bundle)) =
    (sending c, record w { topups_sent = topup_request c s reference bundle ∷ w.topups_sent })

abbrev pub body_of : EsimTopupQuote → Result (String × String)
unfolding require_iccid require_bundle_code
body_of q = do
  reference ← require_iccid q.terms.target.iccid
  bundle ← require_bundle_code q.terms.bundle.bundle_code
  ok (reference, bundle)

-- `TopupApiClient.execute_topup`, up to the answer
unfoldable pub execute_topup : Call → UserSession → World → Stage × World
unfolding require_iccid require_bundle_code
execute_topup c s w = post c s w (body_of c.quote)

abbrev pub by_plan : Call → World → RefreshPlan → Stage × World
by_plan c w no_session = (done (err (plain authentication_required)), w)
by_plan c w (current s) = execute_topup c s w
by_plan c w (rotate s) = (refreshing c s, w)

-- `_execute`, up to the first call of the platform; the attempt is counted first
unfoldable pub execute : ℕ → ℕ → Call → World → Stage × World
unfolding record_attempt ensure_fresh_plan execute_topup
execute window now c w =
    let (e, executions) = record_attempt c.execution w.esim_executions in
    let w' = record w { esim_executions = executions } in
    by_plan (record c { execution = e }) w' (ensure_fresh_plan window now c.owner.session_key w')

-- On the target that the reads agreed on, or the error that they ended in.
unfoldable pub after_reads : ℕ → ℕ → Call → Result BackendEsim → World → Stage × World
unfolding execute
after_reads window now c (err e) w = (done (err e), w)
after_reads window now c (ok target) w = execute window now c w

abbrev pub after_refresh : Call → Result UserSession × World → Stage × World
after_refresh c (err e, w) = (done (err e), w)
after_refresh c (ok s, w) = execute_topup c s w

unfoldable pub continue_refreshed : Call → UserSession → Option AuthAnswer → World → Stage × World
unfolding refresh_finish execute_topup
continue_refreshed c s auth w = after_refresh c (refresh_finish c.owner.session_key s auth w)
