-- ===== src/CardPayment/Checkout.antt =====
-- `create_card_checkout` of tools/card_checkout.py, cut at its awaits like the purchase: `begin`,
-- `continue_refreshed` and, in the child Finish, `finish`, under the lock of the quote.
pub mod Finish
pub mod Pages
pub mod Sends
use esim_opensource_mcp.Prelude.{
  ℕ, String, Bool, true, false, ◌==◌, Option, none, some, List, ◌∷◌, Dict, if◌then◌else◌, strip,
  or_empty,
}
use esim_opensource_mcp.Prelude.Int.{ℤ}
use esim_opensource_mcp.Errors.{
  McpError, Result, ok, err, plain, ◌>>=◌, authentication_required, card_checkout_outcome_unknown,
  card_checkout_rejected, unsafe_checkout_link, unknown_checkout,
}
use esim_opensource_mcp.Owner.{QuoteOwner}
use esim_opensource_mcp.Session.{UserSession, AuthAnswer}
use esim_opensource_mcp.Backend.{
  Answer, timed_out, unreachable, answered, BackendOutcome, outcome_of, is_success, outcome_data,
  outcome_hint, effective_status,
}
use esim_opensource_mcp.Purchase.{PurchaseQuote, require_usable_quote}
use esim_opensource_mcp.Purchase.Service.{get_record}
use esim_opensource_mcp.CardModels.{
  CardPaymentStatus, pending, BackendCardCheckout, ParsedUrl, parse, parse_status,
  safe_checkout_url, require_payment_reference,
}
use esim_opensource_mcp.Card.{
  CardCheckout, CheckoutPage, CheckoutStatus, open_page, is_terminal, replay_error, acquire,
  record_attempt, mark_open, mark_failed, mark_unresolved, attempts_remaining, require_card_quote,
  require_attempts_remaining,
}
use esim_opensource_mcp.World.{World, CheckoutRequest, build_related_search}
use esim_opensource_mcp.World.Manager.{
  RefreshPlan, no_session, current, rotate, ensure_fresh_plan, refresh_finish,
}
use esim_opensource_mcp.Confirm.{owner_of, require_quote_reference}
use esim_opensource_mcp.CardPayment.Failure.{
  Disposition, terminal, unresolved, retryable, classify_checkout_failure,
}

-- The result of the tool: the page, and whether it was opened before.
pub record OpenedPage : Type 0 where
  pub page : CheckoutPage
  pub replayed : Bool

-- The local variables that a call keeps while it awaits the platform.
pub record Call : Type 0 where
  pub quote : PurchaseQuote
  pub checkout : CardCheckout
  pub device_id : String

pub data Stage : Type 0 where
  done : Result OpenedPage → Stage
  refreshing : Call → UserSession → Stage
  opening : Call → Stage

abbrev pub replay_terminal : CardCheckout → Option (Result OpenedPage)
replay_terminal c = if is_terminal c.status then some (err (replay_error c)) else none

abbrev pub replay_by :
    CardCheckout → CheckoutStatus → Option CheckoutPage → Option (Result OpenedPage)
replay_by c open_page (some page) = some (ok (record { page = page; replayed = true }))
replay_by c _ _ = replay_terminal c

-- `_replay_if_terminal`
unfoldable pub replay_if_terminal : CardCheckout → Option (Result OpenedPage)
unfolding is_terminal replay_error
replay_if_terminal c = replay_by c c.status c.result

unfoldable pub gates : PurchaseQuote → CardCheckout → ℕ → Result CardCheckout
unfolding require_usable_quote require_card_quote require_attempts_remaining
gates quote checkout now = do
  usable ← require_usable_quote quote now
  by_card ← require_card_quote quote
  require_attempts_remaining checkout

abbrev pub checkout_request : Call → UserSession → CheckoutRequest
checkout_request c s = record {
  idempotency_key = c.checkout.idempotency_key;
  access_token = s.access_token;
  device_id = c.device_id;
  bundle_code = c.quote.terms.bundle.bundle_code;
  quote_reference = c.quote.quote_id;
  related_search = build_related_search c.quote.terms.search_context;
  locale = c.quote.locale;
  currency = c.quote.terms.price.currency;
}

unfoldable pub send : Call → UserSession → World → World
send c s w = record w { checkouts_sent = checkout_request c s ∷ w.checkouts_sent }

abbrev pub by_plan : Call → World → RefreshPlan → Stage × World
by_plan c w no_session = (done (err (plain authentication_required)), w)
by_plan c w (current s) = (opening c, send c s w)
by_plan c w (rotate s) = (refreshing c s, w)

-- `_open_checkout`, up to the first call of the platform; the attempt is counted first
unfoldable pub open_checkout : ℕ → ℕ → Call → World → Stage × World
unfolding record_attempt ensure_fresh_plan send
open_checkout window now c w =
    let (e, checkouts) = record_attempt c.checkout w.card_checkouts in
    let w' = record w { card_checkouts = checkouts } in
    by_plan (record c { checkout = e }) w' (ensure_fresh_plan window now e.owner_session_key w')

abbrev pub gated : ℕ → ℕ → Call → World → Result CardCheckout → Stage × World
gated window now c w (err e) = (done (err e), w)
gated window now c w (ok _) = open_checkout window now c w

abbrev pub unless_replayed : ℕ → ℕ → Call → World → Option (Result OpenedPage) → Stage × World
unless_replayed window now c w (some r) = (done r, w)
unless_replayed window now c w none = gated window now c w (gates c.quote c.checkout now)

abbrev pub with_quote :
    ℕ → ℕ → String → QuoteOwner → String → String → World → Result PurchaseQuote → Stage × World
with_quote window now device_id owner reference key w (err e) = (done (err e), w)
with_quote window now device_id owner reference key w (ok quote) =
    let (c, checkouts) = acquire owner reference key w.card_checkouts in
    let w' = record w { card_checkouts = checkouts } in
    unless_replayed window now (record { quote = quote; checkout = c; device_id = device_id }) w'
      (replay_if_terminal c)

-- `key` is the random key that a new checkout would take.
unfoldable pub begin : ℕ → ℕ → String → QuoteOwner → String → String → World → Stage × World
unfolding get_record acquire replay_if_terminal gates open_checkout
begin window now device_id owner reference key w =
    with_quote window now device_id owner reference key w (get_record owner reference w.quotes)

abbrev pub after_refresh : Call → Result UserSession × World → Stage × World
after_refresh c (err e, w) = (done (err e), w)
after_refresh c (ok s, w) = (opening c, send c s w)

unfoldable pub continue_refreshed : Call → UserSession → Option AuthAnswer → World → Stage × World
unfolding refresh_finish send
continue_refreshed c s auth w =
    after_refresh c (refresh_finish c.checkout.owner_session_key s auth w)
