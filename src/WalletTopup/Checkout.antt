-- ===== src/WalletTopup/Checkout.antt =====
-- `create_wallet_topup_checkout` of tools/wallet_topup.py, cut at its awaits like the purchase: `begin`,
-- `continue_refreshed` and, in the child Finish, `finish`, under the lock of the quote.
pub mod Finish
pub mod Pages
pub mod Sends
use esim_opensource_mcp.Prelude.{
  ℕ, String, Bool, true, false, ◌==◌, Option, none, some, List, ◌∷◌, Dict, if◌then◌else◌, strip,
  or_empty,
}
use esim_opensource_mcp.Prelude.Int.{ℤ}
use esim_opensource_mcp.Errors.{
  McpError, Result, ok, err, plain, ◌>>=◌, authentication_required, wallet_topup_outcome_unknown,
  wallet_topup_rejected, unsafe_checkout_link, unknown_checkout,
}
use esim_opensource_mcp.Owner.{QuoteOwner}
use esim_opensource_mcp.Session.{UserSession, AuthAnswer}
use esim_opensource_mcp.Backend.{
  Answer, timed_out, unreachable, answered, BackendOutcome, outcome_of, is_success, outcome_data,
  outcome_hint, effective_status,
}
use esim_opensource_mcp.Topup.{WalletTopupQuote, require_usable_topup_quote}
use esim_opensource_mcp.Topup.Quotes.{get_wallet_record}
use esim_opensource_mcp.Topup.Checkout.{
  WalletTopupCheckout, TopupPage, TopupStatus, open_page, is_terminal, replay_error, acquire,
  record_attempt, require_attempts_remaining,
}
use esim_opensource_mcp.World.{World, TopupCheckoutRequest}
use esim_opensource_mcp.World.Manager.{
  RefreshPlan, no_session, current, rotate, ensure_fresh_plan, refresh_finish,
}

-- The result of the tool: the page, and whether it was opened before.
pub record OpenedPage : Type 0 where
  pub page : TopupPage
  pub replayed : Bool

-- The local variables that a call keeps while it awaits the platform.
pub record Call : Type 0 where
  pub quote : WalletTopupQuote
  pub checkout : WalletTopupCheckout
  pub device_id : String

pub data Stage : Type 0 where
  done : Result OpenedPage → Stage
  refreshing : Call → UserSession → Stage
  opening : Call → Stage

abbrev pub replay_terminal : WalletTopupCheckout → Option (Result OpenedPage)
replay_terminal c = if is_terminal c.status then some (err (replay_error c)) else none

abbrev pub replay_by :
    WalletTopupCheckout → TopupStatus → Option TopupPage → Option (Result OpenedPage)
replay_by c open_page (some page) = some (ok (record { page = page; replayed = true }))
replay_by c _ _ = replay_terminal c

-- `_replay_if_terminal`
unfoldable pub replay_if_terminal : WalletTopupCheckout → Option (Result OpenedPage)
unfolding is_terminal replay_error
replay_if_terminal c = replay_by c c.status c.result

unfoldable pub gates : WalletTopupQuote → WalletTopupCheckout → ℕ → Result WalletTopupCheckout
unfolding require_usable_topup_quote require_attempts_remaining
gates quote checkout now = do
  usable ← require_usable_topup_quote quote now
  require_attempts_remaining checkout

abbrev pub checkout_request : Call → UserSession → TopupCheckoutRequest
checkout_request c s = record {
  access_token = s.access_token;
  device_id = c.device_id;
  amount = c.quote.terms.amount;
  locale = c.quote.locale;
  currency = c.quote.terms.currency;
}

unfoldable pub send : Call → UserSession → World → World
send c s w = record w { topup_checkouts_sent = checkout_request c s ∷ w.topup_checkouts_sent }

abbrev pub by_plan : Call → World → RefreshPlan → Stage × World
by_plan c w no_session = (done (err (plain authentication_required)), w)
by_plan c w (current s) = (opening c, send c s w)
by_plan c w (rotate s) = (refreshing c s, w)

-- `_open_checkout`, up to the first call of the platform; the attempt is counted first
unfoldable pub open_checkout : ℕ → ℕ → Call → World → Stage × World
unfolding record_attempt ensure_fresh_plan send
open_checkout window now c w =
    let (e, checkouts) = record_attempt c.checkout w.wallet_checkouts in
    let w' = record w { wallet_checkouts = checkouts } in
    by_plan (record c { checkout = e }) w' (ensure_fresh_plan window now e.owner_session_key w')

abbrev pub gated : ℕ → ℕ → Call → World → Result WalletTopupCheckout → Stage × World
gated window now c w (err e) = (done (err e), w)
gated window now c w (ok _) = open_checkout window now c w

abbrev pub unless_replayed : ℕ → ℕ → Call → World → Option (Result OpenedPage) → Stage × World
unless_replayed window now c w (some r) = (done r, w)
unless_replayed window now c w none = gated window now c w (gates c.quote c.checkout now)

abbrev pub with_quote :
    ℕ → ℕ → String → QuoteOwner → String → World → Result WalletTopupQuote → Stage × World
with_quote window now device_id owner reference w (err e) = (done (err e), w)
with_quote window now device_id owner reference w (ok quote) =
    let (c, checkouts) = acquire owner reference w.wallet_checkouts in
    let w' = record w { wallet_checkouts = checkouts } in
    unless_replayed window now (record { quote = quote; checkout = c; device_id = device_id }) w'
      (replay_if_terminal c)

unfoldable pub begin : ℕ → ℕ → String → QuoteOwner → String → World → Stage × World
unfolding get_wallet_record acquire replay_if_terminal gates open_checkout
begin window now device_id owner reference w =
    with_quote window now device_id owner reference w
      (get_wallet_record owner reference w.wallet_quotes)

abbrev pub after_refresh : Call → Result UserSession × World → Stage × World
after_refresh c (err e, w) = (done (err e), w)
after_refresh c (ok s, w) = (opening c, send c s w)

unfoldable pub continue_refreshed : Call → UserSession → Option AuthAnswer → World → Stage × World
unfolding refresh_finish send
continue_refreshed c s auth w =
    after_refresh c (refresh_finish c.checkout.owner_session_key s auth w)
