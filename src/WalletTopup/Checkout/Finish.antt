-- ===== src/WalletTopup/Checkout/Finish.antt =====
-- The end of `create_wallet_topup_checkout`, on the answer of the platform, and the whole of it.
use esim_opensource_mcp.Prelude.{
  ℕ, String, false, Option, none, some, Dict, if◌then◌else◌, upper, strip, or_empty,
}
use esim_opensource_mcp.Prelude.Int.{ℤ}
use esim_opensource_mcp.Errors.{
  McpError, Result, ok, err, plain, authentication_required, wallet_topup_outcome_unknown,
  wallet_topup_rejected, unsafe_checkout_link, unknown_checkout,
}
use esim_opensource_mcp.Owner.{QuoteOwner}
use esim_opensource_mcp.Session.{AuthAnswer, either_text}
use esim_opensource_mcp.Backend.{
  Answer, timed_out, unreachable, answered, BackendOutcome, outcome_of, is_success, outcome_data,
  outcome_hint, effective_status,
}
use esim_opensource_mcp.Topup.{WalletTopupQuote}
use esim_opensource_mcp.CardModels.{ParsedUrl, parse, safe_checkout_url}
use esim_opensource_mcp.WalletModels.{
  WalletTopupStatus, pending, BackendWalletTopupCheckout, parse_topup_status,
  require_topup_reference,
}
use esim_opensource_mcp.Topup.Checkout.{
  WalletTopupCheckout, TopupPage, mark_open, mark_failed, mark_unresolved, attempts_remaining,
}
use esim_opensource_mcp.World.{World}
use esim_opensource_mcp.Confirm.{owner_of, require_quote_reference}
use esim_opensource_mcp.WalletTopup.Failure.{
  Disposition, terminal, unresolved, retryable, classify_checkout_failure,
}
use esim_opensource_mcp.WalletTopup.Checkout.{
  OpenedPage, Call, Stage, done, refreshing, opening, begin, continue_refreshed,
}

abbrev stated_amount : Option ℤ → ℤ → ℤ
stated_amount none fallback = fallback
stated_amount (some amount) fallback = amount

abbrev pub status_or_pending : Option WalletTopupStatus → WalletTopupStatus
status_or_pending none = pending
status_or_pending (some s) = s

-- `_checkout_result`
unfoldable pub checkout_result :
    WalletTopupQuote → BackendWalletTopupCheckout → String → String → TopupPage
unfolding parse_topup_status strip upper
checkout_result q b link payment_reference = record {
  checkout_url = link;
  quote_reference = q.quote_id;
  payment_reference = payment_reference;
  amount = stated_amount b.amount q.terms.amount;
  currency = upper (strip (or_empty (either_text b.currency (some q.terms.currency))));
  topup_status = status_or_pending (parse_topup_status b.status);
  charged = false;
  paid = false;
  credited = false;
  next_action = b.next_action;
  expires_at = b.expires_at;
  order_id = b.order_id;
}

abbrev pub unknown_outcome : Call → McpError
unknown_outcome c = record {
  kind = wallet_topup_outcome_unknown;
  details = unknown_checkout (attempts_remaining c.checkout);
}

unfoldable pub leave_unresolved : Call → World → Result OpenedPage × World
unfolding mark_unresolved attempts_remaining
leave_unresolved c w = (
  err (unknown_outcome c),
  record w {
    wallet_checkouts =
        (mark_unresolved c.checkout (plain wallet_topup_outcome_unknown) w.wallet_checkouts).1;
  },
)

unfoldable pub refuse : Call → McpError → World → Result OpenedPage × World
unfolding mark_failed
refuse c error w =
    (err error, record w { wallet_checkouts = (mark_failed c.checkout error w.wallet_checkouts).1 })

unfoldable pub hand_over :
    Call → BackendWalletTopupCheckout → String → String → World → Result OpenedPage × World
unfolding checkout_result mark_open
hand_over c b link reference w =
    let page = checkout_result c.quote b link reference in
    (
      ok (record { page = page; replayed = b.idempotent_replay }),
      record w {
        wallet_checkouts =
            (mark_open c.checkout page reference c.quote.locale c.quote.terms.currency
              w.wallet_checkouts).1;
      },
    )

abbrev pub with_link :
    Call
    → BackendWalletTopupCheckout
    → Option String
    → Result String
    → World
    → Result OpenedPage × World
with_link c b none reference w = refuse c (plain unsafe_checkout_link) w
with_link c b (some link) (err e) w = refuse c (plain wallet_topup_rejected) w
with_link c b (some link) (ok reference) w = hand_over c b link reference w

-- `_on_checkout_success`
unfoldable pub on_success :
    (String → Option ParsedUrl)
    → Call
    → Option BackendWalletTopupCheckout
    → World
    → Result OpenedPage × World
unfolding leave_unresolved refuse hand_over safe_checkout_url require_topup_reference
on_success urlparse c none w = leave_unresolved c w
on_success urlparse c (some b) w =
    with_link c b (safe_checkout_url urlparse b.checkout_url)
      (require_topup_reference b.payment_reference) w

abbrev pub recorded :
    Call → McpError → Disposition → Dict WalletTopupCheckout → Dict WalletTopupCheckout
recorded c error terminal d = (mark_failed c.checkout error d).1
recorded c error unresolved d = (mark_unresolved c.checkout error d).1
recorded c error retryable d = d

-- `_on_checkout_failure`
unfoldable pub on_failure : Call → McpError × Disposition → World → Result OpenedPage × World
unfolding mark_failed mark_unresolved
on_failure c (error, disposition) w =
    (err error, record w { wallet_checkouts = recorded c error disposition w.wallet_checkouts })

unfoldable pub on_outcome :
    (String → Option ParsedUrl)
    → Call
    → BackendOutcome BackendWalletTopupCheckout
    → World
    → Result OpenedPage × World
unfolding is_success outcome_data effective_status outcome_hint classify_checkout_failure on_success
    on_failure
on_outcome urlparse c o w =
    if is_success o
    then on_success urlparse c (parse (outcome_data o)) w
    else on_failure c (classify_checkout_failure (effective_status o) (outcome_hint o) o.parsed) w

unfoldable pub finish :
    (String → Option ParsedUrl)
    → Call
    → Answer BackendWalletTopupCheckout
    → World
    → Result OpenedPage × World
unfolding leave_unresolved outcome_of on_outcome
finish urlparse c timed_out w = leave_unresolved c w
finish urlparse c unreachable w = leave_unresolved c w
finish urlparse c (answered r) w = on_outcome urlparse c (outcome_of r) w

-- What the surroundings answer to one call.
pub record Surroundings : Type 0 where
  pub window : ℕ
  pub now : ℕ
  pub digest : String → String
  pub urlparse : String → Option ParsedUrl
  pub session_key : String
  pub device_id : String
  pub auth : Option AuthAnswer
  pub answer : Answer BackendWalletTopupCheckout

module _ (s : Surroundings) where
  abbrev pub finished : Stage × World → Result OpenedPage × World
  finished (done r, w) = (r, w)
  finished (opening c, w) = finish s.urlparse c s.answer w
  finished (refreshing c session, w) = (err (plain authentication_required), w)

  abbrev pub refreshed : Stage × World → Result OpenedPage × World
  refreshed (refreshing c session, w) = finished (continue_refreshed c session s.auth w)
  refreshed (stage, w) = finished (stage, w)

  abbrev pub with_reference : QuoteOwner → World → Result String → Result OpenedPage × World
  with_reference owner w (err e) = (err e, w)
  with_reference owner w (ok reference) =
      refreshed (begin s.window s.now s.device_id owner reference w)

  abbrev pub with_owner : String → World → Result QuoteOwner → Result OpenedPage × World
  with_owner reference w (err e) = (err e, w)
  with_owner reference w (ok owner) = with_reference owner w (require_quote_reference reference)

  -- The whole tool, run without another call in between.
  unfoldable pub create_wallet_topup_checkout : String → World → Result OpenedPage × World
  unfolding owner_of require_quote_reference begin continue_refreshed finish
  create_wallet_topup_checkout reference w =
      with_owner reference w (owner_of s.digest s.session_key w)
