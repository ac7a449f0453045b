-- ===== src/CardPayment/Checkout/Finish.antt =====
-- The end of `create_card_checkout`, on the answer of the platform, and the whole of it.
use esim_opensource_mcp.Prelude.{
  ℕ, String, Bool, true, false, Option, none, some, Dict, if◌then◌else◌, upper, strip, or_empty,
}
use esim_opensource_mcp.Prelude.Int.{ℤ}
use esim_opensource_mcp.Errors.{
  McpError, Result, ok, err, plain, authentication_required, card_checkout_outcome_unknown,
  card_checkout_rejected, unsafe_checkout_link, unknown_checkout,
}
use esim_opensource_mcp.Owner.{QuoteOwner}
use esim_opensource_mcp.Session.{AuthAnswer, either_text}
use esim_opensource_mcp.Backend.{
  Answer, timed_out, unreachable, answered, BackendOutcome, outcome_of, is_success, outcome_data,
  outcome_hint, effective_status,
}
use esim_opensource_mcp.Purchase.{PurchaseQuote}
use esim_opensource_mcp.CardModels.{
  CardPaymentStatus, pending, BackendCardCheckout, ParsedUrl, parse, parse_status,
  safe_checkout_url, require_payment_reference,
}
use esim_opensource_mcp.Card.{
  CardCheckout, CheckoutPage, mark_open, mark_failed, mark_unresolved, attempts_remaining,
}
use esim_opensource_mcp.World.{World}
use esim_opensource_mcp.Confirm.{owner_of, require_quote_reference}
use esim_opensource_mcp.CardPayment.Failure.{
  Disposition, terminal, unresolved, retryable, classify_checkout_failure,
}
use esim_opensource_mcp.CardPayment.Checkout.{
  OpenedPage, Call, Stage, done, refreshing, opening, begin, continue_refreshed,
}

abbrev pub stated_amount : Option ℤ → ℤ → ℤ × Bool
stated_amount none fallback = (fallback, false)
stated_amount (some amount) fallback = (amount, true)

abbrev pub status_or_pending : Option CardPaymentStatus → CardPaymentStatus
status_or_pending none = pending
status_or_pending (some s) = s

-- `_checkout_result`
unfoldable pub checkout_result :
    PurchaseQuote → BackendCardCheckout → String → String → CheckoutPage
unfolding parse_status strip upper
checkout_result q b link payment_reference =
    let (amount, from_platform) = stated_amount b.amount q.terms.price.displayed_amount in
    record {
      checkout_url = link;
      quote_reference = q.quote_id;
      payment_reference = payment_reference;
      amount = amount;
      amount_is_final = from_platform;
      currency = upper (strip (or_empty (either_text b.currency (some q.terms.price.currency))));
      payment_status = status_or_pending (parse_status b.status);
      charged = false;
      paid = false;
      provisioned = false;
      bundle = q.terms.bundle;
      next_action = b.next_action;
      expires_at = b.expires_at;
      order_id = b.order_id;
    }

abbrev pub unknown_outcome : Call → McpError
unknown_outcome c = record {
  kind = card_checkout_outcome_unknown;
  details = unknown_checkout (attempts_remaining c.checkout);
}

unfoldable pub leave_unresolved : Call → World → Result OpenedPage × World
unfolding mark_unresolved attempts_remaining
leave_unresolved c w = (
  err (unknown_outcome c),
  record w {
    card_checkouts =
        (mark_unresolved c.checkout (plain card_checkout_outcome_unknown) w.card_checkouts).1;
  },
)

unfoldable pub refuse : Call → McpError → World → Result OpenedPage × World
unfolding mark_failed
refuse c error w =
    (err error, record w { card_checkouts = (mark_failed c.checkout error w.card_checkouts).1 })

unfoldable pub hand_over :
    Call → BackendCardCheckout → String → String → World → Result OpenedPage × World
unfolding checkout_result mark_open
hand_over c b link reference w =
    let page = checkout_result c.quote b link reference in
    (
      ok (record { page = page; replayed = b.idempotent_replay }),
      record w {
        card_checkouts =
            (mark_open c.checkout page reference c.quote.locale c.quote.terms.price.currency
              w.card_checkouts).1;
      },
    )

abbrev pub with_link :
    Call → BackendCardCheckout → Option String → Result String → World → Result OpenedPage × World
with_link c b none reference w = refuse c (plain unsafe_checkout_link) w
with_link c b (some link) (err e) w = refuse c (plain card_checkout_rejected) w
with_link c b (some link) (ok reference) w = hand_over c b link reference w

-- `_on_checkout_success`
unfoldable pub on_success :
    (String → Option ParsedUrl)
    → Call
    → Option BackendCardCheckout
    → World
    → Result OpenedPage × World
unfolding leave_unresolved refuse hand_over safe_checkout_url require_payment_reference
on_success urlparse c none w = leave_unresolved c w
on_success urlparse c (some b) w =
    with_link c b (safe_checkout_url urlparse b.checkout_url)
      (require_payment_reference b.payment_reference) w

abbrev pub recorded : Call → McpError → Disposition → Dict CardCheckout → Dict CardCheckout
recorded c error terminal d = (mark_failed c.checkout error d).1
recorded c error unresolved d = (mark_unresolved c.checkout error d).1
recorded c error retryable d = d

-- `_on_checkout_failure`
unfoldable pub on_failure : Call → McpError × Disposition → World → Result OpenedPage × World
unfolding mark_failed mark_unresolved
on_failure c (error, disposition) w =
    (err error, record w { card_checkouts = recorded c error disposition w.card_checkouts })

unfoldable pub on_outcome :
    (String → Option ParsedUrl)
    → Call
    → BackendOutcome BackendCardCheckout
    → World
    → Result OpenedPage × World
unfolding is_success outcome_data effective_status outcome_hint classify_checkout_failure on_success
    on_failure
on_outcome urlparse c o w =
    if is_success o
    then on_success urlparse c (parse (outcome_data o)) w
    else on_failure c (classify_checkout_failure (effective_status o) (outcome_hint o) o.parsed) w

unfoldable pub finish :
    (String → Option ParsedUrl)
    → Call
    → Answer BackendCardCheckout
    → World
    → Result OpenedPage × World
unfolding leave_unresolved outcome_of on_outcome
finish urlparse c timed_out w = leave_unresolved c w
finish urlparse c unreachable w = leave_unresolved c w
finish urlparse c (answered r) w = on_outcome urlparse c (outcome_of r) w

-- What the surroundings answer to one call.
pub record Surroundings : Type 0 where
  pub window : ℕ
  pub now : ℕ
  pub digest : String → String
  pub urlparse : String → Option ParsedUrl
  pub session_key : String
  pub device_id : String
  pub fresh_key : String
  pub auth : Option AuthAnswer
  pub answer : Answer BackendCardCheckout

module _ (s : Surroundings) where
  abbrev pub finished : Stage × World → Result OpenedPage × World
  finished (done r, w) = (r, w)
  finished (opening c, w) = finish s.urlparse c s.answer w
  finished (refreshing c session, w) = (err (plain authentication_required), w)

  abbrev pub refreshed : Stage × World → Result OpenedPage × World
  refreshed (refreshing c session, w) = finished (continue_refreshed c session s.auth w)
  refreshed (stage, w) = finished (stage, w)

  abbrev pub with_reference : QuoteOwner → World → Result String → Result OpenedPage × World
  with_reference owner w (err e) = (err e, w)
  with_reference owner w (ok reference) =
      refreshed (begin s.window s.now s.device_id owner reference s.fresh_key w)

  abbrev pub with_owner : String → World → Result QuoteOwner → Result OpenedPage × World
  with_owner reference w (err e) = (err e, w)
  with_owner reference w (ok owner) = with_reference owner w (require_quote_reference reference)

  -- The whole tool, run without another call in between.
  unfoldable pub create_card_checkout : String → World → Result OpenedPage × World
  unfolding owner_of require_quote_reference begin continue_refreshed finish
  create_card_checkout reference w = with_owner reference w (owner_of s.digest s.session_key w)
