-- ===== src/CardPayment/Status.antt =====
-- `check_card_payment_status` of tools/card_checkout.py, cut at its awaits: `begin`,
-- `continue_refreshed` and `finish`, under the lock of the payment's reference.
pub mod Settled
use mathlib.Core.Option
use esim_opensource_mcp.Prelude.Int.{ℤ}
use esim_opensource_mcp.Prelude.{
  ℕ, String, Bool, true, false, ◌==◌, Option, none, some, if◌then◌else◌, or_empty,
}
use esim_opensource_mcp.Errors.{
  McpError, Result, ok, err, plain, code, authentication_required, card_payment_ambiguous,
  card_payment_status_unavailable, contact_support,
}
use esim_opensource_mcp.Owner.{QuoteOwner}
use esim_opensource_mcp.Session.{UserSession, AuthAnswer, either_text}
use esim_opensource_mcp.Backend.{
  Answer, timed_out, unreachable, answered, BackendOutcome, outcome_of, is_success, outcome_data,
  effective_status,
}
use esim_opensource_mcp.Purchase.Service.{consume}
use esim_opensource_mcp.CardModels.{
  CardPaymentStatus, pending, completed, failed, expired, cancelled, ambiguous,
  BackendCardPaymentStatus, is_terminal, money_arrived, parse, parse_status,
  require_payment_reference,
}
use esim_opensource_mcp.Card.{
  CardCheckout, CheckoutPage, PaymentResult, require_by_reference, replay_error, record_check,
  require_checks_remaining, mark_failed, mark_payment_settled,
}
use esim_opensource_mcp.World.{World}
use esim_opensource_mcp.World.Manager.{
  RefreshPlan, no_session, current, rotate, ensure_fresh_plan, refresh_finish,
}
use esim_opensource_mcp.Confirm.{owner_of}
use esim_opensource_mcp.CardPayment.Failure.{classify_status_failure}

pub record CheckedPayment : Type 0 where
  pub payment : PaymentResult
  pub replayed : Bool

-- The local variables that a check keeps while it awaits the platform.
pub record Check : Type 0 where
  pub owner : QuoteOwner
  pub checkout : CardCheckout

pub data Stage : Type 0 where
  done : Result CheckedPayment → Stage
  refreshing : Check → UserSession → Stage
  reading : Check → Stage

abbrev pub replay_by : CardCheckout → Option PaymentResult → Option (Result CheckedPayment)
replay_by c (some r) = some (ok (record { payment = r; replayed = true }))
replay_by c none =
    if or_empty c.failure_code == code card_payment_ambiguous
    then some (err (replay_error c))
    else none

unfoldable pub replay_if_settled : CardCheckout → Option (Result CheckedPayment)
unfolding code replay_error
replay_if_settled c = replay_by c c.payment_result

abbrev pub by_plan : Check → World → RefreshPlan → Stage × World
by_plan c w no_session = (done (err (plain authentication_required)), w)
by_plan c w (current s) = (reading c, w)
by_plan c w (rotate s) = (refreshing c s, w)

-- The check is counted before the platform is asked.
unfoldable pub read_status : ℕ → ℕ → Check → World → Stage × World
unfolding record_check ensure_fresh_plan
read_status window now c w =
    let (e, checkouts) = record_check c.checkout w.card_checkouts in
    let w' = record w { card_checkouts = checkouts } in
    by_plan (record c { checkout = e }) w' (ensure_fresh_plan window now e.owner_session_key w')

abbrev pub limited : ℕ → ℕ → Check → World → Result CardCheckout → Stage × World
limited window now c w (err e) = (done (err e), w)
limited window now c w (ok _) = read_status window now c w

abbrev pub unless_settled : ℕ → ℕ → Check → World → Option (Result CheckedPayment) → Stage × World
unless_settled window now c w (some r) = (done r, w)
unless_settled window now c w none = limited window now c w (require_checks_remaining c.checkout)

abbrev pub with_checkout : ℕ → ℕ → QuoteOwner → World → Result CardCheckout → Stage × World
with_checkout window now owner w (err e) = (done (err e), w)
with_checkout window now owner w (ok c) =
    unless_settled window now (record { owner = owner; checkout = c }) w (replay_if_settled c)

unfoldable pub begin : ℕ → ℕ → QuoteOwner → String → World → Stage × World
unfolding require_by_reference replay_if_settled require_checks_remaining read_status
begin window now owner reference w =
    with_checkout window now owner w (require_by_reference owner reference w.card_checkouts)

abbrev pub after_refresh : Check → Result UserSession × World → Stage × World
after_refresh c (err e, w) = (done (err e), w)
after_refresh c (ok s, w) = (reading c, w)

unfoldable pub continue_refreshed : Check → UserSession → Option AuthAnswer → World → Stage × World
unfolding refresh_finish
continue_refreshed c s auth w =
    after_refresh c (refresh_finish c.checkout.owner_session_key s auth w)

abbrev pub offered_link : CardPaymentStatus → Option CheckoutPage → Option String
offered_link pending (some page) = if page.checkout_url == "" then none else some page.checkout_url
offered_link _ _ = none

abbrev pub said : Option Bool → Bool
said none = false
said (some b) = b

-- The amount of the answer, and else that of the stored page.
abbrev pub amount_of : Option ℤ → Option CheckoutPage → Option ℤ
amount_of (some amount) stored = some amount
amount_of none stored = Option.map (λ (p : CheckoutPage). p.amount) stored

-- `currency or stored.get("currency")`
abbrev pub currency_of : Option String → Option CheckoutPage → Option String
currency_of currency stored =
    either_text currency (Option.map (λ (p : CheckoutPage). p.currency) stored)

abbrev pub needs_new : CardPaymentStatus → Bool
needs_new failed = true
needs_new expired = true
needs_new cancelled = true
needs_new _ = false

-- `_status_result`
unfoldable pub status_result :
    CardCheckout → BackendCardPaymentStatus → CardPaymentStatus → PaymentResult
unfolding money_arrived is_terminal
status_result c b s = record {
  payment_reference = or_empty c.payment_reference;
  payment_status = s;
  paid = money_arrived s;
  charged = money_arrived s;
  provisioned = said b.provisioned;
  is_final = is_terminal s;
  bundle = Option.map (λ (p : CheckoutPage). p.bundle) c.result;
  amount = amount_of b.amount c.result;
  currency = currency_of b.currency c.result;
  checkout_url = offered_link s c.result;
  expires_at = b.expires_at;
  order_id = b.order_id;
  bundle_code = b.bundle_code;
  quote_reference = b.quote_reference;
  next_action = b.next_action;
  new_checkout_required = needs_new s;
}

abbrev pub consume_paid : Check → CardPaymentStatus → World → World
consume_paid c completed w = record w { quotes = (consume c.owner c.checkout.quote_id w.quotes).1 }
consume_paid c _ w = w

abbrev pub settle : Check → PaymentResult → World → World
settle c r w =
    if r.is_final
    then record w { card_checkouts = (mark_payment_settled c.checkout r w.card_checkouts).1 }
    else w

-- An error of `consume` is suppressed.
unfoldable pub report :
    Check → BackendCardPaymentStatus → CardPaymentStatus → World → Result CheckedPayment × World
unfolding status_result consume mark_payment_settled
report c b s w =
    let r = status_result c.checkout b s in
    (ok (record { payment = r; replayed = false }), settle c r (consume_paid c s w))

abbrev pub support : McpError
support = record { kind = card_payment_ambiguous; details = contact_support }

unfoldable pub give_up : Check → World → Result CheckedPayment × World
unfolding mark_failed
give_up c w =
    (err support, record w { card_checkouts = (mark_failed c.checkout support w.card_checkouts).1 })

abbrev pub unreadable : World → Result CheckedPayment × World
unreadable w = (err (plain card_payment_status_unavailable), w)

abbrev pub with_status :
    Check
    → BackendCardPaymentStatus
    → Option CardPaymentStatus
    → World
    → Result CheckedPayment × World
with_status c b none w = unreadable w
with_status c b (some ambiguous) w = give_up c w
with_status c b (some s) w = report c b s w

-- `_on_status`
unfoldable pub on_status :
    Check → Option BackendCardPaymentStatus → World → Result CheckedPayment × World
unfolding parse_status give_up report
on_status c none w = unreadable w
on_status c (some b) w = with_status c b (parse_status b.status) w

unfoldable pub on_outcome :
    Check → BackendOutcome BackendCardPaymentStatus → World → Result CheckedPayment × World
unfolding is_success outcome_data effective_status classify_status_failure on_status
on_outcome c o w =
    if is_success o
    then on_status c (parse (outcome_data o)) w
    else (err (classify_status_failure (effective_status o)), w)

unfoldable pub finish :
    Check → Answer BackendCardPaymentStatus → World → Result CheckedPayment × World
unfolding outcome_of on_outcome
finish c timed_out w = unreadable w
finish c unreachable w = unreadable w
finish c (answered r) w = on_outcome c (outcome_of r) w

-- What the surroundings answer to one check.
pub record Surroundings : Type 0 where
  pub window : ℕ
  pub now : ℕ
  pub digest : String → String
  pub session_key : String
  pub auth : Option AuthAnswer
  pub answer : Answer BackendCardPaymentStatus

module _ (s : Surroundings) where
  abbrev pub finished : Stage × World → Result CheckedPayment × World
  finished (done r, w) = (r, w)
  finished (reading c, w) = finish c s.answer w
  finished (refreshing c session, w) = (err (plain authentication_required), w)

  abbrev pub refreshed : Stage × World → Result CheckedPayment × World
  refreshed (refreshing c session, w) = finished (continue_refreshed c session s.auth w)
  refreshed (stage, w) = finished (stage, w)

  abbrev pub with_reference : QuoteOwner → World → Result String → Result CheckedPayment × World
  with_reference owner w (err e) = (err e, w)
  with_reference owner w (ok reference) = refreshed (begin s.window s.now owner reference w)

  abbrev pub with_owner : String → World → Result QuoteOwner → Result CheckedPayment × World
  with_owner reference w (err e) = (err e, w)
  with_owner reference w (ok owner) =
      with_reference owner w (require_payment_reference (some reference))

  -- The whole tool, run without another call in between.
  unfoldable pub check_card_payment_status : String → World → Result CheckedPayment × World
  unfolding owner_of require_payment_reference begin continue_refreshed finish
  check_card_payment_status reference w = with_owner reference w (owner_of s.digest s.session_key w)
