-- ===== src/WalletTopup/Status.antt =====
-- `get_wallet_topup_status` of tools/wallet_topup.py, cut at its awaits: `begin`,
-- `continue_refreshed` and `finish`, under the lock of the payment's reference.
pub mod Settled
use mathlib.Core.Option
use esim_opensource_mcp.Prelude.Int.{ℤ}
use esim_opensource_mcp.Prelude.{
  ℕ, String, Bool, true, false, ◌==◌, Option, none, some, if◌then◌else◌, or_empty,
}
use esim_opensource_mcp.Errors.{
  Result, ok, err, plain, authentication_required, wallet_topup_status_unavailable,
}
use esim_opensource_mcp.Owner.{QuoteOwner}
use esim_opensource_mcp.Session.{UserSession, AuthAnswer, either_text}
use esim_opensource_mcp.Backend.{
  Answer, timed_out, unreachable, answered, BackendOutcome, outcome_of, is_success, outcome_data,
  effective_status,
}
use esim_opensource_mcp.Topup.Quotes.{consume_wallet}
use esim_opensource_mcp.CardModels.{parse}
use esim_opensource_mcp.WalletModels.{
  WalletTopupStatus, pending, paid, failed, expired, BackendWalletTopupStatus, is_terminal,
  money_arrived, parse_topup_status, require_topup_reference,
}
use esim_opensource_mcp.Topup.Checkout.{
  WalletTopupCheckout, TopupPage, TopupResult, require_by_reference, record_check,
  require_checks_remaining, mark_settled,
}
use esim_opensource_mcp.World.{World}
use esim_opensource_mcp.World.Manager.{
  RefreshPlan, no_session, current, rotate, ensure_fresh_plan, refresh_finish,
}
use esim_opensource_mcp.Confirm.{owner_of}
use esim_opensource_mcp.WalletTopup.Failure.{classify_status_failure}

pub record CheckedPayment : Type 0 where
  pub payment : TopupResult
  pub replayed : Bool

-- The local variables that a check keeps while it awaits the platform.
pub record Check : Type 0 where
  pub owner : QuoteOwner
  pub checkout : WalletTopupCheckout

pub data Stage : Type 0 where
  done : Result CheckedPayment → Stage
  refreshing : Check → UserSession → Stage
  reading : Check → Stage

abbrev pub replay_if_settled : WalletTopupCheckout → Option (Result CheckedPayment)
replay_if_settled c =
    Option.map (λ r. ok (record { payment = r; replayed = true })) c.payment_result

abbrev pub by_plan : Check → World → RefreshPlan → Stage × World
by_plan c w no_session = (done (err (plain authentication_required)), w)
by_plan c w (current s) = (reading c, w)
by_plan c w (rotate s) = (refreshing c s, w)

-- The check is counted before the platform is asked.
unfoldable pub read_status : ℕ → ℕ → Check → World → Stage × World
unfolding record_check ensure_fresh_plan
read_status window now c w =
    let (e, checkouts) = record_check c.checkout w.wallet_checkouts in
    let w' = record w { wallet_checkouts = checkouts } in
    by_plan (record c { checkout = e }) w' (ensure_fresh_plan window now e.owner_session_key w')

abbrev pub limited : ℕ → ℕ → Check → World → Result WalletTopupCheckout → Stage × World
limited window now c w (err e) = (done (err e), w)
limited window now c w (ok _) = read_status window now c w

abbrev pub unless_settled : ℕ → ℕ → Check → World → Option (Result CheckedPayment) → Stage × World
unless_settled window now c w (some r) = (done r, w)
unless_settled window now c w none = limited window now c w (require_checks_remaining c.checkout)

abbrev pub with_checkout : ℕ → ℕ → QuoteOwner → World → Result WalletTopupCheckout → Stage × World
with_checkout window now owner w (err e) = (done (err e), w)
with_checkout window now owner w (ok c) =
    unless_settled window now (record { owner = owner; checkout = c }) w (replay_if_settled c)

unfoldable pub begin : ℕ → ℕ → QuoteOwner → String → World → Stage × World
unfolding require_by_reference require_checks_remaining read_status
begin window now owner reference w =
    with_checkout window now owner w (require_by_reference owner reference w.wallet_checkouts)

abbrev pub after_refresh : Check → Result UserSession × World → Stage × World
after_refresh c (err e, w) = (done (err e), w)
after_refresh c (ok s, w) = (reading c, w)

unfoldable pub continue_refreshed : Check → UserSession → Option AuthAnswer → World → Stage × World
unfolding refresh_finish
continue_refreshed c s auth w =
    after_refresh c (refresh_finish c.checkout.owner_session_key s auth w)

abbrev pub offered_link : WalletTopupStatus → Option TopupPage → Option String
offered_link pending (some page) = if page.checkout_url == "" then none else some page.checkout_url
offered_link _ _ = none

-- The amount of the answer, and else that of the stored page.
abbrev pub amount_of : Option ℤ → Option TopupPage → Option ℤ
amount_of (some amount) stored = some amount
amount_of none stored = Option.map (λ (p : TopupPage). p.amount) stored

-- `currency or stored.get("currency")`
abbrev pub currency_of : Option String → Option TopupPage → Option String
currency_of currency stored =
    either_text currency (Option.map (λ (p : TopupPage). p.currency) stored)

abbrev pub needs_new : WalletTopupStatus → Bool
needs_new failed = true
needs_new expired = true
needs_new _ = false

-- `_status_result`
unfoldable pub status_result :
    WalletTopupCheckout → BackendWalletTopupStatus → WalletTopupStatus → TopupResult
unfolding money_arrived is_terminal
status_result c b s = record {
  payment_reference = or_empty c.payment_reference;
  topup_status = s;
  paid = money_arrived s;
  charged = money_arrived s;
  credited = money_arrived s;
  is_final = is_terminal s;
  amount = amount_of b.amount c.result;
  currency = currency_of b.currency c.result;
  checkout_url = offered_link s c.result;
  expires_at = b.expires_at;
  order_id = b.order_id;
  next_action = b.next_action;
  new_checkout_required = needs_new s;
}

abbrev pub consume_paid : Check → WalletTopupStatus → World → World
consume_paid c paid w = record w {
  wallet_quotes = (consume_wallet c.owner c.checkout.quote_id w.wallet_quotes).1;
}
consume_paid c _ w = w

abbrev pub settle : Check → TopupResult → World → World
settle c r w =
    if r.is_final
    then record w { wallet_checkouts = (mark_settled c.checkout r w.wallet_checkouts).1 }
    else w

-- An error of `consume` is suppressed.
unfoldable pub report :
    Check → BackendWalletTopupStatus → WalletTopupStatus → World → Result CheckedPayment × World
unfolding status_result consume_wallet mark_settled
report c b s w =
    let r = status_result c.checkout b s in
    (ok (record { payment = r; replayed = false }), settle c r (consume_paid c s w))

abbrev pub unreadable : World → Result CheckedPayment × World
unreadable w = (err (plain wallet_topup_status_unavailable), w)

abbrev pub with_status :
    Check
    → BackendWalletTopupStatus
    → Option WalletTopupStatus
    → World
    → Result CheckedPayment × World
with_status c b none w = unreadable w
with_status c b (some s) w = report c b s w

-- `_on_status`
unfoldable pub on_status :
    Check → Option BackendWalletTopupStatus → World → Result CheckedPayment × World
unfolding parse_topup_status report
on_status c none w = unreadable w
on_status c (some b) w = with_status c b (parse_topup_status b.status) w

unfoldable pub on_outcome :
    Check → BackendOutcome BackendWalletTopupStatus → World → Result CheckedPayment × World
unfolding is_success outcome_data effective_status classify_status_failure on_status
on_outcome c o w =
    if is_success o
    then on_status c (parse (outcome_data o)) w
    else (err (classify_status_failure (effective_status o)), w)

unfoldable pub finish :
    Check → Answer BackendWalletTopupStatus → World → Result CheckedPayment × World
unfolding outcome_of on_outcome
finish c timed_out w = unreadable w
finish c unreachable w = unreadable w
finish c (answered r) w = on_outcome c (outcome_of r) w

-- What the surroundings answer to one check.
pub record Surroundings : Type 0 where
  pub window : ℕ
  pub now : ℕ
  pub digest : String → String
  pub session_key : String
  pub auth : Option AuthAnswer
  pub answer : Answer BackendWalletTopupStatus

module _ (s : Surroundings) where
  abbrev pub finished : Stage × World → Result CheckedPayment × World
  finished (done r, w) = (r, w)
  finished (reading c, w) = finish c s.answer w
  finished (refreshing c session, w) = (err (plain authentication_required), w)

  abbrev pub refreshed : Stage × World → Result CheckedPayment × World
  refreshed (refreshing c session, w) = finished (continue_refreshed c session s.auth w)
  refreshed (stage, w) = finished (stage, w)

  abbrev pub with_reference : QuoteOwner → World → Result String → Result CheckedPayment × World
  with_reference owner w (err e) = (err e, w)
  with_reference owner w (ok reference) = refreshed (begin s.window s.now owner reference w)

  abbrev pub with_owner : String → World → Result QuoteOwner → Result CheckedPayment × World
  with_owner reference w (err e) = (err e, w)
  with_owner reference w (ok owner) =
      with_reference owner w (require_topup_reference (some reference))

  -- The whole tool, run without another call in between.
  unfoldable pub get_wallet_topup_status : String → World → Result CheckedPayment × World
  unfolding owner_of require_topup_reference begin continue_refreshed finish
  get_wallet_topup_status reference w = with_owner reference w (owner_of s.digest s.session_key w)
