-- ===== src/WalletTopup/Checkout/Sends.antt =====
-- What the start of `create_wallet_topup_checkout` sends, and what it checked before.
pub mod Whole
use esim_opensource_mcp.Prelude.{
  ℕ, ◌<◌, String, Bool, true, false, Option, none, some, List, ◌∷◌, ◌≡◌, ◌⊎◌, arith, refl, ap, sym,
  subst, ◌∙◌, Bool-cases, inl, inr, if◌then◌else◌,
}
use esim_opensource_mcp.Errors.{McpError, Result, ok, err}
use esim_opensource_mcp.Owner.{QuoteOwner}
use esim_opensource_mcp.Session.{UserSession, AuthAnswer}
use esim_opensource_mcp.Backend.{
  Answer, timed_out, unreachable, answered, BackendOutcome, is_success, outcome_of, outcome_data,
  outcome_hint, effective_status,
}
use esim_opensource_mcp.Quotes
use esim_opensource_mcp.Quotes.{is_usable}
use esim_opensource_mcp.Topup.{WalletTopupQuote, require_usable_topup_quote}
use esim_opensource_mcp.Topup.Quotes.{get_wallet_record}
use esim_opensource_mcp.CardModels.{ParsedUrl, parse, safe_checkout_url}
use esim_opensource_mcp.WalletModels.{BackendWalletTopupCheckout, require_topup_reference}
use esim_opensource_mcp.Topup.Checkout.{
  WalletTopupCheckout, TopupPage, TopupStatus, pending, open_page, failed, unresolved, is_terminal,
  acquire, record_attempt, require_attempts_remaining, max_topup_checkout_attempts,
}
use esim_opensource_mcp.World.{World, TopupCheckoutRequest}
use esim_opensource_mcp.World.Manager.{
  RefreshPlan, no_session, current, rotate, ensure_fresh_plan, refresh_finish, notify_invalidated,
  save_session, delete_session, rotated,
}
use esim_opensource_mcp.Confirm.{owner_of, require_quote_reference}
use esim_opensource_mcp.WalletTopup.Failure.{Disposition, classify_checkout_failure}
use esim_opensource_mcp.WalletTopup.Checkout.{
  Call, OpenedPage, Stage, done, refreshing, opening, replay_by, replay_if_terminal, gates, gated,
  unless_replayed, with_quote, by_plan, open_checkout, send, checkout_request, begin,
  continue_refreshed,
}
use esim_opensource_mcp.WalletTopup.Checkout.Finish.{
  finish, on_outcome, on_success, on_failure, with_link, hand_over, refuse, leave_unresolved,
  Surroundings, finished, refreshed, with_reference, with_owner, create_wallet_topup_checkout,
}

-- The request is that of the quote.
abbrev pub IsFor : WalletTopupQuote → TopupCheckoutRequest → Type 0
IsFor q r = (r.amount ≡ q.terms.amount) × (r.currency ≡ q.terms.currency)

-- The quote is usable, and its checkout has not ended and has an attempt left.
abbrev pub Passed : ℕ → WalletTopupQuote → WalletTopupCheckout → Type 0
Passed now q e =
    (is_usable q now ≡ true)
    × (is_terminal e.status ≡ false)
    × (e.attempts < max_topup_checkout_attempts)

abbrev pub Same : World → World → Type 0
Same w v = v.topup_checkouts_sent ≡ w.topup_checkouts_sent

abbrev pub Added : World → WalletTopupQuote → World → Type 0
Added w q v =
    (r : TopupCheckoutRequest) × (v.topup_checkouts_sent ≡ r ∷ w.topup_checkouts_sent) × IsFor q r

replay_by-none :
    (c : WalletTopupCheckout) (s : TopupStatus) (o : Option TopupPage)
    → c.status ≡ s
    → replay_by c s o ≡ none
    → is_terminal c.status ≡ false
unfolding is_terminal
replay_by-none c open_page (some page) e h = absurd (ground (arith, h))
replay_by-none c open_page none e h = ground (arith, h)
replay_by-none c pending o e h = ground (arith, h)
replay_by-none c failed o e h = ground (arith, h)
replay_by-none c unresolved o e h = ground (arith, h)

gates-Passed :
    (now : ℕ) (q : WalletTopupQuote) (e x : WalletTopupCheckout)
    → gates q e now ≡ ok x
    → is_terminal e.status ≡ false
    → Passed now q e
unfolding gates require_usable_topup_quote require_attempts_remaining is_usable
    Quotes.effective_status
gates-Passed now q e x h t = ground (arith, h, t)

-- what a part of a call that is let through adds to the requests
abbrev pub From : World → WalletTopupQuote → Stage × World → Type 0
From w q (done r, v) = Same w v
From w q (refreshing c s, v) = Same w v × (c.quote ≡ q)
From w q (opening c, v) = Added w q v

by_plan-From :
    (w v : World) (c : Call) (plan : RefreshPlan) → Same w v → From w c.quote (by_plan c v plan)
unfolding send
by_plan-From w v c no_session h = h
by_plan-From w v c (current s) h = (
  checkout_request c s,
  ap (λ (t : List TopupCheckoutRequest). checkout_request c s ∷ t) h,
  (refl, refl),
)
by_plan-From w v c (rotate s) h = (h, refl)

open_checkout-From :
    (window now : ℕ) (w v : World) (c : Call)
    → Same w v
    → From w c.quote (open_checkout window now c v)
unfolding open_checkout record_attempt
open_checkout-From window now w v c h =
    let (e, checkouts) = record_attempt c.checkout v.wallet_checkouts in
    let v1 : World = record v { wallet_checkouts = checkouts } in
    by_plan-From w v1 (record c { checkout = e })
      (ensure_fresh_plan window now e.owner_session_key v1) h

-- A call that is let through at its start: the quote is the caller's own, and the gates were passed
-- with the checkout that is stored for the caller under the reference, or a new one where there is
-- none.
abbrev pub Allowed : ℕ → QuoteOwner → String → World → WalletTopupQuote → Type 0
Allowed now owner reference w q =
    (get_wallet_record owner reference w.wallet_quotes ≡ ok q)
    × Passed now q (acquire owner reference w.wallet_checkouts).0

module _ (window now : ℕ) (device_id : String) (owner : QuoteOwner) (reference : String)
    (w : World) where
  abbrev pub Ended : Stage × World → Type 0
  Ended (done r, v) = Same w v
  Ended (_, v) = ⊥

  abbrev pub Begun : Stage × World → Type 0
  Begun p = Ended p ⊎ ((q : WalletTopupQuote) × Allowed now owner reference w q × From w q p)

  gated-Begun :
      (c : Call) (v : World) (r : Result WalletTopupCheckout)
      → get_wallet_record owner reference w.wallet_quotes ≡ ok c.quote
      → c.checkout ≡ (acquire owner reference w.wallet_checkouts).0
      → Same w v
      → replay_if_terminal c.checkout ≡ none
      → gates c.quote c.checkout now ≡ r
      → Begun (gated window now c v r)
  unfolding replay_if_terminal
  gated-Begun c v (err e) read same h none_left g = inl h
  gated-Begun c v (ok x) read same h none_left g =
      let live = replay_by-none c.checkout c.checkout.status c.checkout.result refl none_left in
      inr (
        c.quote,
        (read, subst (Passed now c.quote) same (gates-Passed now c.quote c.checkout x g live)),
        open_checkout-From window now w v c h,
      )

  unless_replayed-Begun :
      (c : Call) (v : World) (r : Option (Result OpenedPage))
      → get_wallet_record owner reference w.wallet_quotes ≡ ok c.quote
      → c.checkout ≡ (acquire owner reference w.wallet_checkouts).0
      → Same w v
      → replay_if_terminal c.checkout ≡ r
      → Begun (unless_replayed window now c v r)
  unless_replayed-Begun c v (some r) read same h e = inl h
  unless_replayed-Begun c v none read same h e =
      gated-Begun c v (gates c.quote c.checkout now) read same h e refl

  with_quote-Begun :
      (r : Result WalletTopupQuote)
      → get_wallet_record owner reference w.wallet_quotes ≡ r
      → Begun (with_quote window now device_id owner reference w r)
  with_quote-Begun (err e) read = inl refl
  with_quote-Begun (ok q) read =
      let (c, checkouts) = acquire owner reference w.wallet_checkouts in
      unless_replayed-Begun (record { quote = q; checkout = c; device_id = device_id })
        (record w { wallet_checkouts = checkouts }) (replay_if_terminal c) read refl refl refl

  pub begin-Begun : Begun (begin window now device_id owner reference w)
  unfolding begin
  begin-Begun = with_quote-Begun (get_wallet_record owner reference w.wallet_quotes) refl
