-- ===== src/WalletTopup/Prepare.antt =====
-- `prepare_wallet_topup` of tools/wallet_topup.py: a read of the platform's limits, the checks of
-- the amount, and the quote. It runs here without another call in between.
pub mod Limits
use esim_opensource_mcp.Prelude.{
  ℕ, String, Bool, true, false, ◌==◌, not, Option, none, some, ltb, if◌then◌else◌, strip, or_empty,
  upper, without_commas,
}
use esim_opensource_mcp.Prelude.Int.{ℤ, pos, leb_ℤ, ltb_ℤ}
use esim_opensource_mcp.Errors.{
  ErrorKind, McpError, Result, ok, err, plain, ◌>>=◌, backend_timeout, backend_unavailable,
  invalid_input, account_read_timeout, catalog_unavailable, esim_selection_out_of_range,
  wallet_topup_amount_invalid, wallet_topup_limit_reached, wallet_topup_unavailable,
}
use esim_opensource_mcp.Owner.{QuoteOwner}
use esim_opensource_mcp.Backend.{Payload}
use esim_opensource_mcp.Session.{UserSession, either_text}
use esim_opensource_mcp.CardModels.{parse}
use esim_opensource_mcp.Purchase.Service.{QuoteSettings}
use esim_opensource_mcp.Topup.{WalletTopupTerms, WalletTopupQuote}
use esim_opensource_mcp.Topup.Quotes.{create_wallet}
use esim_opensource_mcp.World.{World}
use esim_opensource_mcp.World.Manager.{require_session}
use esim_opensource_mcp.World.Manager.Authenticated.{Rotations, run_authenticated}
use esim_opensource_mcp.EsimTopup.Reads.{and_then, mapped}
use esim_opensource_mcp.Confirm.{user_ref_of}

-- Amounts are read as decimals already; the limits and fees are only shown.
pub record BackendTopupOptions : Type 0 where
  pub currency : Option String
  pub minimum_amount_exclusive : Option ℤ
  pub maximum_amount : Option ℤ
  pub current_balance : Option ℤ
  pub can_topup : Bool

-- What the constructor of decimals makes of a text: `none` is a value that is not finite, `places`
-- counts the digits that stand behind the point, with their trailing zeros.
pub record ParsedDecimal : Type 0 where
  pub amount : Option ℤ
  pub places : ℕ

abbrev refused : {A : Type 0} → Result A
refused = err (plain wallet_topup_amount_invalid)

-- `largest` is MAX_PARSEABLE_AMOUNT in the unit of amounts.
abbrev pub checked_amount : ℤ → ℕ → Option ℤ → Result ℤ
checked_amount largest places none = refused
checked_amount largest places (some value) =
    if leb_ℤ value (pos 0)
    then refused
    else if ltb_ℤ largest value
    then refused
    else if ltb 2 places
    then refused
    else ok value

abbrev pub checked_decimal : ℤ → Option ParsedDecimal → Result ℤ
checked_decimal largest none = refused
checked_decimal largest (some d) = checked_amount largest d.places d.amount

-- `_require_amount`; `decimal` is `none` where the constructor raises
unfoldable pub require_amount : (String → Option ParsedDecimal) → ℤ → String → Result ℤ
unfolding strip without_commas
require_amount decimal largest amount =
    let candidate = without_commas (strip amount) in
    if candidate == "" then refused else checked_decimal largest (decimal candidate)

-- the classes that the `except` clauses of `_read_options` catch, subclasses included
abbrev pub options_error : ErrorKind → McpError → McpError
options_error backend_timeout e = plain wallet_topup_unavailable
options_error account_read_timeout e = plain wallet_topup_unavailable
options_error backend_unavailable e = plain wallet_topup_unavailable
options_error catalog_unavailable e = plain wallet_topup_unavailable
options_error invalid_input e = plain wallet_topup_unavailable
options_error esim_selection_out_of_range e = plain wallet_topup_unavailable
options_error _ e = e

abbrev pub readable : Option BackendTopupOptions → Result BackendTopupOptions
readable none = err (plain wallet_topup_unavailable)
readable (some o) = ok o

abbrev pub options_of : Result (Payload BackendTopupOptions) → Result BackendTopupOptions
options_of (err e) = err (options_error e.kind e)
options_of (ok data_payload) = readable (parse data_payload)

abbrev pub at_most : ℤ → Option ℤ → Bool
at_most requested none = false
at_most requested (some minimum) = leb_ℤ requested minimum

abbrev pub above : ℤ → Option ℤ → Bool
above requested none = false
above requested (some maximum) = ltb_ℤ maximum requested

-- The platform's own rules, and the terms of a quote that keeps them.
unfoldable pub accepted_terms : BackendTopupOptions → String → ℤ → Result WalletTopupTerms
unfolding strip upper
accepted_terms o currency requested =
    if not o.can_topup
    then err (plain wallet_topup_limit_reached)
    else if at_most requested o.minimum_amount_exclusive
    then refused
    else if above requested o.maximum_amount
    then refused
    else ok (record {
      amount = requested;
      currency = upper (strip (or_empty (either_text o.currency (some currency))));
      balance = o.current_balance;
      minimum_amount = o.minimum_amount_exclusive;
      maximum_amount = o.maximum_amount;
    })

-- What a preparation is given: `locale` and `currency` are the arguments or the defaults, trimmed,
-- and the currency in capitals; `options` answers the reads, by how often they went out before.
pub record Preparation : Type 0 where
  pub window : ℕ
  pub now : ℕ
  pub rotations : Rotations
  pub settings : QuoteSettings
  pub digest : String → String
  pub session_key : String
  pub quote_id : String
  pub moment : ℕ
  pub locale : String
  pub currency : String
  pub decimal : String → Option ParsedDecimal
  pub largest : ℤ
  pub options : ℕ → String → Result (Payload BackendTopupOptions)

module _ (g : Preparation) where
  -- `_read_options`
  unfoldable pub read_options : World → Result BackendTopupOptions × World
  unfolding run_authenticated
  read_options w =
      mapped options_of
        (run_authenticated g.window g.now g.rotations g.session_key g.options true w)

  unfoldable pub quoted : UserSession → WalletTopupTerms → World → Result WalletTopupQuote × World
  unfolding create_wallet
  quoted s terms w =
      let owner : QuoteOwner = record {
        session_key = g.session_key;
        user_ref = user_ref_of g.digest s;
      } in
      let (r, quotes) =
        create_wallet g.settings owner g.quote_id s.identity_source terms g.locale g.moment
          w.wallet_quotes in
      (r, record w { wallet_quotes = quotes })

  abbrev pub offered :
      UserSession → ℤ → BackendTopupOptions → World → Result WalletTopupQuote × World
  offered s requested o w =
      and_then (accepted_terms o g.currency requested, w) (λ terms v. quoted s terms v)

  abbrev pub for_amount : UserSession → World → ℤ → Result WalletTopupQuote × World
  for_amount s w requested = and_then (read_options w) (λ o v. offered s requested o v)

  unfoldable pub prepare_wallet_topup : String → World → Result WalletTopupQuote × World
  unfolding require_session require_amount read_options accepted_terms quoted
  prepare_wallet_topup amount w =
      and_then (require_session g.session_key w, w)
        (λ s w0.
          and_then (require_amount g.decimal g.largest amount, w0)
            (λ requested w1. for_amount s w1 requested))
