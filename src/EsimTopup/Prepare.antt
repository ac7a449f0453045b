-- ===== src/EsimTopup/Prepare.antt =====
-- The four free tools of tools/esim_topup.py: `get_esim_topup_options`, `prepare_esim_topup`,
-- `get_prepared_esim_topup` and `cancel_prepared_esim_topup`. The texts of their payloads are not
-- modelled.
pub mod Agreement
use esim_opensource_mcp.Prelude.{
  ℕ, String, Bool, true, false, not, ◌&&◌, ◌==◌, Option, none, some, List, [], ◌∷◌, if◌then◌else◌,
  strip, lower, or_empty, ltb, is_some, Dict,
}
use esim_opensource_mcp.Prelude.Int.{ℤ}
use esim_opensource_mcp.Errors.{
  Result, ok, err, plain, ◌>>=◌, invalid_input, no_topup_options, topup_bundle_incompatible,
  esim_selection_out_of_range,
}
use esim_opensource_mcp.Owner.{QuoteOwner}
use esim_opensource_mcp.Quotes.{QuoteStatus, effective_status}
use esim_opensource_mcp.Selection
use esim_opensource_mcp.Selection.{BackendEsim, SelectedEsim, to_backend_esim}
use esim_opensource_mcp.Session.{UserSession}
use esim_opensource_mcp.Purchase.{QuotedWallet, require_positive_price}
use esim_opensource_mcp.Purchase.Service.{QuoteSettings}
use esim_opensource_mcp.Topup.{EsimTopupTerms, EsimTopupQuote}
use esim_opensource_mcp.Topup.Quotes.{create_esim, get_esim_record, cancel_esim}
use esim_opensource_mcp.World.{World}
use esim_opensource_mcp.World.Manager.{require_session}
use esim_opensource_mcp.Confirm.{owner_of, user_ref_of}
use esim_opensource_mcp.EsimTopup.Target.{require_toppable, esim_target}
use esim_opensource_mcp.EsimTopup.Reads.{
  Platform, Bundle, owned_esims, compatible_bundles, wallet_snapshot, and_then, bundle_with,
  currency_of, quoted_bundle,
}
use esim_opensource_mcp.EsimTopup.Revalidate.{toppable_target, checked}
use esim_opensource_mcp.EsimTopup.Confirm.Finish.{require_quote_id}

-- `_require_bundle_code`
unfoldable pub require_plan_code : String → Result String
unfolding strip
require_plan_code bundle_code =
    if strip bundle_code == "" then err (plain invalid_input) else ok (strip bundle_code)

-- `require_esim_number`
unfoldable pub require_esim_number : ℕ → Result ℕ
require_esim_number n = if ltb n 1 then err (plain esim_selection_out_of_range) else ok n

unfoldable pub selected_target : QuoteOwner → ℕ → World → Result BackendEsim
unfolding Selection.resolve require_toppable require_esim_number
selected_target owner number w = do
  n ← require_esim_number number
  entry ← Selection.resolve owner n w.selections
  require_toppable (to_backend_esim entry)

-- the eSIM by its number in the last listing, or read from the platform
abbrev pub options_target :
    Platform → QuoteOwner → Option ℕ → Option String → World → Result BackendEsim × World
options_target p owner (some number) iccid w =
    if strip (or_empty iccid) == ""
    then (selected_target owner number w, w)
    else (err (plain invalid_input), w)
options_target p owner none iccid w = and_then (owned_esims p w) (checked (toppable_target iccid))

unfoldable pub get_esim_topup_options :
    Platform
    → (String → String)
    → Option ℕ
    → Option String
    → World
    → Result (BackendEsim × List Bundle) × World
unfolding owner_of selected_target owned_esims toppable_target compatible_bundles strip
get_esim_topup_options p digest number iccid w =
    and_then (owner_of digest p.session_key w, w)
      (λ owner w0.
        and_then (options_target p owner number iccid w0)
          (λ target w1. and_then (compatible_bundles p target w1) (λ bs w2. (ok (target, bs), w2))))

abbrev pub chosen : Option Bundle → Result Bundle
chosen none = err (plain topup_bundle_incompatible)
chosen (some b) = ok b

-- The plan of that code, or why there is none.
unfoldable pub offered_bundle : String → List Bundle → Result Bundle
unfolding bundle_with
offered_bundle code [] = err (plain no_topup_options)
offered_bundle code (b ∷ bs) = chosen (bundle_with code (b ∷ bs))

-- `decimal_from_number` and `require_positive_price`, with the plan itself
unfoldable pub priced : String → Bundle → Result (Bundle × ℤ)
unfolding require_positive_price
priced currency b = do
  amount ← require_positive_price b.price (currency_of b currency)
  ok (b, amount)

unfoldable pub terms_of : BackendEsim → Bundle → ℤ → String → QuotedWallet → EsimTopupTerms
unfolding esim_target
terms_of target b amount currency wallet = record {
  target = esim_target target;
  bundle = quoted_bundle b;
  price = record { amount = amount; currency = currency };
  payment_method = "Wallet";
  wallet = some wallet;
}

-- What a preparation is given: `locale` and `currency` are the arguments or the defaults, trimmed.
pub record Preparation : Type 0 where
  pub settings : QuoteSettings
  pub digest : String → String
  pub quote_id : String
  pub moment : ℕ
  pub locale : String
  pub currency : String

module _ (p : Platform) (g : Preparation) where
  abbrev pub saved : UserSession → EsimTopupTerms → World → Result EsimTopupQuote × World
  saved s terms w =
      let owner : QuoteOwner = record {
        session_key = p.session_key;
        user_ref = user_ref_of g.digest s;
      } in
      let (r, quotes) =
        create_esim g.settings owner g.quote_id s.identity_source terms g.locale g.moment
          w.esim_quotes in
      (r, record w { esim_quotes = quotes })

  abbrev pub quoted : UserSession → BackendEsim → Bundle × ℤ → World → Result EsimTopupQuote × World
  quoted s target (b, amount) w =
      let price_currency = currency_of b g.currency in
      and_then (wallet_snapshot p price_currency amount w)
        (λ wallet v. saved s (terms_of target b amount price_currency wallet) v)

  abbrev pub for_session :
      Option String → String → UserSession → World → Result EsimTopupQuote × World
  for_session iccid code s w =
      and_then (and_then (owned_esims p w) (checked (toppable_target iccid))) (λ target w1.
        and_then
          (and_then (compatible_bundles p target w1)
            (checked (λ bundles. offered_bundle code bundles >>= priced g.currency)))
          (λ offer w2. quoted s target offer w2))

  unfoldable pub prepare_esim_topup : Option String → String → World → Result EsimTopupQuote × World
  unfolding require_session require_plan_code owned_esims toppable_target compatible_bundles
      offered_bundle priced wallet_snapshot terms_of create_esim
  prepare_esim_topup iccid bundle_code w =
      and_then (require_session p.session_key w, w)
        (λ s w0.
          and_then (require_plan_code bundle_code, w0) (λ code w1. for_session iccid code s w1))

abbrev pub with_status : ℕ → EsimTopupQuote → Result (QuoteStatus × EsimTopupQuote)
unfolding effective_status
with_status now q = ok (effective_status q now, q)

-- The status that the caller is told, and the quote.
unfoldable pub get_prepared_esim_topup :
    (String → String) → String → String → ℕ → World → Result (QuoteStatus × EsimTopupQuote)
unfolding owner_of require_quote_id get_esim_record effective_status
get_prepared_esim_topup digest session_key quote_id now w = do
  owner ← owner_of digest session_key w
  id ← require_quote_id quote_id
  quote ← get_esim_record owner id w.esim_quotes
  with_status now quote

abbrev stored : World → Result EsimTopupQuote × Dict EsimTopupQuote → Result EsimTopupQuote × World
stored w (r, quotes) = (r, record w { esim_quotes = quotes })

unfoldable pub cancel_prepared_esim_topup :
    (String → String) → String → String → ℕ → World → Result EsimTopupQuote × World
unfolding owner_of require_quote_id cancel_esim
cancel_prepared_esim_topup digest session_key quote_id moment w =
    and_then (owner_of digest session_key w, w)
      (λ owner w0.
        and_then (require_quote_id quote_id, w0)
          (λ id w1. stored w1 (cancel_esim owner id moment w1.esim_quotes)))

abbrev short : Option QuotedWallet → Bool
short none = false
short (some wallet) = not wallet.sufficient

-- `can_be_completed_here` of `_prepared_result`
unfoldable pub can_be_completed_here : Bool → EsimTopupQuote → Bool
can_be_completed_here enabled q = if short q.terms.wallet then false else enabled
