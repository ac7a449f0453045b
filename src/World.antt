-- ===== src/World.antt =====
-- The state of one server process: every in-memory store that server.py builds, and the requests
-- that have left for the platform's two mutating routes that spend money, and for the two that open
-- a payment page.
pub mod Manager
use esim_opensource_mcp.Prelude.{
  ℕ, String, Option, none, some, List, Dict, ◌==◌, ◌&&◌, not, if◌then◌else◌, or_empty, [], ◌∷◌,
  Bool,
}
use esim_opensource_mcp.Prelude.Int.{ℤ}
use esim_opensource_mcp.Session.{UserSession, LoginChallenge}
use esim_opensource_mcp.Selection.{Selections}
use esim_opensource_mcp.Purchase.{
  PurchaseQuote, SearchContext, country, region, no_context, SearchContextKind,
}
use esim_opensource_mcp.Purchase.Execution.{PurchaseExecution}
use esim_opensource_mcp.Card.{CardCheckout}
use esim_opensource_mcp.Topup.{EsimTopupQuote, WalletTopupQuote}
use esim_opensource_mcp.Topup.Execution.{EsimTopupExecution}
use esim_opensource_mcp.Topup.Checkout.{WalletTopupCheckout}

-- The platform's `related_search`: one region, or a list of one country.
pub data RelatedSearch : Type 0 where
  region_search : String → String → RelatedSearch
  country_search : String → String → RelatedSearch

-- One POST to /mcp/user/bundle/assign.
pub record PurchaseRequest : Type 0 where
  pub idempotency_key : String
  pub access_token : String
  pub device_id : String
  pub bundle_code : String
  pub quote_reference : String
  pub related_search : Option RelatedSearch
  pub locale : String
  pub currency : String

-- One POST to /user/bundle/assign-top-up.
pub record TopupRequest : Type 0 where
  pub access_token : String
  pub device_id : String
  pub iccid : String
  pub bundle_code : String
  pub quote_reference : String
  pub locale : String
  pub currency : String

-- One POST to the platform's card checkout, which opens a page and takes no money.
pub record CheckoutRequest : Type 0 where
  pub idempotency_key : String
  pub access_token : String
  pub device_id : String
  pub bundle_code : String
  pub quote_reference : String
  pub related_search : Option RelatedSearch
  pub locale : String
  pub currency : String

-- One POST to the platform's wallet top-up checkout, which opens a page and takes no money;
-- `amount` stands before it becomes a float of the body.
pub record TopupCheckoutRequest : Type 0 where
  pub access_token : String
  pub device_id : String
  pub amount : ℤ
  pub locale : String
  pub currency : String

pub record World : Type 0 where
  pub sessions : Dict UserSession
  pub challenges : Dict LoginChallenge
  pub quotes : Dict PurchaseQuote
  pub executions : Dict PurchaseExecution
  pub card_checkouts : Dict CardCheckout
  pub esim_quotes : Dict EsimTopupQuote
  pub esim_executions : Dict EsimTopupExecution
  pub wallet_quotes : Dict WalletTopupQuote
  pub wallet_checkouts : Dict WalletTopupCheckout
  pub selections : Selections
  pub sent : List PurchaseRequest
  pub topups_sent : List TopupRequest
  pub checkouts_sent : List CheckoutRequest
  pub topup_checkouts_sent : List TopupCheckoutRequest

abbrev both_given : (String → String → RelatedSearch) → String → String → Option RelatedSearch
both_given make a b = if not (a == "") && not (b == "") then some (make a b) else none

abbrev search_of : SearchContextKind → SearchContext → Option RelatedSearch
search_of region c = both_given region_search (or_empty c.region_code) (or_empty c.region_name)
search_of country c = both_given country_search (or_empty c.country_iso3) (or_empty c.country_name)
search_of no_context c = none

-- `build_related_search`
unfoldable pub build_related_search : SearchContext → Option RelatedSearch
build_related_search c = search_of c.kind c
