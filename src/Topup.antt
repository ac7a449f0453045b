-- ===== src/Topup.antt =====
-- topup/models.py and the gates of topup/service.py: what the two kinds of top-up quote hold.
pub mod Quotes
pub mod Execution
pub mod Checkout
use esim_opensource_mcp.Prelude.{ℕ, String, Bool, Option}
use esim_opensource_mcp.Prelude.Int.{ℤ}
use esim_opensource_mcp.Errors.{Result, ok, err, plain, topup_quote_expired, topup_quote_cancelled}
use esim_opensource_mcp.Quotes.{
  Quote, QuoteStatus, active, expired, cancelled, consumed, effective_status,
}
use esim_opensource_mcp.Purchase.{QuotedWallet}

pub record EsimTarget : Type 0 where
  pub iccid : String
  pub masked_iccid : String
  pub bundle_code : String
  pub bundle_name : Option String
  pub plan_started : Option Bool
  pub bundle_expired : Option Bool
  pub topup_allowed : Option Bool
  pub label : Option String
  pub order_reference : Option String

pub record QuotedTopupBundle : Type 0 where
  pub bundle_code : String
  pub name : String
  pub data_display : String
  pub unlimited : Bool
  pub validity_display : String
  pub validity_days : Option ℕ
  pub plan_type : Option String
  pub activation_policy : Option String
  pub countries_count : ℕ

pub record QuotedTopupPrice : Type 0 where
  pub amount : ℤ
  pub currency : String

pub record EsimTopupTerms : Type 0 where
  pub target : EsimTarget
  pub bundle : QuotedTopupBundle
  pub price : QuotedTopupPrice
  pub payment_method : String
  pub wallet : Option QuotedWallet

abbrev pub EsimTopupQuote : Type 0
EsimTopupQuote = Quote EsimTopupTerms

pub record WalletTopupTerms : Type 0 where
  pub amount : ℤ
  pub currency : String
  pub balance : Option ℤ
  pub minimum_amount : Option ℤ
  pub maximum_amount : Option ℤ

abbrev pub WalletTopupQuote : Type 0
WalletTopupQuote = Quote WalletTopupTerms

module _ {T : Type 0} where
  abbrev by_status : Quote T → QuoteStatus → Result (Quote T)
  by_status q expired = err (plain topup_quote_expired)
  by_status q cancelled = err (plain topup_quote_cancelled)
  by_status q consumed = err (plain topup_quote_cancelled)
  by_status q active = ok q

  -- `require_usable_topup_quote`, which is `_require_status` of the effective status
  unfoldable pub require_usable_topup_quote : Quote T → ℕ → Result (Quote T)
  unfolding effective_status
  require_usable_topup_quote q now = by_status q (effective_status q now)
