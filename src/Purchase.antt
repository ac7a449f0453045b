-- ===== src/Purchase.antt =====
-- purchase/models.py and purchase/validation.py: what a purchase quote holds, and its gates.
-- Amounts are integers in a unit fine enough for every price and balance of the platform.
pub mod Service
pub mod Execution
pub mod Failure
pub mod Covered
use esim_opensource_mcp.Prelude.{
  ℕ, String, Bool, true, false, not, ◌&&◌, ◌==◌, Option, none, some, if◌then◌else◌, strip, lower,
  eq_codes, codes, or_empty,
}
use esim_opensource_mcp.Prelude.Int.{ℤ, pos, ◌-ℤ◌, leb_ℤ, ltb_ℤ}
use esim_opensource_mcp.Errors.{
  Result, ok, err, plain, quote_expired, quote_cancelled, quote_consumed,
  unsupported_payment_method, invalid_input, insufficient_wallet_balance,
}
use esim_opensource_mcp.Quotes.{
  Quote, active, expired, cancelled, consumed, QuoteStatus, effective_status,
}

pub data PaymentMethod : Type 0 where
  wallet card : PaymentMethod

pub data SearchContextKind : Type 0 where
  country region no_context : SearchContextKind

pub record SearchContext : Type 0 where
  pub kind : SearchContextKind
  pub country_name : Option String
  pub country_iso3 : Option String
  pub region_name : Option String
  pub region_code : Option String
  pub is_complete : Bool

pub record QuotedBundle : Type 0 where
  pub bundle_code : String
  pub name : String
  pub data_display : String
  pub unlimited : Bool
  pub validity_display : String
  pub validity_days : Option ℕ
  pub plan_type : Option String
  pub activation_policy : Option String
  pub countries_count : ℕ

pub record QuotedPrice : Type 0 where
  pub displayed_amount : ℤ
  pub currency : String
  pub final_amount_confirmed : Bool
  pub tax_included_confirmed : Bool

pub record QuotedWallet : Type 0 where
  pub balance : ℤ
  pub currency : String
  pub sufficient : Bool
  pub estimated_remaining_balance : Option ℤ
  pub shortfall : Option ℤ

pub record PurchaseTerms : Type 0 where
  pub bundle : QuotedBundle
  pub payment_method : PaymentMethod
  pub price : QuotedPrice
  pub wallet_snapshot : Option QuotedWallet
  pub search_context : SearchContext

abbrev pub PurchaseQuote : Type 0
PurchaseQuote = Quote PurchaseTerms

abbrev pub same_method : PaymentMethod → PaymentMethod → Bool
same_method wallet wallet = true
same_method card card = true
same_method _ _ = false

-- `PurchaseQuote.equivalent_to`
unfoldable pub equivalent_to : String → PaymentMethod → PurchaseQuote → Bool
equivalent_to bundle_code method q =
    q.terms.bundle.bundle_code == bundle_code && same_method q.terms.payment_method method

-- `parse_payment_method`: `casefold` is `lower` on the ASCII names of the methods
unfoldable pub parse_payment_method : Option String → Result PaymentMethod
unfolding strip lower eq_codes
parse_payment_method value =
    let candidate = strip (or_empty value) in
    if candidate == ""
    then err (plain unsupported_payment_method)
    else if eq_codes (lower candidate) (codes "wallet")
    then ok wallet
    else if eq_codes (lower candidate) (codes "card")
    then ok card
    else err (plain unsupported_payment_method)

abbrev pub by_status : PurchaseQuote → QuoteStatus → Result PurchaseQuote
by_status q expired = err (plain quote_expired)
by_status q cancelled = err (plain quote_cancelled)
by_status q consumed = err (plain quote_consumed)
by_status q active = ok q

unfoldable pub require_usable_quote : PurchaseQuote → ℕ → Result PurchaseQuote
unfolding effective_status
require_usable_quote q now = by_status q (effective_status q now)

unfoldable pub require_positive_price : Option ℤ → String → Result ℤ
require_positive_price none currency = err (plain invalid_input)
require_positive_price (some amount) currency =
    if currency == ""
    then err (plain invalid_input)
    else if ltb_ℤ amount (pos 0)
    then err (plain invalid_input)
    else ok amount

unfoldable pub evaluate_wallet : ℤ → String → ℤ → QuotedWallet
unfolding ◌-ℤ◌
evaluate_wallet balance currency price =
    let sufficient = leb_ℤ price balance in
    record {
      balance = balance;
      currency = currency;
      sufficient = sufficient;
      estimated_remaining_balance = if sufficient then some (balance -ℤ price) else none;
      shortfall = if sufficient then none else some (price -ℤ balance);
    }

-- `quote.wallet is None or not quote.wallet.sufficient`
abbrev pub not_covered : Option QuotedWallet → Bool
not_covered none = true
not_covered (some w) = not w.sufficient

unfoldable pub require_wallet_sufficient : PurchaseQuote → Result PurchaseQuote
require_wallet_sufficient q =
    if same_method q.terms.payment_method wallet && not_covered q.terms.wallet_snapshot
    then err (plain insufficient_wallet_balance)
    else ok q
