-- ===== src/Topup/Quotes.antt =====
-- topup/service.py: `EsimTopupQuoteService` and `WalletTopupQuoteService`.
pub mod Create
pub mod Laws
use esim_opensource_mcp.Prelude.{ℕ, String, Bool, ◌&&◌, ◌==◌, Option, none, some, Dict}
use esim_opensource_mcp.Prelude.Int.{eqb_ℤ}
use esim_opensource_mcp.Errors.{
  ErrorKind, Result, ok, err, plain, ◌>>=◌, topup_quote_not_found, wallet_topup_quote_not_found,
}
use esim_opensource_mcp.Owner.{QuoteOwner}
use esim_opensource_mcp.Quotes.{Quote, active, expiry_from}
use esim_opensource_mcp.Quotes.Store
use esim_opensource_mcp.Quotes.Service.{supersede_and_save, cancel_read, consume_read}
use esim_opensource_mcp.Purchase.Service.{QuoteSettings}
use esim_opensource_mcp.Topup.{
  EsimTopupTerms, EsimTopupQuote, WalletTopupTerms, WalletTopupQuote, require_usable_topup_quote,
}

module _ {T : Type 0} where
  abbrev pub new_quote : QuoteSettings → QuoteOwner → String → String → T → String → ℕ → Quote T
  new_quote settings owner quote_id identity_source terms locale moment = record {
    quote_id = quote_id;
    owner_session_key = owner.session_key;
    owner_user_ref = owner.user_ref;
    identity_source = identity_source;
    terms = terms;
    locale = locale;
    created_at = moment;
    expires_at = expiry_from moment settings.purchase_quote_ttl_seconds;
    status = active;
  }

  abbrev found : ErrorKind → Option (Quote T) → Result (Quote T)
  found missing none = err (plain missing)
  found missing (some q) = ok q

-- The same SIM and the same top-up plan.
unfoldable pub same_topup : EsimTopupTerms → EsimTopupQuote → Bool
same_topup terms q =
    q.terms.target.iccid == terms.target.iccid
    && q.terms.bundle.bundle_code == terms.bundle.bundle_code

unfoldable pub create_esim :
    QuoteSettings
    → QuoteOwner
    → String
    → String
    → EsimTopupTerms
    → String
    → ℕ
    → Dict EsimTopupQuote
    → Result EsimTopupQuote × Dict EsimTopupQuote
unfolding supersede_and_save same_topup expiry_from
create_esim settings owner quote_id source terms locale moment d =
    supersede_and_save (same_topup terms) owner settings.max_active_quotes_per_user moment
      (new_quote settings owner quote_id source terms locale moment) d

unfoldable pub get_esim_record : QuoteOwner → String → Dict EsimTopupQuote → Result EsimTopupQuote
unfolding Store.get
get_esim_record owner id d = found topup_quote_not_found (Store.get owner id d)

unfoldable pub get_esim : QuoteOwner → String → ℕ → Dict EsimTopupQuote → Result EsimTopupQuote
unfolding get_esim_record require_usable_topup_quote
get_esim owner id now d = do
  quote ← get_esim_record owner id d
  require_usable_topup_quote quote now

unfoldable pub cancel_esim :
    QuoteOwner → String → ℕ → Dict EsimTopupQuote → Result EsimTopupQuote × Dict EsimTopupQuote
unfolding get_esim_record cancel_read
cancel_esim owner id moment d =
    cancel_read topup_quote_not_found owner id moment (get_esim_record owner id d) d

unfoldable pub consume_esim :
    QuoteOwner → String → Dict EsimTopupQuote → Result EsimTopupQuote × Dict EsimTopupQuote
unfolding get_esim_record consume_read
consume_esim owner id d = consume_read topup_quote_not_found owner id (get_esim_record owner id d) d

-- The same amount in the same currency.
unfoldable pub same_amount : WalletTopupTerms → WalletTopupQuote → Bool
same_amount terms q = eqb_ℤ q.terms.amount terms.amount && q.terms.currency == terms.currency

unfoldable pub create_wallet :
    QuoteSettings
    → QuoteOwner
    → String
    → String
    → WalletTopupTerms
    → String
    → ℕ
    → Dict WalletTopupQuote
    → Result WalletTopupQuote × Dict WalletTopupQuote
unfolding supersede_and_save same_amount expiry_from
create_wallet settings owner quote_id source terms locale moment d =
    supersede_and_save (same_amount terms) owner settings.max_active_quotes_per_user moment
      (new_quote settings owner quote_id source terms locale moment) d

unfoldable pub get_wallet_record :
    QuoteOwner → String → Dict WalletTopupQuote → Result WalletTopupQuote
unfolding Store.get
get_wallet_record owner id d = found wallet_topup_quote_not_found (Store.get owner id d)

unfoldable pub get_wallet :
    QuoteOwner → String → ℕ → Dict WalletTopupQuote → Result WalletTopupQuote
unfolding get_wallet_record require_usable_topup_quote
get_wallet owner id now d = do
  quote ← get_wallet_record owner id d
  require_usable_topup_quote quote now

unfoldable pub consume_wallet :
    QuoteOwner → String → Dict WalletTopupQuote → Result WalletTopupQuote × Dict WalletTopupQuote
unfolding get_wallet_record consume_read
consume_wallet owner id d =
    consume_read wallet_topup_quote_not_found owner id (get_wallet_record owner id d) d
