-- ===== src/Purchase/Service.antt =====
-- purchase/service.py: `PurchaseQuoteService`. The random quote id is an argument of `create`.
pub mod Laws
pub mod Create
pub mod Outsider
pub mod Listing
use esim_opensource_mcp.Prelude.{
  ℕ, String, Option, none, some, Bool, List, [], ◌∷◌, Dict, leb, ltb, if◌then◌else◌, ◌≡◌, refl,
}
use esim_opensource_mcp.Errors.{Result, ok, err, plain, ◌>>=◌, quote_not_found, quote_not_owned}
use esim_opensource_mcp.Owner.{QuoteOwner}
use esim_opensource_mcp.Quotes.{Quote, active, expiry_from}
use esim_opensource_mcp.Quotes.Store
use esim_opensource_mcp.Quotes.Store.{matches}
use esim_opensource_mcp.Quotes.Service.{supersede_and_save, cancel_read, consume_read}
use esim_opensource_mcp.Purchase.{PurchaseTerms, PurchaseQuote, equivalent_to, require_usable_quote}

-- The two settings that the service reads.
pub record QuoteSettings : Type 0 where
  pub purchase_quote_ttl_seconds : ℕ
  pub max_active_quotes_per_user : ℕ

pub record QuoteRequest : Type 0 where
  pub identity_source : String
  pub terms : PurchaseTerms
  pub locale : String

unfoldable pub new_quote : QuoteSettings → QuoteOwner → String → QuoteRequest → ℕ → PurchaseQuote
unfolding expiry_from
new_quote settings owner quote_id request moment = record {
  quote_id = quote_id;
  owner_session_key = owner.session_key;
  owner_user_ref = owner.user_ref;
  identity_source = request.identity_source;
  terms = request.terms;
  locale = request.locale;
  created_at = moment;
  expires_at = expiry_from moment settings.purchase_quote_ttl_seconds;
  status = active;
}

unfoldable pub create :
    QuoteSettings
    → QuoteOwner
    → String
    → QuoteRequest
    → ℕ
    → Dict PurchaseQuote
    → Result PurchaseQuote × Dict PurchaseQuote
unfolding supersede_and_save new_quote equivalent_to
create settings owner quote_id request moment d =
    supersede_and_save (equivalent_to request.terms.bundle.bundle_code request.terms.payment_method)
      owner settings.max_active_quotes_per_user moment
      (new_quote settings owner quote_id request moment) d

pub create_lem :
    (settings : QuoteSettings) (owner : QuoteOwner) (quote_id : String) (request : QuoteRequest)
    (moment : ℕ) (d : Dict PurchaseQuote)
    → create settings owner quote_id request moment d
      ≡ supersede_and_save
          (equivalent_to request.terms.bundle.bundle_code request.terms.payment_method)
          owner
          settings.max_active_quotes_per_user
          moment
          (new_quote settings owner quote_id request moment)
          d
unfolding create
create_lem settings owner quote_id request moment d = refl

abbrev owned_or_refused : QuoteOwner → Option PurchaseQuote → Result PurchaseQuote
owned_or_refused owner none = err (plain quote_not_found)
owned_or_refused owner (some q) = if matches owner q then ok q else err (plain quote_not_owned)

-- `_require_owned`, which is `get_record`
unfoldable pub get_record : QuoteOwner → String → Dict PurchaseQuote → Result PurchaseQuote
unfolding Store.get
get_record owner id d = owned_or_refused owner (Store.get owner id d)

unfoldable pub get : QuoteOwner → String → ℕ → Dict PurchaseQuote → Result PurchaseQuote
unfolding get_record require_usable_quote
get owner id now d = do quote ← get_record owner id d; require_usable_quote quote now

unfoldable pub cancel :
    QuoteOwner → String → ℕ → Dict PurchaseQuote → Result PurchaseQuote × Dict PurchaseQuote
unfolding get_record cancel_read
cancel owner id moment d = cancel_read quote_not_found owner id moment (get_record owner id d) d

unfoldable pub consume :
    QuoteOwner → String → Dict PurchaseQuote → Result PurchaseQuote × Dict PurchaseQuote
unfolding get_record consume_read
consume owner id d = consume_read quote_not_found owner id (get_record owner id d) d

-- a stable sort, newest first: an element goes behind those created at the same time or later
unfoldable pub insert_newest : PurchaseQuote → List PurchaseQuote → List PurchaseQuote
insert_newest q [] = q ∷ []
insert_newest q (p ∷ ps) =
    if ltb p.created_at q.created_at then q ∷ p ∷ ps else p ∷ insert_newest q ps

-- `sorted(active, key=created_at, reverse=True)` keeps the order of equal keys
abbrev pub insert_all : List PurchaseQuote → List PurchaseQuote → List PurchaseQuote
insert_all [] sorted = sorted
insert_all (q ∷ qs) sorted = insert_all qs (insert_newest q sorted)

unfoldable pub list_active : QuoteOwner → ℕ → Dict PurchaseQuote → List PurchaseQuote
unfolding Store.list_active insert_newest
list_active owner now d = insert_all (Store.list_active owner now d) []
