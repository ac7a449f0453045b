-- ===== src/Purchase/Service/Outsider.antt =====
-- A caller who does not own a quote.
use esim_opensource_mcp.Prelude.{ℕ, String, some, Dict, lookup, ◌≡◌, arith, eq_iff, refl}
use esim_opensource_mcp.Errors.{err, plain, quote_not_found}
use esim_opensource_mcp.Owner.{QuoteOwner}
use esim_opensource_mcp.Quotes.Store
use esim_opensource_mcp.Quotes.Service.{cancel_read, consume_read}
use esim_opensource_mcp.Purchase.{PurchaseQuote}
use esim_opensource_mcp.Purchase.Service.{get_record, get, cancel, consume}
use esim_opensource_mcp.Purchase.Service.Laws.{OwnedBy}

module _ (owner : QuoteOwner) (id : String) (d : Dict PurchaseQuote) (q : PurchaseQuote)
    (stored : lookup id d ≡ some q) (foreign : ¬ OwnedBy owner q) where
  get_record-foreign : get_record owner id d ≡ err (plain quote_not_found)
  unfolding get_record Store.get
  get_record-foreign =
      ground (
        arith,
        eq_iff owner.session_key q.owner_session_key,
        eq_iff owner.user_ref q.owner_user_ref,
      )

  -- Whoever does not own a stored quote and reads, cancels or consumes it is told that there is
  -- none, as for an id that is not stored, and changes nothing.
  pub outsider :
      (moment : ℕ)
      → (get owner id moment d ≡ err (plain quote_not_found))
        × (cancel owner id moment d ≡ (err (plain quote_not_found), d))
        × (consume owner id d ≡ (err (plain quote_not_found), d))
  unfolding get cancel consume cancel_read consume_read
  outsider moment = rw get_record-foreign (refl, refl, refl)
