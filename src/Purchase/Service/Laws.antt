-- ===== src/Purchase/Service/Laws.antt =====
-- What the quote service returns and leaves stored, by what is stored.
use esim_opensource_mcp.Prelude.{
  String, some, Dict, lookup, insert, lookup-insert, ◌≡◌, ◌≢◌, arith, eq_iff, eq_refl, refl, ◌∙◌,
}
use esim_opensource_mcp.Errors.{ok}
use esim_opensource_mcp.Owner.{QuoteOwner}
use esim_opensource_mcp.Quotes.{consumed}
use esim_opensource_mcp.Quotes.Store
use esim_opensource_mcp.Quotes.Store.{set_status, matches}
use esim_opensource_mcp.Quotes.Store.Laws as StoreLaws
use esim_opensource_mcp.Quotes.Service.{consume_read}
use esim_opensource_mcp.Purchase.{PurchaseQuote}
use esim_opensource_mcp.Purchase.Service.{get_record, consume}

abbrev pub OwnedBy : QuoteOwner → PurchaseQuote → Type 0
OwnedBy owner q = (owner.session_key ≡ q.owner_session_key) × (owner.user_ref ≡ q.owner_user_ref)

-- A quote that is read is stored, under the caller.
pub get_record-ok :
    (owner : QuoteOwner) (id : String) (d : Dict PurchaseQuote) (q : PurchaseQuote)
    → get_record owner id d ≡ ok q
    → (lookup id d ≡ some q)
      × (owner.session_key ≡ q.owner_session_key)
      × (owner.user_ref ≡ q.owner_user_ref)
      × (id ≢ "")
unfolding get_record
get_record-ok owner id d q h = ground (arith, StoreLaws.get-eq-some owner id d q)

-- A stored quote is read by its owner.
pub get_record_stored :
    (owner : QuoteOwner) (id : String) (d : Dict PurchaseQuote) (q : PurchaseQuote)
    → lookup id d ≡ some q
    → OwnedBy owner q
    → id ≢ ""
    → get_record owner id d ≡ ok q
unfolding get_record Store.get
get_record_stored owner id d q h o n = ground (
  arith,
  eq_iff id "",
  eq_iff owner.session_key q.owner_session_key,
  eq_iff owner.user_ref q.owner_user_ref,
)

abbrev pub spent : PurchaseQuote → PurchaseQuote
spent q = record q { status = consumed }

-- A quote that its owner can read is consumed.
pub consume_stored :
    (owner : QuoteOwner) (id : String) (d : Dict PurchaseQuote) (q : PurchaseQuote)
    → get_record owner id d ≡ ok q
    → consume owner id d ≡ (ok (spent q), insert id (spent q) d)
unfolding consume consume_read set_status
consume_stored owner id d q h =
    let (l, s, u, n) = get_record-ok owner id d q h in
    rw (h, l)
      (ground (
        arith,
        eq_iff owner.session_key q.owner_session_key,
        eq_iff owner.user_ref q.owner_user_ref,
      ))

-- Afterwards it is read as consumed.
pub get_record-spent :
    (owner : QuoteOwner) (id : String) (d : Dict PurchaseQuote) (q : PurchaseQuote)
    → get_record owner id d ≡ ok q
    → get_record owner id (insert id (spent q) d) ≡ ok (spent q)
get_record-spent owner id d q h =
    let (l, s, u, n) = get_record-ok owner id d q h in
    get_record_stored owner id (insert id (spent q) d) (spent q)
      (lookup-insert id id (spent q) d ∙ rw (eq_refl id) refl) (s, u) n
