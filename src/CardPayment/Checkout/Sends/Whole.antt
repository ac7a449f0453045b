-- ===== src/CardPayment/Checkout/Sends/Whole.antt =====
-- The parts of `create_card_checkout` put together: what the whole call has sent when it ends.
use esim_opensource_mcp.Prelude.{String, ◌∷◌, ◌≡◌, ◌⊎◌}
use esim_opensource_mcp.Errors.{ok}
use esim_opensource_mcp.Owner.{QuoteOwner}
use esim_opensource_mcp.Purchase.{PurchaseQuote}
use esim_opensource_mcp.World.{World, CheckoutRequest}
use esim_opensource_mcp.Confirm.{owner_of}
use esim_opensource_mcp.CardPayment.Checkout.Finish.{Surroundings}
use esim_opensource_mcp.CardPayment.Checkout.Sends.{Same, Added, IsFor, Allowed, acquired_key}

-- A call sends nothing, or one request.
abbrev pub Sent : World → PurchaseQuote → String → World → Type 0
Sent w q key v = Same w v ⊎ Added w q key v

-- Of a call that sends: the owner, the reference and the quote, the request, and what was checked.
abbrev pub SentAllowed : Surroundings → World → World → Type 0
SentAllowed s w v =
    (v.checkouts_sent ≡ w.checkouts_sent)
    ⊎ ((owner : QuoteOwner) × (reference : String) × (q : PurchaseQuote) × (r : CheckoutRequest)
        × (owner_of s.digest s.session_key w ≡ ok owner)
        × Allowed s.now owner reference s.fresh_key w q
        × (v.checkouts_sent ≡ r ∷ w.checkouts_sent)
        × IsFor q (acquired_key s.window s.now s.device_id owner reference s.fresh_key w) r)
