-- ===== src/WalletTopup/Checkout/Sends/Whole.antt =====
-- The parts of `create_wallet_topup_checkout` put together: what the whole call has sent when it ends.
use esim_opensource_mcp.Prelude.{String, ◌∷◌, ◌≡◌, ◌⊎◌}
use esim_opensource_mcp.Errors.{ok}
use esim_opensource_mcp.Owner.{QuoteOwner}
use esim_opensource_mcp.Topup.{WalletTopupQuote}
use esim_opensource_mcp.World.{World, TopupCheckoutRequest}
use esim_opensource_mcp.Confirm.{owner_of}
use esim_opensource_mcp.WalletTopup.Checkout.Finish.{Surroundings}
use esim_opensource_mcp.WalletTopup.Checkout.Sends.{Same, Added, IsFor, Allowed}

-- A call sends nothing, or one request.
abbrev pub Sent : World → WalletTopupQuote → World → Type 0
Sent w q v = Same w v ⊎ Added w q v

-- Of a call that sends: the owner, the reference and the quote, the request, and what was checked.
abbrev pub SentAllowed : Surroundings → World → World → Type 0
SentAllowed s w v =
    (v.topup_checkouts_sent ≡ w.topup_checkouts_sent)
    ⊎ ((owner : QuoteOwner) × (reference : String) × (q : WalletTopupQuote)
        × (r : TopupCheckoutRequest) × (owner_of s.digest s.session_key w ≡ ok owner)
        × Allowed s.now owner reference w q
        × (v.topup_checkouts_sent ≡ r ∷ w.topup_checkouts_sent)
        × IsFor q r)
