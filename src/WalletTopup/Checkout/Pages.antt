-- ===== src/WalletTopup/Checkout/Pages.antt =====
-- Which pages of wallet top-ups are handed to the user, and what a repeated call returns.
use esim_opensource_mcp.Prelude.{
  String, true, false, Option, none, some, ◌≡◌, if◌then◌else◌, is_reference, has_space_or_control,
}
use esim_opensource_mcp.Errors.{Result}
use esim_opensource_mcp.Owner.{QuoteOwner}
use esim_opensource_mcp.Records.Laws
use esim_opensource_mcp.Backend.{Answer, answered, is_success, outcome_of, outcome_data}
use esim_opensource_mcp.CardModels.{ParsedUrl, parse, is_plain_https}
use esim_opensource_mcp.WalletModels.{BackendWalletTopupCheckout, parse_topup_status}
use esim_opensource_mcp.Topup.Checkout.{WalletTopupCheckout, TopupPage, open_page, save}
use esim_opensource_mcp.World.{World}
use esim_opensource_mcp.WalletTopup.Checkout.{Call, OpenedPage}
use esim_opensource_mcp.WalletTopup.Checkout.Finish.{status_or_pending}

-- The payload of a successful answer that could be read.
abbrev pub stated : Answer BackendWalletTopupCheckout → Option BackendWalletTopupCheckout
stated (answered r) =
    if is_success (outcome_of r) then parse (outcome_data (outcome_of r)) else none
stated _ = none

-- The status on the page is the platform's own word, or pending where it has none that is known.
abbrev pub IsStated : Answer BackendWalletTopupCheckout → TopupPage → Type 0
IsStated a page =
    (b : BackendWalletTopupCheckout) × (stated a ≡ some b)
    × (page.topup_status ≡ status_or_pending (parse_topup_status b.status))

-- A page that may be shown: a plain https link with a host and without credentials, a reference
-- that a later check accepts, and flags that are down.
abbrev pub IsSafe : (String → Option ParsedUrl) → TopupPage → Type 0
IsSafe urlparse page =
    ((p : ParsedUrl) × (urlparse page.checkout_url ≡ some p) × (is_plain_https p ≡ true))
    × (has_space_or_control page.checkout_url ≡ false)
    × (is_reference page.payment_reference ≡ true)
    × (page.paid ≡ false)
    × (page.charged ≡ false)
    × (page.credited ≡ false)

-- The checkout under which a page is stored.
abbrev Opened : Call → World → TopupPage → WalletTopupCheckout → World → Type 0
Opened c w page f v =
    (v ≡ record w { wallet_checkouts = save f w.wallet_checkouts })
    × (f.quote_id ≡ c.checkout.quote_id)
    × (f.owner_session_key ≡ c.checkout.owner_session_key)
    × (f.owner_user_ref ≡ c.checkout.owner_user_ref)
    × (f.status ≡ open_page)
    × (f.result ≡ some page)

abbrev Reported :
    (String → Option ParsedUrl)
    → Call
    → Answer BackendWalletTopupCheckout
    → World
    → OpenedPage
    → Result OpenedPage × World
    → Type 0
Reported urlparse c a w x (r, v) =
    IsSafe urlparse x.page × IsStated a x.page × ((f : WalletTopupCheckout) × Opened c w x.page f v)

-- The call has the checkout of its owner, as `begin` gives it to it.
abbrev pub OwnCall : Call → QuoteOwner → String → Type 0
OwnCall c owner id =
    (c.checkout.quote_id ≡ id)
    × (owner.session_key ≡ c.checkout.owner_session_key)
    × (owner.user_ref ≡ c.checkout.owner_user_ref)
