-- ===== src/WalletTopup/Status/Settled.antt =====
-- What a check of a payment reports and changes, by what the platform says of the payment.
use esim_opensource_mcp.Prelude.{
  ℕ, String, true, false, Option, none, some, ◌≡◌, if◌then◌else◌, ◌⊎◌,
}
use esim_opensource_mcp.Errors.{Result, ok}
use esim_opensource_mcp.Backend.{Answer, answered, is_success, outcome_of, outcome_data}
use esim_opensource_mcp.Records.References as References
use esim_opensource_mcp.Topup.Quotes.{consume_wallet}
use esim_opensource_mcp.CardModels.{parse}
use esim_opensource_mcp.WalletModels.{
  WalletTopupStatus, paid, BackendWalletTopupStatus, is_terminal, money_arrived, parse_topup_status,
}
use esim_opensource_mcp.Topup.Checkout.{
  WalletTopupCheckout, TopupResult, checkout_owned, get_by_reference,
}
use esim_opensource_mcp.World.{World}
use esim_opensource_mcp.WalletTopup.Status.{Check, CheckedPayment, done, begin, report}

-- The payload of a successful answer that could be read.
abbrev pub stated : Answer BackendWalletTopupStatus → Option BackendWalletTopupStatus
stated (answered r) =
    if is_success (outcome_of r) then parse (outcome_data (outcome_of r)) else none
stated _ = none

-- The platform's own word decides whether the payment is reported as paid.
abbrev pub IsStated : Answer BackendWalletTopupStatus → TopupResult → Type 0
IsStated a r =
    ((b : BackendWalletTopupStatus) × (stated a ≡ some b)
      × (parse_topup_status b.status ≡ some r.topup_status))
    × (r.credited ≡ money_arrived r.topup_status)

-- The check is of a checkout of its owner that has the reference, and what is stored under the
-- reference is of the same quote.
abbrev pub IsTracked : Check → String → World → Type 0
IsTracked c reference w =
    References.IsKeyed checkout_owned (λ f. f.payment_reference) w.wallet_checkouts
    × References.IsFound checkout_owned (λ f. f.payment_reference) c.owner reference c.checkout
    × ((e : WalletTopupCheckout) × (get_by_reference c.owner reference w.wallet_checkouts ≡ some e)
        × (c.checkout.quote_id ≡ e.quote_id))

abbrev pub Replays : ℕ → ℕ → Check → String → TopupResult → World → Type 0
Replays window now c reference r v =
    begin window now c.owner reference v ≡ (done (ok (record { payment = r; replayed = true })), v)

-- Paid: the quote is consumed as far as its store lets it be. Ended otherwise: the quote is left,
-- and no money has come. Open: nothing has changed.
abbrev pub Fate : ℕ → ℕ → Check → String → World → TopupResult → World → Type 0
Fate window now c reference w r v =
    ((r.topup_status ≡ paid)
      × (v.wallet_quotes ≡ (consume_wallet c.owner c.checkout.quote_id w.wallet_quotes).1)
      × Replays window now c reference r v)
    ⊎ (((is_terminal r.topup_status ≡ true)
          × (r.credited ≡ false)
          × (v.wallet_quotes ≡ w.wallet_quotes)
          × Replays window now c reference r v)
        ⊎ ((is_terminal r.topup_status ≡ false) × (v ≡ w)))

abbrev Reported :
    Check → Answer BackendWalletTopupStatus → World → Result CheckedPayment × World → Type 0
Reported c a w e =
    (b : BackendWalletTopupStatus) × (s : WalletTopupStatus) × (stated a ≡ some b)
    × (parse_topup_status b.status ≡ some s)
    × (e ≡ report c b s w)
