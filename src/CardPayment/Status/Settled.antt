-- ===== src/CardPayment/Status/Settled.antt =====
-- What a check of a payment reports and changes, by what the platform says of the payment.
use esim_opensource_mcp.Prelude.{
  ℕ, String, true, false, Option, none, some, ◌≡◌, if◌then◌else◌, ◌⊎◌,
}
use esim_opensource_mcp.Errors.{Result, ok}
use esim_opensource_mcp.Backend.{Answer, answered, is_success, outcome_of, outcome_data}
use esim_opensource_mcp.Purchase.{PurchaseQuote}
use esim_opensource_mcp.Purchase.Service.{get_record}
use esim_opensource_mcp.Purchase.Service.Laws.{spent}
use esim_opensource_mcp.CardModels.{
  CardPaymentStatus, paid, completed, BackendCardPaymentStatus, is_terminal, money_arrived, parse,
  parse_status,
}
use esim_opensource_mcp.Card.{CardCheckout, PaymentResult, checkout_owned, get_by_reference}
use esim_opensource_mcp.Records.References as References
use esim_opensource_mcp.World.{World}
use esim_opensource_mcp.CardPayment.Status.{Check, CheckedPayment, done, begin, report}

-- The payload of a successful answer that could be read.
abbrev pub stated : Answer BackendCardPaymentStatus → Option BackendCardPaymentStatus
stated (answered r) =
    if is_success (outcome_of r) then parse (outcome_data (outcome_of r)) else none
stated _ = none

-- The platform's own word decides whether the payment is reported as paid.
abbrev pub IsStated : Answer BackendCardPaymentStatus → PaymentResult → Type 0
IsStated a r =
    ((b : BackendCardPaymentStatus) × (stated a ≡ some b)
      × (parse_status b.status ≡ some r.payment_status))
    × (r.paid ≡ money_arrived r.payment_status)

-- The check is of a checkout of its owner that has the reference, and what is stored under the
-- reference is of the same quote.
abbrev pub IsTracked : Check → String → World → Type 0
IsTracked c reference w =
    References.IsKeyed checkout_owned (λ f. f.payment_reference) w.card_checkouts
    × References.IsFound checkout_owned (λ f. f.payment_reference) c.owner reference c.checkout
    × ((e : CardCheckout) × (get_by_reference c.owner reference w.card_checkouts ≡ some e)
        × (c.checkout.quote_id ≡ e.quote_id))

abbrev pub Replays : ℕ → ℕ → Check → String → PaymentResult → World → Type 0
Replays window now c reference r v =
    begin window now c.owner reference v ≡ (done (ok (record { payment = r; replayed = true })), v)

-- Completed: the quote is spent. Ended otherwise: the quote is left, and no money has come. Open:
-- nothing has changed.
abbrev pub Fate : ℕ → ℕ → Check → String → PurchaseQuote → World → PaymentResult → World → Type 0
Fate window now c reference q w r v =
    ((r.payment_status ≡ completed)
      × (get_record c.owner c.checkout.quote_id v.quotes ≡ ok (spent q))
      × Replays window now c reference r v)
    ⊎ (((is_terminal r.payment_status ≡ true)
          × (r.paid ≡ false)
          × (v.quotes ≡ w.quotes)
          × Replays window now c reference r v)
        ⊎ ((is_terminal r.payment_status ≡ false) × (v ≡ w)))

abbrev Reported :
    Check → Answer BackendCardPaymentStatus → World → Result CheckedPayment × World → Type 0
Reported c a w e =
    (b : BackendCardPaymentStatus) × (s : CardPaymentStatus) × (stated a ≡ some b)
    × (parse_status b.status ≡ some s)
    × (e ≡ report c b s w)
