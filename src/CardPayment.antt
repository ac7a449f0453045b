-- ===== src/CardPayment.antt =====
-- tools/card_checkout.py: the hosted payment page of a card quote, and the check of its payment.
pub mod Failure
pub mod Checkout
pub mod Status
