-- ===== src/WalletTopup.antt =====
-- tools/wallet_topup.py: the preparation of a wallet top-up, its hosted payment page, and the check of its payment.
pub mod Failure
pub mod Checkout
pub mod Status
pub mod Prepare
