-- ===== src/EsimTopup.antt =====
-- tools/esim_topup.py: topping up an eSIM of the caller from the wallet.
pub mod Target
pub mod Reads
pub mod Revalidate
pub mod Prepare
pub mod Failure
pub mod Confirm
