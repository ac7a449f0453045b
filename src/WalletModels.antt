-- ===== src/WalletModels.antt =====
-- models/wallet_topup.py and the references of client/wallet_topup.py: what the platform's answers
-- on wallet top-ups are read as.
use esim_opensource_mcp.Prelude.{
  String, Bool, true, false, Option, none, some, if◌then◌else◌, strip, lower, codes, eq_codes,
  or_empty, is_reference,
}
use esim_opensource_mcp.Prelude.Int.{ℤ}
use esim_opensource_mcp.Errors.{Result, ok, err, plain, invalid_input}

pub data WalletTopupStatus : Type 0 where
  pending paid failed expired : WalletTopupStatus

unfoldable pub is_terminal : WalletTopupStatus → Bool
is_terminal pending = false
is_terminal _ = true

unfoldable pub money_arrived : WalletTopupStatus → Bool
money_arrived paid = true
money_arrived _ = false

-- `_NORMALIZED_STATUSES.get(...)`: case is folded down instead
unfoldable pub parse_topup_status : Option String → Option WalletTopupStatus
unfolding strip lower eq_codes
parse_topup_status value =
    let word = lower (strip (or_empty value)) in
    if eq_codes word (codes "pending")
    then some pending
    else if eq_codes word (codes "paid")
    then some paid
    else if eq_codes word (codes "failed")
    then some failed
    else if eq_codes word (codes "expired")
    then some expired
    else none

-- Amounts are read as decimals already.
pub record BackendWalletTopupCheckout : Type 0 where
  pub payment_reference : Option String
  pub order_id : Option String
  pub checkout_url : Option String
  pub status : Option String
  pub amount : Option ℤ
  pub currency : Option String
  pub expires_at : Option String
  pub next_action : Option String
  pub idempotent_replay : Bool

pub record BackendWalletTopupStatus : Type 0 where
  pub payment_reference : Option String
  pub status : Option String
  pub order_id : Option String
  pub amount : Option ℤ
  pub currency : Option String
  pub expires_at : Option String
  pub paid : Option Bool
  pub next_action : Option String

unfoldable pub require_topup_reference : Option String → Result String
unfolding strip is_reference
require_topup_reference value =
    let candidate = strip (or_empty value) in
    if is_reference candidate then ok candidate else err (plain invalid_input)
