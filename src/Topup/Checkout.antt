-- ===== src/Topup/Checkout.antt =====
-- The checkout record of a wallet top-up, its store and its service: topup/models.py,
-- topup/store.py and topup/service.py.
use esim_opensource_mcp.Prelude.{
  ℕ, ◌+◌, ◌-◌, String, Bool, true, false, Option, none, some, List, [], ◌∷◌, Dict, leb,
  if◌then◌else◌, or_empty,
}
use esim_opensource_mcp.Errors.{
  ErrorKind, McpError, Details, Result, ok, err, plain, code, find_code, or_else, stored_details,
  restored_details, wallet_topup_not_found, wallet_topup_outcome_unknown, wallet_topup_rejected,
  wallet_topup_status_unavailable, wallet_topup_unavailable,
}
use esim_opensource_mcp.Prelude.Int.{ℤ}
use esim_opensource_mcp.WalletModels.{WalletTopupStatus}
use esim_opensource_mcp.Owner.{QuoteOwner, Owned}
use esim_opensource_mcp.Records

abbrev pub max_topup_checkout_attempts : ℕ
max_topup_checkout_attempts = 3

abbrev pub max_topup_status_checks : ℕ
max_topup_status_checks = 20

pub data TopupStatus : Type 0 where
  pending open_page failed unresolved : TopupStatus

unfoldable pub is_terminal : TopupStatus → Bool
is_terminal open_page = true
is_terminal failed = true
is_terminal _ = false

-- The facts of the payload of an opened page, and of a top-up that was checked. A text that the
-- payload leaves out where it is empty is given as it is read.
pub record TopupPage : Type 0 where
  pub checkout_url : String
  pub quote_reference : String
  pub payment_reference : String
  pub amount : ℤ
  pub currency : String
  pub topup_status : WalletTopupStatus
  pub charged : Bool
  pub paid : Bool
  pub credited : Bool
  pub next_action : Option String
  pub expires_at : Option String
  pub order_id : Option String

pub record TopupResult : Type 0 where
  pub payment_reference : String
  pub topup_status : WalletTopupStatus
  pub paid : Bool
  pub charged : Bool
  pub credited : Bool
  pub is_final : Bool
  pub amount : Option ℤ
  pub currency : Option String
  pub checkout_url : Option String
  pub expires_at : Option String
  pub order_id : Option String
  pub next_action : Option String
  pub new_checkout_required : Bool

pub record WalletTopupCheckout : Type 0 where
  pub quote_id : String
  pub owner_session_key : String
  pub owner_user_ref : String
  pub attempts : ℕ
  pub checks : ℕ
  pub status : TopupStatus
  pub result : Option TopupPage
  pub payment_reference : Option String
  pub locale : Option String
  pub currency : Option String
  pub payment_result : Option TopupResult
  pub failure_code : Option String
  pub failure_details : Option Details

abbrev pub checkout_owned : Owned WalletTopupCheckout
checkout_owned = record {
  record_id = λ c. c.quote_id;
  session_of = λ c. c.owner_session_key;
  user_of = λ c. c.owner_user_ref;
}

abbrev pub Checkouts : Type 0
Checkouts = Dict WalletTopupCheckout

unfoldable pub attempts_remaining : WalletTopupCheckout → ℕ
attempts_remaining c = max_topup_checkout_attempts - c.attempts

unfoldable pub checks_remaining : WalletTopupCheckout → ℕ
checks_remaining c = max_topup_status_checks - c.checks

unfoldable pub get : QuoteOwner → String → Checkouts → Option WalletTopupCheckout
unfolding Records.get
get = Records.get checkout_owned

unfoldable pub save : WalletTopupCheckout → Checkouts → Checkouts
unfolding Records.save
save = Records.save checkout_owned

unfoldable pub invalidate_session : String → Checkouts → Checkouts × ℕ
unfolding Records.invalidate_session
invalidate_session = Records.invalidate_session checkout_owned

unfoldable pub get_by_reference : QuoteOwner → String → Checkouts → Option WalletTopupCheckout
unfolding Records.get_by_reference
get_by_reference = Records.get_by_reference checkout_owned (λ c. c.payment_reference)

-- `_REPLAYABLE_ERRORS`
abbrev pub replayable_errors : List ErrorKind
replayable_errors =
    wallet_topup_not_found ∷ wallet_topup_outcome_unknown ∷ wallet_topup_rejected
    ∷ wallet_topup_status_unavailable ∷ wallet_topup_unavailable ∷ []

unfoldable pub replay_error : WalletTopupCheckout → McpError
unfolding find_code
replay_error c = record {
  kind = or_else (find_code (or_empty c.failure_code) replayable_errors) wallet_topup_rejected;
  details = restored_details c.failure_details;
}

abbrev pub found : Option WalletTopupCheckout → Result WalletTopupCheckout
found none = err (plain wallet_topup_not_found)
found (some c) = ok c

unfoldable pub require_by_reference : QuoteOwner → String → Checkouts → Result WalletTopupCheckout
unfolding get_by_reference
require_by_reference owner reference d = found (get_by_reference owner reference d)

abbrev pub new_checkout : QuoteOwner → String → WalletTopupCheckout
new_checkout owner quote_id = record {
  quote_id = quote_id;
  owner_session_key = owner.session_key;
  owner_user_ref = owner.user_ref;
  attempts = 0;
  checks = 0;
  status = pending;
  result = none;
  payment_reference = none;
  locale = none;
  currency = none;
  payment_result = none;
  failure_code = none;
  failure_details = none;
}

abbrev acquired :
    QuoteOwner → String → Checkouts → Option WalletTopupCheckout → WalletTopupCheckout × Checkouts
acquired owner quote_id d (some c) = (c, d)
acquired owner quote_id d none = (new_checkout owner quote_id, save (new_checkout owner quote_id) d)

unfoldable pub acquire : QuoteOwner → String → Checkouts → WalletTopupCheckout × Checkouts
unfolding get save
acquire owner quote_id d = acquired owner quote_id d (get owner quote_id d)

-- `_save`: the updated record is stored and returned
abbrev saved : WalletTopupCheckout → Checkouts → WalletTopupCheckout × Checkouts
saved c d = (c, save c d)

unfoldable pub record_attempt : WalletTopupCheckout → Checkouts → WalletTopupCheckout × Checkouts
unfolding save
record_attempt c d = saved (record c { attempts = c.attempts + 1 }) d

unfoldable pub record_check : WalletTopupCheckout → Checkouts → WalletTopupCheckout × Checkouts
unfolding save
record_check c d = saved (record c { checks = c.checks + 1 }) d

unfoldable pub mark_open :
    WalletTopupCheckout
    → TopupPage
    → String
    → String
    → String
    → Checkouts
    → WalletTopupCheckout × Checkouts
unfolding save
mark_open c page reference locale currency d =
    saved
      (record c {
        status = open_page;
        result = some page;
        payment_reference = some reference;
        locale = some locale;
        currency = some currency;
        failure_code = none;
        failure_details = none;
      })
      d

unfoldable pub mark_unsuccessful :
    WalletTopupCheckout → McpError → TopupStatus → Checkouts → WalletTopupCheckout × Checkouts
unfolding save code
mark_unsuccessful c error status d =
    saved
      (record c {
        status = status;
        failure_code = some (code error.kind);
        failure_details = stored_details error.details;
      })
      d

unfoldable pub mark_failed :
    WalletTopupCheckout → McpError → Checkouts → WalletTopupCheckout × Checkouts
unfolding mark_unsuccessful
mark_failed c error = mark_unsuccessful c error failed

unfoldable pub mark_unresolved :
    WalletTopupCheckout → McpError → Checkouts → WalletTopupCheckout × Checkouts
unfolding mark_unsuccessful
mark_unresolved c error = mark_unsuccessful c error unresolved

unfoldable pub mark_settled :
    WalletTopupCheckout → TopupResult → Checkouts → WalletTopupCheckout × Checkouts
unfolding save
mark_settled c result d = saved (record c { payment_result = some result }) d

unfoldable pub require_attempts_remaining : WalletTopupCheckout → Result WalletTopupCheckout
require_attempts_remaining c =
    if leb max_topup_checkout_attempts c.attempts then err (plain wallet_topup_rejected) else ok c

unfoldable pub require_checks_remaining : WalletTopupCheckout → Result WalletTopupCheckout
require_checks_remaining c =
    if leb max_topup_status_checks c.checks
    then err (plain wallet_topup_status_unavailable)
    else ok c
