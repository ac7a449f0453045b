-- ===== src/Card.antt =====
-- purchase/card.py: the checkout record of a card quote, its store, and the service that says
-- whether a payment page may be opened.
use esim_opensource_mcp.Prelude.{
  ℕ, ◌+◌, ◌-◌, String, Bool, true, false, Option, none, some, List, [], ◌∷◌, Dict, leb,
  if◌then◌else◌, or_empty,
}
use esim_opensource_mcp.Errors.{
  ErrorKind, McpError, Details, Result, ok, err, plain, code, find_code, or_else, stored_details,
  restored_details, card_checkout_attempt_limit, card_checkout_outcome_unknown,
  card_checkout_rejected, card_checkout_unavailable, card_payment_ambiguous,
  card_payment_check_limit, card_payment_status_unavailable, non_card_quote, unsafe_checkout_link,
  card_payment_not_found,
}
use esim_opensource_mcp.CardModels.{CardPaymentStatus}
use esim_opensource_mcp.Prelude.Int.{ℤ}
use esim_opensource_mcp.Owner.{QuoteOwner, Owned}
use esim_opensource_mcp.Records
use esim_opensource_mcp.Purchase.{QuotedBundle, PurchaseQuote, same_method, card}

abbrev pub max_checkout_attempts : ℕ
max_checkout_attempts = 3

abbrev pub max_status_checks : ℕ
max_status_checks = 20

pub data CheckoutStatus : Type 0 where
  pending open_page failed unresolved : CheckoutStatus

unfoldable pub is_terminal : CheckoutStatus → Bool
is_terminal open_page = true
is_terminal failed = true
is_terminal _ = false

-- The facts of the payload of an opened page, and of a payment that was checked. A text that the
-- payload leaves out where it is empty is given as it is read.
pub record CheckoutPage : Type 0 where
  pub checkout_url : String
  pub quote_reference : String
  pub payment_reference : String
  pub amount : ℤ
  pub amount_is_final : Bool
  pub currency : String
  pub payment_status : CardPaymentStatus
  pub charged : Bool
  pub paid : Bool
  pub provisioned : Bool
  pub bundle : QuotedBundle
  pub next_action : Option String
  pub expires_at : Option String
  pub order_id : Option String

pub record PaymentResult : Type 0 where
  pub payment_reference : String
  pub payment_status : CardPaymentStatus
  pub paid : Bool
  pub charged : Bool
  pub provisioned : Bool
  pub is_final : Bool
  pub bundle : Option QuotedBundle
  pub amount : Option ℤ
  pub currency : Option String
  pub checkout_url : Option String
  pub expires_at : Option String
  pub order_id : Option String
  pub bundle_code : Option String
  pub quote_reference : Option String
  pub next_action : Option String
  pub new_checkout_required : Bool

pub record CardCheckout : Type 0 where
  pub quote_id : String
  pub owner_session_key : String
  pub owner_user_ref : String
  pub idempotency_key : String
  pub attempts : ℕ
  pub checks : ℕ
  pub status : CheckoutStatus
  pub result : Option CheckoutPage
  pub payment_reference : Option String
  pub locale : Option String
  pub currency : Option String
  pub payment_result : Option PaymentResult
  pub failure_code : Option String
  pub failure_details : Option Details

abbrev pub checkout_owned : Owned CardCheckout
checkout_owned = record {
  record_id = λ c. c.quote_id;
  session_of = λ c. c.owner_session_key;
  user_of = λ c. c.owner_user_ref;
}

unfoldable pub attempts_remaining : CardCheckout → ℕ
attempts_remaining c = max_checkout_attempts - c.attempts

unfoldable pub checks_remaining : CardCheckout → ℕ
checks_remaining c = max_status_checks - c.checks

unfoldable pub get : QuoteOwner → String → Dict CardCheckout → Option CardCheckout
unfolding Records.get
get = Records.get checkout_owned

unfoldable pub save : CardCheckout → Dict CardCheckout → Dict CardCheckout
unfolding Records.save
save = Records.save checkout_owned

unfoldable pub invalidate_session : String → Dict CardCheckout → Dict CardCheckout × ℕ
unfolding Records.invalidate_session
invalidate_session = Records.invalidate_session checkout_owned

unfoldable pub get_by_reference : QuoteOwner → String → Dict CardCheckout → Option CardCheckout
unfolding Records.get_by_reference
get_by_reference = Records.get_by_reference checkout_owned (λ c. c.payment_reference)

-- `_REPLAYABLE_ERRORS`
abbrev pub replayable_errors : List ErrorKind
replayable_errors =
    card_checkout_attempt_limit ∷ card_checkout_outcome_unknown ∷ card_checkout_rejected
    ∷ card_checkout_unavailable ∷ card_payment_ambiguous ∷ card_payment_check_limit
    ∷ card_payment_status_unavailable ∷ non_card_quote ∷ unsafe_checkout_link ∷ []

unfoldable pub replay_error : CardCheckout → McpError
unfolding find_code
replay_error c = record {
  kind = or_else (find_code (or_empty c.failure_code) replayable_errors) card_checkout_rejected;
  details = restored_details c.failure_details;
}

abbrev pub found : Option CardCheckout → Result CardCheckout
found none = err (plain card_payment_not_found)
found (some c) = ok c

unfoldable pub require_by_reference : QuoteOwner → String → Dict CardCheckout → Result CardCheckout
unfolding get_by_reference
require_by_reference owner reference d = found (get_by_reference owner reference d)

-- The random key is an argument.
abbrev pub new_checkout : QuoteOwner → String → String → CardCheckout
new_checkout owner quote_id key = record {
  quote_id = quote_id;
  owner_session_key = owner.session_key;
  owner_user_ref = owner.user_ref;
  idempotency_key = key;
  attempts = 0;
  checks = 0;
  status = pending;
  result = none;
  payment_reference = none;
  locale = none;
  currency = none;
  payment_result = none;
  failure_code = none;
  failure_details = none;
}

abbrev acquired :
    QuoteOwner
    → String
    → String
    → Dict CardCheckout
    → Option CardCheckout
    → CardCheckout × Dict CardCheckout
acquired owner quote_id key d (some c) = (c, d)
acquired owner quote_id key d none =
    (new_checkout owner quote_id key, save (new_checkout owner quote_id key) d)

unfoldable pub acquire :
    QuoteOwner → String → String → Dict CardCheckout → CardCheckout × Dict CardCheckout
unfolding get save
acquire owner quote_id key d = acquired owner quote_id key d (get owner quote_id d)

unfoldable pub record_attempt : CardCheckout → Dict CardCheckout → CardCheckout × Dict CardCheckout
unfolding save
record_attempt c d =
    (record c { attempts = c.attempts + 1 }, save (record c { attempts = c.attempts + 1 }) d)

unfoldable pub record_check : CardCheckout → Dict CardCheckout → CardCheckout × Dict CardCheckout
unfolding save
record_check c d = (record c { checks = c.checks + 1 }, save (record c { checks = c.checks + 1 }) d)

unfoldable pub mark_open :
    CardCheckout
    → CheckoutPage
    → String
    → String
    → String
    → Dict CardCheckout
    → CardCheckout × Dict CardCheckout
unfolding save
mark_open c page reference locale currency d =
    let updated = record c {
      status = open_page;
      result = some page;
      payment_reference = some reference;
      locale = some locale;
      currency = some currency;
      failure_code = none;
      failure_details = none;
    } in
    (updated, save updated d)

abbrev unsuccessful : McpError → CheckoutStatus → CardCheckout → CardCheckout
unsuccessful error status c = record c {
  status = status;
  failure_code = some (code error.kind);
  failure_details = stored_details error.details;
}

unfoldable pub mark_unsuccessful :
    CardCheckout → McpError → CheckoutStatus → Dict CardCheckout → CardCheckout × Dict CardCheckout
unfolding save code
mark_unsuccessful c error status d =
    (unsuccessful error status c, save (unsuccessful error status c) d)

unfoldable pub mark_failed :
    CardCheckout → McpError → Dict CardCheckout → CardCheckout × Dict CardCheckout
unfolding mark_unsuccessful
mark_failed c error = mark_unsuccessful c error failed

unfoldable pub mark_unresolved :
    CardCheckout → McpError → Dict CardCheckout → CardCheckout × Dict CardCheckout
unfolding mark_unsuccessful
mark_unresolved c error = mark_unsuccessful c error unresolved

unfoldable pub mark_payment_settled :
    CardCheckout → PaymentResult → Dict CardCheckout → CardCheckout × Dict CardCheckout
unfolding save
mark_payment_settled c result d =
    (record c { payment_result = some result }, save (record c { payment_result = some result }) d)

unfoldable pub require_card_quote : PurchaseQuote → Result PurchaseQuote
require_card_quote q =
    if same_method q.terms.payment_method card then ok q else err (plain non_card_quote)

unfoldable pub require_attempts_remaining : CardCheckout → Result CardCheckout
require_attempts_remaining c =
    if leb max_checkout_attempts c.attempts then err (plain card_checkout_attempt_limit) else ok c

unfoldable pub require_checks_remaining : CardCheckout → Result CardCheckout
require_checks_remaining c =
    if leb max_status_checks c.checks then err (plain card_payment_check_limit) else ok c
