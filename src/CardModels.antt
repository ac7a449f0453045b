-- ===== src/CardModels.antt =====
-- models/card.py and the references of client/card.py: what the platform's answers on card
-- payments are read as.
pub mod Laws
use esim_opensource_mcp.Prelude.{
  ℕ, String, Bool, true, false, not, ◌&&◌, ◌||◌, ◌==◌, Option, none, some, leb, length,
  if◌then◌else◌, strip, lower, codes, eq_codes, or_empty, is_reference, has_space_or_control, List,
}
use esim_opensource_mcp.Prelude.Int.{ℤ}
use esim_opensource_mcp.Errors.{Result, ok, err, plain, invalid_input}
use esim_opensource_mcp.Backend.{Payload, not_object, refused, accepted}

pub data CardPaymentStatus : Type 0 where
  pending paid provisioning completed failed expired cancelled ambiguous : CardPaymentStatus

unfoldable pub is_terminal : CardPaymentStatus → Bool
is_terminal completed = true
is_terminal failed = true
is_terminal expired = true
is_terminal cancelled = true
is_terminal ambiguous = true
is_terminal _ = false

unfoldable pub money_arrived : CardPaymentStatus → Bool
money_arrived paid = true
money_arrived provisioning = true
money_arrived completed = true
money_arrived _ = false

-- `_NORMALIZED_STATUSES.get(...)`: case is folded down instead
unfoldable pub parse_status : Option String → Option CardPaymentStatus
unfolding strip lower eq_codes
parse_status value =
    let word = lower (strip (or_empty value)) in
    if eq_codes word (codes "pending")
    then some pending
    else if eq_codes word (codes "paid")
    then some paid
    else if eq_codes word (codes "provisioning")
    then some provisioning
    else if eq_codes word (codes "completed")
    then some completed
    else if eq_codes word (codes "failed")
    then some failed
    else if eq_codes word (codes "expired")
    then some expired
    else if eq_codes word (codes "cancelled")
    then some cancelled
    else if eq_codes word (codes "ambiguous")
    then some ambiguous
    else none

-- `amount` is read as a decimal already.
pub record BackendCardCheckout : Type 0 where
  pub payment_reference : Option String
  pub order_id : Option String
  pub checkout_url : Option String
  pub status : Option String
  pub amount : Option ℤ
  pub currency : Option String
  pub expires_at : Option String
  pub next_action : Option String
  pub idempotent_replay : Bool

pub record BackendCardPaymentStatus : Type 0 where
  pub payment_reference : Option String
  pub status : Option String
  pub order_id : Option String
  pub amount : Option ℤ
  pub currency : Option String
  pub bundle_code : Option String
  pub quote_reference : Option String
  pub expires_at : Option String
  pub provisioned : Option Bool
  pub next_action : Option String

-- `_parse`
abbrev pub parse : {R : Type 0} → Payload R → Option R
parse not_object = none
parse refused = none
parse (accepted r) = some r

-- What `urlparse` makes of a link; `none` is that it raises.
pub record ParsedUrl : Type 0 where
  pub scheme : String
  pub hostname : Option String
  pub username : Option String
  pub password : Option String

abbrev is_empty : Option String → Bool
is_empty o = or_empty o == ""

-- an https link with a host and without credentials
unfoldable pub is_plain_https : ParsedUrl → Bool
unfolding lower eq_codes
is_plain_https p =
    eq_codes (lower p.scheme) (codes "https")
    && (not (is_empty p.hostname) && (is_empty p.username && is_empty p.password))

abbrev pub accepted_link : String → Option ParsedUrl → Option String
accepted_link candidate none = none
accepted_link candidate (some p) = if is_plain_https p then some candidate else none

unfoldable pub safe_checkout_url : (String → Option ParsedUrl) → Option String → Option String
unfolding strip has_space_or_control is_plain_https
safe_checkout_url urlparse value =
    let candidate = strip (or_empty value) in
    if candidate == "" || not (leb (length (codes candidate)) 2048)
    then none
    else if has_space_or_control candidate
    then none
    else accepted_link candidate (urlparse candidate)

unfoldable pub require_payment_reference : Option String → Result String
unfolding strip is_reference
require_payment_reference value =
    let candidate = strip (or_empty value) in
    if is_reference candidate then ok candidate else err (plain invalid_input)
