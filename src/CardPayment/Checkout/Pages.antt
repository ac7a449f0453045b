-- ===== src/CardPayment/Checkout/Pages.antt =====
-- Which payment pages are handed to the user, and what a repeated call returns.
use esim_opensource_mcp.Prelude.{
  ℕ, String, Bool, true, false, Option, none, some, Dict, ◌≡◌, ◌≢◌, arith, eq_refl, refl, sym, ap,
  subst, ◌∙◌, if◌then◌else◌, is_reference, has_space_or_control,
}
use esim_opensource_mcp.Errors.{McpError, Result, ok, err}
use esim_opensource_mcp.Owner.{QuoteOwner}
use esim_opensource_mcp.Records.Laws
use esim_opensource_mcp.Backend.{
  Answer, timed_out, unreachable, answered, is_success, outcome_of, outcome_data, outcome_hint,
  effective_status,
}
use esim_opensource_mcp.Purchase.{PurchaseQuote}
use esim_opensource_mcp.Purchase.Service.{get_record}
use esim_opensource_mcp.Purchase.Service.Laws.{get_record-ok}
use esim_opensource_mcp.CardModels.{
  BackendCardCheckout, ParsedUrl, parse, safe_checkout_url, is_plain_https,
  require_payment_reference, parse_status,
}
use esim_opensource_mcp.CardModels.Laws.{safe_checkout_url-some, require_payment_reference-ok}
use esim_opensource_mcp.Card.{
  CardCheckout, CheckoutPage, open_page, checkout_owned, save, acquire, get, mark_open,
}
use esim_opensource_mcp.World.{World}
use esim_opensource_mcp.CardPayment.Failure.{classify_checkout_failure, Disposition}
use esim_opensource_mcp.CardPayment.Checkout.{Call, OpenedPage, done, begin, replay_if_terminal}
use esim_opensource_mcp.CardPayment.Checkout.Finish.{
  finish, on_outcome, on_success, on_failure, with_link, hand_over, refuse, leave_unresolved,
  checkout_result, status_or_pending,
}

-- The payload of a successful answer that could be read.
abbrev pub stated : Answer BackendCardCheckout → Option BackendCardCheckout
stated (answered r) =
    if is_success (outcome_of r) then parse (outcome_data (outcome_of r)) else none
stated _ = none

-- The status on the page is the platform's own word, or pending where it has none that is known.
abbrev pub IsStated : Answer BackendCardCheckout → CheckoutPage → Type 0
IsStated a page =
    (b : BackendCardCheckout) × (stated a ≡ some b)
    × (page.payment_status ≡ status_or_pending (parse_status b.status))

-- A page that may be shown: a plain https link with a host and without credentials, a reference
-- that a later check accepts, and flags that are down.
abbrev pub IsSafe : (String → Option ParsedUrl) → CheckoutPage → Type 0
IsSafe urlparse page =
    ((p : ParsedUrl) × (urlparse page.checkout_url ≡ some p) × (is_plain_https p ≡ true))
    × (has_space_or_control page.checkout_url ≡ false)
    × (is_reference page.payment_reference ≡ true)
    × (page.paid ≡ false)
    × (page.charged ≡ false)

-- The checkout under which a page is stored.
abbrev Opened : Call → World → CheckoutPage → CardCheckout → World → Type 0
Opened c w page f v =
    (v ≡ record w { card_checkouts = save f w.card_checkouts })
    × (f.quote_id ≡ c.checkout.quote_id)
    × (f.owner_session_key ≡ c.checkout.owner_session_key)
    × (f.owner_user_ref ≡ c.checkout.owner_user_ref)
    × (f.status ≡ open_page)
    × (f.result ≡ some page)

abbrev Reported :
    (String → Option ParsedUrl)
    → Call
    → Answer BackendCardCheckout
    → World
    → OpenedPage
    → Result OpenedPage × World
    → Type 0
Reported urlparse c a w x (r, v) =
    IsSafe urlparse x.page × IsStated a x.page × ((f : CardCheckout) × Opened c w x.page f v)

leave_unresolved-err : (c : Call) (w : World) (x : OpenedPage) → ¬ ((leave_unresolved c w).0 ≡ ok x)
unfolding leave_unresolved
leave_unresolved-err c w x h = ground (arith, h)

refuse-err : (c : Call) (e : McpError) (w : World) (x : OpenedPage) → ¬ ((refuse c e w).0 ≡ ok x)
unfolding refuse
refuse-err c e w x h = ground (arith, h)

hand_over-Reported :
    (urlparse : String → Option ParsedUrl) (c : Call) (a : Answer BackendCardCheckout)
    (b : BackendCardCheckout) (link reference : String) (w : World) (x : OpenedPage)
    → ((p : ParsedUrl) × (urlparse link ≡ some p) × (is_plain_https p ≡ true))
    → has_space_or_control link ≡ false
    → is_reference reference ≡ true
    → stated a ≡ some b
    → (hand_over c b link reference w).0 ≡ ok x
    → Reported urlparse c a w x (hand_over c b link reference w)
unfolding hand_over checkout_result mark_open
hand_over-Reported urlparse c a b link reference w x p clean good said h =
    let page = checkout_result c.quote b link reference in
    let same : record { page = page; replayed = b.idempotent_replay } ≡ x = ground (arith, h) in
    subst (λ y. Reported urlparse c a w y (hand_over c b link reference w)) same
      ((p, clean, good, refl, refl), (b, said, refl), (_, (refl, refl, refl, refl, refl, refl)))

with_link-Reported :
    (urlparse : String → Option ParsedUrl) (c : Call) (a : Answer BackendCardCheckout)
    (b : BackendCardCheckout) (o : Option String) (r : Result String) (w : World) (x : OpenedPage)
    → safe_checkout_url urlparse b.checkout_url ≡ o
    → require_payment_reference b.payment_reference ≡ r
    → stated a ≡ some b
    → (with_link c b o r w).0 ≡ ok x
    → Reported urlparse c a w x (with_link c b o r w)
with_link-Reported urlparse c a b none r w x p q said h = absurd (refuse-err c _ w x h)
with_link-Reported urlparse c a b (some link) (err e) w x p q said h = absurd (refuse-err c _ w x h)
with_link-Reported urlparse c a b (some link) (ok reference) w x p q said h =
    let (parsed, clean) = safe_checkout_url-some urlparse b.checkout_url link p in
    hand_over-Reported urlparse c a b link reference w x parsed clean
      (require_payment_reference-ok b.payment_reference reference q) said h

on_success-Reported :
    (urlparse : String → Option ParsedUrl) (c : Call) (a : Answer BackendCardCheckout)
    (o : Option BackendCardCheckout) (w : World) (x : OpenedPage)
    → stated a ≡ o
    → (on_success urlparse c o w).0 ≡ ok x
    → Reported urlparse c a w x (on_success urlparse c o w)
unfolding on_success
on_success-Reported urlparse c a none w x said h = absurd (leave_unresolved-err c w x h)
on_success-Reported urlparse c a (some b) w x said h =
    with_link-Reported urlparse c a b (safe_checkout_url urlparse b.checkout_url)
      (require_payment_reference b.payment_reference) w x refl refl said h

on_failure-err :
    (c : Call) (e : McpError) (d : Disposition) (w : World) (x : OpenedPage)
    → ¬ ((on_failure c (e, d) w).0 ≡ ok x)
unfolding on_failure
on_failure-err c e d w x h = ground (arith, h)

by_success-Reported :
    (urlparse : String → Option ParsedUrl) (c : Call) (a : Answer BackendCardCheckout)
    (o : Option BackendCardCheckout) (failure : McpError × Disposition) (w : World) (x : OpenedPage)
    (b : Bool)
    → stated a ≡ (if b then o else none)
    → (if b then on_success urlparse c o w else on_failure c failure w).0 ≡ ok x
    → Reported urlparse c a w x (if b then on_success urlparse c o w else on_failure c failure w)
by_success-Reported urlparse c a o failure w x true said h =
    on_success-Reported urlparse c a o w x said h
by_success-Reported urlparse c a o failure w x false said h =
    absurd (on_failure-err c failure.0 failure.1 w x h)

finish-Reported :
    (urlparse : String → Option ParsedUrl) (c : Call) (a : Answer BackendCardCheckout) (w : World)
    (x : OpenedPage)
    → (finish urlparse c a w).0 ≡ ok x
    → Reported urlparse c a w x (finish urlparse c a w)
unfolding finish on_outcome
finish-Reported urlparse c timed_out w x h = absurd (leave_unresolved-err c w x h)
finish-Reported urlparse c unreachable w x h = absurd (leave_unresolved-err c w x h)
finish-Reported urlparse c (answered r) w x h =
    let o = outcome_of r in
    by_success-Reported urlparse c (answered r) (parse (outcome_data o))
      (classify_checkout_failure (effective_status o) (outcome_hint o) o.parsed) w x (is_success o)
      refl h

-- The call has the checkout of its owner, as `begin` gives it to it.
abbrev pub OwnCall : Call → QuoteOwner → String → Type 0
OwnCall c owner id =
    (c.checkout.quote_id ≡ id)
    × (owner.session_key ≡ c.checkout.owner_session_key)
    × (owner.user_ref ≡ c.checkout.owner_user_ref)

open_replay :
    (f : CardCheckout) (page : CheckoutPage)
    → f.status ≡ open_page
    → f.result ≡ some page
    → replay_if_terminal f ≡ some (ok (record { page = page; replayed = true }))
unfolding replay_if_terminal
open_replay f page s r = rw (s, r) refl

acquire_open :
    (owner : QuoteOwner) (id key : String) (d : Dict CardCheckout) (f : CardCheckout)
    → get owner id d ≡ some f
    → acquire owner id key d ≡ (f, d)
unfolding acquire
acquire_open owner id key d f h = rw h refl

begin_open :
    (window now : ℕ) (device_id : String) (owner : QuoteOwner) (id key : String) (v : World)
    (q : PurchaseQuote) (f : CardCheckout) (page : CheckoutPage)
    → get_record owner id v.quotes ≡ ok q
    → get owner id v.card_checkouts ≡ some f
    → f.status ≡ open_page
    → f.result ≡ some page
    → begin window now device_id owner id key v
      ≡ (done (ok (record { page = page; replayed = true })), v)
unfolding begin
begin_open window now device_id owner id key v q f page read stored s r =
    rw (read, acquire_open owner id key v.card_checkouts f stored, open_replay f page s r) refl

saved_checkout :
    (owner : QuoteOwner) (id : String) (d : Dict CardCheckout) (f : CardCheckout)
    → f.quote_id ≡ id
    → owner.session_key ≡ f.owner_session_key
    → owner.user_ref ≡ f.owner_user_ref
    → id ≢ ""
    → get owner id (save f d) ≡ some f
unfolding get save
saved_checkout owner id d f i s u n =
    Laws.get_of_lookup checkout_owned owner id _ f
      (Laws.lookup-save checkout_owned f id d ∙ rw (i, eq_refl id) refl) s u n

-- A page is handed to the user only when the platform answered with a readable success, its link
-- is a plain https link with a host and without credentials or white space and its reference can
-- be checked later. Its status is the platform's own word, or pending where that is no known one,
-- and the flags `paid` and `charged` are false on it whatever that word is. In any later
-- state in which the quote can be read and what is stored as the owner's checkout of it is what this
-- call left, a call of the owner returns the same page as a replay and leaves the state as it is.
pub begin-finish :
    (urlparse : String → Option ParsedUrl) (c : Call) (a : Answer BackendCardCheckout) (w v : World)
    (x : OpenedPage) (owner : QuoteOwner) (id : String) (q : PurchaseQuote) (window now : ℕ)
    (device_id key : String)
    → OwnCall c owner id
    → get_record owner id v.quotes ≡ ok q
    → get owner id v.card_checkouts ≡ get owner id (finish urlparse c a w).1.card_checkouts
    → (finish urlparse c a w).0 ≡ ok x
    → IsSafe urlparse x.page
      × IsStated a x.page
      × (begin window now device_id owner id key v
          ≡ (done (ok (record { page = x.page; replayed = true })), v))
begin-finish urlparse c a w v x owner id q window now device_id key o read kept h =
    let (safe, status, found) = finish-Reported urlparse c a w x h in
    let (f, left) = found in
    let (after, i, s, u, opened, page) = left in
    let named = (get_record-ok owner id v.quotes q read).3 in
    let stored =
      kept
      ∙ ap (λ (t : World). get owner id t.card_checkouts) after
      ∙ saved_checkout owner id w.card_checkouts f (i ∙ o.0) (o.1 ∙ sym s) (o.2 ∙ sym u) named in
    (
      safe,
      status,
      begin_open window now device_id owner id key v q f x.page read stored opened page,
    )
