-- ===== src/Tests/Paying.antt =====
-- A card quote: its payment page, and checks of the payment, at concrete inputs.
use esim_opensource_mcp.Prelude.{String, Option, none, some, [], ◌∷◌, true, false, ◌≡◌, refl, arith}
use esim_opensource_mcp.Errors.{ok}
use esim_opensource_mcp.Backend.{Answer, answered, envelope, accepted}
use esim_opensource_mcp.Purchase.{PurchaseQuote, card}
use esim_opensource_mcp.Purchase.Service.{get_record}
use esim_opensource_mcp.CardModels.{
  BackendCardCheckout, BackendCardPaymentStatus, ParsedUrl, completed,
}
use esim_opensource_mcp.Card.{CardCheckout, CheckoutPage, new_checkout, open_page, get}
use esim_opensource_mcp.World.{World}
use esim_opensource_mcp.CardPayment.Checkout as Checkout
use esim_opensource_mcp.CardPayment.Checkout.{Call, OpenedPage}
use esim_opensource_mcp.CardPayment.Checkout.Finish as Finish
use esim_opensource_mcp.CardPayment.Checkout.Finish.{Surroundings, create_card_checkout}
use esim_opensource_mcp.CardPayment.Checkout.Pages as Pages
use esim_opensource_mcp.CardPayment.Checkout.Pages.{IsSafe, begin-finish}
use esim_opensource_mcp.CardPayment.Status as Status
use esim_opensource_mcp.CardPayment.Status.{Check, CheckedPayment}
use esim_opensource_mcp.CardPayment.Status.Settled.{IsStated}
use esim_opensource_mcp.Tests.{owner, terms, prepared, signed_in}

abbrev by_card : PurchaseQuote
by_card = record prepared { terms = record terms { payment_method = card; wallet_snapshot = none } }

abbrev quoted : World
quoted = record signed_in { quotes = ("quote", by_card) ∷ [] }

abbrev answer_of : {R : Type 0} → R → Answer R
answer_of r = answered (record {
  status_code = 200;
  body = envelope (record {
    status = some "success";
    data_payload = accepted r;
    title = none;
    message = none;
    response_code = some 200;
  });
})

abbrev urlparse : String → Option ParsedUrl
urlparse link =
    some
      (record { scheme = "https"; hostname = some "pay.example"; username = none; password = none })

abbrev opened : BackendCardCheckout
opened = record {
  payment_reference = some "pay-1";
  order_id = none;
  checkout_url = some " https://pay.example/c/1 ";
  status = some "PENDING";
  amount = none;
  currency = none;
  expires_at = none;
  next_action = some "OPEN_CHECKOUT_URL";
  idempotent_replay = false;
}

abbrev call : Call
call = record {
  quote = by_card;
  checkout = record (new_checkout owner "quote" "key") { attempts = 1 };
  device_id = "device";
}

abbrev page : CheckoutPage
page = (Finish.checkout_result by_card opened "https://pay.example/c/1" "pay-1")

abbrev shown : OpenedPage
shown = record { page = page; replayed = false }

opens : (Finish.finish urlparse call (answer_of opened) quoted).0 ≡ ok shown
unfolding Finish.finish
opens = refl

-- the page is asked for again after other parts of the state have changed
abbrev later : World
later = record ((Finish.finish urlparse call (answer_of opened) quoted).1) { sessions = [] }

same_checkout :
    get owner "quote" later.card_checkouts
    ≡ get owner "quote" (Finish.finish urlparse call (answer_of opened) quoted).1.card_checkouts
same_checkout = refl

later-read : get_record owner "quote" later.quotes ≡ ok by_card
unfolding Finish.finish get_record
later-read = ground arith

begin-finish_example :
    IsSafe urlparse page
    × Pages.IsStated (answer_of opened) page
    × (Checkout.begin 60 1 "device" owner "quote" "other" later
        ≡ (Checkout.done (ok (record { page = page; replayed = true })), later))
begin-finish_example =
    begin-finish urlparse call (answer_of opened) quoted later shown owner "quote" by_card 60 1
      "device" "other" (refl, refl, refl) later-read same_checkout opens

abbrev checkout : CardCheckout
checkout = record (new_checkout owner "quote" "key") {
  attempts = 1;
  checks = 1;
  status = open_page;
  result = some page;
  payment_reference = some "pay-1";
  locale = some "en";
  currency = some "EUR";
}

abbrev paying : World
paying = record quoted { card_checkouts = ("quote", checkout) ∷ [] }

abbrev check : Check
check = record { owner = owner; checkout = checkout }

abbrev settled : BackendCardPaymentStatus
settled = record {
  payment_reference = some "pay-1";
  status = some " Completed";
  order_id = some "o-7";
  provisioned = some true;
  amount = none;
  currency = none;
  bundle_code = some "eu-5";
  quote_reference = some "quote";
  expires_at = none;
  next_action = none;
}

abbrev report : CheckedPayment
report = record { payment = Status.status_result checkout settled completed; replayed = false }

checks : (Status.finish check (answer_of settled) paying).0 ≡ ok report
unfolding Status.finish
checks = refl

abbrev surroundings : Surroundings
surroundings = record {
  window = 60;
  now = 5;
  digest = λ s. "user";
  urlparse = urlparse;
  session_key = "client";
  device_id = "device";
  fresh_key = "key";
  auth = none;
  answer = answer_of opened;
}

-- the quote has no checkout yet, and its page is opened
opens_whole : (create_card_checkout surroundings " quote" quoted).0 ≡ ok shown
unfolding create_card_checkout
opens_whole = refl
