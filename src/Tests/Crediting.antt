-- ===== src/Tests/Crediting.antt =====
-- A wallet top-up is prepared, and one was paid, at concrete inputs.
use esim_opensource_mcp.Prelude.{
  String, Option, some, none, [], ◌∷◌, true, false, lookup, ◌==◌, ◌≡◌, refl, arith, if◌then◌else◌,
}
use esim_opensource_mcp.Prelude.Int.{pos}
use esim_opensource_mcp.Errors.{ok}
use esim_opensource_mcp.Backend.{Answer, answered, envelope, accepted}
use esim_opensource_mcp.Quotes.{active}
use esim_opensource_mcp.CardModels.{ParsedUrl}
use esim_opensource_mcp.WalletTopup.Checkout as Checkout
use esim_opensource_mcp.WalletTopup.Checkout.{Call, OpenedPage}
use esim_opensource_mcp.WalletTopup.Checkout.Finish as Finish
use esim_opensource_mcp.WalletTopup.Checkout.Finish.{Surroundings, create_wallet_topup_checkout}
use esim_opensource_mcp.WalletTopup.Checkout.Pages as Pages
use esim_opensource_mcp.WalletModels.{
  BackendWalletTopupCheckout, BackendWalletTopupStatus, pending, paid,
}
use esim_opensource_mcp.Topup.{WalletTopupQuote}
use esim_opensource_mcp.Topup.Checkout.{WalletTopupCheckout, TopupPage, new_checkout, open_page}
use esim_opensource_mcp.World.{World}
use esim_opensource_mcp.World.Manager.Authenticated.{IsKeyed}
use esim_opensource_mcp.WalletTopup.Prepare.{Preparation, ParsedDecimal, prepare_wallet_topup}
use esim_opensource_mcp.WalletTopup.Prepare.Limits.{IsWithin, prepare_wallet_topup-IsWithin}
use esim_opensource_mcp.WalletTopup.Status as Status
use esim_opensource_mcp.WalletTopup.Status.{Check, CheckedPayment}
use esim_opensource_mcp.Tests.{owner, settings, signed_in}

abbrev quote : WalletTopupQuote
quote = record {
  quote_id = "wallet";
  owner_session_key = "client";
  owner_user_ref = "user";
  identity_source = "header";
  terms = record {
    amount = pos 2500;
    currency = "EUR";
    balance = some (pos 900);
    minimum_amount = none;
    maximum_amount = none;
  };
  locale = "en";
  created_at = 0;
  expires_at = 900_000_000;
  status = active;
}

abbrev page : TopupPage
page = record {
  checkout_url = "https://pay.example/t/1";
  quote_reference = "wallet";
  payment_reference = "top-1";
  amount = pos 2500;
  topup_status = pending;
  charged = false;
  paid = false;
  credited = false;
  currency = "EUR";
  next_action = some "OPEN_CHECKOUT_URL";
  expires_at = none;
  order_id = none;
}

abbrev checkout : WalletTopupCheckout
checkout = record (new_checkout owner "wallet") {
  attempts = 1;
  checks = 1;
  status = open_page;
  result = some page;
  payment_reference = some "top-1";
  locale = some "en";
  currency = some "EUR";
}

abbrev paying : World
paying = record signed_in {
  wallet_quotes = ("wallet", quote) ∷ [];
  wallet_checkouts = ("wallet", checkout) ∷ [];
}

abbrev check : Check
check = record { owner = owner; checkout = checkout }

abbrev credited : BackendWalletTopupStatus
credited = record {
  payment_reference = some "top-1";
  status = some " Paid";
  order_id = some "o-9";
  amount = some (pos 2500);
  currency = some "EUR";
  expires_at = none;
  paid = some true;
  next_action = none;
}

abbrev answer_of : {R : Type 0} → R → Answer R
answer_of r = answered (record {
  status_code = 200;
  body = envelope (record {
    status = some "success";
    data_payload = accepted r;
    title = none;
    message = none;
    response_code = some 200;
  });
})

abbrev credited_answer : Answer BackendWalletTopupStatus
credited_answer = answer_of credited

abbrev credit : CheckedPayment
credit = record { payment = Status.status_result checkout credited paid; replayed = false }

checks : (Status.finish check credited_answer paying).0 ≡ ok credit
unfolding Status.finish
checks = refl

abbrev decimal : String → Option ParsedDecimal
decimal text =
    if text == "1250.50" then some (record { amount = some (pos 125050); places = 2 }) else none

abbrev preparation : Preparation
preparation = record {
  window = 60;
  now = 1;
  rotations = record { of_fresh = none; of_replay = none };
  settings = settings;
  digest = λ s. s;
  session_key = "client";
  quote_id = "wallet";
  moment = 5;
  locale = "en";
  currency = "EUR";
  decimal = decimal;
  largest = pos 100_000_000;
  options = λ n token. ok (
      accepted (record {
        currency = some "eur";
        minimum_amount_exclusive = some (pos 100);
        maximum_amount = some (pos 200_000);
        current_balance = some (pos 900);
        can_topup = true;
      }));
}

abbrev prepared_topup : WalletTopupQuote
prepared_topup = record quote {
  owner_user_ref = "7";
  terms = record {
    amount = pos 125050;
    currency = "EUR";
    balance = some (pos 900);
    minimum_amount = some (pos 100);
    maximum_amount = some (pos 200_000);
  };
  created_at = 5;
  expires_at = 900_000_005;
}

keyed : IsKeyed "client" signed_in
unfolding lookup
keyed s h = ground (arith, h)

prepares : (prepare_wallet_topup preparation " 1,250.50" signed_in).0 ≡ ok prepared_topup
unfolding prepare_wallet_topup
prepares = refl

prepare_wallet_topup-IsWithin_example : IsWithin preparation " 1,250.50" prepared_topup
prepare_wallet_topup-IsWithin_example =
    prepare_wallet_topup-IsWithin preparation " 1,250.50" signed_in prepared_topup keyed prepares

abbrev urlparse : String → Option ParsedUrl
urlparse link =
    some
      (record { scheme = "https"; hostname = some "pay.example"; username = none; password = none })

abbrev opened : BackendWalletTopupCheckout
opened = record {
  payment_reference = some "top-1";
  order_id = none;
  checkout_url = some " https://pay.example/t/1 ";
  status = some "PENDING";
  amount = none;
  currency = none;
  expires_at = none;
  next_action = some "OPEN_CHECKOUT_URL";
  idempotent_replay = true;
}

abbrev opened_answer : Answer BackendWalletTopupCheckout
opened_answer = answer_of opened

abbrev call : Call
call = record {
  quote = quote;
  checkout = record (new_checkout owner "wallet") { attempts = 1 };
  device_id = "device";
}

abbrev quoted : World
quoted = record signed_in { wallet_quotes = ("wallet", quote) ∷ [] }

abbrev shown : OpenedPage
shown = record { page = page; replayed = true }

-- the page is asked for again after other parts of the state have changed
abbrev later : World
later = record ((Finish.finish urlparse call opened_answer quoted).1) { sessions = [] }

abbrev surroundings : Surroundings
surroundings = record {
  window = 60;
  now = 5;
  digest = λ s. "user";
  urlparse = urlparse;
  session_key = "client";
  device_id = "device";
  auth = none;
  answer = opened_answer;
}

-- the quote has no checkout yet, and its page is opened
opens_whole : (create_wallet_topup_checkout surroundings "wallet " quoted).0 ≡ ok shown
unfolding create_wallet_topup_checkout
opens_whole = refl
