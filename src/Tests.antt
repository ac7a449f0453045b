-- ===== src/Tests.antt =====
-- The data on which the theorems are tried: one user, one quote, a server that has just started.
pub mod Run
pub mod Confirming
pub mod Preparing
pub mod Topups
pub mod ToppingUp
pub mod Paying
pub mod Crediting
pub mod Transport
pub mod Sessions
use esim_opensource_mcp.Prelude.{ℕ, String, Option, none, some, [], ◌∷◌, true, false}
use esim_opensource_mcp.Prelude.Int.{ℤ, pos}
use esim_opensource_mcp.Owner.{QuoteOwner}
use esim_opensource_mcp.Quotes.{active}
use esim_opensource_mcp.Session.{UserSession}
use esim_opensource_mcp.Purchase.{PurchaseTerms, PurchaseQuote, QuotedWallet, no_context, wallet}
use esim_opensource_mcp.Purchase.Service.{QuoteSettings, QuoteRequest}
use esim_opensource_mcp.World.{World}

abbrev pub owner : QuoteOwner
owner = record { session_key = "client"; user_ref = "user" }

abbrev pub stranger : QuoteOwner
stranger = record { session_key = "client"; user_ref = "other" }

abbrev pub covered : QuotedWallet
covered = record {
  balance = pos 900;
  currency = "EUR";
  sufficient = true;
  estimated_remaining_balance = some (pos 400);
  shortfall = none;
}

abbrev pub session : UserSession
session = record {
  session_key = "client";
  identity_source = "header";
  device_id = "device";
  access_token = "access";
  refresh_token = "refresh";
  expires_at = none;
  user_id = some "7";
  masked_email = none;
  masked_phone = none;
  currency = some "EUR";
  is_verified = true;
}

abbrev pub terms : PurchaseTerms
terms = record {
  bundle = record {
    bundle_code = "eu-5";
    name = "Europe";
    data_display = "5 GB";
    unlimited = false;
    validity_display = "30 days";
    validity_days = some 30;
    plan_type = none;
    activation_policy = none;
    countries_count = 30;
  };
  payment_method = wallet;
  price = record {
    displayed_amount = pos 500;
    currency = "EUR";
    final_amount_confirmed = false;
    tax_included_confirmed = false;
  };
  wallet_snapshot = some covered;
  search_context = record {
    kind = no_context;
    country_name = none;
    country_iso3 = none;
    region_name = none;
    region_code = none;
    is_complete = false;
  };
}

abbrev pub settings : QuoteSettings
settings = record { purchase_quote_ttl_seconds = 900; max_active_quotes_per_user = 2 }

abbrev pub request : QuoteRequest
request = record { identity_source = "header"; terms = terms; locale = "en" }

-- What `create` makes of the request under the id `quote`, at the time 0.
abbrev pub prepared : PurchaseQuote
prepared = record {
  quote_id = "quote";
  owner_session_key = "client";
  owner_user_ref = "user";
  identity_source = "header";
  terms = terms;
  locale = "en";
  created_at = 0;
  expires_at = 900_000_000;
  status = active;
}

abbrev pub empty : World
empty = record {
  sessions = [];
  challenges = [];
  quotes = [];
  executions = [];
  card_checkouts = [];
  esim_quotes = [];
  esim_executions = [];
  wallet_quotes = [];
  wallet_checkouts = [];
  selections = [];
  sent = [];
  topups_sent = [];
  checkouts_sent = [];
  topup_checkouts_sent = [];
}

abbrev pub signed_in : World
signed_in = record empty { sessions = ("client", session) ∷ [] }

-- The quote is prepared.
abbrev pub ready : World
ready = record signed_in { quotes = ("quote", prepared) ∷ [] }
