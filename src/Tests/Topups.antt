-- ===== src/Tests/Topups.antt =====
-- Top-up quotes at concrete inputs.
use esim_opensource_mcp.Prelude.{none, some, [], ◌∷◌, true, false, Dict, lookup, ◌≡◌, refl, arith}
use esim_opensource_mcp.Prelude.Int.{pos}
use esim_opensource_mcp.Quotes.Active.{IsStore}
use esim_opensource_mcp.Topup.{EsimTopupTerms, EsimTopupQuote, WalletTopupTerms, WalletTopupQuote}
use esim_opensource_mcp.Topup.Quotes.{
  new_quote, same_topup, same_amount, create_esim, create_wallet,
}
use esim_opensource_mcp.Topup.Quotes.Create.{Outcome, create_esim-Outcome, create_wallet-Outcome}
use esim_opensource_mcp.Tests.{owner, settings}

abbrev esim_terms : EsimTopupTerms
esim_terms = record {
  target = record {
    iccid = "8901";
    masked_iccid = "***8901";
    bundle_code = "eu-5";
    bundle_name = none;
    plan_started = some true;
    bundle_expired = none;
    topup_allowed = some true;
    label = none;
    order_reference = none;
  };
  bundle = record {
    bundle_code = "eu-1";
    name = "Europe";
    data_display = "1 GB";
    unlimited = false;
    validity_display = "7 days";
    validity_days = some 7;
    plan_type = none;
    activation_policy = none;
    countries_count = 30;
  };
  price = record { amount = pos 200; currency = "EUR" };
  payment_method = "wallet";
  wallet = none;
}

abbrev esim_quotes : Dict EsimTopupQuote
esim_quotes = ("first", new_quote settings owner "first" "header" esim_terms "en" 0) ∷ []

esim_quotes-IsStore : IsStore esim_quotes
unfolding lookup
esim_quotes-IsStore = ((refl, tt), (refl, tt))

new_topup : lookup "topup" esim_quotes ≡ none
unfolding lookup
new_topup = refl

create_esim-Outcome_example :
    Outcome settings owner "topup" "header" esim_terms "en" 5
      (same_topup esim_terms)
      esim_quotes
      (create_esim settings owner "topup" "header" esim_terms "en" 5 esim_quotes)
create_esim-Outcome_example =
    create_esim-Outcome settings owner "topup" "header" esim_terms "en" 5 esim_quotes
      esim_quotes-IsStore new_topup (omega arith)

abbrev amount_terms : WalletTopupTerms
amount_terms = record {
  amount = pos 1000;
  currency = "EUR";
  balance = some (pos 300);
  minimum_amount = none;
  maximum_amount = none;
}

abbrev wallet_quotes : Dict WalletTopupQuote
wallet_quotes = ("first", new_quote settings owner "first" "header" amount_terms "en" 0) ∷ []

wallet_quotes-IsStore : IsStore wallet_quotes
unfolding lookup
wallet_quotes-IsStore = ((refl, tt), (refl, tt))

new_amount : lookup "amount" wallet_quotes ≡ none
unfolding lookup
new_amount = refl

create_wallet-Outcome_example :
    Outcome settings owner "amount" "header" amount_terms "en" 5
      (same_amount amount_terms)
      wallet_quotes
      (create_wallet settings owner "amount" "header" amount_terms "en" 5 wallet_quotes)
create_wallet-Outcome_example =
    create_wallet-Outcome settings owner "amount" "header" amount_terms "en" 5 wallet_quotes
      wallet_quotes-IsStore new_amount (omega arith)
