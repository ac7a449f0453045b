-- ===== src/Tests/Preparing.antt =====
-- Quotes and listings at concrete inputs.
use esim_opensource_mcp.Prelude.{
  eq_iff, false≢true, ◌+◌, ◌≤◌, String, none, some, List, [], ◌∷◌, true, length, lookup, ◌≡◌, ◌≢◌,
  refl, arith,
}
use esim_opensource_mcp.Errors.{ok, err, plain, quote_not_found, esim_selection_unavailable}
use esim_opensource_mcp.Quotes.Store
use esim_opensource_mcp.Quotes.Store.Refines.{
  Operation, saving, reading, restating, dropping, answers, specified_answers, view,
  answers-specified,
}
use esim_opensource_mcp.Purchase.{PurchaseTerms}
use esim_opensource_mcp.Quotes.{cancelled}
use esim_opensource_mcp.Quotes.Active.{IsStore}
use esim_opensource_mcp.Purchase.{PurchaseQuote}
use esim_opensource_mcp.Purchase.Service.{create, cancel, consume, get}
use esim_opensource_mcp.Purchase.Service.Create.{Outcome, create-Outcome, create-bounded}
use esim_opensource_mcp.Purchase.Service.Outsider.{outsider}
use esim_opensource_mcp.Selection.{BackendEsim, record_listing, resolve, numbered}
use esim_opensource_mcp.Selection.Numbers.{
  entry_for, nth, shown, resolve-record_listing, resolve-stranger,
}
use esim_opensource_mcp.Topup.Execution.{
  EsimTopupExecution, new_execution, attempted, unsuccessful, acquire, save,
  require_never_attempted, unresolved,
}
use esim_opensource_mcp.Topup.Execution.Once.{sent, ended, once}
use esim_opensource_mcp.Errors.{esim_topup_already_attempted, esim_topup_outcome_unknown}
use esim_opensource_mcp.Prelude.{Dict, Bool}
use esim_opensource_mcp.Purchase.Service.{list_active}
use esim_opensource_mcp.Purchase.Service.Listing.{Descends, count, list_active-Descends}
use esim_opensource_mcp.Prelude.Int.{pos}
use esim_opensource_mcp.Purchase.{evaluate_wallet}
use esim_opensource_mcp.Purchase.Covered.{Judged, evaluate_wallet-Judged}
use esim_opensource_mcp.Tests.{owner, stranger, settings, request, prepared, ready}

ready-IsStore : IsStore ready.quotes
unfolding lookup
ready-IsStore = ((refl, tt), (refl, tt))

second_new : lookup "second" ready.quotes ≡ none
unfolding lookup
second_new = refl

create-Outcome_example :
    Outcome settings owner "second" request 5 ready.quotes
      (create settings owner "second" request 5 ready.quotes)
create-Outcome_example =
    create-Outcome settings owner "second" request 5 ready.quotes ready-IsStore second_new
      (omega arith)

abbrev second : PurchaseQuote
second = record prepared { quote_id = "second"; created_at = 5; expires_at = 900_000_005 }

created_second : (create settings owner "second" request 5 ready.quotes).0 ≡ ok second
unfolding create
created_second = refl

create-bounded_example :
    length (Store.list_active owner 5 (create settings owner "second" request 5 ready.quotes).1) ≤ 2
create-bounded_example =
    create-bounded settings owner "second" request 5 ready.quotes second ready-IsStore second_new
      (omega arith) created_second

stored_quote : lookup "quote" ready.quotes ≡ some prepared
unfolding lookup
stored_quote = refl

other_user : stranger.user_ref ≢ owner.user_ref
other_user h = false≢true ((eq_iff stranger.user_ref owner.user_ref).1 h)

outsider_example :
    (get stranger "quote" 5 ready.quotes ≡ err (plain quote_not_found))
    × (cancel stranger "quote" 5 ready.quotes ≡ (err (plain quote_not_found), ready.quotes))
    × (consume stranger "quote" ready.quotes ≡ (err (plain quote_not_found), ready.quotes))
outsider_example =
    outsider stranger "quote" ready.quotes prepared stored_quote (λ o. other_user o.1) 5

abbrev esim : String → BackendEsim
esim iccid = record {
  iccid = some iccid;
  label_name = none;
  order_number = none;
  plan_name = none;
  plan_started = none;
  bundle_expired = none;
  bundle_code = none;
  topup_allowed = some true;
  order_status = some "Active";
  gprs_limit_display = some "5 GB";
  validity_display = some "30 days";
  validity_date = none;
  purchased_at = none;
}

abbrev esims : List BackendEsim
esims = esim "8901" ∷ esim "" ∷ esim "8902" ∷ []

resolve-record_listing_example :
    resolve owner (1 + 1) (record_listing owner esims []).1
    ≡ numbered (entry_for (1 + 1) (nth (shown esims) 1))
resolve-record_listing_example = resolve-record_listing owner esims [] 1

resolve-stranger_example :
    resolve stranger 2 (record_listing owner esims []).1 ≡ err (plain esim_selection_unavailable)
resolve-stranger_example = resolve-stranger owner stranger esims [] 2 refl other_user

abbrev topup : EsimTopupExecution
topup = new_execution owner "topup"

abbrev lost_topup : EsimTopupExecution
lost_topup = unsuccessful (plain esim_topup_outcome_unknown) unresolved (attempted topup)

named : topup.quote_id ≢ ""
named h = false≢true ((eq_iff topup.quote_id "").1 h)

once_example :
    (acquire owner "topup" (save lost_topup []) ≡ (lost_topup, save lost_topup []))
    × (require_never_attempted lost_topup ≡ err (plain esim_topup_already_attempted))
once_example =
    once owner topup lost_topup [] refl refl named
      (ended (plain esim_topup_outcome_unknown) unresolved sent)

abbrev pair : Dict PurchaseQuote
pair = ("quote", prepared) ∷ ("second", second) ∷ []

abbrev any_quote : PurchaseQuote → Bool
any_quote q = true

list_active-Descends_example :
    Descends (list_active owner 5 pair)
    × (count any_quote (list_active owner 5 pair)
        ≡ count any_quote (Store.list_active owner 5 pair))
list_active-Descends_example = list_active-Descends owner 5 pair any_quote

evaluate_wallet-Judged_example :
    Judged (evaluate_wallet (pos 300) "EUR" (pos 500)) (pos 300) (pos 500)
evaluate_wallet-Judged_example = evaluate_wallet-Judged (pos 300) "EUR" (pos 500)

-- A second quote is saved, the first is cancelled and both are read; then the session ends.
abbrev quote_operations : List (Operation PurchaseTerms)
quote_operations =
    saving (record prepared { quote_id = "second" })
    ∷ restating owner "quote" cancelled
    ∷ reading owner "quote"
    ∷ reading stranger "second"
    ∷ dropping "client"
    ∷ reading owner "second"
    ∷ []

answers-specified_example :
    answers quote_operations ready.quotes ≡ specified_answers quote_operations (view ready.quotes)
answers-specified_example = answers-specified quote_operations ready.quotes
