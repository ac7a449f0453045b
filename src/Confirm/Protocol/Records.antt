-- ===== src/Confirm/Protocol/Records.antt =====
-- The steps that touch the stored quotes and executions without sending anything keep the
-- invariant.
use esim_opensource_mcp.Prelude.{
  ℕ, String, Option, none, some, List, Dict, lookup, ◌==◌, ◌≡◌, arith, eq_iff, refl, inl, inr,
  Bool-cases, sym, ap, ◌∙◌,
}
use mathlib.Core.Option
use esim_opensource_mcp.Owner.{QuoteOwner}
use esim_opensource_mcp.Quotes.Ageing.{
  IsLive, Ages, Ages-cancel_if, Ages-cancel_each, Ages-cancel_read, Ages-consume_read,
}
use esim_opensource_mcp.Quotes.Store
use esim_opensource_mcp.Quotes.Store.{cancel_if}
use esim_opensource_mcp.Quotes.Store.Laws.{lookup-save}
use esim_opensource_mcp.Quotes.Store.Laws as StoreLaws
use esim_opensource_mcp.Quotes.Service.{superseded, cancel_each, at_limit, supersede_and_save_lem}
use esim_opensource_mcp.Purchase.{PurchaseQuote, equivalent_to}
use esim_opensource_mcp.Purchase.Service
use esim_opensource_mcp.Purchase.Service.{QuoteSettings, QuoteRequest, new_quote, create_lem}
use esim_opensource_mcp.Purchase.Execution.{PurchaseExecution}
use esim_opensource_mcp.Purchase.Execution.Laws.{kept, lookup-invalidate, invalidate-IsUnique}
use esim_opensource_mcp.World.{World}
use esim_opensource_mcp.World.Manager.{notify_invalidated}
use esim_opensource_mcp.Confirm.Protocol.{
  create_in, cancel_in, consume_in, SamePurchases, sent_keys,
}
use esim_opensource_mcp.Confirm.Protocol.Invariant.{
  Good, At, At-Ages, Hold, free, counted, sent_call,
}

-- Without its execution a quote that is dead keeps its part of the invariant.
At-forget :
    (id : String) (q : PurchaseQuote) (oe : Option PurchaseExecution) (h : Hold)
    (keys : List String)
    → ¬ IsLive q
    → At id (some q) oe h keys
    → At id (some q) none h keys
At-forget id q oe free keys dead a = (a.0, tt, ((λ live. absurd (dead live)), a.2.1))
At-forget id q oe (counted c) keys dead a =
    (a.0, tt, (a.2.0, a.2.1, a.2.2, λ live. absurd (dead live)))
At-forget id q oe (sent_call c) keys dead a =
    (a.0, tt, (a.2.0, a.2.1, a.2.2, λ live. absurd (dead live)))

cancel_if_dead :
    (sk : String) (q : PurchaseQuote) → q.owner_session_key ≡ sk → ¬ IsLive (cancel_if sk q)
cancel_if_dead sk q e = ground (arith, eq_iff q.owner_session_key sk)

-- A session that ends drops the execution of a quote only with the life of the quote.
At-kept :
    (sk id : String) (oq : Option PurchaseQuote) (oe : Option PurchaseExecution) (h : Hold)
    (keys : List String)
    → At id oq oe h keys
    → At id (Option.map (cancel_if sk) oq) (kept sk oe) h keys
At-kept sk id none none h keys a = a
At-kept sk id none (some e) h keys a = ground arith
At-kept sk id (some q) none h keys a =
    At-Ages id (some q) (some (cancel_if sk q)) none h keys (Ages-cancel_if sk (some q)) a
At-kept sk id (some q) (some e) h keys a =
    let aged =
      At-Ages id (some q) (some (cancel_if sk q)) (some e) h keys (Ages-cancel_if sk (some q)) a in
    elim (Bool-cases (e.owner_session_key == sk)) [
      | inl same ↦ rw same (
          At-forget id (cancel_if sk q) (some e) h keys
            (cancel_if_dead sk q (sym a.1.1 ∙ (eq_iff e.owner_session_key sk).0 same)) aged)
      | inr other ↦ rw other aged
    ]

At-new :
    (id : String) (q : PurchaseQuote) (oq : Option PurchaseQuote) (oe : Option PurchaseExecution)
    (h : Hold) (keys : List String)
    → oq ≡ none
    → q.quote_id ≡ id
    → At id oq oe h keys
    → At id (some q) oe h keys
At-new id q none oe h keys n e a =
    rw (a.0, a.1, a.2) (e, tt, ((λ live. refl), ("", tt, omega arith)))
At-new id q (some p) oe h keys n e a = cc

module _ (w : World) (locks : String → Hold) (g : Good w locks) where
  pub notify_invalidated-Good : (sk : String) → Good (notify_invalidated sk w) locks
  unfolding notify_invalidated
  notify_invalidated-Good sk = record {
    unique = invalidate-IsUnique sk w.executions g.unique;
    each = λ id.
        rw
          (
            StoreLaws.lookup-invalidate sk id w.quotes,
            lookup-invalidate sk id w.executions g.unique,
          )
          (At-kept sk id (lookup id w.quotes) (lookup id w.executions) (locks id)
            (sent_keys id w.sent) (g.each id));
  }

  -- quotes that only grow older
  aged-Good :
      (d : Dict PurchaseQuote)
      → ((id : String) → Ages (lookup id w.quotes) (lookup id d))
      → Good (record w { quotes = d }) locks
  aged-Good d ages = record {
    unique = g.unique;
    each = λ id.
        At-Ages id (lookup id w.quotes) (lookup id d) (lookup id w.executions) (locks id)
          (sent_keys id w.sent) (ages id) (g.each id);
  }

  pub cancel_in-Good :
      (owner : QuoteOwner) (id : String) (moment : ℕ) → Good (cancel_in owner id moment w) locks
  unfolding Service.cancel
  cancel_in-Good owner id moment =
      aged-Good (cancel_in owner id moment w).quotes
        (λ j. Ages-cancel_read _ owner id j moment (Service.get_record owner id w.quotes) w.quotes)

  pub consume_in-Good : (owner : QuoteOwner) (id : String) → Good (consume_in owner id w) locks
  unfolding Service.consume
  consume_in-Good owner id =
      aged-Good (consume_in owner id w).quotes
        (λ j. Ages-consume_read _ owner id j (Service.get_record owner id w.quotes) w.quotes)

  pub elsewhere-Good : (v : World) → SamePurchases w v → Good v locks
  elsewhere-Good v s = record {
    unique = rw s.1 g.unique;
    each = λ id. rw (s.0, s.1, s.2) (g.each id);
  }

  -- A quote under a new id has no execution, no lock and no send behind it.
  new_quote-At :
      (d : Dict PurchaseQuote) (q : PurchaseQuote) (id : String)
      → ((j : String) → Ages (lookup j w.quotes) (lookup j d))
      → lookup q.quote_id w.quotes ≡ none
      → At id (lookup id (Store.save q d)) (lookup id w.executions) (locks id) (sent_keys id w.sent)
  new_quote-At d q id ages new = elim (Bool-cases (q.quote_id == id)) [
    | inl here ↦
        rw (lookup-save, here)
          (let e = (eq_iff q.quote_id id).0 here in
            At-new id q (lookup id w.quotes) (lookup id w.executions) (locks id)
              (sent_keys id w.sent) (ap (λ (j : String). lookup j w.quotes) (sym e) ∙ new) e
              (g.each id))
    | inr there ↦
        rw (lookup-save, there)
          (At-Ages id (lookup id w.quotes) (lookup id d) (lookup id w.executions) (locks id)
            (sent_keys id w.sent) (ages id) (g.each id))
  ]

  saved-Good :
      (d : Dict PurchaseQuote) (q : PurchaseQuote)
      → ((j : String) → Ages (lookup j w.quotes) (lookup j d))
      → lookup q.quote_id w.quotes ≡ none
      → Good (record w { quotes = Store.save q d }) locks
  saved-Good d q ages new = record { unique = g.unique; each = λ id. new_quote-At d q id ages new }

  pub create_in-Good :
      (settings : QuoteSettings) (owner : QuoteOwner) (id : String) (request : QuoteRequest)
      (moment : ℕ)
      → lookup id w.quotes ≡ none
      → Good (create_in settings owner id request moment w) locks
  create_in-Good settings owner id request moment new =
      let equivalent =
        equivalent_to request.terms.bundle.bundle_code request.terms.payment_method in
      let old = superseded equivalent owner moment w.quotes in
      let left = cancel_each owner old w.quotes in
      let quote = new_quote settings owner id request moment in
      let ages : (j : String) → Ages (lookup j w.quotes) (lookup j left) =
        λ j. Ages-cancel_each owner j old w.quotes in
      let fresh : lookup quote.quote_id w.quotes ≡ none = unfold new_quote in new in
      rw (create_lem, supersede_and_save_lem)
        (elim (Bool-cases
          (at_limit equivalent owner settings.max_active_quotes_per_user moment w.quotes)) [
            | inl full ↦ rw full (aged-Good left ages)
            | inr room ↦ rw room (saved-Good left quote ages fresh)
          ])
