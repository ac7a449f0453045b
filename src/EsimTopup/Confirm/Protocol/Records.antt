-- ===== src/EsimTopup/Confirm/Protocol/Records.antt =====
-- The steps that touch the stored quotes and executions without sending anything keep the
-- invariant.
use esim_opensource_mcp.Prelude.{
  ℕ, String, Option, none, some, Dict, lookup, ◌==◌, ◌≡◌, arith, eq_iff, refl, inl, inr, Bool-cases,
  sym, ap, ◌∙◌,
}
use mathlib.Core.Option
use esim_opensource_mcp.Owner.{QuoteOwner}
use esim_opensource_mcp.Quotes.Ageing.{
  IsLive, Ages, Ages-cancel_if, Ages-cancel_each, Ages-cancel_read, Ages-consume_read,
}
use esim_opensource_mcp.Quotes.Store
use esim_opensource_mcp.Quotes.Store.{cancel_if}
use esim_opensource_mcp.Quotes.Store.Laws.{lookup-save}
use esim_opensource_mcp.Quotes.Store.Laws as StoreLaws
use esim_opensource_mcp.Quotes.Service.{superseded, cancel_each, at_limit, supersede_and_save_lem}
use esim_opensource_mcp.Purchase.Service.{QuoteSettings}
use esim_opensource_mcp.Topup.{EsimTopupQuote, EsimTopupTerms}
use esim_opensource_mcp.Topup.Quotes.{
  create_esim, cancel_esim, consume_esim, get_esim_record, same_topup, new_quote,
}
use esim_opensource_mcp.Topup.Execution.{EsimTopupExecution}
use esim_opensource_mcp.Topup.Execution.Acquire.{kept, lookup-invalidate, invalidate-IsUnique}
use esim_opensource_mcp.World.{World}
use esim_opensource_mcp.World.Manager.{notify_invalidated}
use esim_opensource_mcp.EsimTopup.Confirm.Protocol.{create_in, cancel_in, SameTopups, times_sent}
use esim_opensource_mcp.EsimTopup.Confirm.Protocol.Invariant.{Good, At, At-Ages, Hold, free, taken}

-- Without its execution a quote that is dead keeps its part of the invariant.
At-forget :
    (id : String) (q : EsimTopupQuote) (oe : Option EsimTopupExecution) (h : Hold) (n : ℕ)
    → ¬ IsLive q
    → At id (some q) oe h n
    → At id (some q) none h n
At-forget id q oe free n dead a = (a.0, tt, ((λ live. absurd (dead live)), a.2.1))
At-forget id q oe (taken k m c) n dead a =
    (a.0, tt, (a.2.0, a.2.1, a.2.2, a.2.3, a.2.4, a.2.5, λ live. absurd (dead live)))

cancel_if_dead :
    (sk : String) (q : EsimTopupQuote) → q.owner_session_key ≡ sk → ¬ IsLive (cancel_if sk q)
cancel_if_dead sk q e = ground (arith, eq_iff q.owner_session_key sk)

-- A session that ends drops the execution of a quote only with the life of the quote.
At-kept :
    (sk id : String) (oq : Option EsimTopupQuote) (oe : Option EsimTopupExecution) (h : Hold)
    (n : ℕ)
    → At id oq oe h n
    → At id (Option.map (cancel_if sk) oq) (kept sk oe) h n
At-kept sk id none none h n a = a
At-kept sk id none (some e) h n a = ground arith
At-kept sk id (some q) none h n a =
    At-Ages id (some q) (some (cancel_if sk q)) none h n (Ages-cancel_if sk (some q)) a
At-kept sk id (some q) (some e) h n a =
    let aged =
      At-Ages id (some q) (some (cancel_if sk q)) (some e) h n (Ages-cancel_if sk (some q)) a in
    elim (Bool-cases (e.owner_session_key == sk)) [
      | inl same ↦ rw same (
          At-forget id (cancel_if sk q) (some e) h n
            (cancel_if_dead sk q (sym a.1.1 ∙ (eq_iff e.owner_session_key sk).0 same)) aged)
      | inr other ↦ rw other aged
    ]

At-new :
    (id : String) (q : EsimTopupQuote) (oq : Option EsimTopupQuote) (oe : Option EsimTopupExecution)
    (h : Hold) (n : ℕ)
    → oq ≡ none
    → q.quote_id ≡ id
    → At id oq oe h n
    → At id (some q) oe h n
At-new id q none oe h n m e a = rw (a.0, a.1, a.2) (e, tt, ((λ live. refl), omega arith))
At-new id q (some p) oe h n m e a = cc

module _ (w : World) (locks : String → Hold) (g : Good w locks) where
  pub notify_invalidated-Good : (sk : String) → Good (notify_invalidated sk w) locks
  unfolding notify_invalidated
  notify_invalidated-Good sk = record {
    unique = invalidate-IsUnique sk w.esim_executions g.unique;
    each = λ id.
        rw
          (
            StoreLaws.lookup-invalidate sk id w.esim_quotes,
            lookup-invalidate sk id w.esim_executions g.unique,
          )
          (At-kept sk id (lookup id w.esim_quotes) (lookup id w.esim_executions) (locks id)
            (times_sent id w.topups_sent) (g.each id));
  }

  -- quotes that only grow older
  aged-Good :
      (d : Dict EsimTopupQuote)
      → ((id : String) → Ages (lookup id w.esim_quotes) (lookup id d))
      → Good (record w { esim_quotes = d }) locks
  aged-Good d ages = record {
    unique = g.unique;
    each = λ id.
        At-Ages id (lookup id w.esim_quotes) (lookup id d) (lookup id w.esim_executions) (locks id)
          (times_sent id w.topups_sent) (ages id) (g.each id);
  }

  pub cancel_in-Good :
      (owner : QuoteOwner) (id : String) (moment : ℕ) → Good (cancel_in owner id moment w) locks
  unfolding cancel_esim
  cancel_in-Good owner id moment = aged-Good (cancel_in owner id moment w).esim_quotes (λ j.
      Ages-cancel_read _ owner id j moment (get_esim_record owner id w.esim_quotes) w.esim_quotes)

  pub consumed-Good :
      (owner : QuoteOwner) (id : String)
      → Good (record w { esim_quotes = (consume_esim owner id w.esim_quotes).1 }) locks
  unfolding consume_esim
  consumed-Good owner id =
      aged-Good (consume_esim owner id w.esim_quotes).1
        (λ j. Ages-consume_read _ owner id j (get_esim_record owner id w.esim_quotes) w.esim_quotes)

  pub elsewhere-Good : (v : World) → SameTopups w v → Good v locks
  elsewhere-Good v s = record {
    unique = rw s.1 g.unique;
    each = λ id. rw (s.0, s.1, s.2) (g.each id);
  }

  -- A quote under a new id has no execution, no lock and no send behind it.
  new_quote-At :
      (d : Dict EsimTopupQuote) (q : EsimTopupQuote) (id : String)
      → ((j : String) → Ages (lookup j w.esim_quotes) (lookup j d))
      → lookup q.quote_id w.esim_quotes ≡ none
      → At id
          (lookup id (Store.save q d))
          (lookup id w.esim_executions)
          (locks id)
          (times_sent id w.topups_sent)
  new_quote-At d q id ages new = elim (Bool-cases (q.quote_id == id)) [
    | inl here ↦
        rw (lookup-save, here)
          (let e = (eq_iff q.quote_id id).0 here in
            At-new id q (lookup id w.esim_quotes) (lookup id w.esim_executions) (locks id)
              (times_sent id w.topups_sent)
              (ap (λ (j : String). lookup j w.esim_quotes) (sym e) ∙ new) e (g.each id))
    | inr there ↦
        rw (lookup-save, there)
          (At-Ages id (lookup id w.esim_quotes) (lookup id d) (lookup id w.esim_executions)
            (locks id) (times_sent id w.topups_sent) (ages id) (g.each id))
  ]

  saved-Good :
      (d : Dict EsimTopupQuote) (q : EsimTopupQuote)
      → ((j : String) → Ages (lookup j w.esim_quotes) (lookup j d))
      → lookup q.quote_id w.esim_quotes ≡ none
      → Good (record w { esim_quotes = Store.save q d }) locks
  saved-Good d q ages new = record { unique = g.unique; each = λ id. new_quote-At d q id ages new }

  pub create_in-Good :
      (settings : QuoteSettings) (owner : QuoteOwner) (id source : String) (terms : EsimTopupTerms)
      (locale : String) (moment : ℕ)
      → lookup id w.esim_quotes ≡ none
      → Good (create_in settings owner id source terms locale moment w) locks
  unfolding create_esim
  create_in-Good settings owner id source terms locale moment new =
      let old = superseded (same_topup terms) owner moment w.esim_quotes in
      let left = cancel_each owner old w.esim_quotes in
      let quote = new_quote settings owner id source terms locale moment in
      let ages : (j : String) → Ages (lookup j w.esim_quotes) (lookup j left) =
        λ j. Ages-cancel_each owner j old w.esim_quotes in
      rw supersede_and_save_lem
        (elim (Bool-cases (
          at_limit (same_topup terms) owner settings.max_active_quotes_per_user moment
            w.esim_quotes)) [
              | inl full ↦ rw full (aged-Good left ages)
              | inr room ↦ rw room (saved-Good left quote ages new)
            ])
