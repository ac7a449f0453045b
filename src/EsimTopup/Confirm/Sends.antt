-- ===== src/EsimTopup/Confirm/Sends.antt =====
-- What one call of `confirm_esim_topup` sends, and what it checked before.
pub mod Whole
use esim_opensource_mcp.Prelude.{
  ℕ, String, Bool, true, false, Option, none, some, List, ◌∷◌, Dict, ◌==◌, ◌≡◌, ◌⊎◌, arith, refl,
  ap, subst, sym, ◌∙◌, Bool-cases, inl, inr, strip, eq_iff, if◌then◌else◌,
}
use esim_opensource_mcp.Errors.{Result, ok, err}
use esim_opensource_mcp.Owner.{QuoteOwner}
use esim_opensource_mcp.Selection.{BackendEsim}
use esim_opensource_mcp.Session.{UserSession, AuthAnswer}
use esim_opensource_mcp.Backend.{
  Answer, timed_out, unreachable, answered, BackendOutcome, is_success, outcome_of, outcome_data,
  outcome_hint, effective_status,
}
use esim_opensource_mcp.Quotes
use esim_opensource_mcp.Quotes.{is_usable}
use esim_opensource_mcp.Topup.{EsimTopupQuote, require_usable_topup_quote}
use esim_opensource_mcp.Topup.Quotes.{get_esim_record, consume_esim}
use esim_opensource_mcp.Topup.Execution.{
  EsimTopupExecution, acquire, record_attempt, mark_succeeded, require_never_attempted, was_sent,
}
use esim_opensource_mcp.World.{World, TopupRequest}
use esim_opensource_mcp.World.Manager.{
  RefreshPlan, no_session, current, rotate, ensure_fresh_plan, refresh_finish, notify_invalidated,
  save_session, delete_session, rotated,
}
use esim_opensource_mcp.Confirm.{owner_of}
use esim_opensource_mcp.EsimTopup.Target.{require_iccid, require_bundle_code}
use esim_opensource_mcp.EsimTopup.Reads.{Platform}
use esim_opensource_mcp.EsimTopup.Reads.Silent.{revalidate-Silent}
use esim_opensource_mcp.EsimTopup.Revalidate.{revalidate}
use esim_opensource_mcp.EsimTopup.Revalidate.Agreed.{Agreed, revalidate-Agreed}
use esim_opensource_mcp.EsimTopup.Failure.{
  BackendLegacyTopupResult, confirmed, parse_legacy_topup_result, classify_topup_failure,
}
use esim_opensource_mcp.EsimTopup.Confirm.{
  Call, Stage, done, revalidating, refreshing, sending, Confirmed, TopupConfirmation, begin, gates,
  gated, unless_replayed, with_quote, replay_if_attempted, execute, execute_topup, post, body_of,
  by_plan, topup_request, after_reads, after_refresh, continue_refreshed, require_wallet_quote,
  require_confirmed_amount, equals_amount, drop_commas, execution_enabled,
}
use esim_opensource_mcp.EsimTopup.Confirm.Finish.{
  finish, on_outcome, on_success, on_failure, complete, consumed, leave_unresolved,
  completed_result, Surroundings, finished, refreshed, executed, revalidated, with_reference,
  with_owner, confirm_esim_topup, require_quote_id,
}

-- What the gates have found: the quote is usable, is paid from the wallet, was read back with its
-- exact amount, and was never sent.
abbrev pub Passed : Confirmed → EsimTopupQuote → EsimTopupExecution → Type 0
Passed given q e =
    (is_usable q given.now ≡ true)
    × (q.terms.payment_method ≡ "Wallet")
    × (equals_amount (given.decimal (drop_commas (strip given.confirmed_amount)))
          q.terms.price.amount
        ≡ true)
    × (was_sent e ≡ false)

gates-Passed :
    (given : Confirmed) (q : EsimTopupQuote) (e x : EsimTopupExecution)
    → gates given q e ≡ ok x
    → Passed given q e
unfolding gates require_usable_topup_quote require_wallet_quote require_confirmed_amount
    require_never_attempted is_usable Quotes.effective_status
gates-Passed given q e x h = ground (arith, eq_iff q.terms.payment_method "Wallet")

-- The request is that of the quote.
abbrev pub IsFor : EsimTopupQuote → TopupRequest → Type 0
IsFor q r =
    (r.quote_reference ≡ q.quote_id)
    × (r.iccid ≡ strip q.terms.target.iccid)
    × (r.bundle_code ≡ strip q.terms.bundle.bundle_code)
    × (r.currency ≡ q.terms.price.currency)

abbrev pub Same : World → World → Type 0
Same w v = v.topups_sent ≡ w.topups_sent

abbrev pub Added : World → EsimTopupQuote → World → Type 0
Added w q v = (r : TopupRequest) × (v.topups_sent ≡ r ∷ w.topups_sent) × IsFor q r

-- The world after the execution of a reference was acquired.
abbrev pub acquired_in : QuoteOwner → String → World → World
acquired_in owner reference w = record w {
  esim_executions = (acquire owner reference w.esim_executions).1;
}

-- what each part of a call adds to the requests
abbrev pub FromBegin : Confirmed → QuoteOwner → String → World → Stage × World → Type 0
FromBegin given owner reference w (done r, v) = Same w v
FromBegin given owner reference w (revalidating c, v) =
    (v ≡ acquired_in owner reference w)
    × (get_esim_record owner reference w.esim_quotes ≡ ok c.quote)
    × Passed given c.quote (acquire owner reference w.esim_executions).0
FromBegin given owner reference w (_, v) = ⊥

abbrev pub FromReads : World → EsimTopupQuote → Stage × World → Type 0
FromReads w q (done r, v) = Same w v
FromReads w q (revalidating c, v) = ⊥
FromReads w q (refreshing c s, v) = Same w v × (c.quote ≡ q)
FromReads w q (sending c, v) = Added w q v

abbrev pub FromRefresh : World → EsimTopupQuote → Stage × World → Type 0
FromRefresh w q (done r, v) = Same w v
FromRefresh w q (sending c, v) = Added w q v
FromRefresh w q (_, v) = ⊥

abbrev Acquired : QuoteOwner → String → World → World → Call → Type 0
Acquired owner reference w v c =
    (v ≡ acquired_in owner reference w)
    × (c.execution ≡ (acquire owner reference w.esim_executions).0)

gated-FromBegin :
    (given : Confirmed) (owner : QuoteOwner) (reference : String) (w v : World) (c : Call)
    (r : Result EsimTopupExecution)
    → Acquired owner reference w v c
    → get_esim_record owner reference w.esim_quotes ≡ ok c.quote
    → gates given c.quote c.execution ≡ r
    → FromBegin given owner reference w (gated c v r)
gated-FromBegin given owner reference w v c (err e) a h g = ap (λ (u : World). u.topups_sent) a.0
gated-FromBegin given owner reference w v c (ok x) a h g =
    (a.0, h, subst (Passed given c.quote) a.1 (gates-Passed given c.quote c.execution x g))

unless_replayed-FromBegin :
    (given : Confirmed) (owner : QuoteOwner) (reference : String) (w v : World) (c : Call)
    (r : Option (Result TopupConfirmation))
    → Acquired owner reference w v c
    → get_esim_record owner reference w.esim_quotes ≡ ok c.quote
    → FromBegin given owner reference w (unless_replayed given c v r)
unless_replayed-FromBegin given owner reference w v c (some r) a h =
    ap (λ (u : World). u.topups_sent) a.0
unless_replayed-FromBegin given owner reference w v c none a h =
    gated-FromBegin given owner reference w v c (gates given c.quote c.execution) a h refl

with_quote-FromBegin :
    (given : Confirmed) (owner : QuoteOwner) (reference : String) (w : World)
    (r : Result EsimTopupQuote)
    → get_esim_record owner reference w.esim_quotes ≡ r
    → FromBegin given owner reference w (with_quote given owner reference w r)
with_quote-FromBegin given owner reference w (err e) h = refl
with_quote-FromBegin given owner reference w (ok q) h =
    let e = (acquire owner reference w.esim_executions).0 in
    unless_replayed-FromBegin given owner reference w (acquired_in owner reference w)
      (record { quote = q; execution = e; owner = owner; device_id = given.device_id })
      (replay_if_attempted e) (refl, refl) h

pub begin-FromBegin :
    (given : Confirmed) (owner : QuoteOwner) (reference : String) (w : World)
    → FromBegin given owner reference w (begin given owner reference w)
unfolding begin
begin-FromBegin given owner reference w = with_quote-FromBegin given owner reference w _ refl

body_of-ok :
    (q : EsimTopupQuote) (reference bundle : String)
    → body_of q ≡ ok (reference, bundle)
    → (reference ≡ strip q.terms.target.iccid) × (bundle ≡ strip q.terms.bundle.bundle_code)
unfolding require_iccid require_bundle_code
body_of-ok q reference bundle h = ground arith

post-FromRefresh :
    (w v : World) (c : Call) (s : UserSession) (b : Result (String × String))
    → Same w v
    → body_of c.quote ≡ b
    → FromRefresh w c.quote (post c s v b)
post-FromRefresh w v c s (err e) h b = h
post-FromRefresh w v c s (ok (reference, bundle)) h b =
    let (i, j) = body_of-ok c.quote reference bundle b in
    let r = topup_request c s reference bundle in
    (r, ap (λ (t : List TopupRequest). r ∷ t) h, (refl, i, j, refl))

execute_topup-FromRefresh :
    (w v : World) (c : Call) (s : UserSession)
    → Same w v
    → FromRefresh w c.quote (execute_topup c s v)
unfolding execute_topup
execute_topup-FromRefresh w v c s h = post-FromRefresh w v c s (body_of c.quote) h refl

-- what awaits the platform after the rotation is also what awaits it without one
FromRefresh-FromReads :
    (w : World) (q : EsimTopupQuote) (p : Stage × World) → FromRefresh w q p → FromReads w q p
FromRefresh-FromReads w q (done r, v) h = h
FromRefresh-FromReads w q (revalidating c, v) h = h
FromRefresh-FromReads w q (refreshing c s, v) h = absurd h
FromRefresh-FromReads w q (sending c, v) h = h

by_plan-FromReads :
    (w v : World) (c : Call) (plan : RefreshPlan)
    → Same w v
    → FromReads w c.quote (by_plan c v plan)
by_plan-FromReads w v c no_session h = h
by_plan-FromReads w v c (current s) h =
    FromRefresh-FromReads w c.quote (execute_topup c s v) (execute_topup-FromRefresh w v c s h)
by_plan-FromReads w v c (rotate s) h = (h, refl)

pub after_reads-FromReads :
    (window now : ℕ) (w v : World) (c : Call) (r : Result BackendEsim)
    → Same w v
    → FromReads w c.quote (after_reads window now c r v)
unfolding after_reads execute
after_reads-FromReads window now w v c (err e) h = h
after_reads-FromReads window now w v c (ok target) h =
    let (e, executions) = record_attempt c.execution v.esim_executions in
    let v1 : World = record v { esim_executions = executions } in
    by_plan-FromReads w v1 (record c { execution = e })
      (ensure_fresh_plan window now c.owner.session_key v1) h

pub continue_refreshed-FromRefresh :
    (w v : World) (c : Call) (s : UserSession) (auth : Option AuthAnswer)
    → Same w v
    → FromRefresh w c.quote (continue_refreshed c s auth v)
unfolding continue_refreshed refresh_finish notify_invalidated delete_session save_session
continue_refreshed-FromRefresh w v c s none h = h
continue_refreshed-FromRefresh w v c s (some auth) h =
    execute_topup-FromRefresh w (save_session (rotated auth s) v) c (rotated auth s) h
