-- ===== src/EsimTopup/Confirm/Sends/Whole.antt =====
-- The parts of `confirm_esim_topup` put together: what the whole call has sent when it ends.
use esim_opensource_mcp.Prelude.{
  String, Bool, true, false, Option, none, some, ◌∷◌, Dict, ◌≡◌, ◌⊎◌, refl, subst, sym, ◌∙◌,
  Bool-cases, inl, inr, if◌then◌else◌,
}
use esim_opensource_mcp.Errors.{McpError, Result, ok, err, plain, esim_topup_execution_unavailable}
use esim_opensource_mcp.Owner.{QuoteOwner}
use esim_opensource_mcp.Selection.{BackendEsim}
use esim_opensource_mcp.Backend.{
  Answer, timed_out, unreachable, answered, BackendOutcome, is_success, outcome_of, outcome_data,
  outcome_hint, effective_status,
}
use esim_opensource_mcp.Topup.{EsimTopupQuote}
use esim_opensource_mcp.Topup.Quotes.{get_esim_record, consume_esim}
use esim_opensource_mcp.Topup.Execution.{mark_succeeded, acquire}
use esim_opensource_mcp.World.{World, TopupRequest}
use esim_opensource_mcp.Confirm.{owner_of}
use esim_opensource_mcp.EsimTopup.Reads.Silent.{revalidate-Silent}
use esim_opensource_mcp.EsimTopup.Revalidate.{revalidate}
use esim_opensource_mcp.EsimTopup.Revalidate.Agreed.{Agreed, revalidate-Agreed}
use esim_opensource_mcp.EsimTopup.Failure.{
  BackendLegacyTopupResult, confirmed, parse_legacy_topup_result, classify_topup_failure,
}
use esim_opensource_mcp.EsimTopup.Confirm.{
  Call, Stage, done, revalidating, refreshing, sending, TopupConfirmation, begin, after_reads,
  continue_refreshed, execution_enabled,
}
use esim_opensource_mcp.EsimTopup.Confirm.Finish.{
  finish, on_outcome, on_success, on_failure, complete, consumed, leave_unresolved,
  completed_result, Surroundings, finished, refreshed, executed, revalidated, with_reference,
  with_owner, confirm_esim_topup, require_quote_id,
}
use esim_opensource_mcp.EsimTopup.Confirm.Sends.{
  Passed, acquired_in, IsFor, Same, Added, FromBegin, FromReads, FromRefresh, begin-FromBegin,
  after_reads-FromReads, continue_refreshed-FromRefresh,
}

consumed-Same :
    (receipt : TopupConfirmation) (w : World) (r : Result EsimTopupQuote) (d : Dict EsimTopupQuote)
    → Same w (consumed receipt w (r, d)).1
consumed-Same receipt w (err e) d = refl
consumed-Same receipt w (ok q) d = refl

on_success-Same :
    (c : Call) (r : Option BackendLegacyTopupResult) (w : World) → Same w (on_success c r w).1
unfolding on_success leave_unresolved complete
on_success-Same c none w = refl
on_success-Same c (some r) w = elim (Bool-cases (confirmed r)) [
  | inl good ↦ rw good (
      let w1 : World = record w {
        esim_executions = mark_succeeded c.execution (completed_result c.quote r) w.esim_executions;
      } in
      let end = consume_esim c.owner c.quote.quote_id w.esim_quotes in
      consumed-Same _ w1 end.0 end.1)
  | inr bad ↦ rw bad refl
]

on_failure-Same :
    (c : Call) (e : McpError) (uncharged : Bool) (w : World)
    → Same w (on_failure c (e, uncharged) w).1
unfolding on_failure leave_unresolved
on_failure-Same c e true w = refl
on_failure-Same c e false w = refl

on_outcome-Same :
    (c : Call) (o : BackendOutcome BackendLegacyTopupResult) (w : World)
    → Same w (on_outcome c o w).1
unfolding on_outcome
on_outcome-Same c o w =
    let failure = classify_topup_failure (effective_status o) (outcome_hint o) o.parsed in
    elim (Bool-cases (is_success o)) [
      | inl good ↦ rw good (on_success-Same c (parse_legacy_topup_result (outcome_data o)) w)
      | inr bad ↦ rw bad (on_failure-Same c failure.0 failure.1 w)
    ]

finish-Same : (c : Call) (a : Answer BackendLegacyTopupResult) (w : World) → Same w (finish c a w).1
unfolding finish leave_unresolved
finish-Same c timed_out w = refl
finish-Same c unreachable w = refl
finish-Same c (answered r) w = on_outcome-Same c (outcome_of r) w

-- A part of a call that starts from `w` and ends in `v` has sent nothing, or the top-up of `q`.
abbrev Sent : World → EsimTopupQuote → World → Type 0
Sent w q v = Same w v ⊎ Added w q v

module _ (s : Surroundings) (w : World) (q : EsimTopupQuote) where
  finished-Sent : (p : Stage × World) → FromRefresh w q p → Sent w q (finished s p).1
  finished-Sent (done r, v) h = inl h
  finished-Sent (revalidating c, v) h = absurd h
  finished-Sent (refreshing c session, v) h = absurd h
  finished-Sent (sending c, v) (r, t, f) = inr (r, finish-Same c s.answer v ∙ t, f)

  refreshed-Sent : (p : Stage × World) → FromReads w q p → Sent w q (refreshed s p).1
  refreshed-Sent (done r, v) h = inl h
  refreshed-Sent (revalidating c, v) h = absurd h
  refreshed-Sent (refreshing c session, v) (h, same) =
      finished-Sent (continue_refreshed c session s.auth v) (
        subst (λ x. FromRefresh w x (continue_refreshed c session s.auth v)) same
          (continue_refreshed-FromRefresh w v c session s.auth h))
  refreshed-Sent (sending c, v) h = finished-Sent (sending c, v) h

-- A call that sends: this deployment may carry top-ups out, the quote is the caller's own, the gates
-- were passed with the execution that is stored for the caller under the reference, or a new one
-- where there is none, and the reads that follow agreed to the quote.
abbrev pub Checked : Surroundings → World → EsimTopupQuote → Type 0
Checked s w q =
    (execution_enabled s.enabled s.is_production ≡ true)
    × ((owner : QuoteOwner) × (reference : String) × (target : BackendEsim) × (owner_of s.digest
            s.platform.session_key w
          ≡ ok owner)
        × (get_esim_record owner reference w.esim_quotes ≡ ok q)
        × Passed s.given q (acquire owner reference w.esim_executions).0
        × Agreed s.platform q (acquired_in owner reference w) target)

abbrev pub SentChecked : Surroundings → World → World → Type 0
SentChecked s w v =
    (v.topups_sent ≡ w.topups_sent)
    ⊎ ((q : EsimTopupQuote) × (r : TopupRequest) × (v.topups_sent ≡ r ∷ w.topups_sent)
        × IsFor q r
        × Checked s w q)

-- A quote that the caller has under a reference.
abbrev Found : Surroundings → QuoteOwner → String → World → EsimTopupQuote → Type 0
Found s owner reference w q =
    (owner_of s.digest s.platform.session_key w ≡ ok owner)
    × (get_esim_record owner reference w.esim_quotes ≡ ok q)

Checked-Sent :
    (s : Surroundings) (w v : World) (q : EsimTopupQuote)
    → Checked s w q
    → Sent w q v
    → SentChecked s w v
Checked-Sent s w v q k (inl h) = inl h
Checked-Sent s w v q k (inr (r, t, f)) = inr (q, r, t, f, k)

module _ (s : Surroundings) (w : World)
    (enabled : execution_enabled s.enabled s.is_production ≡ true) where
  executed-SentChecked :
      (owner : QuoteOwner) (reference : String) (c : Call) (p : Result BackendEsim × World)
      → Found s owner reference w c.quote
      → Passed s.given c.quote (acquire owner reference w.esim_executions).0
      → Same w p.1
      → revalidate s.platform c.quote (acquired_in owner reference w) ≡ p
      → SentChecked s w (executed s c p).1
  unfolding after_reads
  executed-SentChecked owner reference c (err e, u) f g h r = inl h
  executed-SentChecked owner reference c (ok target, u) f g h r =
      let v = acquired_in owner reference w in
      Checked-Sent s w (executed s c (ok target, u)).1 c.quote
        (
          enabled,
          (
            owner,
            reference,
            target,
            f.0,
            f.1,
            g,
            revalidate-Agreed s.platform c.quote v u target r,
          ),
        )
        (refreshed-Sent s w c.quote (after_reads s.platform.window s.platform.now c (ok target) u)
          (after_reads-FromReads s.platform.window s.platform.now w u c (ok target) h))

  revalidated-SentChecked :
      (owner : QuoteOwner) (reference : String) (p : Stage × World)
      → owner_of s.digest s.platform.session_key w ≡ ok owner
      → FromBegin s.given owner reference w p
      → SentChecked s w (revalidated s p).1
  revalidated-SentChecked owner reference (done r, v) o h = inl h
  revalidated-SentChecked owner reference (refreshing c session, v) o h = absurd h
  revalidated-SentChecked owner reference (sending c, v) o h = absurd h
  revalidated-SentChecked owner reference (revalidating c, v) o (h, f, g) =
      subst (λ u. SentChecked s w (executed s c (revalidate s.platform c.quote u)).1) (sym h)
        (executed-SentChecked owner reference c
          (revalidate s.platform c.quote (acquired_in owner reference w)) (o, f) g
          (revalidate-Silent s.platform c.quote (acquired_in owner reference w)) refl)

  with_reference-SentChecked :
      (owner : QuoteOwner) (r : Result String)
      → owner_of s.digest s.platform.session_key w ≡ ok owner
      → SentChecked s w (with_reference s owner w r).1
  with_reference-SentChecked owner (err e) h = inl refl
  with_reference-SentChecked owner (ok reference) h =
      revalidated-SentChecked owner reference (begin s.given owner reference w) h
        (begin-FromBegin s.given owner reference w)

  with_owner-SentChecked :
      (quote_id : String) (o : Result QuoteOwner)
      → owner_of s.digest s.platform.session_key w ≡ o
      → SentChecked s w (with_owner s quote_id w o).1
  with_owner-SentChecked quote_id (err e) h = inl refl
  with_owner-SentChecked quote_id (ok owner) h =
      with_reference-SentChecked owner (require_quote_id quote_id) h

flag-SentChecked :
    (s : Surroundings) (quote_id : String) (w : World) (b : Bool)
    → execution_enabled s.enabled s.is_production ≡ b
    → SentChecked s w
        (if b
          then with_owner s quote_id w (owner_of s.digest s.platform.session_key w)
          else (err (plain esim_topup_execution_unavailable), w)).1
flag-SentChecked s quote_id w true e =
    with_owner-SentChecked s w e quote_id (owner_of s.digest s.platform.session_key w) refl
flag-SentChecked s quote_id w false e = inl refl

-- One call of the tool sends nothing, or one request in all. If it sends, top-ups are enabled here
-- and this is not production; the request is that of a quote of the caller's own that was usable,
-- paid from the wallet and read back with its exact amount, and the execution that was stored for it
-- before the call, if there was one, was never sent; and the reads that follow the start of the call
-- agreed to the quote.
pub confirm_esim_topup-SentChecked :
    (s : Surroundings) (quote_id : String) (w : World)
    → SentChecked s w (confirm_esim_topup s quote_id w).1
unfolding confirm_esim_topup
confirm_esim_topup-SentChecked s quote_id w =
    flag-SentChecked s quote_id w (execution_enabled s.enabled s.is_production) refl
