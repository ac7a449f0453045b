-- ===== src/EsimTopup/Confirm/Protocol/Parts.antt =====
-- The four parts of a call of `confirm_esim_topup` keep the invariant.
use esim_opensource_mcp.Prelude.{
  ℕ, String, Option, none, some, Dict, lookup, ◌≡◌, arith, eq_refl, refl, inl, inr, Option-cases,
  sym, subst, ◌∙◌,
}
use esim_opensource_mcp.Errors.{Result, ok, err}
use esim_opensource_mcp.Owner.{QuoteOwner}
use esim_opensource_mcp.Selection.{BackendEsim}
use esim_opensource_mcp.Session.{UserSession, AuthAnswer}
use esim_opensource_mcp.Quotes
use esim_opensource_mcp.Quotes.Ageing.{IsLive}
use esim_opensource_mcp.Topup.{EsimTopupQuote, require_usable_topup_quote}
use esim_opensource_mcp.Topup.Quotes.{get_esim_record}
use esim_opensource_mcp.Topup.Quotes.Laws.{get_esim_record-ok}
use esim_opensource_mcp.Topup.Execution.{
  EsimTopupExecution, acquire, attempted, new_execution, record_attempt, require_never_attempted,
  was_sent,
}
use esim_opensource_mcp.Topup.Execution.Acquire.{acquire_stored, acquire_fresh, lookup-save}
use esim_opensource_mcp.World.{World}
use esim_opensource_mcp.World.Manager.{
  RefreshPlan, no_session, current, rotate, ensure_fresh_plan, refresh_finish, notify_invalidated,
  delete_session, save_session, rotated,
}
use esim_opensource_mcp.EsimTopup.Confirm.{
  Call, Stage, done, revalidating, refreshing, sending, Confirmed, TopupConfirmation, begin, gates,
  gated, unless_replayed, with_quote, replay_if_attempted, execute, execute_topup, post, body_of,
  by_plan, after_reads, continue_refreshed, require_wallet_quote, require_confirmed_amount,
}
use esim_opensource_mcp.EsimTopup.Confirm.Protocol.{times_sent}
use esim_opensource_mcp.EsimTopup.Confirm.Protocol.Invariant.{Good, At, Hold, free, taken}
use esim_opensource_mcp.EsimTopup.Confirm.Protocol.Records.{notify_invalidated-Good, elsewhere-Good}
use esim_opensource_mcp.EsimTopup.Confirm.Protocol.Locks.{
  over, save_in, counted_call, At-reading, At-counted, taken-quote, lock-Good, save-Good, send-Good,
  over_again, over_same, release-Good,
}

-- What the lock is when a part of the call is over.
abbrev pub lock_of : Stage → Hold
lock_of (done r) = free
lock_of (revalidating c) = taken 0 0 c
lock_of (refreshing c s) = taken 0 1 c
lock_of (sending c) = taken 1 1 c

abbrev pub Reached : String → (String → Hold) → Stage × World → Type 0
Reached k locks (stage, w) = Good w (over k (lock_of stage) locks)

-- The gates let a call through only while the quote is usable and was never sent.
gates-ok :
    (given : Confirmed) (q : EsimTopupQuote) (e x : EsimTopupExecution)
    → gates given q e ≡ ok x
    → IsLive q × (e.attempts ≡ 0)
unfolding gates require_usable_topup_quote require_wallet_quote require_confirmed_amount
    require_never_attempted was_sent Quotes.effective_status
gates-ok given q e x h = ground arith

At-cast :
    (id : String) (oq op : Option EsimTopupQuote) (oe of : Option EsimTopupExecution) (h i : Hold)
    (n : ℕ)
    → oq ≡ op
    → oe ≡ of
    → h ≡ i
    → At id oq oe h n
    → At id op of i n
At-cast id oq op oe of h i n p q r a = rw⁻¹ (p, q, r) a

module _ (w : World) (locks : String → Hold) (k : String) where
  post-Good :
      (c : Call) (s : UserSession) (b : Result (String × String))
      → locks k ≡ taken 0 1 c
      → Good w locks
      → Reached k locks (post c s w b)
  post-Good c s (err e) l g = release-Good w k locks g
  post-Good c s (ok (reference, bundle)) l g = send-Good w locks k c s reference bundle l g

  execute_topup-Good :
      (c : Call) (s : UserSession)
      → locks k ≡ taken 0 1 c
      → Good w locks
      → Reached k locks (execute_topup c s w)
  unfolding execute_topup
  execute_topup-Good c s l g = post-Good c s (body_of c.quote) l g

  -- Once the attempt is counted, every plan for the tokens leaves a good state.
  by_plan-Good :
      (c : Call) (plan : RefreshPlan)
      → locks k ≡ taken 0 1 c
      → Good w locks
      → Reached k locks (by_plan c w plan)
  by_plan-Good c no_session l g = release-Good w k locks g
  by_plan-Good c (current s) l g = execute_topup-Good c s l g
  by_plan-Good c (rotate s) l g =
      lock-Good w locks k (taken 0 1 c)
        (subst
          (λ h.
            At k (lookup k w.esim_quotes) (lookup k w.esim_executions) h
              (times_sent k w.topups_sent))
          l (g.each k))
        g

module _ (w : World) (locks : String → Hold) (k : String) where
  Reached-again : (h : Hold) (p : Stage × World) → Reached k (over k h locks) p → Reached k locks p
  Reached-again h (stage, v) g = over_again v k (lock_of stage) h locks g

  execute-Good :
      (window now : ℕ) (c : Call)
      → locks k ≡ taken 0 0 c
      → Good w locks
      → Reached k locks (execute window now c w)
  unfolding execute record_attempt
  execute-Good window now c l g =
      let a =
        subst
          (λ h.
            At k (lookup k w.esim_quotes) (lookup k w.esim_executions) h
              (times_sent k w.topups_sent))
          l (g.each k) in
      let e = attempted c.execution in
      let h = taken 0 1 (counted_call c) in
      let w1 = save_in e w in
      let g1 = save-Good w locks k e h (taken-quote k _ _ _ 0 0 c a).1 (At-counted k _ _ _ c a) g in
      let plan = ensure_fresh_plan window now c.owner.session_key w1 in
      Reached-again h (by_plan (counted_call c) w1 plan)
        (by_plan-Good w1 (over k h locks) k (counted_call c) plan (rw (eq_refl k) refl) g1)

  pub after_reads-Good :
      (window now : ℕ) (c : Call) (target : Result BackendEsim)
      → locks k ≡ taken 0 0 c
      → Good w locks
      → Reached k locks (after_reads window now c target w)
  unfolding after_reads
  after_reads-Good window now c (err e) l g = release-Good w k locks g
  after_reads-Good window now c (ok target) l g = execute-Good window now c l g

  gated-Good :
      (given : Confirmed) (c : Call) (r : Result EsimTopupExecution)
      → gates given c.quote c.execution ≡ r
      → lookup k w.esim_quotes ≡ some c.quote
      → lookup k w.esim_executions ≡ some c.execution
      → locks k ≡ free
      → Good w locks
      → Reached k locks (gated c w r)
  gated-Good given c (err x) h q e l g = release-Good w k locks g
  gated-Good given c (ok x) h q e l g =
      let (live, few) = gates-ok given c.quote c.execution x h in
      let a = At-cast k _ (some c.quote) _ (some c.execution) _ free _ q e l (g.each k) in
      let b = At-reading k c.quote c.execution _ c live few refl refl a in
      lock-Good w locks k (taken 0 0 c)
        (At-cast k (some c.quote) _ (some c.execution) _ _ _ _ (sym q) (sym e) refl b) g

  unless_replayed-Good :
      (given : Confirmed) (c : Call) (r : Option (Result TopupConfirmation))
      → lookup k w.esim_quotes ≡ some c.quote
      → lookup k w.esim_executions ≡ some c.execution
      → locks k ≡ free
      → Good w locks
      → Reached k locks (unless_replayed given c w r)
  unless_replayed-Good given c (some r) q e l g = release-Good w k locks g
  unless_replayed-Good given c none q e l g =
      gated-Good given c (gates given c.quote c.execution) refl q e l g

  -- The execution of a stored quote is acquired: the stored one, or a new one without attempts.
  abbrev Acquired : EsimTopupExecution × Dict EsimTopupExecution → Type 0
  Acquired (e, d) = Good (record w { esim_executions = d }) locks × (lookup k d ≡ some e)

  new-At :
      (q : EsimTopupQuote) (owner : QuoteOwner) (n : ℕ)
      → owner.session_key ≡ q.owner_session_key
      → owner.user_ref ≡ q.owner_user_ref
      → At k (some q) none free n
      → At k (some q) (some (new_execution owner k)) free n
  new-At q owner n s u a = (a.0, (sym a.0, s, u), ((λ live. omega (arith, a.2.0 live)), a.2.1))

  acquire-Good :
      (owner : QuoteOwner) (q : EsimTopupQuote)
      → get_esim_record owner k w.esim_quotes ≡ ok q
      → locks k ≡ free
      → Good w locks
      → Acquired (acquire owner k w.esim_executions)
  acquire-Good owner q h l g =
      let (stored, same_session, same_user, named) = get_esim_record-ok owner k w.esim_quotes q h in
      let new = new_execution owner k in
      elim (Option-cases (lookup k w.esim_executions)) [
        | inl empty ↦ rw (acquire_fresh owner k w.esim_executions empty) (
            let a = At-cast k _ (some q) _ none _ free _ stored empty l (g.each k) in
            let b =
              At-cast k (some q) _ (some new) _ free _ _ (sym stored) refl refl
                (new-At q owner _ same_session same_user a) in
            (
              over_same (save_in new w) k free locks l (save-Good w locks k new free refl b g),
              rw (lookup-save new k w.esim_executions, eq_refl k) refl,
            ))
        | inr (e, there) ↦
            let a = At-cast k _ (some q) _ (some e) _ free _ stored there l (g.each k) in
            rw
              (acquire_stored owner k w.esim_executions e named there (same_session ∙ sym a.1.1)
                (same_user ∙ sym a.1.2))
              (g, there)
      ]

module _ (w : World) (locks : String → Hold) (k : String) where
  with_quote-Good :
      (given : Confirmed) (owner : QuoteOwner) (r : Result EsimTopupQuote)
      → get_esim_record owner k w.esim_quotes ≡ r
      → locks k ≡ free
      → Good w locks
      → Reached k locks (with_quote given owner k w r)
  with_quote-Good given owner (err x) h l g = release-Good w k locks g
  with_quote-Good given owner (ok q) h l g =
      let (g1, there) = acquire-Good w locks k owner q h l g in
      let (e, d) = acquire owner k w.esim_executions in
      let c : Call = record {
        quote = q;
        execution = e;
        owner = owner;
        device_id = given.device_id;
      } in
      unless_replayed-Good (record w { esim_executions = d }) locks k given c
        (replay_if_attempted e) (get_esim_record-ok owner k w.esim_quotes q h).0 there l g1

  pub begin-Good :
      (given : Confirmed) (owner : QuoteOwner)
      → locks k ≡ free
      → Good w locks
      → Reached k locks (begin given owner k w)
  unfolding begin
  begin-Good given owner l g =
      with_quote-Good given owner (get_esim_record owner k w.esim_quotes) refl l g

  session_lost :
      (sk : String) → Good w locks → Good (notify_invalidated sk (delete_session sk w)) locks
  unfolding delete_session
  session_lost sk g =
      notify_invalidated-Good (delete_session sk w) locks
        (elsewhere-Good w locks g (delete_session sk w) (refl, refl, refl)) sk

  session_saved : (s : UserSession) → Good w locks → Good (save_session s w) locks
  unfolding save_session
  session_saved s g = elsewhere-Good w locks g (save_session s w) (refl, refl, refl)

  pub continue_refreshed-Good :
      (c : Call) (s : UserSession) (auth : Option AuthAnswer)
      → locks k ≡ taken 0 1 c
      → Good w locks
      → Reached k locks (continue_refreshed c s auth w)
  unfolding continue_refreshed refresh_finish
  continue_refreshed-Good c s none l g =
      let sk = c.owner.session_key in
      release-Good (notify_invalidated sk (delete_session sk w)) k locks (session_lost sk g)
  continue_refreshed-Good c s (some auth) l g =
      let s1 = rotated auth s in
      execute_topup-Good (save_session s1 w) locks k c s1 l (session_saved s1 g)
