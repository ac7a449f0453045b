-- ===== src/Confirm/Protocol/Begin.antt =====
-- `begin` and `continue_refreshed`: the part of a call that takes the lock, counts the attempt and
-- sends the purchase.
use esim_opensource_mcp.Prelude.{
  ℕ, ◌<◌, String, Option, none, some, List, Dict, lookup, ◌≡◌, arith, eq_refl, refl, inl, inr,
  Option-cases, sym, ◌∙◌,
}
use esim_opensource_mcp.Errors.{Result, ok, err}
use esim_opensource_mcp.Owner.{QuoteOwner}
use esim_opensource_mcp.Session.{UserSession}
use esim_opensource_mcp.Quotes.{effective_status}
use esim_opensource_mcp.Quotes.Ageing.{IsLive}
use esim_opensource_mcp.Purchase.{PurchaseQuote, require_usable_quote}
use esim_opensource_mcp.Purchase.Service.{get_record}
use esim_opensource_mcp.Purchase.Service.Laws.{get_record-ok}
use esim_opensource_mcp.Purchase.Execution.{
  PurchaseExecution, acquire, attempted, max_execution_attempts, new_execution,
  require_confirmable_quote, require_attempts_remaining, record_attempt,
}
use esim_opensource_mcp.Purchase.Execution.Laws.{acquire_stored, acquire_fresh, lookup-save}
use esim_opensource_mcp.World.{World}
use esim_opensource_mcp.World.Manager.{RefreshPlan, no_session, current, rotate, ensure_fresh_plan}
use esim_opensource_mcp.Confirm.{
  Call, Stage, done, refreshing, purchasing, Confirmation, begin, execute, gates, by_plan, gated,
  unless_replayed, with_quote, replay_if_terminal, send,
}
use esim_opensource_mcp.Confirm.Protocol.{sent_keys}
use esim_opensource_mcp.Confirm.Protocol.Invariant.{Good, At, Hold, free, counted, sent_call}
use esim_opensource_mcp.Confirm.Protocol.Locks.{
  over, save_in, At-attempted, save-Good, send-Good, over_again, over_same, release-Good,
}

-- What the lock is when a part of the call is over.
abbrev pub lock_of : Stage → Hold
lock_of (done r) = free
lock_of (refreshing c s) = counted c
lock_of (purchasing c) = sent_call c

abbrev pub Reached : String → (String → Hold) → Stage × World → Type 0
Reached k locks (stage, w) = Good w (over k (lock_of stage) locks)

-- The three gates let a call through only while the quote is usable and attempts are left.
pub gates-ok :
    (q : PurchaseQuote) (e x : PurchaseExecution) (now : ℕ)
    → gates q e now ≡ ok x
    → IsLive q × (e.attempts < max_execution_attempts)
unfolding gates require_usable_quote require_confirmable_quote require_attempts_remaining
    effective_status
gates-ok q e x now h = ground arith

At-cast :
    (id : String) (oq op : Option PurchaseQuote) (oe of : Option PurchaseExecution) (h i : Hold)
    (keys : List String)
    → oq ≡ op
    → oe ≡ of
    → h ≡ i
    → At id oq oe h keys
    → At id op of i keys
At-cast id oq op oe of h i keys p q r a = rw⁻¹ (p, q, r) a

module _ (w : World) (locks : String → Hold) (k : String) where
  sent_after :
      (c : Call) (s : UserSession)
      → c.quote.quote_id ≡ k
      → Good w (over k (counted c) locks)
      → Good (send c s w) (over k (sent_call c) locks)
  sent_after c s e g =
      over_again (send c s w) k (sent_call c) (counted c) locks
        (send-Good w (over k (counted c) locks) k c s (rw (eq_refl k) refl) e g)

  released_after : (c : Call) → Good w (over k (counted c) locks) → Good w (over k free locks)
  released_after c g =
      over_again w k free (counted c) locks (release-Good w k (over k (counted c) locks) g)

  -- Once the attempt is counted, every plan for the tokens leaves a good state.
  by_plan-Good :
      (c : Call) (plan : RefreshPlan)
      → c.quote.quote_id ≡ k
      → Good w (over k (counted c) locks)
      → Reached k locks (by_plan c w plan)
  by_plan-Good c no_session e g = released_after c g
  by_plan-Good c (current s) e g = sent_after c s e g
  by_plan-Good c (rotate s) e g = g

module _ (w : World) (locks : String → Hold) (k : String) where
  execute-Good :
      (window now : ℕ) (c : Call)
      → lookup k w.quotes ≡ some c.quote
      → lookup k w.executions ≡ some c.execution
      → IsLive c.quote
      → c.execution.attempts < max_execution_attempts
      → locks k ≡ free
      → Good w locks
      → Reached k locks (execute window now c w)
  unfolding execute record_attempt
  execute-Good window now c q e live few l g =
      let c1 = record c { execution = attempted c.execution } in
      let w1 = save_in (attempted c.execution) w in
      let keys = sent_keys k w.sent in
      let a = At-cast k _ (some c.quote) _ (some c.execution) _ free keys q e l (g.each k) in
      let b = At-attempted k c.quote c.execution keys c1 live few refl refl a in
      let a1 =
        At-cast k (some c.quote) (lookup k w.quotes) (some (attempted c.execution)) _ (counted c1) _
          keys (sym q) refl refl b in
      let g1 = save-Good w locks k (attempted c.execution) (counted c1) (a.1.0 ∙ a.0) a1 g in
      by_plan-Good w1 locks k c1 (ensure_fresh_plan window now c.owner.session_key w1) a.0 g1

  gated-Good :
      (window now : ℕ) (c : Call) (r : Result PurchaseExecution)
      → gates c.quote c.execution now ≡ r
      → lookup k w.quotes ≡ some c.quote
      → lookup k w.executions ≡ some c.execution
      → locks k ≡ free
      → Good w locks
      → Reached k locks (gated window now c w r)
  gated-Good window now c (err x) h q e l g = release-Good w k locks g
  gated-Good window now c (ok x) h q e l g =
      let (live, few) = gates-ok c.quote c.execution x now h in
      execute-Good window now c q e live few l g

  unless_replayed-Good :
      (window now : ℕ) (c : Call) (r : Option (Result Confirmation))
      → lookup k w.quotes ≡ some c.quote
      → lookup k w.executions ≡ some c.execution
      → locks k ≡ free
      → Good w locks
      → Reached k locks (unless_replayed window now c w r)
  unless_replayed-Good window now c (some r) q e l g = release-Good w k locks g
  unless_replayed-Good window now c none q e l g =
      gated-Good window now c (gates c.quote c.execution now) refl q e l g

  -- The execution of a stored quote is acquired: the stored one, or a new one without attempts.
  abbrev Acquired : PurchaseExecution × Dict PurchaseExecution → Type 0
  Acquired (e, d) = Good (record w { executions = d }) locks × (lookup k d ≡ some e)

  new-At :
      (q : PurchaseQuote) (owner : QuoteOwner) (key : String) (keys : List String)
      → owner.session_key ≡ q.owner_session_key
      → owner.user_ref ≡ q.owner_user_ref
      → At k (some q) none free keys
      → At k (some q) (some (new_execution owner k key)) free keys
  new-At q owner key keys s u a =
      (a.0, (sym a.0, s, u), ((λ live. ground (arith, a.2.0 live)), a.2.1))

  acquire-Good :
      (owner : QuoteOwner) (key : String) (q : PurchaseQuote)
      → get_record owner k w.quotes ≡ ok q
      → locks k ≡ free
      → Good w locks
      → Acquired (acquire owner k key w.executions)
  acquire-Good owner key q h l g =
      let (stored, same_session, same_user, named) = get_record-ok owner k w.quotes q h in
      let keys = sent_keys k w.sent in
      let new = new_execution owner k key in
      elim (Option-cases (lookup k w.executions)) [
        | inl empty ↦ rw (acquire_fresh owner k key w.executions empty) (
            let a = At-cast k _ (some q) _ none _ free keys stored empty l (g.each k) in
            let b =
              At-cast k (some q) _ (some new) _ free _ keys (sym stored) refl refl
                (new-At q owner key keys same_session same_user a) in
            (
              over_same (save_in new w) k free locks l (save-Good w locks k new free refl b g),
              rw (lookup-save new k w.executions, eq_refl k) refl,
            ))
        | inr (e, there) ↦
            let a = At-cast k _ (some q) _ (some e) _ free keys stored there l (g.each k) in
            rw
              (acquire_stored owner k key w.executions e named there
                (a.1.1 ∙ sym same_session, a.1.2 ∙ sym same_user))
              (g, there)
      ]

module _ (w : World) (locks : String → Hold) (k : String) where
  with_quote-Good :
      (window now : ℕ) (device_id : String) (owner : QuoteOwner) (key : String)
      (r : Result PurchaseQuote)
      → get_record owner k w.quotes ≡ r
      → locks k ≡ free
      → Good w locks
      → Reached k locks (with_quote window now device_id owner k key w r)
  with_quote-Good window now device_id owner key (err x) h l g = release-Good w k locks g
  with_quote-Good window now device_id owner key (ok q) h l g =
      let (g1, there) = acquire-Good w locks k owner key q h l g in
      let (e, d) = acquire owner k key w.executions in
      let c : Call = record { quote = q; execution = e; owner = owner; device_id = device_id } in
      unless_replayed-Good (record w { executions = d }) locks k window now c (replay_if_terminal e)
        (get_record-ok owner k w.quotes q h).0 there l g1

  pub begin-Good :
      (window now : ℕ) (device_id : String) (owner : QuoteOwner) (key : String)
      → locks k ≡ free
      → Good w locks
      → Reached k locks (begin window now device_id owner k key w)
  unfolding begin
  begin-Good window now device_id owner key l g =
      with_quote-Good window now device_id owner key (get_record owner k w.quotes) refl l g
