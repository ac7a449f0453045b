-- ===== src/Confirm/Sends.antt =====
-- What one call of `confirm_purchase` sends, and what a reported success rests on.
use esim_opensource_mcp.Prelude.{
  ℕ, ◌+◌, ◌≤◌, String, true, Option, none, some, Dict, length, if◌then◌else◌, ◌≡◌, arith, refl, ap,
  subst, Bool-cases, inl, inr,
}
use esim_opensource_mcp.Errors.{Result, ok, err}
use esim_opensource_mcp.Owner.{QuoteOwner}
use esim_opensource_mcp.Session.{UserSession, AuthAnswer}
use esim_opensource_mcp.Backend.{
  Answer, timed_out, unreachable, answered, BackendOutcome, is_success, outcome_of, outcome_data,
  outcome_hint, effective_status, Response,
}
use esim_opensource_mcp.Purchase.{PurchaseQuote}
use esim_opensource_mcp.Purchase.Service.{get_record, consume}
use esim_opensource_mcp.Purchase.Execution.{
  PurchaseExecution, acquire, record_attempt, mark_succeeded,
}
use esim_opensource_mcp.Purchase.Failure.{
  BackendPurchaseResult, is_completed, classify_failure, parse_purchase_result,
}
use esim_opensource_mcp.World.{World}
use esim_opensource_mcp.World.Manager.{
  RefreshPlan, no_session, current, rotate, ensure_fresh_plan, refresh_finish, notify_invalidated,
  save_session, delete_session,
}
use esim_opensource_mcp.Confirm.{
  Call, Stage, done, refreshing, purchasing, Confirmation, begin, execute, gates, by_plan, gated,
  unless_replayed, with_quote, replay_if_terminal, continue_refreshed, send, finish,
  leave_unresolved, complete, consumed, on_success, on_failure, on_outcome, Surroundings,
  confirm_purchase, owner_of, require_quote_reference, completed_result, finished, refreshed,
  with_reference, with_owner,
}

-- the requests that a part of a call leaves: one more where it goes on to await the purchase
abbrev SentBy : World → Stage × World → Type 0
SentBy w (purchasing c, v) = length v.sent ≡ length w.sent + 1
SentBy w (_, v) = v.sent ≡ w.sent

by_plan-sent : (c : Call) (w : World) (plan : RefreshPlan) → SentBy w (by_plan c w plan)
unfolding send
by_plan-sent c w no_session = refl
by_plan-sent c w (current s) = omega arith
by_plan-sent c w (rotate s) = refl

execute-sent : (window now : ℕ) (c : Call) (w : World) → SentBy w (execute window now c w)
unfolding execute
execute-sent window now c w =
    let (e, executions) = record_attempt c.execution w.executions in
    let w1 : World = record w { executions = executions } in
    by_plan-sent (record c { execution = e }) w1
      (ensure_fresh_plan window now c.owner.session_key w1)

gated-sent :
    (window now : ℕ) (c : Call) (w : World) (r : Result PurchaseExecution)
    → SentBy w (gated window now c w r)
gated-sent window now c w (err e) = refl
gated-sent window now c w (ok x) = execute-sent window now c w

unless_replayed-sent :
    (window now : ℕ) (c : Call) (w : World) (r : Option (Result Confirmation))
    → SentBy w (unless_replayed window now c w r)
unless_replayed-sent window now c w (some r) = refl
unless_replayed-sent window now c w none = gated-sent window now c w (gates c.quote c.execution now)

with_quote-sent :
    (window now : ℕ) (device_id : String) (owner : QuoteOwner) (reference key : String) (w : World)
    (r : Result PurchaseQuote)
    → SentBy w (with_quote window now device_id owner reference key w r)
with_quote-sent window now device_id owner reference key w (err e) = refl
with_quote-sent window now device_id owner reference key w (ok q) =
    let (e, executions) = acquire owner reference key w.executions in
    let w1 : World = record w { executions = executions } in
    let c : Call = record { quote = q; execution = e; owner = owner; device_id = device_id } in
    unless_replayed-sent window now c w1 (replay_if_terminal e)

begin-sent :
    (window now : ℕ) (device_id : String) (owner : QuoteOwner) (reference key : String) (w : World)
    → SentBy w (begin window now device_id owner reference key w)
unfolding begin
begin-sent window now device_id owner reference key w =
    with_quote-sent window now device_id owner reference key w (get_record owner reference w.quotes)

continue_refreshed-sent :
    (c : Call) (s : UserSession) (auth : Option AuthAnswer) (w : World)
    → SentBy w (continue_refreshed c s auth w)
unfolding continue_refreshed refresh_finish notify_invalidated delete_session save_session send
continue_refreshed-sent c s none w = refl
continue_refreshed-sent c s (some auth) w = omega arith

consumed-sent :
    (receipt : Confirmation) (w : World) (r : Result PurchaseQuote) (d : Dict PurchaseQuote)
    → (consumed receipt w (r, d)).1.sent ≡ w.sent
consumed-sent receipt w (err e) d = refl
consumed-sent receipt w (ok q) d = refl

on_success-sent :
    (c : Call) (r : Option BackendPurchaseResult) (w : World) → (on_success c r w).1.sent ≡ w.sent
unfolding on_success leave_unresolved complete
on_success-sent c none w = refl
on_success-sent c (some r) w = elim (Bool-cases (is_completed r)) [
  | inl good ↦ rw good (
      let w1 : World = record w {
        executions = mark_succeeded c.execution (completed_result c.quote r) w.executions;
      } in
      let end = consume c.owner c.quote.quote_id w.quotes in consumed-sent _ w1 end.0 end.1)
  | inr bad ↦ rw bad refl
]

on_outcome-sent :
    (c : Call) (o : BackendOutcome BackendPurchaseResult) (w : World)
    → (on_outcome c o w).1.sent ≡ w.sent
unfolding on_outcome on_failure
on_outcome-sent c o w = ground (arith, on_success-sent c (parse_purchase_result (outcome_data o)) w)

finish-sent :
    (c : Call) (a : Answer BackendPurchaseResult) (w : World) → (finish c a w).1.sent ≡ w.sent
unfolding finish leave_unresolved
finish-sent c timed_out w = refl
finish-sent c unreachable w = refl
finish-sent c (answered r) w = on_outcome-sent c (outcome_of r) w

abbrev AtMostOne : World → Result Confirmation × World → Type 0
AtMostOne w (r, v) = length v.sent ≤ length w.sent + 1

finished-sent :
    (s : Surroundings) (w : World) (p : Stage × World) → SentBy w p → AtMostOne w (finished s p)
finished-sent s w (done r, v) h = rw h (omega arith)
finished-sent s w (refreshing c session, v) h = rw h (omega arith)
finished-sent s w (purchasing c, v) h = rw (finish-sent c s.answer v) (omega arith)

refreshed-sent :
    (s : Surroundings) (w : World) (p : Stage × World) → SentBy w p → AtMostOne w (refreshed s p)
refreshed-sent s w (done r, v) h = rw h (omega arith)
refreshed-sent s w (purchasing c, v) h = rw (finish-sent c s.answer v) (omega arith)
refreshed-sent s w (refreshing c session, v) h = rw⁻¹ h (
    finished-sent s v (continue_refreshed c session s.auth v)
      (continue_refreshed-sent c session s.auth v))

with_reference-sent :
    (s : Surroundings) (owner : QuoteOwner) (w : World) (r : Result String)
    → AtMostOne w (with_reference s owner w r)
with_reference-sent s owner w (err e) = omega arith
with_reference-sent s owner w (ok reference) =
    refreshed-sent s w (begin s.window s.now s.device_id owner reference s.fresh_key w)
      (begin-sent s.window s.now s.device_id owner reference s.fresh_key w)

with_owner-sent :
    (s : Surroundings) (reference : String) (w : World) (r : Result QuoteOwner)
    → AtMostOne w (with_owner s reference w r)
with_owner-sent s reference w (err e) = omega arith
with_owner-sent s reference w (ok owner) =
    with_reference-sent s owner w (require_quote_reference reference)

-- One call of the tool sends one purchase at most, whatever is answered to it.
pub confirm_purchase-sent :
    (s : Surroundings) (reference : String) (w : World)
    → length (confirm_purchase s reference w).1.sent ≤ length w.sent + 1
unfolding confirm_purchase
confirm_purchase-sent s reference w =
    with_owner-sent s reference w (owner_of s.digest s.session_key w)

-- What a reported success rests on.
abbrev pub Completed : Call → Answer BackendPurchaseResult → Confirmation → Type 0
Completed c a x =
    (r : Response BackendPurchaseResult) × (b : BackendPurchaseResult) × (a ≡ answered r)
    × (is_success (outcome_of r) ≡ true)
    × (parse_purchase_result (outcome_data (outcome_of r)) ≡ some b)
    × (is_completed b ≡ true)
    × (x.receipt ≡ completed_result c.quote b)

consumed-ok :
    (receipt x : Confirmation) (w : World) (r : Result PurchaseQuote) (d : Dict PurchaseQuote)
    → (consumed receipt w (r, d)).0 ≡ ok x
    → x ≡ receipt
consumed-ok receipt x w (err e) d h = absurd (ground arith)
consumed-ok receipt x w (ok q) d h = ground arith

complete-ok :
    (c : Call) (b : BackendPurchaseResult) (w : World) (x : Confirmation)
    → (complete c b w).0 ≡ ok x
    → x.receipt ≡ completed_result c.quote b
unfolding complete
complete-ok c b w x h =
    let w1 : World = record w {
      executions = mark_succeeded c.execution (completed_result c.quote b) w.executions;
    } in
    let end = consume c.owner c.quote.quote_id w.quotes in
    ap (λ (y : Confirmation). y.receipt) (consumed-ok _ x w1 end.0 end.1 h)

on_success-ok :
    (c : Call) (o : Option BackendPurchaseResult) (w : World) (x : Confirmation)
    → (on_success c o w).0 ≡ ok x
    → (b : BackendPurchaseResult) × (o ≡ some b)
      × (is_completed b ≡ true)
      × (x.receipt ≡ completed_result c.quote b)
unfolding on_success leave_unresolved
on_success-ok c none w x h = absurd (ground arith)
on_success-ok c (some b) w x h = elim (Bool-cases (is_completed b)) [
  | inl good ↦ (
    b,
    refl,
    good,
    complete-ok c b w x
        (subst (λ t. (if t then complete c b w else leave_unresolved c w).0 ≡ ok x) good h),
  )
  | inr bad ↦ absurd (ground (arith))
]

-- A call reports success only on an answer of success whose data say that the purchase is
-- completed, and its receipt is that of these data.
pub finish-Completed :
    (c : Call) (a : Answer BackendPurchaseResult) (w : World) (x : Confirmation)
    → (finish c a w).0 ≡ ok x
    → Completed c a x
unfolding finish leave_unresolved on_outcome on_failure
finish-Completed c timed_out w x h = absurd (ground arith)
finish-Completed c unreachable w x h = absurd (ground arith)
finish-Completed c (answered r) w x h = elim (Bool-cases (is_success (outcome_of r))) [
  | inl good ↦
      let (b, p, d, e) = on_success-ok c (parse_purchase_result (outcome_data (outcome_of r))) w x (
        subst
          (λ t.
            (if t
              then on_success c (parse_purchase_result (outcome_data (outcome_of r))) w
              else on_failure c
                  (classify_failure (effective_status (outcome_of r)) (outcome_hint (outcome_of r))
                    (outcome_of r).parsed (outcome_data (outcome_of r)))
                  w).0
            ≡ ok x)
          good h) in
      (r, b, refl, good, p, d, e)
  | inr bad ↦ absurd (ground arith)
]
