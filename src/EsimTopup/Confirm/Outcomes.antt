-- ===== src/EsimTopup/Confirm/Outcomes.antt =====
-- What a call of `confirm_esim_topup` reports on the answer to its top-up, and what every later
-- call on the same quote returns.
use esim_opensource_mcp.Prelude.{
  String, Bool, true, false, Option, none, some, Dict, lookup, ◌≡◌, ◌≢◌, arith, eq_refl, refl, ap,
  sym, subst, ◌∙◌, Bool-cases, inl, inr, if◌then◌else◌,
}
use esim_opensource_mcp.Errors.{McpError, Result, ok, err}
use esim_opensource_mcp.Owner.{QuoteOwner}
use esim_opensource_mcp.Backend.{
  Answer, timed_out, unreachable, answered, BackendOutcome, is_success, outcome_of, outcome_data,
  outcome_hint, effective_status, Response,
}
use esim_opensource_mcp.Topup.{EsimTopupQuote}
use esim_opensource_mcp.Topup.Quotes.{get_esim_record, consume_esim}
use esim_opensource_mcp.Topup.Execution.{
  EsimTopupExecution, TopupReceipt, ExecutionStatus, pending, succeeded, failed, unresolved,
  replay_execution_error, is_terminal, save, acquire, succeeded_with, unsuccessful, mark_succeeded,
  mark_failed, mark_unresolved,
}
use esim_opensource_mcp.Topup.Execution.Acquire.{lookup-save, acquire_stored}
use esim_opensource_mcp.World.{World}
use esim_opensource_mcp.EsimTopup.Failure.{
  BackendLegacyTopupResult, confirmed, parse_legacy_topup_result, outcome_unknown,
  classify_topup_failure,
}
use esim_opensource_mcp.EsimTopup.Confirm.{
  Call, done, Confirmed, TopupConfirmation, begin, with_quote, replay_if_attempted, replay_by,
}
use esim_opensource_mcp.EsimTopup.Confirm.Finish.{
  finish, on_outcome, on_success, on_failure, complete, consumed, leave_unresolved,
  completed_result,
}

-- The receipt of a confirmation, as it is replayed.
abbrev pub replay_of : TopupConfirmation → TopupConfirmation
replay_of x = record { receipt = x.receipt; replayed = true }

-- What a call leaves: one saved execution that has ended, under the identity of its own; if it
-- reports a receipt, the execution replays that.
abbrev Closed : Call → World → EsimTopupExecution → Result TopupConfirmation × World → Type 0
Closed c w f (r, v) =
    (v.esim_executions ≡ save f w.esim_executions)
    × (f.quote_id ≡ c.execution.quote_id)
    × (f.owner_session_key ≡ c.execution.owner_session_key)
    × (f.owner_user_ref ≡ c.execution.owner_user_ref)
    × (is_terminal f.status ≡ true)
    × ((x : TopupConfirmation) → r ≡ ok x → replay_if_attempted f ≡ some (ok (replay_of x)))

abbrev Closes : Call → World → Result TopupConfirmation × World → Type 0
Closes c w p = (f : EsimTopupExecution) × Closed c w f p

leave_unresolved-Closes :
    (c : Call) (error : McpError) (w : World) → Closes c w (leave_unresolved c error w)
unfolding leave_unresolved mark_unresolved is_terminal
leave_unresolved-Closes c error w = (
  unsuccessful error unresolved c.execution,
  (refl, refl, refl, refl, refl, λ x h. absurd (ground arith)),
)

consumed-Closes :
    (c : Call) (receipt : TopupReceipt) (w : World) (r : Result EsimTopupQuote)
    (d : Dict EsimTopupQuote)
    → Closes c w (
        consumed
          (record { receipt = receipt; replayed = false })
          (record w {
            esim_executions = save (succeeded_with receipt c.execution) w.esim_executions;
          })
          (r, d))
unfolding replay_if_attempted is_terminal
consumed-Closes c receipt w (err e) d = (
  succeeded_with receipt c.execution,
  (refl, refl, refl, refl, refl, λ x h. absurd (ground arith)),
)
consumed-Closes c receipt w (ok q) d =
    (succeeded_with receipt c.execution, (refl, refl, refl, refl, refl, λ x h. ground arith))

complete-Closes :
    (c : Call) (b : BackendLegacyTopupResult) (w : World) → Closes c w (complete c b w)
unfolding complete mark_succeeded
complete-Closes c b w =
    let end = consume_esim c.owner c.quote.quote_id w.esim_quotes in
    consumed-Closes c (completed_result c.quote b) w end.0 end.1

on_success-Closes :
    (c : Call) (o : Option BackendLegacyTopupResult) (w : World) → Closes c w (on_success c o w)
unfolding on_success
on_success-Closes c none w = leave_unresolved-Closes c outcome_unknown w
on_success-Closes c (some b) w = elim (Bool-cases (confirmed b)) [
  | inl good ↦ rw good (complete-Closes c b w)
  | inr bad ↦ rw bad (leave_unresolved-Closes c outcome_unknown w)
]

on_failure-Closes :
    (c : Call) (e : McpError) (uncharged : Bool) (w : World)
    → Closes c w (on_failure c (e, uncharged) w)
unfolding on_failure mark_failed is_terminal
on_failure-Closes c e true w = (
  unsuccessful e failed c.execution,
  (refl, refl, refl, refl, refl, λ x h. absurd (ground arith)),
)
on_failure-Closes c e false w = leave_unresolved-Closes c e w

on_outcome-Closes :
    (c : Call) (o : BackendOutcome BackendLegacyTopupResult) (w : World)
    → Closes c w (on_outcome c o w)
unfolding on_outcome
on_outcome-Closes c o w =
    let failure = classify_topup_failure (effective_status o) (outcome_hint o) o.parsed in
    elim (Bool-cases (is_success o)) [
      | inl good ↦ rw good (on_success-Closes c (parse_legacy_topup_result (outcome_data o)) w)
      | inr bad ↦ rw bad (on_failure-Closes c failure.0 failure.1 w)
    ]

finish-Closes :
    (c : Call) (a : Answer BackendLegacyTopupResult) (w : World) → Closes c w (finish c a w)
unfolding finish
finish-Closes c timed_out w = leave_unresolved-Closes c outcome_unknown w
finish-Closes c unreachable w = leave_unresolved-Closes c outcome_unknown w
finish-Closes c (answered r) w = on_outcome-Closes c (outcome_of r) w

replay_by-ended :
    (e : EsimTopupExecution) (s : ExecutionStatus) (o : Option TopupReceipt)
    → is_terminal e.status ≡ true
    → (r : Result TopupConfirmation) × (replay_by e s o ≡ some r)
unfolding is_terminal
replay_by-ended e succeeded (some r) h = (ok (record { receipt = r; replayed = true }), refl)
replay_by-ended e succeeded none h = (err (replay_execution_error e), rw h refl)
replay_by-ended e pending o h = (err (replay_execution_error e), rw h refl)
replay_by-ended e failed o h = (err (replay_execution_error e), rw h refl)
replay_by-ended e unresolved o h = (err (replay_execution_error e), rw h refl)

ended_replay :
    (e : EsimTopupExecution)
    → is_terminal e.status ≡ true
    → (r : Result TopupConfirmation) × (replay_if_attempted e ≡ some r)
unfolding replay_if_attempted
ended_replay e h = replay_by-ended e e.status e.result h

with_quote-ended :
    (given : Confirmed) (owner : QuoteOwner) (id : String) (v : World) (f : EsimTopupExecution)
    (r : Result TopupConfirmation) (q : Result EsimTopupQuote)
    → acquire owner id v.esim_executions ≡ (f, v.esim_executions)
    → replay_if_attempted f ≡ some r
    → (s : Result TopupConfirmation) × (with_quote given owner id v q ≡ (done s, v))
      × ((p : EsimTopupQuote) → q ≡ ok p → s ≡ r)
with_quote-ended given owner id v f r (err e) a h = (err e, refl, λ p n. absurd (ground arith))
with_quote-ended given owner id v f r (ok q) a h = (r, rw (a, h) refl, λ p n. refl)

some_injective : {A : Type 0} {a b : A} → some a ≡ some b → a ≡ b
some_injective h = ground arith

-- The call has the execution of its owner, as `begin` gives it to it.
abbrev pub OwnCall : Call → String → Type 0
OwnCall c id =
    (id ≢ "")
    × (c.execution.quote_id ≡ id)
    × (c.owner.session_key ≡ c.execution.owner_session_key)
    × (c.owner.user_ref ≡ c.execution.owner_user_ref)

-- Once a top-up was answered or lost, whatever the answer, every later confirmation of its quote by
-- its owner ends where it begins, in any state that has the same executions: it reads nothing from
-- the platform, sends nothing and changes nothing. When the first call reported a receipt and the
-- quote can still be read, it returns that receipt as a replay.
pub finish-ends :
    (c : Call) (a : Answer BackendLegacyTopupResult) (w v : World) (id : String) (given : Confirmed)
    → OwnCall c id
    → v.esim_executions ≡ (finish c a w).1.esim_executions
    → (s : Result TopupConfirmation) × (begin given c.owner id v ≡ (done s, v))
      × ((x : TopupConfirmation) (q : EsimTopupQuote)
          → (finish c a w).0 ≡ ok x
          → get_esim_record c.owner id v.esim_quotes ≡ ok q
          → s ≡ ok (replay_of x))
unfolding begin
finish-ends c a w v id given o e =
    let (f, closed) = finish-Closes c a w in
    let (saved, named, session, user, ended, replays) = closed in
    let (r, h) = ended_replay f ended in
    let kept : lookup id v.esim_executions ≡ some f =
      ap (lookup id) (e ∙ saved)
      ∙ lookup-save f id w.esim_executions
      ∙ rw (named, o.1, eq_refl id) refl in
    let acquired =
      acquire_stored c.owner id v.esim_executions f o.0 kept (o.2 ∙ sym session) (o.3 ∙ sym user) in
    let (s, ends, same) =
      with_quote-ended given c.owner id v f r (get_esim_record c.owner id v.esim_quotes) acquired
        h in
    (s, ends, λ x q reported read. same q read ∙ some_injective (sym h ∙ replays x reported))

-- What a reported success rests on.
abbrev pub ToppedUp : Call → Answer BackendLegacyTopupResult → TopupConfirmation → Type 0
ToppedUp c a x =
    (r : Response BackendLegacyTopupResult) × (b : BackendLegacyTopupResult) × (a ≡ answered r)
    × (is_success (outcome_of r) ≡ true)
    × (parse_legacy_topup_result (outcome_data (outcome_of r)) ≡ some b)
    × (confirmed b ≡ true)
    × (x ≡ record { receipt = completed_result c.quote b; replayed = false })

consumed-ok :
    (receipt x : TopupConfirmation) (w : World) (r : Result EsimTopupQuote)
    (d : Dict EsimTopupQuote)
    → (consumed receipt w (r, d)).0 ≡ ok x
    → x ≡ receipt
consumed-ok receipt x w (err e) d h = absurd (ground arith)
consumed-ok receipt x w (ok q) d h = ground arith

complete-ok :
    (c : Call) (b : BackendLegacyTopupResult) (w : World) (x : TopupConfirmation)
    → (complete c b w).0 ≡ ok x
    → x ≡ record { receipt = completed_result c.quote b; replayed = false }
unfolding complete
complete-ok c b w x h =
    let w1 : World = record w {
      esim_executions = mark_succeeded c.execution (completed_result c.quote b) w.esim_executions;
    } in
    let end = consume_esim c.owner c.quote.quote_id w.esim_quotes in
    consumed-ok (record { receipt = completed_result c.quote b; replayed = false }) x w1 end.0 end.1
      h

on_success-ok :
    (c : Call) (o : Option BackendLegacyTopupResult) (w : World) (x : TopupConfirmation)
    → (on_success c o w).0 ≡ ok x
    → (b : BackendLegacyTopupResult) × (o ≡ some b)
      × (confirmed b ≡ true)
      × (x ≡ record { receipt = completed_result c.quote b; replayed = false })
unfolding on_success leave_unresolved
on_success-ok c none w x h = absurd (ground arith)
on_success-ok c (some b) w x h = elim (Bool-cases (confirmed b)) [
  | inl good ↦ (
    b,
    refl,
    good,
    complete-ok c b w x (
        subst (λ t. (if t then complete c b w else leave_unresolved c outcome_unknown w).0 ≡ ok x)
          good h),
  )
  | inr bad ↦ absurd (ground arith)
]

on_failure-err :
    (c : Call) (e : McpError) (uncharged : Bool) (w : World)
    → (on_failure c (e, uncharged) w).0 ≡ err e
unfolding on_failure leave_unresolved
on_failure-err c e true w = refl
on_failure-err c e false w = refl

-- A call reports a top-up as done only on an answer of success whose data name an order and say
-- that the payment is completed, and its receipt is that of these data and of the quote.
pub finish-ToppedUp :
    (c : Call) (a : Answer BackendLegacyTopupResult) (w : World) (x : TopupConfirmation)
    → (finish c a w).0 ≡ ok x
    → ToppedUp c a x
unfolding finish leave_unresolved on_outcome
finish-ToppedUp c timed_out w x h = absurd (ground arith)
finish-ToppedUp c unreachable w x h = absurd (ground arith)
finish-ToppedUp c (answered r) w x h =
    let o = outcome_of r in
    let failure = classify_topup_failure (effective_status o) (outcome_hint o) o.parsed in
    let succeeding = on_success c (parse_legacy_topup_result (outcome_data o)) w in
    elim (Bool-cases (is_success o)) [
      | inl good ↦
          let (b, p, d, e) =
            on_success-ok c (parse_legacy_topup_result (outcome_data o)) w x
              (subst (λ t. (if t then succeeding else on_failure c failure w).0 ≡ ok x) good h) in
          (r, b, refl, good, p, d, e)
      | inr bad ↦
          let failed_call =
            subst (λ t. (if t then succeeding else on_failure c failure w).0 ≡ ok x) bad h in
          absurd (ground (arith, failed_call, on_failure-err c failure.0 failure.1 w))
    ]
