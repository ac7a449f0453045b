-- ===== src/Confirm/Protocol/Invariant.antt =====
-- What holds of one quote between two steps: its stored records, the call that has its lock, and
-- the keys under which it was sent.
use esim_opensource_mcp.Prelude.{
  ℕ, ◌+◌, ◌≤◌, String, Option, none, some, List, [], Dict, IsUnique, lookup, All, length, ◌≡◌,
  arith,
}
use esim_opensource_mcp.Purchase.{PurchaseQuote}
use esim_opensource_mcp.Purchase.Execution.{PurchaseExecution, max_execution_attempts}
use esim_opensource_mcp.Quotes.Ageing.{IsLive, Ages}
use esim_opensource_mcp.World.{World}
use esim_opensource_mcp.Confirm.{Call}
use esim_opensource_mcp.Confirm.Protocol.{
  System, Flight, awaiting_refresh, awaiting_purchase, sent_keys,
}

-- The lock of a quote is free, or a call has counted its attempt, or has also sent it.
pub data Hold : Type 0 where
  free : Hold
  counted : Call → Hold
  sent_call : Call → Hold

abbrev pub hold_of : Option Flight → Hold
hold_of none = free
hold_of (some (awaiting_refresh c s)) = counted c
hold_of (some (awaiting_purchase c)) = sent_call c

abbrev pub AllKeys : String → List String → Type 0
AllKeys k = All (λ j. j ≡ k)

-- Every key is that of the execution, and `n` more sends are covered by its count of attempts.
abbrev pub Covers : ℕ → PurchaseExecution → List String → Type 0
Covers n e keys =
    AllKeys e.idempotency_key keys
    × (n + length keys ≤ e.attempts)
    × (e.attempts ≤ max_execution_attempts)

abbrev pub SameOwner : PurchaseQuote → PurchaseExecution → Type 0
SameOwner q e =
    (e.quote_id ≡ q.quote_id)
    × (e.owner_session_key ≡ q.owner_session_key)
    × (e.owner_user_ref ≡ q.owner_user_ref)

abbrev pub StoredFor : PurchaseQuote → Option PurchaseExecution → Type 0
StoredFor q none = Unit
StoredFor q (some e) = SameOwner q e

abbrev pub Idle : Option PurchaseExecution → List String → Type 0
Idle none keys = keys ≡ []
Idle (some e) keys = Covers 0 e keys

-- One key at most, and three sends at most.
abbrev pub Settled : List String → Type 0
Settled keys = (k : String) × AllKeys k keys × (length keys ≤ max_execution_attempts)

abbrev pub InCall : ℕ → PurchaseQuote → Option PurchaseExecution → List String → Call → Type 0
InCall n q oe keys c =
    (c.quote.quote_id ≡ q.quote_id)
    × SameOwner q c.execution
    × Covers n c.execution keys
    × (IsLive q → oe ≡ some c.execution)

abbrev pub Held : PurchaseQuote → Option PurchaseExecution → List String → Hold → Type 0
Held q oe keys free = (IsLive q → Idle oe keys) × Settled keys
Held q oe keys (counted c) = InCall 1 q oe keys c
Held q oe keys (sent_call c) = InCall 0 q oe keys c

abbrev pub At :
    String → Option PurchaseQuote → Option PurchaseExecution → Hold → List String → Type 0
At id none oe h keys = (oe ≡ none) × (h ≡ free) × (keys ≡ [])
At id (some q) oe h keys = (q.quote_id ≡ id) × StoredFor q oe × Held q oe keys h

-- The invariant of a state, with the locks given apart.
pub record Good (w : World) (locks : String → Hold) : Type 0 where
  pub unique : IsUnique w.executions
  pub each :
      (id : String)
      → At id (lookup id w.quotes) (lookup id w.executions) (locks id) (sent_keys id w.sent)

abbrev pub locks_of : Dict Flight → String → Hold
locks_of held id = hold_of (lookup id held)

abbrev pub Inv : System → Type 0
Inv s = Good s.world (locks_of s.held)

-- What sends of a quote have in common, whoever holds its lock.
pub At-Settled :
    (id : String) (oq : Option PurchaseQuote) (oe : Option PurchaseExecution) (h : Hold)
    (keys : List String)
    → At id oq oe h keys
    → Settled keys
At-Settled id none oe h keys a = ("", ground arith, ground arith)
At-Settled id (some q) oe free keys a = a.2.1
At-Settled id (some q) oe (counted c) keys a = (c.execution.idempotency_key, a.2.2.0, omega arith)
At-Settled id (some q) oe (sent_call c) keys a = (c.execution.idempotency_key, a.2.2.0, omega arith)

-- A call that ends lets the lock go.
pub At-release :
    (id : String) (oq : Option PurchaseQuote) (oe : Option PurchaseExecution) (h : Hold)
    (keys : List String)
    → At id oq oe h keys
    → At id oq oe free keys
At-release id none oe h keys a = ground arith
At-release id (some q) oe free keys a = a
At-release id (some q) oe (counted c) keys a =
    (a.0, a.1, ((λ live. ground (arith, a.2.3 live)), At-Settled id (some q) oe (counted c) keys a))
At-release id (some q) oe (sent_call c) keys a = (
  a.0,
  a.1,
  ((λ live. ground (arith, a.2.3 live)), At-Settled id (some q) oe (sent_call c) keys a),
)

-- A quote that grows older keeps its part of the invariant.
pub At-Ages :
    (id : String) (oq op : Option PurchaseQuote) (oe : Option PurchaseExecution) (h : Hold)
    (keys : List String)
    → Ages oq op
    → At id oq oe h keys
    → At id op oe h keys
At-Ages id none none oe h keys g a = a
At-Ages id (some q) none oe h keys g a = elim g [ ]
At-Ages id none (some p) oe h keys g a = elim g [ ]
At-Ages id (some q) (some p) none free keys g a =
    (ground arith, tt, ((λ live. a.2.0 (g.3 live)), a.2.1))
At-Ages id (some q) (some p) (some e) free keys g a =
    (ground arith, ground arith, ((λ live. a.2.0 (g.3 live)), a.2.1))
At-Ages id (some q) (some p) none (counted c) keys g a =
    (ground arith, tt, (ground arith, ground arith, a.2.2, λ live. a.2.3 (g.3 live)))
At-Ages id (some q) (some p) (some e) (counted c) keys g a =
    (ground arith, ground arith, (ground arith, ground arith, a.2.2, λ live. a.2.3 (g.3 live)))
At-Ages id (some q) (some p) none (sent_call c) keys g a =
    (ground arith, tt, (ground arith, ground arith, a.2.2, λ live. a.2.3 (g.3 live)))
At-Ages id (some q) (some p) (some e) (sent_call c) keys g a =
    (ground arith, ground arith, (ground arith, ground arith, a.2.2, λ live. a.2.3 (g.3 live)))
