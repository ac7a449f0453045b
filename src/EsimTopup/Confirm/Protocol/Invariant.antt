-- ===== src/EsimTopup/Confirm/Protocol/Invariant.antt =====
-- What holds of one quote between two steps: its stored records, the call that has its lock, and
-- how often it was sent.
use esim_opensource_mcp.Prelude.{
  ℕ, ◌≤◌, String, Option, none, some, Dict, IsUnique, lookup, ◌≡◌, arith,
}
use esim_opensource_mcp.Topup.{EsimTopupQuote}
use esim_opensource_mcp.Topup.Execution.{EsimTopupExecution}
use esim_opensource_mcp.Quotes.Ageing.{IsLive, Ages}
use esim_opensource_mcp.World.{World}
use esim_opensource_mcp.EsimTopup.Confirm.{Call}
use esim_opensource_mcp.EsimTopup.Confirm.Protocol.{
  System, Flight, awaiting_reads, awaiting_refresh, awaiting_topup, times_sent,
}

-- The lock of a quote is free, or a call holds it that was sent so often and counted so many
-- attempts.
pub data Hold : Type 0 where
  free : Hold
  taken : ℕ → ℕ → Call → Hold

abbrev pub hold_of : Option Flight → Hold
hold_of none = free
hold_of (some (awaiting_reads c)) = taken 0 0 c
hold_of (some (awaiting_refresh c s)) = taken 0 1 c
hold_of (some (awaiting_topup c)) = taken 1 1 c

abbrev pub SameOwner : EsimTopupQuote → EsimTopupExecution → Type 0
SameOwner q e =
    (e.quote_id ≡ q.quote_id)
    × (e.owner_session_key ≡ q.owner_session_key)
    × (e.owner_user_ref ≡ q.owner_user_ref)

abbrev pub StoredFor : EsimTopupQuote → Option EsimTopupExecution → Type 0
StoredFor q none = Unit
StoredFor q (some e) = SameOwner q e

-- Every send is covered by a counted attempt.
abbrev pub Idle : Option EsimTopupExecution → ℕ → Type 0
Idle none n = n ≡ 0
Idle (some e) n = n ≤ e.attempts

abbrev pub Held : EsimTopupQuote → Option EsimTopupExecution → ℕ → Hold → Type 0
Held q oe n free = (IsLive q → Idle oe n) × (n ≤ 1)
Held q oe n (taken k m c) =
    (c.quote.quote_id ≡ q.quote_id)
    × SameOwner q c.execution
    × (n ≡ k)
    × (c.execution.attempts ≡ m)
    × (k ≤ m)
    × (m ≤ 1)
    × (IsLive q → oe ≡ some c.execution)

abbrev pub At : String → Option EsimTopupQuote → Option EsimTopupExecution → Hold → ℕ → Type 0
At id none oe h n = (oe ≡ none) × (h ≡ free) × (n ≡ 0)
At id (some q) oe h n = (q.quote_id ≡ id) × StoredFor q oe × Held q oe n h

-- The invariant of a state, with the locks given apart.
pub record Good (w : World) (locks : String → Hold) : Type 0 where
  pub unique : IsUnique w.esim_executions
  pub each :
      (id : String)
      → At id
          (lookup id w.esim_quotes)
          (lookup id w.esim_executions)
          (locks id)
          (times_sent id w.topups_sent)

abbrev pub locks_of : Dict Flight → String → Hold
locks_of held id = hold_of (lookup id held)

abbrev pub Inv : System → Type 0
Inv s = Good s.world (locks_of s.held)

-- Whoever holds its lock, a quote was sent once at most.
pub At-once :
    (id : String) (oq : Option EsimTopupQuote) (oe : Option EsimTopupExecution) (h : Hold) (n : ℕ)
    → At id oq oe h n
    → n ≤ 1
At-once id none oe h n a = omega arith
At-once id (some q) oe free n a = omega arith
At-once id (some q) oe (taken k m c) n a = omega arith

-- A call that ends lets the lock go.
pub At-release :
    (id : String) (oq : Option EsimTopupQuote) (oe : Option EsimTopupExecution) (h : Hold) (n : ℕ)
    → At id oq oe h n
    → At id oq oe free n
At-release id none oe h n a = ground arith
At-release id (some q) oe free n a = a
At-release id (some q) oe (taken k m c) n a =
    (a.0, a.1, ((λ live. ground (arith, a.2.6 live)), omega arith))

-- A quote that grows older keeps its part of the invariant.
pub At-Ages :
    (id : String) (oq op : Option EsimTopupQuote) (oe : Option EsimTopupExecution) (h : Hold)
    (n : ℕ)
    → Ages oq op
    → At id oq oe h n
    → At id op oe h n
At-Ages id none none oe h n g a = a
At-Ages id (some q) none oe h n g a = elim g [ ]
At-Ages id none (some p) oe h n g a = elim g [ ]
At-Ages id (some q) (some p) none free n g a =
    (ground arith, tt, ((λ live. a.2.0 (g.3 live)), a.2.1))
At-Ages id (some q) (some p) (some e) free n g a =
    (ground arith, ground arith, ((λ live. a.2.0 (g.3 live)), a.2.1))
At-Ages id (some q) (some p) none (taken k m c) n g a = (
  ground arith,
  tt,
  (ground arith, ground arith, a.2.2, a.2.3, a.2.4, a.2.5, λ live. a.2.6 (g.3 live)),
)
At-Ages id (some q) (some p) (some e) (taken k m c) n g a = (
  ground arith,
  ground arith,
  (ground arith, ground arith, a.2.2, a.2.3, a.2.4, a.2.5, λ live. a.2.6 (g.3 live)),
)
