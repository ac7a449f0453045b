-- ===== src/Confirm/Protocol/Locks.antt =====
-- Changes at one quote alone: its execution saved, its lock taken or let go, its purchase sent.
use esim_opensource_mcp.Prelude.{
  ◌<◌, String, Option, none, some, List, ◌∷◌, Dict, lookup, ◌==◌, if◌then◌else◌, ◌≡◌, arith, eq_iff,
  refl, inl, inr, Bool-cases, sym, ap, subst, ◌∙◌,
}
use esim_opensource_mcp.Session.{UserSession}
use esim_opensource_mcp.Purchase.{PurchaseQuote}
use esim_opensource_mcp.Purchase.Execution.{
  PurchaseExecution, save, attempted, max_execution_attempts,
}
use esim_opensource_mcp.Purchase.Execution.Laws.{lookup-save, save-IsUnique}
use esim_opensource_mcp.World.{World}
use esim_opensource_mcp.Confirm.{Call, send}
use esim_opensource_mcp.Confirm.Protocol.{sent_keys}
use esim_opensource_mcp.Confirm.Protocol.Invariant.{
  Good, At, At-release, At-Settled, Hold, free, counted, sent_call,
}
use esim_opensource_mcp.Quotes.Ageing.{IsLive}

-- The locks, but for one quote.
abbrev pub over : String → Hold → (String → Hold) → String → Hold
over k h locks id = if k == id then h else locks id

abbrev pub save_in : PurchaseExecution → World → World
save_in e w = record w { executions = save e w.executions }

-- What the service changes of the execution of a call that is over: neither its identity, nor its
-- key, nor its count.
abbrev pub Variant : PurchaseExecution → PurchaseExecution → Type 0
Variant e f =
    (f.quote_id ≡ e.quote_id)
    × (f.owner_session_key ≡ e.owner_session_key)
    × (f.owner_user_ref ≡ e.owner_user_ref)
    × (f.idempotency_key ≡ e.idempotency_key)
    × (f.attempts ≡ e.attempts)

-- A first or further attempt is counted.
pub At-attempted :
    (id : String) (q : PurchaseQuote) (e : PurchaseExecution) (keys : List String) (c : Call)
    → IsLive q
    → e.attempts < max_execution_attempts
    → c.quote ≡ q
    → c.execution ≡ attempted e
    → At id (some q) (some e) free keys
    → At id (some q) (some (attempted e)) (counted c) keys
At-attempted id q e keys c live few p r a = ground (arith, a.2.0 live)

pub At-sent :
    (id : String) (oq : Option PurchaseQuote) (oe : Option PurchaseExecution) (c : Call)
    (keys : List String)
    → At id oq oe (counted c) keys
    → At id oq oe (sent_call c) (c.execution.idempotency_key ∷ keys)
At-sent id none oe c keys a = absurd (ground arith)
At-sent id (some q) oe c keys a =
    (a.0, a.1, (a.2.0, a.2.1, ((refl, a.2.2.0), omega arith, a.2.2.2), a.2.3))

pub At-over :
    (id : String) (oq : Option PurchaseQuote) (oe : Option PurchaseExecution) (c : Call)
    (keys : List String) (f : PurchaseExecution)
    → Variant c.execution f
    → At id oq oe (sent_call c) keys
    → At id oq (some f) free keys
At-over id none oe c keys f v a = absurd (ground arith)
At-over id (some q) oe c keys f v a = (
  a.0,
  ground arith,
  (
    (λ live. (rw v.3 a.2.2.0, omega arith, omega arith)),
    At-Settled id (some q) oe (sent_call c) keys a,
  ),
)

lookup_saved :
    (k : String) (e : PurchaseExecution) (j : String) (d : Dict PurchaseExecution)
    → e.quote_id ≡ k
    → lookup j (save e d) ≡ (if k == j then some e else lookup j d)
lookup_saved k e j d p = rw⁻¹ p (lookup-save e j d)

module _ (w : World) (locks : String → Hold) where
  abbrev pub AtOf : World → String → Hold → Type 0
  AtOf v k h = At k (lookup k v.quotes) (lookup k v.executions) h (sent_keys k v.sent)

  pub save-Good :
      (k : String) (e : PurchaseExecution) (h : Hold)
      → e.quote_id ≡ k
      → At k (lookup k w.quotes) (some e) h (sent_keys k w.sent)
      → Good w locks
      → Good (save_in e w) (over k h locks)
  save-Good k e h p a g = record {
    unique = save-IsUnique e w.executions g.unique;
    each = λ id. elim (Bool-cases (k == id)) [
      | inl here ↦
          rw (lookup_saved k e id w.executions p, here)
            (subst (λ j. At j (lookup j w.quotes) (some e) h (sent_keys j w.sent))
              ((eq_iff k id).0 here) a)
      | inr there ↦ rw (lookup_saved k e id w.executions p, there) (g.each id)
    ];
  }

  pub lock-Good : (k : String) (h : Hold) → AtOf w k h → Good w locks → Good w (over k h locks)
  lock-Good k h a g = record {
    unique = g.unique;
    each = λ id. elim (Bool-cases (k == id)) [
      | inl here ↦ rw here (subst (λ j. AtOf w j h) ((eq_iff k id).0 here) a)
      | inr there ↦ rw there (g.each id)
    ];
  }

  sent_keys-send :
      (k id : String) (c : Call) (s : UserSession)
      → c.quote.quote_id ≡ k
      → sent_keys id (send c s w).sent ≡ (
          if k == id
          then c.execution.idempotency_key ∷ sent_keys id w.sent
          else sent_keys id w.sent)
  unfolding send sent_keys
  sent_keys-send k id c s e = rw⁻¹ e refl

  send_same :
      (c : Call) (s : UserSession)
      → ((send c s w).quotes ≡ w.quotes) × ((send c s w).executions ≡ w.executions)
  unfolding send
  send_same c s = (refl, refl)

  pub send-Good :
      (k : String) (c : Call) (s : UserSession)
      → locks k ≡ counted c
      → c.quote.quote_id ≡ k
      → Good w locks
      → Good (send c s w) (over k (sent_call c) locks)
  send-Good k c s l e g = record {
    unique = rw (send_same c s).1 g.unique;
    each = λ id. elim (Bool-cases (k == id)) [
      | inl here ↦
          rw (sent_keys-send k id c s e, (send_same c s).0, (send_same c s).1, here)
            (subst
              (λ j.
                At j (lookup j w.quotes) (lookup j w.executions) (sent_call c)
                  (c.execution.idempotency_key ∷ sent_keys j w.sent))
              ((eq_iff k id).0 here)
              (At-sent k (lookup k w.quotes) (lookup k w.executions) c (sent_keys k w.sent)
                (subst (λ h. AtOf w k h) l (g.each k))))
      | inr there ↦
          rw (sent_keys-send k id c s e, (send_same c s).0, (send_same c s).1, there) (g.each id)
    ];
  }

pub over-Good :
    (w : World) (locks others : String → Hold)
    → ((id : String) → others id ≡ locks id)
    → Good w locks
    → Good w others
over-Good w locks others same g = record { unique = g.unique; each = λ id. rw same (g.each id) }

-- The last change of a lock counts.
over-over :
    (k : String) (h i : Hold) (locks : String → Hold) (id : String)
    → over k h locks id ≡ over k h (over k i locks) id
over-over k h i locks id = ground arith

pub over_again :
    (w : World) (k : String) (h i : Hold) (locks : String → Hold)
    → Good w (over k h (over k i locks))
    → Good w (over k h locks)
over_again w k h i locks =
    over-Good w (over k h (over k i locks)) (over k h locks) (over-over k h i locks)

over-free :
    (k : String) (h : Hold) (locks : String → Hold) (id : String)
    → locks k ≡ h
    → locks id ≡ over k h locks id
over-free k h locks id e = elim (Bool-cases (k == id)) [
  | inl here ↦ rw here (ap locks (sym ((eq_iff k id).0 here)) ∙ e)
  | inr there ↦ rw there refl
]

pub over_same :
    (w : World) (k : String) (h : Hold) (locks : String → Hold)
    → locks k ≡ h
    → Good w (over k h locks)
    → Good w locks
over_same w k h locks e = over-Good w (over k h locks) locks (λ id. over-free k h locks id e)

-- A call that ends leaves a good state.
pub release-Good :
    (w : World) (k : String) (locks : String → Hold) → Good w locks → Good w (over k free locks)
release-Good w k locks g =
    lock-Good w locks k free
      (At-release k (lookup k w.quotes) (lookup k w.executions) (locks k) (sent_keys k w.sent)
        (g.each k))
      g
