-- ===== src/EsimTopup/Confirm/Protocol/Locks.antt =====
-- Changes at one quote alone: its execution saved, its lock taken or let go, its top-up sent.
use esim_opensource_mcp.Prelude.{
  ℕ, ◌+◌, String, Option, none, some, ◌∷◌, Dict, lookup, ◌==◌, if◌then◌else◌, ◌≡◌, arith, eq_iff,
  refl, inl, inr, Bool-cases, sym, ap, subst, ◌∙◌,
}
use esim_opensource_mcp.Session.{UserSession}
use esim_opensource_mcp.Quotes.Ageing.{IsLive}
use esim_opensource_mcp.Topup.{EsimTopupQuote}
use esim_opensource_mcp.Topup.Execution.{EsimTopupExecution, save, attempted}
use esim_opensource_mcp.Topup.Execution.Acquire.{lookup-save, save-IsUnique}
use esim_opensource_mcp.World.{World}
use esim_opensource_mcp.EsimTopup.Confirm.{Call, topup_request}
use esim_opensource_mcp.EsimTopup.Confirm.Protocol.{times_sent}
use esim_opensource_mcp.EsimTopup.Confirm.Protocol.Invariant.{
  Good, At, At-release, Hold, free, taken,
}

-- The locks, but for one quote.
abbrev pub over : String → Hold → (String → Hold) → String → Hold
over k h locks id = if k == id then h else locks id

abbrev pub save_in : EsimTopupExecution → World → World
save_in e w = record w { esim_executions = save e w.esim_executions }

-- What the service changes of the execution of a call that is over: neither its identity nor its
-- count.
abbrev pub Variant : EsimTopupExecution → EsimTopupExecution → Type 0
Variant e f =
    (f.quote_id ≡ e.quote_id)
    × (f.owner_session_key ≡ e.owner_session_key)
    × (f.owner_user_ref ≡ e.owner_user_ref)
    × (f.attempts ≡ e.attempts)

abbrev pub counted_call : Call → Call
counted_call c = record c { execution = attempted c.execution }

-- The gates let a call through that has no attempt.
pub At-reading :
    (id : String) (q : EsimTopupQuote) (e : EsimTopupExecution) (n : ℕ) (c : Call)
    → IsLive q
    → e.attempts ≡ 0
    → c.quote ≡ q
    → c.execution ≡ e
    → At id (some q) (some e) free n
    → At id (some q) (some e) (taken 0 0 c) n
At-reading id q e n c live few p r a = ground (arith, a.2.0 live)

-- Its attempt is counted.
pub At-counted :
    (id : String) (oq : Option EsimTopupQuote) (oe : Option EsimTopupExecution) (n : ℕ) (c : Call)
    → At id oq oe (taken 0 0 c) n
    → At id oq (some (attempted c.execution)) (taken 0 1 (counted_call c)) n
At-counted id none oe n c a = absurd (ground arith)
At-counted id (some q) oe n c a = (
  a.0,
  a.2.1,
  (a.2.0, a.2.1, a.2.2, omega (arith, a.2.3), omega arith, omega arith, λ live. refl),
)

pub At-sent :
    (id : String) (oq : Option EsimTopupQuote) (oe : Option EsimTopupExecution) (n : ℕ) (c : Call)
    → At id oq oe (taken 0 1 c) n
    → At id oq oe (taken 1 1 c) (n + 1)
At-sent id none oe n c a = absurd (ground arith)
At-sent id (some q) oe n c a =
    (a.0, a.1, (a.2.0, a.2.1, omega (arith, a.2.2), a.2.3, omega arith, omega arith, a.2.6))

pub At-over :
    (id : String) (oq : Option EsimTopupQuote) (oe : Option EsimTopupExecution) (n k m : ℕ)
    (c : Call) (f : EsimTopupExecution)
    → Variant c.execution f
    → At id oq oe (taken k m c) n
    → At id oq (some f) free n
At-over id none oe n k m c f v a = absurd (ground arith)
At-over id (some q) oe n k m c f v a =
    (a.0, ground arith, ((λ live. omega (arith, v.3, a.2.2, a.2.3, a.2.4)), omega (arith, a.2.2)))

-- The call that has the lock is about the quote of the lock.
pub taken-quote :
    (id : String) (oq : Option EsimTopupQuote) (oe : Option EsimTopupExecution) (n k m : ℕ)
    (c : Call)
    → At id oq oe (taken k m c) n
    → (c.quote.quote_id ≡ id) × (c.execution.quote_id ≡ id)
taken-quote id none oe n k m c a = absurd (ground arith)
taken-quote id (some q) oe n k m c a = (a.2.0 ∙ a.0, a.2.1.0 ∙ a.0)

lookup_saved :
    (k : String) (e : EsimTopupExecution) (j : String) (d : Dict EsimTopupExecution)
    → e.quote_id ≡ k
    → lookup j (save e d) ≡ (if k == j then some e else lookup j d)
lookup_saved k e j d p = rw⁻¹ p (lookup-save e j d)

module _ (w : World) (locks : String → Hold) where
  abbrev pub AtOf : World → String → Hold → Type 0
  AtOf v k h =
      At k (lookup k v.esim_quotes) (lookup k v.esim_executions) h (times_sent k v.topups_sent)

  pub save-Good :
      (k : String) (e : EsimTopupExecution) (h : Hold)
      → e.quote_id ≡ k
      → At k (lookup k w.esim_quotes) (some e) h (times_sent k w.topups_sent)
      → Good w locks
      → Good (save_in e w) (over k h locks)
  save-Good k e h p a g = record {
    unique = save-IsUnique e w.esim_executions g.unique;
    each = λ id. elim (Bool-cases (k == id)) [
      | inl here ↦
          rw (lookup_saved k e id w.esim_executions p, here)
            (subst (λ j. At j (lookup j w.esim_quotes) (some e) h (times_sent j w.topups_sent))
              ((eq_iff k id).0 here) a)
      | inr there ↦ rw (lookup_saved k e id w.esim_executions p, there) (g.each id)
    ];
  }

  pub lock-Good : (k : String) (h : Hold) → AtOf w k h → Good w locks → Good w (over k h locks)
  lock-Good k h a g = record {
    unique = g.unique;
    each = λ id. elim (Bool-cases (k == id)) [
      | inl here ↦ rw here (subst (λ j. AtOf w j h) ((eq_iff k id).0 here) a)
      | inr there ↦ rw there (g.each id)
    ];
  }

  abbrev pub sent_in : Call → UserSession → String → String → World
  sent_in c s reference bundle = record w {
    topups_sent = topup_request c s reference bundle ∷ w.topups_sent;
  }

  times_sent-send :
      (k id : String) (c : Call) (s : UserSession) (reference bundle : String)
      → c.quote.quote_id ≡ k
      → times_sent id (sent_in c s reference bundle).topups_sent
        ≡ (if k == id then times_sent id w.topups_sent + 1 else times_sent id w.topups_sent)
  unfolding times_sent
  times_sent-send k id c s reference bundle e = rw⁻¹ e refl

  pub send-Good :
      (k : String) (c : Call) (s : UserSession) (reference bundle : String)
      → locks k ≡ taken 0 1 c
      → Good w locks
      → Good (sent_in c s reference bundle) (over k (taken 1 1 c) locks)
  send-Good k c s reference bundle l g =
      let a = subst (λ h. AtOf w k h) l (g.each k) in
      let e = (taken-quote k _ _ _ 0 1 c a).0 in
      record {
        unique = g.unique;
        each = λ id. elim (Bool-cases (k == id)) [
          | inl here ↦
              rw (times_sent-send k id c s reference bundle e, here)
                (subst
                  (λ j.
                    At j (lookup j w.esim_quotes) (lookup j w.esim_executions) (taken 1 1 c)
                      (times_sent j w.topups_sent + 1))
                  ((eq_iff k id).0 here)
                  (At-sent k (lookup k w.esim_quotes) (lookup k w.esim_executions)
                    (times_sent k w.topups_sent) c a))
          | inr there ↦ rw (times_sent-send k id c s reference bundle e, there) (g.each id)
        ];
      }

pub over-Good :
    (w : World) (locks others : String → Hold)
    → ((id : String) → others id ≡ locks id)
    → Good w locks
    → Good w others
over-Good w locks others same g = record { unique = g.unique; each = λ id. rw same (g.each id) }

-- The last change of a lock counts.
over-over :
    (k : String) (h i : Hold) (locks : String → Hold) (id : String)
    → over k h locks id ≡ over k h (over k i locks) id
over-over k h i locks id = ground arith

pub over_again :
    (w : World) (k : String) (h i : Hold) (locks : String → Hold)
    → Good w (over k h (over k i locks))
    → Good w (over k h locks)
over_again w k h i locks =
    over-Good w (over k h (over k i locks)) (over k h locks) (over-over k h i locks)

over-free :
    (k : String) (h : Hold) (locks : String → Hold) (id : String)
    → locks k ≡ h
    → locks id ≡ over k h locks id
over-free k h locks id e = elim (Bool-cases (k == id)) [
  | inl here ↦ rw here (ap locks (sym ((eq_iff k id).0 here)) ∙ e)
  | inr there ↦ rw there refl
]

pub over_same :
    (w : World) (k : String) (h : Hold) (locks : String → Hold)
    → locks k ≡ h
    → Good w (over k h locks)
    → Good w locks
over_same w k h locks e = over-Good w (over k h locks) locks (λ id. over-free k h locks id e)

-- A call that ends leaves a good state.
pub release-Good :
    (w : World) (k : String) (locks : String → Hold) → Good w locks → Good w (over k free locks)
release-Good w k locks g =
    lock-Good w locks k free
      (At-release k (lookup k w.esim_quotes) (lookup k w.esim_executions) (locks k)
        (times_sent k w.topups_sent) (g.each k))
      g
