-- ===== src/World/Manager/Laws.antt =====
-- What the end of a session leaves behind.
use esim_opensource_mcp.Prelude.{
  String, Bool, false, Option, none, some, IsUnique, lookup, lookup-remove, ◌≡◌, ◌≢◌, arith, eq_iff,
  eq_refl, refl, sym, ◌∙◌,
}
use mathlib.Core.Option
use esim_opensource_mcp.Errors.{ok}
use esim_opensource_mcp.Session.{UserSession}
use esim_opensource_mcp.Quotes.{is_active}
use esim_opensource_mcp.Quotes.Store.{cancel_if}
use esim_opensource_mcp.Quotes.Store.Laws as StoreLaws
use esim_opensource_mcp.Purchase.{PurchaseQuote}
use esim_opensource_mcp.Purchase.Execution.{PurchaseExecution}
use esim_opensource_mcp.Purchase.Execution.Laws.{lookup-invalidate, kept}
use esim_opensource_mcp.World.{World}
use esim_opensource_mcp.World.Manager.{
  get_session, delete_session, delete_challenge, notify_invalidated, invalidate, logout,
}

-- Nothing of a session is left: no session, no login, no active quote and no execution.
abbrev pub Gone : String → World → Type 0
Gone sk v =
    (lookup sk v.sessions ≡ none)
    × (lookup sk v.challenges ≡ none)
    × ((id : String) (q : PurchaseQuote)
        → lookup id v.quotes ≡ some q
        → q.owner_session_key ≡ sk
        → is_active q.status ≡ false)
    × ((id : String) (e : PurchaseExecution)
        → lookup id v.executions ≡ some e
        → e.owner_session_key ≢ sk)

kept-other :
    (sk : String) (o : Option PurchaseExecution) (e : PurchaseExecution)
    → kept sk o ≡ some e
    → e.owner_session_key ≢ sk
kept-other sk none e h = ground arith
kept-other sk (some f) e h = ground (arith, eq_iff f.owner_session_key sk)

cancelled_inactive :
    (sk : String) (o : Option PurchaseQuote) (q : PurchaseQuote)
    → Option.map (cancel_if sk) o ≡ some q
    → q.owner_session_key ≡ sk
    → is_active q.status ≡ false
cancelled_inactive sk none q h e = ground arith
cancelled_inactive sk (some p) q h e = ground (arith, eq_iff p.owner_session_key sk)

invalidate-Gone : (sk : String) (w : World) → IsUnique w.executions → Gone sk (invalidate sk w)
unfolding invalidate notify_invalidated delete_challenge delete_session
invalidate-Gone sk w u = (
  lookup-remove sk sk w.sessions ∙ rw (eq_refl sk) refl,
  lookup-remove sk sk w.challenges ∙ rw (eq_refl sk) refl,
  (λ id q h.
      cancelled_inactive sk (lookup id w.quotes) q
        (sym (StoreLaws.lookup-invalidate sk id w.quotes) ∙ h)),
  (λ id e h.
      kept-other sk (lookup id w.executions) e (sym (lookup-invalidate sk id w.executions u) ∙ h)),
)

-- A logout of a session that there is succeeds whether or not the platform acknowledges it, and
-- leaves no session, no login, no active purchase quote and no execution of the session.
pub logout-Gone :
    (sk : String) (acknowledged : Bool) (w : World) (s : UserSession)
    → IsUnique w.executions
    → lookup sk w.sessions ≡ some s
    → ((logout sk acknowledged w).0 ≡ ok acknowledged) × Gone sk (logout sk acknowledged w).1
unfolding logout get_session
logout-Gone sk acknowledged w s u h = rw h (refl, invalidate-Gone sk w u)

-- Another session's executions are kept by an invalidation.
pub invalidate-other :
    (sk id : String) (w : World) (e : PurchaseExecution)
    → IsUnique w.executions
    → lookup id w.executions ≡ some e
    → e.owner_session_key ≢ sk
    → lookup id (invalidate sk w).executions ≡ some e
unfolding invalidate notify_invalidated delete_challenge delete_session
invalidate-other sk id w e u h n =
    lookup-invalidate sk id w.executions u ∙ ground (arith, eq_iff e.owner_session_key sk)
