-- ===== src/World/Manager/Races.antt =====
-- A logout while a rotation of the tokens is in flight.
use esim_opensource_mcp.Prelude.{
  ℕ, String, Bool, none, some, lookup, lookup-insert, lookup-remove, ◌≡◌, refl, eq_refl, ◌∙◌, subst,
}
use esim_opensource_mcp.Errors.{ok, err, plain, authentication_required}
use esim_opensource_mcp.Session.{UserSession, AuthAnswer}
use esim_opensource_mcp.World.{World}
use esim_opensource_mcp.World.Manager.{
  logout, invalidate, refresh_finish, require_session, get_session, save_session, delete_session,
  delete_challenge, notify_invalidated, rotated, RefreshPlan, rotate, ensure_fresh_plan,
}
use esim_opensource_mcp.World.Manager.Authenticated.{PlanFor, ensure_fresh_plan-PlanFor}

logout_gone :
    (sk : String) (s : UserSession) (acknowledged : Bool) (w : World)
    → lookup sk w.sessions ≡ some s
    → lookup sk (logout sk acknowledged w).1.sessions ≡ none
unfolding logout get_session invalidate notify_invalidated delete_challenge delete_session
logout_gone sk s acknowledged w h = rw h (lookup-remove sk sk w.sessions ∙ rw (eq_refl sk) refl)

rotate-stored :
    (sk : String) (s : UserSession) (w : World) (plan : RefreshPlan)
    → plan ≡ rotate s
    → PlanFor (lookup sk w.sessions) plan
    → lookup sk w.sessions ≡ some s
rotate-stored sk s w plan h p = subst (PlanFor (lookup sk w.sessions)) h p

-- When the session that is stored is sent for a rotation of its tokens, and the user logs out before
-- the platform answers, whether or not the logout is acknowledged, then the user is signed out at
-- first, and the answer to the rotation stores the session again: the user is signed in with the new
-- tokens.
pub logout_undone :
    (window now : ℕ) (s : UserSession) (auth : AuthAnswer) (acknowledged : Bool) (w : World)
    → ensure_fresh_plan window now s.session_key w ≡ rotate s
    → let v = (logout s.session_key acknowledged w).1 in
      (require_session s.session_key v ≡ err (plain authentication_required))
      × (require_session s.session_key (refresh_finish s.session_key s (some auth) v).1
          ≡ ok (rotated auth s))
unfolding require_session get_session refresh_finish save_session
logout_undone window now s auth acknowledged w plan =
    let sk = s.session_key in
    let stored : lookup sk w.sessions ≡ some s =
      rotate-stored sk s w (ensure_fresh_plan window now sk w) plan
        (ensure_fresh_plan-PlanFor window now sk w) in
    (
      rw (logout_gone sk s acknowledged w stored) refl,
      rw (lookup-insert sk sk (rotated auth s) (logout sk acknowledged w).1.sessions, eq_refl sk)
          refl,
    )
