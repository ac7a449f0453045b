-- ===== src/Tests/Sessions.antt =====
-- The end of a session and the rotation of its tokens at concrete inputs.
use esim_opensource_mcp.Prelude.{
  eq_iff, false≢true, none, some, [], ◌∷◌, true, false, lookup, ◌≡◌, ◌≢◌, refl, IsUnique,
}
use esim_opensource_mcp.Errors.{ok, err, plain, authentication_required}
use esim_opensource_mcp.Session.{UserSession, AuthAnswer}
use esim_opensource_mcp.Purchase.Execution.{PurchaseExecution, new_execution}
use esim_opensource_mcp.World.{World}
use esim_opensource_mcp.World.Manager.{logout, invalidate, rotated, ensure_fresh_plan, rotate}
use esim_opensource_mcp.World.Manager.Laws.{Gone, logout-Gone, invalidate-other}
use esim_opensource_mcp.World.Manager.{require_session, refresh_finish}
use esim_opensource_mcp.World.Manager.Races.{logout_undone}
use esim_opensource_mcp.Tests.{owner, session, ready}

abbrev neighbour : PurchaseExecution
neighbour = new_execution (record { session_key = "another"; user_ref = "user" }) "theirs" "key"

abbrev two : World
two = record ready {
  executions = ("quote", new_execution owner "quote" "key") ∷ ("theirs", neighbour) ∷ [];
}

two-IsUnique : IsUnique two.executions
unfolding lookup
two-IsUnique = (refl, (refl, tt))

known : lookup "client" two.sessions ≡ some session
unfolding lookup
known = refl

theirs : lookup "theirs" two.executions ≡ some neighbour
unfolding lookup
theirs = refl

not_ours : neighbour.owner_session_key ≢ "client"
not_ours h = false≢true ((eq_iff neighbour.owner_session_key "client").1 h)

logout-Gone_example :
    ((logout "client" false two).0 ≡ ok false) × Gone "client" (logout "client" false two).1
logout-Gone_example = logout-Gone "client" false two session two-IsUnique known

invalidate-other_example : lookup "theirs" (invalidate "client" two).executions ≡ some neighbour
invalidate-other_example =
    invalidate-other "client" "theirs" two neighbour two-IsUnique theirs not_ours

abbrev expiring : UserSession
expiring = record session { expires_at = some 120 }

abbrev rotating : World
rotating = record ready { sessions = ("client", expiring) ∷ [] }

abbrev auth : AuthAnswer
auth = record {
  access_token = "access2";
  refresh_token = "refresh2";
  expiry = none;
  user_token = none;
  masked_email = none;
  masked_phone = none;
  currency_code = none;
}

in_rotation : ensure_fresh_plan 60 100 "client" rotating ≡ rotate expiring
unfolding ensure_fresh_plan
in_rotation = refl

logout_undone_example :
    (require_session "client" (logout "client" true rotating).1
      ≡ err (plain authentication_required))
    × (require_session "client"
          (refresh_finish "client" expiring (some auth) (logout "client" true rotating).1).1
        ≡ ok (rotated auth expiring))
logout_undone_example = logout_undone 60 100 expiring auth true rotating in_rotation
