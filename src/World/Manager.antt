-- ===== src/World/Manager.antt =====
-- session/manager.py: `SessionManager` over the stores. The call of the platform inside `refresh`
-- and `logout` stands between two functions, since other calls may run while it is awaited.
pub mod Laws
pub mod Races
pub mod Authenticated
use esim_opensource_mcp.Prelude.{
  ℕ, String, Bool, true, false, not, ◌&&◌, ◌==◌, Option, none, some, is_some, Dict, lookup, insert,
  remove, if◌then◌else◌,
}
use esim_opensource_mcp.Errors.{Result, ok, err, plain, authentication_required}
use esim_opensource_mcp.Session.{
  UserSession, LoginChallenge, AuthAnswer, either_text, needs_refresh, challenge_is_expired,
}
use esim_opensource_mcp.Quotes.Store
use esim_opensource_mcp.Purchase.Execution
use esim_opensource_mcp.Card
use esim_opensource_mcp.Topup.Execution as TopupExecution
use esim_opensource_mcp.Topup.Checkout
use esim_opensource_mcp.Selection
use esim_opensource_mcp.World.{World}

-- `InMemorySessionStore`
unfoldable pub get_session : String → World → Option UserSession
unfolding lookup
get_session sk w = lookup sk w.sessions

unfoldable pub save_session : UserSession → World → World
unfolding insert
save_session s w = record w { sessions = insert s.session_key s w.sessions }

unfoldable pub delete_session : String → World → World
unfolding remove
delete_session sk w = record w { sessions = remove sk w.sessions }

unfoldable pub delete_challenge : String → World → World
unfolding remove
delete_challenge sk w = record w { challenges = remove sk w.challenges }

unfoldable pub store_challenge : String → LoginChallenge → World → World
unfolding insert
store_challenge sk c w = record w { challenges = insert sk c w.challenges }

abbrev fresh_challenge : String → ℕ → World → Option LoginChallenge → Option LoginChallenge × World
fresh_challenge sk now w none = (none, w)
fresh_challenge sk now w (some c) =
    if challenge_is_expired c now then (none, delete_challenge sk w) else (some c, w)

-- `get_challenge` drops a challenge that has expired
unfoldable pub get_challenge : String → ℕ → World → Option LoginChallenge × World
unfolding lookup challenge_is_expired delete_challenge
get_challenge sk now w = fresh_challenge sk now w (lookup sk w.challenges)

-- The eight listeners that server.py registers, in its order.
unfoldable pub notify_invalidated : String → World → World
unfolding Store.invalidate_session Execution.invalidate_session
notify_invalidated sk w = record w {
  quotes = (Store.invalidate_session sk w.quotes).0;
  executions = (Execution.invalidate_session sk w.executions).0;
  card_checkouts = (Card.invalidate_session sk w.card_checkouts).0;
  esim_quotes = (Store.invalidate_session sk w.esim_quotes).0;
  esim_executions = (TopupExecution.invalidate_session sk w.esim_executions).0;
  wallet_quotes = (Store.invalidate_session sk w.wallet_quotes).0;
  wallet_checkouts = (Checkout.invalidate_session sk w.wallet_checkouts).0;
  selections = (Selection.invalidate_session sk w.selections).0;
}

unfoldable pub invalidate : String → World → World
unfolding delete_session delete_challenge notify_invalidated
invalidate sk w = notify_invalidated sk (delete_challenge sk (delete_session sk w))

abbrev signed_in : Option UserSession → Result UserSession
signed_in none = err (plain authentication_required)
signed_in (some s) = ok s

unfoldable pub require_session : String → World → Result UserSession
unfolding get_session
require_session sk w = signed_in (get_session sk w)

-- `create_session`, on the particulars of the verified user
unfoldable pub create_session : UserSession → World → World
unfolding save_session delete_challenge
create_session s w = delete_challenge s.session_key (save_session s w)

-- What `refresh` does before it calls the platform: it fails, finds that it has nothing to do, or
-- goes on to rotate the tokens of a session.
pub data RefreshPlan : Type 0 where
  no_session : RefreshPlan
  current : UserSession → RefreshPlan
  rotate : UserSession → RefreshPlan

abbrev rotated_by_another : Option String → UserSession → Bool
rotated_by_another none s = false
rotated_by_another (some stale) s = not (s.access_token == stale)

abbrev plan_for : ℕ → ℕ → Option String → Bool → Option UserSession → RefreshPlan
plan_for window now stale force none = no_session
plan_for window now stale force (some s) =
    if rotated_by_another stale s
    then current s
    else if not force && not (needs_refresh s window now)
    then current s
    else rotate s

unfoldable pub refresh_plan : ℕ → ℕ → String → Option String → Bool → World → RefreshPlan
unfolding get_session needs_refresh
refresh_plan window now sk stale force w = plan_for window now stale force (get_session sk w)

abbrev pub rotated : AuthAnswer → UserSession → UserSession
rotated auth s = record s {
  access_token = auth.access_token;
  refresh_token = auth.refresh_token;
  expires_at = auth.expiry;
  user_id = either_text auth.user_token s.user_id;
  masked_email = either_text auth.masked_email s.masked_email;
  masked_phone = either_text auth.masked_phone s.masked_phone;
  currency = either_text auth.currency_code s.currency;
}

-- `none` is an `EsimMcpError` of the call.
unfoldable pub refresh_finish :
    String → UserSession → Option AuthAnswer → World → Result UserSession × World
unfolding delete_session notify_invalidated save_session
refresh_finish sk s none w =
    (err (plain authentication_required), notify_invalidated sk (delete_session sk w))
refresh_finish sk s (some auth) w = (ok (rotated auth s), save_session (rotated auth s) w)

abbrev fresh_plan : ℕ → ℕ → String → World → Option UserSession → RefreshPlan
fresh_plan window now sk w none = no_session
fresh_plan window now sk w (some s) =
    if needs_refresh s window now then refresh_plan window now sk none false w else current s

-- `ensure_fresh_session`, up to the call of the platform
unfoldable pub ensure_fresh_plan : ℕ → ℕ → String → World → RefreshPlan
unfolding get_session needs_refresh refresh_plan
ensure_fresh_plan window now sk w = fresh_plan window now sk w (get_session sk w)

abbrev logged_out : String → Bool → World → Option UserSession → Result Bool × World
logged_out sk acknowledged w none = (err (plain authentication_required), w)
logged_out sk acknowledged w (some s) = (ok acknowledged, invalidate sk w)

-- `logout`: whether the platform acknowledged it changes the answer and not the removal
unfoldable pub logout : String → Bool → World → Result Bool × World
unfolding get_session invalidate
logout sk acknowledged w = logged_out sk acknowledged w (get_session sk w)
