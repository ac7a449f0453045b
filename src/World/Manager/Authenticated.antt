-- ===== src/World/Manager/Authenticated.antt =====
-- session/manager.py: `run_authenticated`, the way every read of an account goes out. It runs here
-- without another call in between; the answers of the platform to the two possible rotations of
-- the tokens are given, and `operation` is asked by the number of times it was run before.
use esim_opensource_mcp.Prelude.{
  ℕ, ◌≤◌, String, Bool, true, false, Option, none, some, lookup, lookup-insert, lookup-remove, ◌∙◌,
  if◌then◌else◌, ◌≡◌, arith, eq_refl, refl, inl, inr, Bool-cases,
}
use esim_opensource_mcp.Errors.{ErrorKind, Result, ok, err, plain, authentication_required}
use esim_opensource_mcp.Session.{UserSession, AuthAnswer}
use esim_opensource_mcp.World.{World}
use esim_opensource_mcp.World.Manager.{
  RefreshPlan, no_session, current, rotate, ensure_fresh_plan, refresh_plan, refresh_finish,
  rotated, invalidate, get_session, save_session, delete_session, delete_challenge,
  notify_invalidated,
}

-- The answers to the rotations: of `ensure_fresh_session`, and of the forced `refresh`.
pub record Rotations : Type 0 where
  pub of_fresh : Option AuthAnswer
  pub of_replay : Option AuthAnswer

abbrev pub by_plan : String → Option AuthAnswer → World → RefreshPlan → Result UserSession × World
by_plan sk auth w no_session = (err (plain authentication_required), w)
by_plan sk auth w (current s) = (ok s, w)
by_plan sk auth w (rotate s) = refresh_finish sk s auth w

unfoldable pub ensure_fresh_session :
    ℕ → ℕ → String → Option AuthAnswer → World → Result UserSession × World
unfolding ensure_fresh_plan refresh_finish
ensure_fresh_session window now sk auth w = by_plan sk auth w (ensure_fresh_plan window now sk w)

unfoldable pub refresh :
    ℕ → ℕ → String → Option String → Bool → Option AuthAnswer → World → Result UserSession × World
unfolding refresh_plan refresh_finish
refresh window now sk stale force auth w =
    by_plan sk auth w (refresh_plan window now sk stale force w)

-- `AuthenticationRequiredError` is raised
abbrev pub is_auth : ErrorKind → Bool
is_auth authentication_required = true
is_auth _ = false

module _ {A : Type 0} (sk : String) where
  abbrev pub after_replay : World → Result A → Result A × World
  after_replay w (ok a) = (ok a, w)
  after_replay w (err e) =
      if is_auth e.kind then (err (plain authentication_required), invalidate sk w) else (err e, w)

  abbrev pub replay : (String → Result A) → Result UserSession × World → Result A × World
  replay operation (err e, w) = (err e, w)
  replay operation (ok s, w) = after_replay w (operation s.access_token)

module _ {A : Type 0} (window now : ℕ) (r : Rotations) (sk : String)
    (operation : ℕ → String → Result A) (allow_refresh_replay : Bool) where
  abbrev pub after_first : UserSession → World → Result A → Result A × World
  after_first s w (ok a) = (ok a, w)
  after_first s w (err e) =
      if is_auth e.kind
      then (if allow_refresh_replay
          then replay sk (operation 1)
              (refresh window now sk (some s.access_token) true r.of_replay w)
          else (err e, invalidate sk w))
      else (err e, w)

  abbrev pub first : Result UserSession × World → Result A × World
  first (err e, w) = (err e, w)
  first (ok s, w) = after_first s w (operation 0 s.access_token)

  unfoldable pub run_authenticated : World → Result A × World
  unfolding ensure_fresh_session refresh invalidate
  run_authenticated w = first (ensure_fresh_session window now sk r.of_fresh w)

-- What a plan says of the session that is stored.
abbrev pub PlanFor : Option UserSession → RefreshPlan → Type 0
PlanFor o no_session = o ≡ none
PlanFor o (current s) = o ≡ some s
PlanFor o (rotate s) = o ≡ some s

-- A session at hand is the stored one, and without one nothing is stored.
abbrev Fresh : String → Result UserSession × World → Type 0
Fresh sk (ok s, v) = (lookup sk v.sessions ≡ some s) × (s.session_key ≡ sk)
Fresh sk (err e, v) = lookup sk v.sessions ≡ none

-- An answer was given to the token of the session that is stored; after the error that asks for
-- a sign-in, no session is.
abbrev pub Settled : {A : Type 0} → String → (ℕ → String → Result A) → Result A × World → Type 0
Settled sk operation (ok a, v) =
    (s : UserSession) × (n : ℕ) × (n ≤ 1)
    × (lookup sk v.sessions ≡ some s)
    × (operation n s.access_token ≡ ok a)
Settled sk operation (err e, v) = is_auth e.kind ≡ true → lookup sk v.sessions ≡ none

-- The stored session is stored under its own key.
abbrev pub IsKeyed : String → World → Type 0
IsKeyed sk w = (s : UserSession) → lookup sk w.sessions ≡ some s → s.session_key ≡ sk

invalidate_gone : (sk : String) (w : World) → lookup sk (invalidate sk w).sessions ≡ none
unfolding invalidate notify_invalidated delete_challenge delete_session
invalidate_gone sk w = lookup-remove sk sk w.sessions ∙ rw (eq_refl sk) refl

refresh_plan-PlanFor :
    (window now : ℕ) (sk : String) (stale : Option String) (force : Bool) (w : World)
    → PlanFor (lookup sk w.sessions) (refresh_plan window now sk stale force w)
unfolding refresh_plan get_session
refresh_plan-PlanFor window now sk stale force w = ground arith

pub ensure_fresh_plan-PlanFor :
    (window now : ℕ) (sk : String) (w : World)
    → PlanFor (lookup sk w.sessions) (ensure_fresh_plan window now sk w)
unfolding ensure_fresh_plan get_session
ensure_fresh_plan-PlanFor window now sk w =
    ground (arith, refresh_plan-PlanFor window now sk none false w)

module _ (sk : String) where
  refresh_finish-Fresh :
      (s : UserSession) (auth : Option AuthAnswer) (w : World)
      → s.session_key ≡ sk
      → Fresh sk (refresh_finish sk s auth w)
  unfolding refresh_finish delete_session notify_invalidated save_session
  refresh_finish-Fresh s none w e = lookup-remove sk sk w.sessions ∙ rw (eq_refl sk) refl
  refresh_finish-Fresh s (some auth) w e =
      (lookup-insert s.session_key sk (rotated auth s) w.sessions ∙ rw (e, eq_refl sk) refl, e)

  by_plan-Fresh :
      (auth : Option AuthAnswer) (w : World) (plan : RefreshPlan)
      → IsKeyed sk w
      → PlanFor (lookup sk w.sessions) plan
      → Fresh sk (by_plan sk auth w plan)
  by_plan-Fresh auth w no_session k p = p
  by_plan-Fresh auth w (current s) k p = (p, k s p)
  by_plan-Fresh auth w (rotate s) k p = refresh_finish-Fresh s auth w (k s p)

  refresh-Fresh :
      (window now : ℕ) (stale : Option String) (force : Bool) (auth : Option AuthAnswer) (w : World)
      → IsKeyed sk w
      → Fresh sk (refresh window now sk stale force auth w)
  unfolding refresh
  refresh-Fresh window now stale force auth w k =
      by_plan-Fresh auth w (refresh_plan window now sk stale force w) k
        (refresh_plan-PlanFor window now sk stale force w)

module _ {A : Type 0} (window now : ℕ) (r : Rotations) (sk : String)
    (operation : ℕ → String → Result A) (allow : Bool) where
  after_replay-Settled :
      (s : UserSession) (v : World) (a : Result A)
      → lookup sk v.sessions ≡ some s
      → operation 1 s.access_token ≡ a
      → Settled sk operation (after_replay sk v a)
  after_replay-Settled s v (ok a) h e = (s, 1, omega arith, h, e)
  after_replay-Settled s v (err x) h e = elim (Bool-cases (is_auth x.kind)) [
    | inl auth ↦ rw auth (λ asked. invalidate_gone sk v)
    | inr other ↦ rw other (λ asked. ground (arith, asked, other))
  ]

  replay-Settled :
      (p : Result UserSession × World)
      → Fresh sk p
      → Settled sk operation (replay sk (operation 1) p)
  replay-Settled (ok s, v) f = after_replay-Settled s v (operation 1 s.access_token) f.0 refl
  replay-Settled (err e, v) f = λ asked. f

  after_first-Settled :
      (s : UserSession) (v : World) (a : Result A)
      → lookup sk v.sessions ≡ some s
      → s.session_key ≡ sk
      → operation 0 s.access_token ≡ a
      → Settled sk operation (after_first window now r sk operation allow s v a)
  after_first-Settled s v (ok a) h k e = (s, 0, omega arith, h, e)
  after_first-Settled s v (err x) h k e = elim (Bool-cases (is_auth x.kind)) [
    | inl auth ↦ rw auth (elim (Bool-cases allow) [
      | inl again ↦ rw again (
          replay-Settled (refresh window now sk (some s.access_token) true r.of_replay v) (
            refresh-Fresh sk window now (some s.access_token) true r.of_replay v
              (λ t g. ground (arith, g, h, k))))
      | inr once ↦ rw once (λ asked. invalidate_gone sk v)
    ])
    | inr other ↦ rw other (λ asked. ground (arith, asked, other))
  ]

  first-Settled :
      (p : Result UserSession × World)
      → Fresh sk p
      → Settled sk operation (first window now r sk operation allow p)
  first-Settled (ok s, v) f = after_first-Settled s v (operation 0 s.access_token) f.0 f.1 refl
  first-Settled (err e, v) f = λ asked. f

  -- An authenticated read that is answered was answered to the token of the session that is stored
  -- afterwards, at the first or the second try; one that ends in a request to sign in leaves no
  -- session stored, whichever call of the platform refused the user.
  pub run_authenticated-Settled :
      (w : World)
      → IsKeyed sk w
      → Settled sk operation (run_authenticated window now r sk operation allow w)
  unfolding run_authenticated ensure_fresh_session
  run_authenticated-Settled w k =
      first-Settled (by_plan sk r.of_fresh w (ensure_fresh_plan window now sk w)) (
        by_plan-Fresh sk r.of_fresh w (ensure_fresh_plan window now sk w) k
          (ensure_fresh_plan-PlanFor window now sk w))
