-- ===== src/EsimTopup/Reads/Silent.antt =====
-- A read rotates tokens or ends a session at most: it sends no top-up.
use esim_opensource_mcp.Prelude.{
  ℕ, String, Bool, true, Option, none, some, ◌≡◌, refl, inl, inr, Bool-cases, ◌∙◌,
}
use esim_opensource_mcp.Prelude.Int.{ℤ}
use esim_opensource_mcp.Errors.{Result, ok, err}
use esim_opensource_mcp.Selection.{BackendEsim}
use esim_opensource_mcp.Session.{UserSession, AuthAnswer}
use esim_opensource_mcp.Topup.{EsimTopupQuote}
use esim_opensource_mcp.World.{World}
use esim_opensource_mcp.World.Manager.{
  RefreshPlan, no_session, current, rotate, refresh_finish, ensure_fresh_plan, refresh_plan,
  invalidate, notify_invalidated, delete_session, delete_challenge, save_session,
}
use esim_opensource_mcp.World.Manager.Authenticated.{
  Rotations, run_authenticated, by_plan, first, after_first, replay, after_replay, is_auth,
  ensure_fresh_session, refresh,
}
use esim_opensource_mcp.EsimTopup.Reads.{
  Platform, get_topup_options, and_then, mapped, read_by, listed, offered, compared, owned_esims,
  compatible_bundles, wallet_snapshot,
}
use esim_opensource_mcp.EsimTopup.Revalidate.{
  revalidate, compatible, funded, agreed_on, checked, toppable_target, agreed_bundle,
  require_sufficient,
}

abbrev Silent : World → {A : Type 0} → A × World → Type 0
Silent w (a, v) = v.topups_sent ≡ w.topups_sent

invalidate-Silent : (sk : String) (w : World) → (invalidate sk w).topups_sent ≡ w.topups_sent
unfolding invalidate notify_invalidated delete_challenge delete_session
invalidate-Silent sk w = refl

by_plan-Silent :
    (sk : String) (auth : Option AuthAnswer) (w : World) (plan : RefreshPlan)
    → Silent w (by_plan sk auth w plan)
unfolding refresh_finish notify_invalidated delete_session save_session
by_plan-Silent sk auth w no_session = refl
by_plan-Silent sk auth w (current s) = refl
by_plan-Silent sk none w (rotate s) = refl
by_plan-Silent sk (some auth) w (rotate s) = refl

module _ {A : Type 0} (window now : ℕ) (r : Rotations) (sk : String)
    (operation : ℕ → String → Result A) (allow : Bool) where
  after_replay-Silent : (w : World) (a : Result A) → Silent w (after_replay sk w a)
  after_replay-Silent w (ok a) = refl
  after_replay-Silent w (err e) = elim (Bool-cases (is_auth e.kind)) [
    | inl auth ↦ rw auth (invalidate-Silent sk w)
    | inr other ↦ rw other refl
  ]

  replay-Silent :
      (w : World) (p : Result UserSession × World)
      → Silent w p
      → Silent w (replay sk (operation 1) p)
  replay-Silent w (err e, v) h = h
  replay-Silent w (ok s, v) h = after_replay-Silent v (operation 1 s.access_token) ∙ h

  after_first-Silent :
      (s : UserSession) (w : World) (a : Result A)
      → Silent w (after_first window now r sk operation allow s w a)
  unfolding refresh
  after_first-Silent s w (ok a) = refl
  after_first-Silent s w (err e) = elim (Bool-cases (is_auth e.kind)) [
    | inl auth ↦ rw auth (elim (Bool-cases allow) [
      | inl again ↦ rw again (
          replay-Silent w (refresh window now sk (some s.access_token) true r.of_replay w) (
            by_plan-Silent sk r.of_replay w
              (refresh_plan window now sk (some s.access_token) true w)))
      | inr once ↦ rw once (invalidate-Silent sk w)
    ])
    | inr other ↦ rw other refl
  ]

  first-Silent :
      (w : World) (p : Result UserSession × World)
      → Silent w p
      → Silent w (first window now r sk operation allow p)
  first-Silent w (err e, v) h = h
  first-Silent w (ok s, v) h = after_first-Silent s v (operation 0 s.access_token) ∙ h

  run_authenticated-Silent :
      (w : World) → Silent w (run_authenticated window now r sk operation allow w)
  unfolding run_authenticated ensure_fresh_session
  run_authenticated-Silent w =
      first-Silent w (by_plan sk r.of_fresh w (ensure_fresh_plan window now sk w))
        (by_plan-Silent sk r.of_fresh w (ensure_fresh_plan window now sk w))

mapped-Silent :
    {A B : Type 0} (w : World) (f : Result A → Result B) (p : Result A × World)
    → Silent w p
    → Silent w (mapped f p)
mapped-Silent w f (r, v) h = h

and_then-Silent :
    {A B : Type 0} (w : World) (p : Result A × World) (f : A → World → Result B × World)
    → Silent w p
    → ((a : A) (v : World) → Silent v (f a v))
    → Silent w (and_then p f)
and_then-Silent w (err e, v) f h k = h
and_then-Silent w (ok a, v) f h k = k a v ∙ h

module _ (p : Platform) (q : EsimTopupQuote) where
  reads-Silent :
      {A : Type 0} (operation : ℕ → String → Result A) (w : World)
      → Silent w (read_by p operation w)
  reads-Silent operation w =
      run_authenticated-Silent p.window p.now p.rotations p.session_key operation true w

  owned_esims-Silent : (w : World) → Silent w (owned_esims p w)
  unfolding owned_esims
  owned_esims-Silent w = mapped-Silent w listed (read_by p p.my_esims w) (reads-Silent p.my_esims w)

  compatible_bundles-Silent :
      (esim : BackendEsim) (w : World) → Silent w (compatible_bundles p esim w)
  unfolding compatible_bundles
  compatible_bundles-Silent esim w =
      let operation = get_topup_options p esim in
      mapped-Silent w offered (read_by p operation w) (reads-Silent operation w)

  wallet_snapshot-Silent :
      (currency : String) (price : ℤ) (w : World) → Silent w (wallet_snapshot p currency price w)
  unfolding wallet_snapshot
  wallet_snapshot-Silent currency price w =
      mapped-Silent w (compared currency price) (read_by p p.user_wallet w)
        (reads-Silent p.user_wallet w)

  checked-Silent :
      {A B : Type 0} (r : Result A × World) (f : A → Result B) (w : World)
      → Silent w r
      → Silent w (and_then r (checked f))
  checked-Silent r f w h = and_then-Silent w r (checked f) h (λ a v. refl)

  pub revalidate-Silent : (w : World) → Silent w (revalidate p q w)
  unfolding revalidate
  revalidate-Silent w =
      let own = toppable_target (some q.terms.target.iccid) in
      let enough = require_sufficient in
      let currency = q.terms.price.currency in
      let amount = q.terms.price.amount in
      and_then-Silent w (and_then (owned_esims p w) (checked own)) (compatible p q)
        (checked-Silent (owned_esims p w) own w (owned_esims-Silent w))
        (λ target v.
          and_then-Silent v (and_then (compatible_bundles p target v) (checked (agreed_bundle q)))
            (funded p q target)
            (checked-Silent (compatible_bundles p target v) (agreed_bundle q) v
              (compatible_bundles-Silent target v))
            (λ bundle u.
              and_then-Silent u (and_then (wallet_snapshot p currency amount u) (checked enough))
                (agreed_on p q target)
                (checked-Silent (wallet_snapshot p currency amount u) enough u
                  (wallet_snapshot-Silent currency amount u))
                (λ wallet x. refl)))
