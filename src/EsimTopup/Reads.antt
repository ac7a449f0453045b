-- ===== src/EsimTopup/Reads.antt =====
-- The three reads that a top-up makes of the platform, each by `run_authenticated`:
-- `_owned_esims`, `_compatible_bundles` and `_wallet_snapshot` of tools/esim_topup.py, and what
-- models/catalog.py and models/wallet.py make of their answers.
pub mod Silent
use esim_opensource_mcp.Prelude.{
  ℕ, String, Bool, true, false, ◌&&◌, not, ◌==◌, Option, none, some, List, [], ◌∷◌, select,
  if◌then◌else◌, or_empty,
}
use esim_opensource_mcp.Prelude.Int.{ℤ}
use esim_opensource_mcp.Errors.{
  ErrorKind, McpError, Result, ok, err, plain, ◌>>=◌, backend_timeout, backend_unavailable,
  invalid_input, esim_topup_options_unavailable, esim_topup_not_supported, wallet_unavailable,
  account_read_timeout, catalog_unavailable, esim_selection_out_of_range,
}
use esim_opensource_mcp.Selection.{BackendEsim}
use esim_opensource_mcp.Session.{either_text}
use esim_opensource_mcp.Purchase.{QuotedWallet, evaluate_wallet}
use esim_opensource_mcp.Topup.{QuotedTopupBundle}
use esim_opensource_mcp.World.{World}
use esim_opensource_mcp.World.Manager.Authenticated.{Rotations, run_authenticated}
use esim_opensource_mcp.EsimTopup.Target.{with_iccid, require_iccid, require_bundle_code}

-- What the properties of `Bundle` read of a plan; `price` is its price as a decimal.
pub record Bundle : Type 0 where
  pub code : Option String
  pub name : String
  pub data_display : String
  pub is_unlimited : Bool
  pub validity_text : String
  pub validity_days : Option ℕ
  pub plan_type : Option String
  pub activity_policy : Option String
  pub countries_count : ℕ
  pub price : Option ℤ
  pub currency_code : Option String
  pub is_active : Option Bool

abbrev marked_inactive : Option Bool → Bool
marked_inactive (some false) = true
marked_inactive _ = false

-- `Bundle.is_available`
unfoldable pub is_available : Bundle → Bool
is_available b = not (marked_inactive b.is_active)

pub record UserWallet : Type 0 where
  pub balance : ℤ
  pub currency : String

-- How the platform answers the reads: by how often the same read went out before, and by the
-- access token.
pub record Platform : Type 0 where
  pub window : ℕ
  pub now : ℕ
  pub session_key : String
  pub rotations : Rotations
  pub my_esims : ℕ → String → Result (List BackendEsim)
  pub related_topups : ℕ → String → String → String → Result (List Bundle)
  pub user_wallet : ℕ → String → Result (Option UserWallet)

module _ {A B : Type 0} where
  -- a call that awaits another
  abbrev pub and_then : Result A × World → (A → World → Result B × World) → Result B × World
  and_then (err e, w) f = (err e, w)
  and_then (ok a, w) f = f a w

  abbrev pub mapped : (Result A → Result B) → Result A × World → Result B × World
  mapped f (r, w) = (f r, w)

-- a read by `run_authenticated`, which may be replayed once
abbrev pub read_by : {A : Type 0} → Platform → (ℕ → String → Result A) → World → Result A × World
read_by p operation w = run_authenticated p.window p.now p.rotations p.session_key operation true w

abbrev pub listed : Result (List BackendEsim) → Result (List BackendEsim)
listed r = r >>= λ esims. ok (with_iccid esims)

unfoldable pub owned_esims : Platform → World → Result (List BackendEsim) × World
unfolding run_authenticated with_iccid
owned_esims p w = mapped listed (read_by p p.my_esims w)

-- `TopupApiClient.get_topup_options`
unfoldable pub get_topup_options : Platform → BackendEsim → ℕ → String → Result (List Bundle)
unfolding require_bundle_code require_iccid
get_topup_options p esim n token = do
  code ← require_bundle_code (or_empty esim.bundle_code)
  reference ← require_iccid (or_empty esim.iccid)
  p.related_topups n token code reference

-- the classes that the two `except` clauses catch, subclasses included
abbrev pub options_error : ErrorKind → McpError → McpError
options_error backend_timeout e = plain esim_topup_options_unavailable
options_error account_read_timeout e = plain esim_topup_options_unavailable
options_error backend_unavailable e = plain esim_topup_options_unavailable
options_error catalog_unavailable e = plain esim_topup_options_unavailable
options_error invalid_input e = plain esim_topup_not_supported
options_error esim_selection_out_of_range e = plain esim_topup_not_supported
options_error _ e = e

abbrev pub offerable : Bundle → Bool
offerable b = not (or_empty b.code == "") && is_available b

abbrev pub offered : Result (List Bundle) → Result (List Bundle)
offered (ok bundles) = ok (select offerable bundles)
offered (err e) = err (options_error e.kind e)

unfoldable pub compatible_bundles : Platform → BackendEsim → World → Result (List Bundle) × World
unfolding run_authenticated get_topup_options is_available
compatible_bundles p esim w = mapped offered (read_by p (get_topup_options p esim) w)

abbrev pub snapshot : String → ℤ → Option UserWallet → Result QuotedWallet
snapshot currency price none = err (plain wallet_unavailable)
snapshot currency price (some wallet) = ok (
    evaluate_wallet wallet.balance (or_empty (either_text (some wallet.currency) (some currency)))
      price)

abbrev pub compared : String → ℤ → Result (Option UserWallet) → Result QuotedWallet
compared currency price r = r >>= snapshot currency price

unfoldable pub wallet_snapshot : Platform → String → ℤ → World → Result QuotedWallet × World
unfolding run_authenticated evaluate_wallet
wallet_snapshot p currency price w = mapped (compared currency price) (read_by p p.user_wallet w)

-- `next((bundle for bundle in bundles if bundle.code == code), None)`
unfoldable pub bundle_with : String → List Bundle → Option Bundle
bundle_with code [] = none
bundle_with code (b ∷ bs) =
    let rest = bundle_with code bs in if or_empty b.code == code then some b else rest

-- `chosen.currency_code or currency`
abbrev pub currency_of : Bundle → String → String
currency_of b currency = or_empty (either_text b.currency_code (some currency))

-- `_quoted_bundle`
abbrev pub quoted_bundle : Bundle → QuotedTopupBundle
quoted_bundle b = record {
  bundle_code = or_empty b.code;
  name = b.name;
  data_display = b.data_display;
  unlimited = b.is_unlimited;
  validity_display = b.validity_text;
  validity_days = b.validity_days;
  plan_type = b.plan_type;
  activation_policy = b.activity_policy;
  countries_count = b.countries_count;
}
