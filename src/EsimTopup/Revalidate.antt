-- ===== src/EsimTopup/Revalidate.antt =====
-- `_revalidate` of tools/esim_topup.py: every fact of a quote, read again before anything is sent.
pub mod Agreed
use esim_opensource_mcp.Prelude.{
  ℕ, String, Bool, ◌&&◌, ◌==◌, Option, none, some, List, [], ◌∷◌, if◌then◌else◌, strip, lower,
  eq_codes, or_empty,
}
use esim_opensource_mcp.Prelude.Int.{ℤ, eqb_ℤ}
use esim_opensource_mcp.Errors.{
  Result, ok, err, plain, ◌>>=◌, topup_bundle_incompatible, esim_topup_rejected,
  insufficient_wallet_balance,
}
use esim_opensource_mcp.Selection.{BackendEsim}
use esim_opensource_mcp.Purchase.{QuotedWallet, require_positive_price}
use esim_opensource_mcp.Topup.{EsimTopupQuote}
use esim_opensource_mcp.World.{World}
use esim_opensource_mcp.EsimTopup.Target.{resolve_target, require_toppable}
use esim_opensource_mcp.EsimTopup.Reads.{
  Platform, Bundle, owned_esims, compatible_bundles, wallet_snapshot, and_then, bundle_with,
  currency_of,
}

-- `a.strip().upper() == b.strip().upper()`: case is folded down instead
unfoldable pub same_currency : String → String → Bool
unfolding strip lower eq_codes
same_currency a b = eq_codes (lower (strip a)) (lower (strip b))

-- `_require_toppable(_resolve_target(...))`
unfoldable pub toppable_target : Option String → List BackendEsim → Result BackendEsim
unfolding resolve_target require_toppable
toppable_target iccid esims = do esim ← resolve_target iccid esims; require_toppable esim

abbrev pub unchanged_price : EsimTopupQuote → Bundle → ℤ → Result Bundle
unchanged_price q b amount =
    if eqb_ℤ amount q.terms.price.amount
      && same_currency (currency_of b q.terms.price.currency) q.terms.price.currency
    then ok b
    else err (plain esim_topup_rejected)

abbrev pub chosen_bundle : EsimTopupQuote → Option Bundle → Result Bundle
chosen_bundle q none = err (plain topup_bundle_incompatible)
chosen_bundle q (some b) = do
  amount ← require_positive_price b.price (currency_of b q.terms.price.currency)
  unchanged_price q b amount

-- The plan of the quote, among those that the platform offers now and at the quoted price.
unfoldable pub agreed_bundle : EsimTopupQuote → List Bundle → Result Bundle
unfolding bundle_with same_currency require_positive_price
agreed_bundle q bundles = chosen_bundle q (bundle_with q.terms.bundle.bundle_code bundles)

abbrev pub require_sufficient : QuotedWallet → Result QuotedWallet
require_sufficient wallet =
    if wallet.sufficient then ok wallet else err (plain insufficient_wallet_balance)

abbrev pub checked : {A B : Type 0} → (A → Result B) → A → World → Result B × World
checked f a w = (f a, w)

module _ (p : Platform) (q : EsimTopupQuote) where
  abbrev pub agreed_on : BackendEsim → QuotedWallet → World → Result BackendEsim × World
  agreed_on target wallet w = (ok target, w)

  -- the balance, as the platform states it now
  abbrev pub funded : BackendEsim → Bundle → World → Result BackendEsim × World
  funded target bundle w =
      and_then
        (and_then (wallet_snapshot p q.terms.price.currency q.terms.price.amount w)
          (checked require_sufficient))
        (agreed_on target)

  -- compatibility, availability and price
  abbrev pub compatible : BackendEsim → World → Result BackendEsim × World
  compatible target w =
      and_then (and_then (compatible_bundles p target w) (checked (agreed_bundle q)))
        (funded target)

  unfoldable pub revalidate : World → Result BackendEsim × World
  unfolding owned_esims toppable_target compatible_bundles agreed_bundle wallet_snapshot
  revalidate w =
      and_then (and_then (owned_esims p w) (checked (toppable_target (some q.terms.target.iccid))))
        compatible
