-- ===== src/EsimTopup/Prepare/Agreement.antt =====
-- What a preparation quotes is what a revalidation agrees to, as long as the platform answers the
-- same.
use esim_opensource_mcp.Prelude.{
  String, true, Option, some, List, [], ◌∷◌, ◌==◌, ◌≡◌, ◌≢◌, arith, eq_iff, eq_refl, strip,
  or_empty, ◌∙◌, ap, sym, subst, eq_codes_refl, lower, Bool-cases, inl, inr,
}
use esim_opensource_mcp.Prelude.Int.{ℤ}
use esim_opensource_mcp.Errors.{Result, ok, err, ◌>>=◌}
use esim_opensource_mcp.Selection.{BackendEsim}
use esim_opensource_mcp.Purchase.{QuotedWallet, require_positive_price}
use esim_opensource_mcp.Topup.{EsimTopupQuote, EsimTopupTerms}
use esim_opensource_mcp.EsimTopup.Target.{
  resolve_target, require_toppable, esim_target, chosen_from, first_with, only_one,
}
use esim_opensource_mcp.EsimTopup.Reads.{Bundle, bundle_with, currency_of}
use esim_opensource_mcp.EsimTopup.Revalidate.{
  toppable_target, agreed_bundle, same_currency, chosen_bundle, unchanged_price,
}
use esim_opensource_mcp.EsimTopup.Prepare.{offered_bundle, priced, terms_of}

same_currency_refl : (s : String) → same_currency s s ≡ true
unfolding same_currency
same_currency_refl s = eq_codes_refl (lower (strip s))

currency_of_again : (b : Bundle) (c : String) → currency_of b (currency_of b c) ≡ currency_of b c
currency_of_again b c = ground arith

-- The plan that is found under a code has that code, and is found under its own.
bundle_with-own :
    (code : String) (bundles : List Bundle) (b : Bundle)
    → bundle_with code bundles ≡ some b
    → or_empty b.code ≡ code
unfolding bundle_with
bundle_with-own code [] b h = absurd (ground arith)
bundle_with-own code (a ∷ bs) b h =
    ground (arith, eq_iff (or_empty a.code) code, bundle_with-own code bs b)

offered_bundle-found :
    (code : String) (bundles : List Bundle) (b : Bundle)
    → offered_bundle code bundles ≡ ok b
    → bundle_with code bundles ≡ some b
unfolding offered_bundle
offered_bundle-found code [] b h = absurd (ground arith)
offered_bundle-found code (a ∷ bs) b h = ground arith

priced-ok :
    (currency : String) (a b : Bundle) (amount : ℤ)
    → priced currency a ≡ ok (b, amount)
    → (a ≡ b) × (require_positive_price b.price (currency_of b currency) ≡ ok amount)
unfolding priced
priced-ok currency a b amount h = ground arith

offer-ok :
    (currency : String) (r : Result Bundle) (b : Bundle) (amount : ℤ)
    → (r >>= priced currency) ≡ ok (b, amount)
    → (r ≡ ok b) × (require_positive_price b.price (currency_of b currency) ≡ ok amount)
offer-ok currency (err e) b amount h = absurd (ground arith)
offer-ok currency (ok a) b amount h =
    let (same, price) = priced-ok currency a b amount h in (ap ok same, price)

-- The eSIM that was chosen is chosen again by its own ICCID.
first_with-own :
    (requested : String) (es : List BackendEsim) (e : BackendEsim)
    → first_with requested es ≡ ok e
    → or_empty e.iccid ≡ requested
first_with-own requested [] e h = absurd (ground arith)
first_with-own requested (a ∷ es) e h =
    ground (arith, eq_iff (or_empty a.iccid) requested, first_with-own requested es e)

only_one-own :
    (es : List BackendEsim) (e : BackendEsim)
    → only_one es ≡ ok e
    → first_with (or_empty e.iccid) es ≡ ok e
only_one-own [] e h = absurd (ground arith)
only_one-own (a ∷ []) e h = ground (arith, eq_refl (or_empty e.iccid))
only_one-own (a ∷ b ∷ es) e h = absurd (ground arith)

-- An ICCID that is given and has no white space around it.
abbrev pub IsTrimmed : String → Type 0
IsTrimmed s = (strip s ≡ s) × (s ≢ "")

chosen_from-named :
    (requested : String) (es : List BackendEsim) (e : BackendEsim)
    → requested ≢ ""
    → first_with requested es ≡ ok e
    → chosen_from requested es ≡ ok e
chosen_from-named requested es e n h = ground (arith, eq_iff requested "")

chosen_from-own :
    (requested : String) (es : List BackendEsim) (e : BackendEsim)
    → chosen_from requested es ≡ ok e
    → first_with (or_empty e.iccid) es ≡ ok e
chosen_from-own requested es e h = elim (Bool-cases (requested == "")) [
  | inl blank ↦ only_one-own es e (ground (arith, h, blank))
  | inr given ↦
      let f : first_with requested es ≡ ok e = ground (arith, h, given) in
      subst (λ s. first_with s es ≡ ok e) (sym (first_with-own requested es e f)) f
]

resolve_target-own :
    (iccid : Option String) (es : List BackendEsim) (e : BackendEsim)
    → resolve_target iccid es ≡ ok e
    → IsTrimmed (or_empty e.iccid)
    → resolve_target (some (or_empty e.iccid)) es ≡ ok e
unfolding resolve_target
resolve_target-own iccid [] e h t = absurd (ground arith)
resolve_target-own iccid (a ∷ es) e h t =
    subst (λ s. chosen_from s (a ∷ es) ≡ ok e) (sym t.0)
      (chosen_from-named (or_empty e.iccid) (a ∷ es) e t.1
        (chosen_from-own (strip (or_empty iccid)) (a ∷ es) e h))

toppable-ok :
    (r : Result BackendEsim) (e : BackendEsim)
    → (r >>= require_toppable) ≡ ok e
    → (r ≡ ok e) × (require_toppable e ≡ ok e)
unfolding require_toppable
toppable-ok (err x) e h = absurd (ground arith)
toppable-ok (ok a) e h =
    let same : a ≡ e = ground arith in (ap ok same, subst (λ i. require_toppable i ≡ ok e) same h)

toppable_target-own :
    (iccid : Option String) (es : List BackendEsim) (e : BackendEsim)
    → toppable_target iccid es ≡ ok e
    → IsTrimmed (or_empty e.iccid)
    → toppable_target (some (or_empty e.iccid)) es ≡ ok e
unfolding toppable_target
toppable_target-own iccid es e h t =
    let (found, allowed) = toppable-ok (resolve_target iccid es) e h in
    subst (λ r. (r >>= require_toppable) ≡ ok e) (sym (resolve_target-own iccid es e found t))
      allowed

unchanged_price-ok :
    (q : EsimTopupQuote) (b : Bundle) (amount : ℤ)
    → q.terms.price.amount ≡ amount
    → currency_of b q.terms.price.currency ≡ q.terms.price.currency
    → unchanged_price q b amount ≡ ok b
unchanged_price-ok q b amount a c =
    rw (c, a, same_currency_refl q.terms.price.currency) (ground arith)

chosen_bundle-ok :
    (q : EsimTopupQuote) (b : Bundle) (amount : ℤ) (currency : String)
    → q.terms.price.amount ≡ amount
    → q.terms.price.currency ≡ currency_of b currency
    → require_positive_price b.price (currency_of b currency) ≡ ok amount
    → chosen_bundle q (some b) ≡ ok b
chosen_bundle-ok q b amount currency a c p =
    let same : currency_of b q.terms.price.currency ≡ q.terms.price.currency =
      ap (currency_of b) c ∙ currency_of_again b currency ∙ sym c in
    subst (λ r. (r >>= unchanged_price q b) ≡ ok b)
      (sym (ap (require_positive_price b.price) (same ∙ c) ∙ p))
      (unchanged_price-ok q b amount a same)

-- When a plan of the list is offered and quoted for one of the caller's eSIMs, whose ICCID is not
-- empty and has no white space around it, and the platform lists the same eSIMs and plans again, the
-- revalidation of the quote comes to the same eSIM and the same plan.
pub revalidation_agrees :
    (iccid : Option String) (code currency : String) (esims : List BackendEsim)
    (bundles : List Bundle) (target : BackendEsim) (b : Bundle) (amount : ℤ) (wallet : QuotedWallet)
    (q : EsimTopupQuote)
    → toppable_target iccid esims ≡ ok target
    → (offered_bundle code bundles >>= priced currency) ≡ ok (b, amount)
    → q.terms ≡ terms_of target b amount (currency_of b currency) wallet
    → IsTrimmed (or_empty target.iccid)
    → (toppable_target (some q.terms.target.iccid) esims ≡ ok target)
      × (agreed_bundle q bundles ≡ ok b)
unfolding agreed_bundle terms_of esim_target
revalidation_agrees iccid code currency esims bundles target b amount wallet q h o t trimmed =
    let (offered, price) = offer-ok currency (offered_bundle code bundles) b amount o in
    let found = offered_bundle-found code bundles b offered in
    let named : q.terms.bundle.bundle_code ≡ code =
      ap (λ (x : EsimTopupTerms). x.bundle.bundle_code) t ∙ bundle_with-own code bundles b found in
    (
      subst (λ i. toppable_target (some i) esims ≡ ok target)
          (sym (ap (λ (x : EsimTopupTerms). x.target.iccid) t))
          (toppable_target-own iccid esims target h trimmed),
      subst (λ o. chosen_bundle q o ≡ ok b)
          (sym (ap (λ (c : String). bundle_with c bundles) named ∙ found))
          (chosen_bundle-ok q b amount currency (ap (λ (x : EsimTopupTerms). x.price.amount) t)
            (ap (λ (x : EsimTopupTerms). x.price.currency) t) price),
    )
