-- ===== src/EsimTopup/Revalidate/Agreed.antt =====
-- What a revalidation that lets a top-up through rests on.
use esim_opensource_mcp.Prelude.{
  String, true, false, Option, none, some, List, [], ◌∷◌, Member, ◌==◌, ◌≡◌, ◌≢◌, arith, eq_iff,
  refl, strip, or_empty, ap, sym, subst, ◌∙◌, inl, inr, Bool-cases,
}
use esim_opensource_mcp.Prelude.Int.{ℤ, pos, negsuc, eqb_ℤ}
use esim_opensource_mcp.Errors.{Result, ok, err, ◌>>=◌}
use esim_opensource_mcp.Selection.{BackendEsim}
use esim_opensource_mcp.Purchase.{QuotedWallet, require_positive_price}
use esim_opensource_mcp.Topup.{EsimTopupQuote}
use esim_opensource_mcp.World.{World}
use esim_opensource_mcp.EsimTopup.Target.{
  resolve_target, require_toppable, chosen_from, first_with, only_one, refused_topup,
}
use esim_opensource_mcp.EsimTopup.Reads.{
  Platform, Bundle, bundle_with, currency_of, and_then, owned_esims, compatible_bundles,
  wallet_snapshot,
}
use esim_opensource_mcp.EsimTopup.Revalidate.{
  toppable_target, agreed_bundle, same_currency, chosen_bundle, unchanged_price, revalidate,
  compatible, funded, agreed_on, require_sufficient, checked,
}

-- The eSIM is one of those listed, has the ICCID that was asked for, and may be topped up.
abbrev pub IsOwn : Option String → List BackendEsim → BackendEsim → Type 0
IsOwn iccid esims target =
    Member target esims
    × (strip (or_empty iccid) ≢ "" → or_empty target.iccid ≡ strip (or_empty iccid))
    × (refused_topup target.topup_allowed ≡ false)

-- The plan is one of those offered, is the quoted one, and costs what was quoted.
abbrev pub IsQuoted : EsimTopupQuote → List Bundle → Bundle → Type 0
IsQuoted q bundles b =
    Member b bundles
    × (or_empty b.code ≡ q.terms.bundle.bundle_code)
    × (b.price ≡ some q.terms.price.amount)
    × (same_currency (currency_of b q.terms.price.currency) q.terms.price.currency ≡ true)

first_with-Member :
    (requested : String) (es : List BackendEsim) (e : BackendEsim)
    → first_with requested es ≡ ok e
    → Member e es × (or_empty e.iccid ≡ requested)
first_with-Member requested [] e h = absurd (ground arith)
first_with-Member requested (a ∷ es) e h = elim (Bool-cases (or_empty a.iccid == requested)) [
  | inl here ↦
      let same : a ≡ e = ground (arith, h, here) in
      (
        inl (sym same),
        subst (λ i. or_empty i.iccid ≡ requested) same
            ((eq_iff (or_empty a.iccid) requested).0 here),
      )
  | inr there ↦
      let (m, i) = first_with-Member requested es e (ground (arith, h, there)) in (inr m, i)
]

only_one-Member : (es : List BackendEsim) (e : BackendEsim) → only_one es ≡ ok e → Member e es
only_one-Member [] e h = absurd (ground arith)
only_one-Member (a ∷ []) e h = inl (ground arith)
only_one-Member (a ∷ b ∷ es) e h = absurd (ground arith)

chosen_from-Member :
    (requested : String) (es : List BackendEsim) (e : BackendEsim)
    → chosen_from requested es ≡ ok e
    → Member e es × (requested ≢ "" → or_empty e.iccid ≡ requested)
chosen_from-Member requested es e h = elim (Bool-cases (requested == "")) [
  | inl blank ↦ (
    only_one-Member es e (ground (arith, h, blank)),
    λ named. absurd (named ((eq_iff requested "").0 blank)),
  )
  | inr given ↦
      let (m, i) = first_with-Member requested es e (ground (arith, h, given)) in (m, λ named. i)
]

resolve_target-Member :
    (iccid : Option String) (es : List BackendEsim) (e : BackendEsim)
    → resolve_target iccid es ≡ ok e
    → Member e es × (strip (or_empty iccid) ≢ "" → or_empty e.iccid ≡ strip (or_empty iccid))
unfolding resolve_target
resolve_target-Member iccid [] e h = absurd (ground arith)
resolve_target-Member iccid (a ∷ es) e h = chosen_from-Member (strip (or_empty iccid)) (a ∷ es) e h

allowed_target :
    (r : Result BackendEsim) (e : BackendEsim)
    → (r >>= require_toppable) ≡ ok e
    → (r ≡ ok e) × (refused_topup e.topup_allowed ≡ false)
unfolding require_toppable
allowed_target (err x) e h = absurd (ground arith)
allowed_target (ok a) e h =
    let same : a ≡ e = ground arith in
    (
      ap ok same,
      subst (λ (i : BackendEsim). refused_topup i.topup_allowed ≡ false) same (ground (arith, h)),
    )

pub toppable_target-IsOwn :
    (iccid : Option String) (es : List BackendEsim) (e : BackendEsim)
    → toppable_target iccid es ≡ ok e
    → IsOwn iccid es e
unfolding toppable_target
toppable_target-IsOwn iccid es e h =
    let (found, allowed) = allowed_target (resolve_target iccid es) e h in
    let (m, i) = resolve_target-Member iccid es e found in (m, i, allowed)

eqb_ℤ-≡ : (a b : ℤ) → eqb_ℤ a b ≡ true → a ≡ b
eqb_ℤ-≡ (pos a) (pos b) h = ground arith
eqb_ℤ-≡ (pos a) (negsuc b) h = absurd (ground arith)
eqb_ℤ-≡ (negsuc a) (pos b) h = absurd (ground arith)
eqb_ℤ-≡ (negsuc a) (negsuc b) h = ground arith

bundle_with-Member :
    (code : String) (bundles : List Bundle) (b : Bundle)
    → bundle_with code bundles ≡ some b
    → Member b bundles × (or_empty b.code ≡ code)
unfolding bundle_with
bundle_with-Member code [] b h = absurd (ground arith)
bundle_with-Member code (a ∷ bs) b h = elim (Bool-cases (or_empty a.code == code)) [
  | inl here ↦
      let same : a ≡ b = ground (arith, h, here) in
      (
        inl (sym same),
        subst (λ i. or_empty i.code ≡ code) same ((eq_iff (or_empty a.code) code).0 here),
      )
  | inr there ↦ let (m, i) = bundle_with-Member code bs b (ground (arith, h, there)) in (inr m, i)
]

require_positive_price-ok :
    (price : Option ℤ) (currency : String) (amount : ℤ)
    → require_positive_price price currency ≡ ok amount
    → price ≡ some amount
unfolding require_positive_price
require_positive_price-ok none currency amount h = absurd (ground arith)
require_positive_price-ok (some a) currency amount h = ground arith

unchanged_price-ok :
    (q : EsimTopupQuote) (a b : Bundle) (amount : ℤ)
    → unchanged_price q a amount ≡ ok b
    → (a ≡ b)
      × (eqb_ℤ amount q.terms.price.amount ≡ true)
      × (same_currency (currency_of a q.terms.price.currency) q.terms.price.currency ≡ true)
unchanged_price-ok q a b amount h = ground arith

priced_bundle :
    (q : EsimTopupQuote) (a b : Bundle) (r : Result ℤ)
    → require_positive_price a.price (currency_of a q.terms.price.currency) ≡ r
    → (r >>= unchanged_price q a) ≡ ok b
    → (a ≡ b)
      × (a.price ≡ some q.terms.price.amount)
      × (same_currency (currency_of a q.terms.price.currency) q.terms.price.currency ≡ true)
priced_bundle q a b (err e) p h = absurd (ground arith)
priced_bundle q a b (ok amount) p h =
    let (same, price, currency) = unchanged_price-ok q a b amount h in
    (
      same,
      require_positive_price-ok a.price (currency_of a q.terms.price.currency) amount p
          ∙ ap some (eqb_ℤ-≡ amount q.terms.price.amount price),
      currency,
    )

chosen_bundle-ok :
    (q : EsimTopupQuote) (bundles : List Bundle) (o : Option Bundle) (b : Bundle)
    → bundle_with q.terms.bundle.bundle_code bundles ≡ o
    → chosen_bundle q o ≡ ok b
    → IsQuoted q bundles b
chosen_bundle-ok q bundles none b f h = absurd (ground arith)
chosen_bundle-ok q bundles (some a) b f h =
    let (same, price, currency) = priced_bundle q a b _ refl h in
    let (m, code) = bundle_with-Member q.terms.bundle.bundle_code bundles a f in
    subst (λ i. IsQuoted q bundles i) same (m, code, price, currency)

pub agreed_bundle-IsQuoted :
    (q : EsimTopupQuote) (bundles : List Bundle) (b : Bundle)
    → agreed_bundle q bundles ≡ ok b
    → IsQuoted q bundles b
unfolding agreed_bundle
agreed_bundle-IsQuoted q bundles b h =
    chosen_bundle-ok q bundles (bundle_with q.terms.bundle.bundle_code bundles) b refl h

-- The answers to the three reads, and what they say of the quote.
abbrev pub Agreed : Platform → EsimTopupQuote → World → BackendEsim → Type 0
Agreed p q w target =
    let w1 = (owned_esims p w).1 in
    let w2 = (compatible_bundles p target w1).1 in
    let price = q.terms.price in
    ((esims : List BackendEsim) × ((owned_esims p w).0 ≡ ok esims)
      × IsOwn (some q.terms.target.iccid) esims target)
    × ((bundles : List Bundle) × (b : Bundle) × ((compatible_bundles p target w1).0 ≡ ok bundles)
        × IsQuoted q bundles b)
    × ((wallet : QuotedWallet) × ((wallet_snapshot p price.currency price.amount w2).0 ≡ ok wallet)
        × (wallet.sufficient ≡ true))

and_then-ok :
    {A B : Type 0} (r : Result A × World) (f : A → World → Result B × World) (b : B) (v : World)
    → and_then r f ≡ (ok b, v)
    → (a : A) × (r.0 ≡ ok a) × (f a r.1 ≡ (ok b, v))
and_then-ok (err e, w) f b v h = absurd (ground arith)
and_then-ok (ok a, w) f b v h = (a, refl, h)

-- A check of an answer leaves the state as it is.
checked-ok :
    {A B : Type 0} (r : Result A × World) (f : A → Result B) (b : B)
    → (and_then r (checked f)).0 ≡ ok b
    → (a : A) × (r.0 ≡ ok a) × (f a ≡ ok b)
checked-ok (err e, w) f b h = absurd (ground arith)
checked-ok (ok a, w) f b h = (a, refl, h)

checked-world :
    {A B : Type 0} (r : Result A × World) (f : A → Result B) → (and_then r (checked f)).1 ≡ r.1
checked-world (err e, w) f = refl
checked-world (ok a, w) f = refl

-- One checked read of a call that goes on from it to an answer.
read-ok :
    {A B C : Type 0} (r : Result A × World) (f : A → Result B) (k : B → World → Result C × World)
    (c : C) (v : World)
    → and_then (and_then r (checked f)) k ≡ (ok c, v)
    → (a : A) × (b : B) × (r.0 ≡ ok a) × (f a ≡ ok b) × (k b r.1 ≡ (ok c, v))
read-ok r f k c v h =
    let (b, found, rest) = and_then-ok (and_then r (checked f)) k c v h in
    let (a, answer, passed) = checked-ok r f b found in
    (a, b, answer, passed, subst (λ w. k b w ≡ (ok c, v)) (checked-world r f) rest)

require_sufficient-ok : (a b : QuotedWallet) → require_sufficient a ≡ ok b → a.sufficient ≡ true
require_sufficient-ok a b h = ground arith

-- A revalidation succeeds only when the reads, made one after the other from the state of the call,
-- show the target among the caller's own eSIMs, the quoted plan offered for it at the quoted price
-- and in its currency, and a balance that covers it.
pub revalidate-Agreed :
    (p : Platform) (q : EsimTopupQuote) (w v : World) (target : BackendEsim)
    → revalidate p q w ≡ (ok target, v)
    → Agreed p q w target
unfolding revalidate
revalidate-Agreed p q w v target h =
    let w1 = (owned_esims p w).1 in
    let (esims, e, listed, own, h1) =
      read-ok (owned_esims p w) (toppable_target (some q.terms.target.iccid)) (compatible p q)
        target v h in
    let w2 = (compatible_bundles p e w1).1 in
    let (bundles, b, offered, quoted, h2) =
      read-ok (compatible_bundles p e w1) (agreed_bundle q) (funded p q e) target v h1 in
    let (wallet, x, read, enough, h3) =
      read-ok (wallet_snapshot p q.terms.price.currency q.terms.price.amount w2) require_sufficient
        (agreed_on p q e) target v h2 in
    let same : e ≡ target = ground (arith, ap (λ (y : Result BackendEsim × World). y.0) h3) in
    subst (λ t. Agreed p q w t) same
      (
        (esims, listed, toppable_target-IsOwn (some q.terms.target.iccid) esims e own),
        (bundles, b, offered, agreed_bundle-IsQuoted q bundles b quoted),
        (wallet, read, require_sufficient-ok wallet x enough),
      )
