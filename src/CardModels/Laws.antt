-- ===== src/CardModels/Laws.antt =====
-- What the links and references that pass the tests of models/card.py and client/card.py are.
use esim_opensource_mcp.Prelude.{
  String, true, false, Option, none, some, ◌≡◌, arith, refl, ap, sym, subst, ◌∙◌, Bool-cases, inl,
  inr, is_reference, strip, or_empty, has_space_or_control,
}
use esim_opensource_mcp.Errors.{ok}
use esim_opensource_mcp.CardModels.{
  ParsedUrl, safe_checkout_url, accepted_link, is_plain_https, require_payment_reference,
}

accepted_link-some :
    (candidate link : String) (o : Option ParsedUrl)
    → accepted_link candidate o ≡ some link
    → (candidate ≡ link) × ((p : ParsedUrl) × (o ≡ some p) × (is_plain_https p ≡ true))
accepted_link-some candidate link none h = absurd (ground arith)
accepted_link-some candidate link (some p) h = elim (Bool-cases (is_plain_https p)) [
  | inl plain_link ↦ (ground (arith, h, plain_link), (p, refl, plain_link))
  | inr other ↦ absurd (ground (arith, h, other))
]

pub safe_checkout_url-some :
    (urlparse : String → Option ParsedUrl) (value : Option String) (link : String)
    → safe_checkout_url urlparse value ≡ some link
    → ((p : ParsedUrl) × (urlparse link ≡ some p) × (is_plain_https p ≡ true))
      × (has_space_or_control link ≡ false)
unfolding safe_checkout_url
safe_checkout_url-some urlparse value link h =
    let candidate = strip (or_empty value) in
    let accepted : accepted_link candidate (urlparse candidate) ≡ some link = ground (arith, h) in
    let clean : has_space_or_control candidate ≡ false = ground (arith, h) in
    let (same, parsed) = accepted_link-some candidate link (urlparse candidate) accepted in
    let (p, found, good) = parsed in
    (
      (p, ap urlparse (sym same) ∙ found, good),
      subst (λ s. has_space_or_control s ≡ false) same clean,
    )

pub require_payment_reference-ok :
    (value : Option String) (reference : String)
    → require_payment_reference value ≡ ok reference
    → is_reference reference ≡ true
unfolding require_payment_reference
require_payment_reference-ok value reference h =
    elim (Bool-cases (is_reference (strip (or_empty value)))) [
      | inl good ↦
          let same : strip (or_empty value) ≡ reference = ground (arith, h, good) in
          subst (λ s. is_reference s ≡ true) same good
      | inr bad ↦ absurd (ground (arith, h, bad))
    ]
