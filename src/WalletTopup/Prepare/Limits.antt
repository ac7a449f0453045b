-- ===== src/WalletTopup/Prepare/Limits.antt =====
-- What a prepared wallet top-up is of: the amount that was given, within the platform's limits.
use esim_opensource_mcp.Prelude.{
  ℕ, ◌≤◌, String, true, false, ◌==◌, Option, none, some, strip, without_commas, ◌≡◌, arith, refl,
  ap, subst, ◌∙◌, Bool-cases, inl, inr,
}
use esim_opensource_mcp.Prelude.Int.{ℤ, pos, leb_ℤ, ltb_ℤ}
use esim_opensource_mcp.Errors.{Result, ok, err}
use esim_opensource_mcp.Backend.{Payload}
use esim_opensource_mcp.Session.{UserSession}
use esim_opensource_mcp.CardModels.{parse}
use esim_opensource_mcp.Topup.{WalletTopupTerms, WalletTopupQuote}
use esim_opensource_mcp.Topup.Quotes.{create_wallet}
use esim_opensource_mcp.Quotes.Service.{supersede_and_save}
use esim_opensource_mcp.World.{World}
use esim_opensource_mcp.World.Manager.{require_session}
use esim_opensource_mcp.World.Manager.Authenticated.{
  run_authenticated, IsKeyed, Settled, run_authenticated-Settled,
}
use esim_opensource_mcp.EsimTopup.Reads.{and_then}
use esim_opensource_mcp.WalletTopup.Prepare.{
  BackendTopupOptions, ParsedDecimal, Preparation, require_amount, checked_decimal, checked_amount,
  accepted_terms, at_most, above, options_of, read_options, quoted, offered, for_amount,
  prepare_wallet_topup,
}

-- The text is a positive amount of two decimals at most, not above the largest one.
abbrev pub IsAmount : (String → Option ParsedDecimal) → ℤ → String → ℤ → Type 0
IsAmount decimal largest text v =
    ((d : ParsedDecimal) × (decimal (without_commas (strip text)) ≡ some d)
      × (d.amount ≡ some v)
      × (d.places ≤ 2))
    × (leb_ℤ v (pos 0) ≡ false)
    × (ltb_ℤ largest v ≡ false)

-- The platform allows the amount now.
abbrev pub IsAllowed : BackendTopupOptions → ℤ → Type 0
IsAllowed o v =
    (o.can_topup ≡ true)
    × (at_most v o.minimum_amount_exclusive ≡ false)
    × (above v o.maximum_amount ≡ false)

-- The platform answered one of the reads of this preparation with these options.
abbrev pub IsRead : Preparation → BackendTopupOptions → Type 0
IsRead g o =
    (n : ℕ) × (token : String) × (payload : Payload BackendTopupOptions) × (g.options n token
      ≡ ok payload)
    × (parse payload ≡ some o)

abbrev pub IsWithin : Preparation → String → WalletTopupQuote → Type 0
IsWithin g text q =
    IsAmount g.decimal g.largest text q.terms.amount
    × ((o : BackendTopupOptions) × IsRead g o × IsAllowed o q.terms.amount)

and_then-ok :
    {A B : Type 0} (p : Result A × World) (f : A → World → Result B × World) (b : B)
    → (and_then p f).0 ≡ ok b
    → (a : A) × (p.0 ≡ ok a) × ((f a p.1).0 ≡ ok b)
and_then-ok (err e, w) f b h = absurd (ground (arith, h))
and_then-ok (ok a, w) f b h = (a, refl, h)

checked_amount-ok :
    (largest : ℤ) (places : ℕ) (o : Option ℤ) (v : ℤ)
    → checked_amount largest places o ≡ ok v
    → (o ≡ some v) × (places ≤ 2) × (leb_ℤ v (pos 0) ≡ false) × (ltb_ℤ largest v ≡ false)
checked_amount-ok largest places none v h = absurd (ground (arith, h))
checked_amount-ok largest places (some u) v h = elim (Bool-cases (leb_ℤ u (pos 0))) [
  | inl small ↦ absurd (ground (arith, h, small))
  | inr positive ↦ elim (Bool-cases (ltb_ℤ largest u)) [
    | inl huge ↦ absurd (ground (arith, h, positive, huge))
    | inr fits ↦
        let same : u ≡ v = ground (arith, h, positive, fits) in
        let exact : places ≤ 2 = ground (arith, h, positive, fits) in
        (
          ap some same,
          exact,
          subst (λ t. leb_ℤ t (pos 0) ≡ false) same positive,
          subst (λ t. ltb_ℤ largest t ≡ false) same fits,
        )
  ]
]

checked_decimal-ok :
    (decimal : String → Option ParsedDecimal) (largest : ℤ) (text : String)
    (o : Option ParsedDecimal) (v : ℤ)
    → decimal (without_commas (strip text)) ≡ o
    → checked_decimal largest o ≡ ok v
    → IsAmount decimal largest text v
checked_decimal-ok decimal largest text none v p h = absurd (ground (arith, h))
checked_decimal-ok decimal largest text (some d) v p h =
    let (same, exact, positive, fits) = checked_amount-ok largest d.places d.amount v h in
    ((d, p, same, exact), positive, fits)

require_amount-ok :
    (decimal : String → Option ParsedDecimal) (largest : ℤ) (text : String) (v : ℤ)
    → require_amount decimal largest text ≡ ok v
    → IsAmount decimal largest text v
unfolding require_amount
require_amount-ok decimal largest text v h = elim (Bool-cases (without_commas (strip text) == "")) [
  | inl empty ↦ absurd (ground (arith, h, empty))
  | inr given ↦
      checked_decimal-ok decimal largest text (decimal (without_commas (strip text))) v refl
        (ground (arith, h, given))
]

accepted_terms-ok :
    (o : BackendTopupOptions) (currency : String) (v : ℤ) (t : WalletTopupTerms)
    → accepted_terms o currency v ≡ ok t
    → (v ≡ t.amount) × IsAllowed o v
unfolding accepted_terms
accepted_terms-ok o currency v t h = elim (Bool-cases o.can_topup) [
  | inr closed ↦ absurd (ground (arith, h, closed))
  | inl can ↦ elim (Bool-cases (at_most v o.minimum_amount_exclusive)) [
    | inl small ↦ absurd (ground (arith, h, can, small))
    | inr enough ↦ elim (Bool-cases (above v o.maximum_amount)) [
      | inl large ↦ absurd (ground (arith, h, can, enough, large))
      | inr fits ↦ (ground (arith, h, can, enough, fits), (can, enough, fits))
    ]
  ]
]

quoted-ok :
    (g : Preparation) (s : UserSession) (t : WalletTopupTerms) (w : World) (q : WalletTopupQuote)
    → (quoted g s t w).0 ≡ ok q
    → t ≡ q.terms
unfolding quoted create_wallet supersede_and_save
quoted-ok g s t w q h = ground (arith, h)

options_of-ok :
    (r : Result (Payload BackendTopupOptions)) (o : BackendTopupOptions)
    → options_of r ≡ ok o
    → (payload : Payload BackendTopupOptions) × (r ≡ ok payload) × (parse payload ≡ some o)
options_of-ok (err e) o h = absurd (ground (arith, h))
options_of-ok (ok payload) o h = (payload, refl, ground (arith, h))

answered_read :
    (g : Preparation) (payload : Payload BackendTopupOptions)
    (p : Result (Payload BackendTopupOptions) × World)
    → Settled g.session_key g.options p
    → p.0 ≡ ok payload
    → (n : ℕ) × (token : String) × (g.options n token ≡ ok payload)
answered_read g payload (err e, v) settled h = absurd (ground (arith, h))
answered_read g payload (ok a, v) settled h =
    let (s, n, few, stored, answer) = settled in (n, s.access_token, answer ∙ h)

read_options-IsRead :
    (g : Preparation) (w : World) (o : BackendTopupOptions)
    → IsKeyed g.session_key w
    → (read_options g w).0 ≡ ok o
    → IsRead g o
unfolding read_options
read_options-IsRead g w o keyed h =
    let read = run_authenticated g.window g.now g.rotations g.session_key g.options true w in
    let (payload, answered, parsed) = options_of-ok read.0 o h in
    let (n, token, said) =
      answered_read g payload read
        (run_authenticated-Settled g.window g.now g.rotations g.session_key g.options true w keyed)
        answered in
    (n, token, payload, said, parsed)

offered-IsAllowed :
    (g : Preparation) (s : UserSession) (v : ℤ) (o : BackendTopupOptions) (w : World)
    (q : WalletTopupQuote)
    → (offered g s v o w).0 ≡ ok q
    → (v ≡ q.terms.amount) × IsAllowed o v
offered-IsAllowed g s v o w q h =
    let (t, accepted, made) = and_then-ok (accepted_terms o g.currency v, w) (quoted g s) q h in
    let (same, allowed) = accepted_terms-ok o g.currency v t accepted in
    (same ∙ ap (λ (u : WalletTopupTerms). u.amount) (quoted-ok g s t w q made), allowed)

for_amount-IsWithin :
    (g : Preparation) (text : String) (s : UserSession) (w : World) (v : ℤ) (q : WalletTopupQuote)
    → IsKeyed g.session_key w
    → IsAmount g.decimal g.largest text v
    → (for_amount g s w v).0 ≡ ok q
    → IsWithin g text q
for_amount-IsWithin g text s w v q keyed amount h =
    let (o, read, made) = and_then-ok (read_options g w) (offered g s v) q h in
    let (same, allowed) = offered-IsAllowed g s v o (read_options g w).1 q made in
    subst
      (λ u.
        IsAmount g.decimal g.largest text u
        × ((p : BackendTopupOptions) × IsRead g p × IsAllowed p u))
      same (amount, (o, read_options-IsRead g w o keyed read, allowed))

-- When the stored session stands under its own key, a wallet top-up is prepared only for the amount
-- that the given text says: a positive one of two decimals at most and not above the largest
-- amount that is parsed at all. The platform answered a read of this preparation that it allows
-- top-ups now, and the amount is above the minimum and not above the maximum of this answer.
pub prepare_wallet_topup-IsWithin :
    (g : Preparation) (text : String) (w : World) (q : WalletTopupQuote)
    → IsKeyed g.session_key w
    → (prepare_wallet_topup g text w).0 ≡ ok q
    → IsWithin g text q
unfolding prepare_wallet_topup
prepare_wallet_topup-IsWithin g text w q keyed h =
    let (s, signed, rest) = and_then-ok (require_session g.session_key w, w) _ q h in
    let (v, amount, made) = and_then-ok (require_amount g.decimal g.largest text, w) _ q rest in
    for_amount-IsWithin g text s w v q keyed (require_amount-ok g.decimal g.largest text v amount)
      made
