-- ===== src/Purchase/Covered.antt =====
-- purchase/validation.py: `evaluate_wallet`, in exact arithmetic.
use esim_opensource_mcp.Prelude.{
  ◌+◌, ◌<◌, String, true, false, Option, none, some, ◌≡◌, arith, refl, Bool-cases, ◌⊎◌, inl, inr,
}
use esim_opensource_mcp.Prelude.Int.{ℤ, pos_part, neg_part, ◌-ℤ◌, ◌≤ℤ◌, leb_ℤ}
use esim_opensource_mcp.Purchase.{QuotedWallet, evaluate_wallet}

-- `r` is `a - b`.
abbrev pub IsDifference : ℤ → ℤ → ℤ → Type 0
IsDifference r a b = pos_part r + neg_part a + pos_part b ≡ neg_part r + pos_part a + neg_part b

-- an amount that is there and is zero or more
abbrev pub IsRest : Option ℤ → ℤ → ℤ → Type 0
IsRest none a b = ⊥
IsRest (some r) a b = IsDifference r a b × (neg_part r ≡ 0)

sub-IsDifference : (a b : ℤ) → IsDifference (a -ℤ b) a b
unfolding ◌-ℤ◌
sub-IsDifference a b = ground arith

sub_rest : (a b : ℤ) → b ≤ℤ a → neg_part (a -ℤ b) ≡ 0
unfolding ◌-ℤ◌
sub_rest a b h = ground arith

-- What the two optional amounts of the snapshot say.
abbrev pub Judged : QuotedWallet → ℤ → ℤ → Type 0
Judged w balance price =
    ((w.sufficient ≡ true)
      × (price ≤ℤ balance)
      × IsRest w.estimated_remaining_balance balance price
      × (w.shortfall ≡ none))
    ⊎ ((w.sufficient ≡ false)
        × (pos_part balance + neg_part price < pos_part price + neg_part balance)
        × (w.estimated_remaining_balance ≡ none)
        × IsRest w.shortfall price balance)

-- The wallet is sufficient exactly when the price is not above the balance. Then what remains is the
-- difference and there is no shortfall; otherwise the shortfall is the difference, and nothing
-- remains. Neither is below zero.
pub evaluate_wallet-Judged :
    (balance : ℤ) (currency : String) (price : ℤ)
    → Judged (evaluate_wallet balance currency price) balance price
unfolding evaluate_wallet
evaluate_wallet-Judged balance currency price = elim (Bool-cases (leb_ℤ price balance)) [
  | inl enough ↦ rw enough (
      let low : price ≤ℤ balance = ground arith in
      inl (refl, low, (sub-IsDifference balance price, sub_rest balance price low), refl))
  | inr short ↦ rw short (
      let low : balance ≤ℤ price = ground arith in
      inr (refl, ground arith, refl, (sub-IsDifference price balance, sub_rest price balance low)))
]
