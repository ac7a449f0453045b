-- ===== src/Purchase/Service/Listing.antt =====
-- `PurchaseQuoteService.list_active`: the order of the listing.
use esim_opensource_mcp.Prelude.{
  ℕ, ◌+◌, ◌≤◌, Bool, List, [], ◌∷◌, Dict, select, length, All, ◌≡◌, arith, refl, ◌∙◌,
}
use esim_opensource_mcp.Owner.{QuoteOwner}
use esim_opensource_mcp.Quotes.Store
use esim_opensource_mcp.Purchase.{PurchaseQuote}
use esim_opensource_mcp.Purchase.Service.{insert_newest, insert_all, list_active}

-- The newest first.
abbrev pub Descends : List PurchaseQuote → Type 0
Descends [] = Unit
Descends (q ∷ qs) = All (λ p. p.created_at ≤ q.created_at) qs × Descends qs

abbrev pub count : (PurchaseQuote → Bool) → List PurchaseQuote → ℕ
count p qs = length (select p qs)

insert_newest-All :
    (n : ℕ) (q : PurchaseQuote) (qs : List PurchaseQuote)
    → q.created_at ≤ n
    → All (λ p. p.created_at ≤ n) qs
    → All (λ p. p.created_at ≤ n) (insert_newest q qs)
unfolding insert_newest
insert_newest-All n q [] h a = ground arith
insert_newest-All n q (p ∷ ps) h a = ground (arith, insert_newest-All n q ps h a.1)

weaken :
    (m n : ℕ) (qs : List PurchaseQuote)
    → m ≤ n
    → All (λ p. p.created_at ≤ m) qs
    → All (λ p. p.created_at ≤ n) qs
weaken m n [] h a = tt
weaken m n (q ∷ qs) h a = (omega arith, weaken m n qs h a.1)

insert_newest-Descends :
    (q : PurchaseQuote) (qs : List PurchaseQuote) → Descends qs → Descends (insert_newest q qs)
unfolding insert_newest
insert_newest-Descends q [] d = (tt, tt)
insert_newest-Descends q (p ∷ ps) d = ground (
  arith,
  insert_newest-Descends q ps d.1,
  insert_newest-All p.created_at q ps,
  weaken p.created_at q.created_at ps,
)

insert_newest-count :
    (t : PurchaseQuote → Bool) (q : PurchaseQuote) (qs : List PurchaseQuote)
    → count t (insert_newest q qs) ≡ count t (q ∷ qs)
unfolding insert_newest
insert_newest-count t q [] = refl
insert_newest-count t q (p ∷ ps) = ground (arith, insert_newest-count t q ps)

insert_all-Descends :
    (qs sorted : List PurchaseQuote) → Descends sorted → Descends (insert_all qs sorted)
insert_all-Descends [] sorted d = d
insert_all-Descends (q ∷ qs) sorted d =
    insert_all-Descends qs (insert_newest q sorted) (insert_newest-Descends q sorted d)

insert_all-count :
    (t : PurchaseQuote → Bool) (qs sorted : List PurchaseQuote)
    → count t (insert_all qs sorted) ≡ count t qs + count t sorted
insert_all-count t [] sorted = omega arith
insert_all-count t (q ∷ qs) sorted =
    ground (arith, insert_all-count t qs (insert_newest q sorted), insert_newest-count t q sorted)

-- The listing has the newest quotes first, and it has as many quotes of every kind as the store has
-- active ones of the owner.
pub list_active-Descends :
    (owner : QuoteOwner) (now : ℕ) (d : Dict PurchaseQuote) (t : PurchaseQuote → Bool)
    → Descends (list_active owner now d)
      × (count t (list_active owner now d) ≡ count t (Store.list_active owner now d))
unfolding list_active
list_active-Descends owner now d t = (
  insert_all-Descends (Store.list_active owner now d) [] tt,
  insert_all-count t (Store.list_active owner now d) [] ∙ omega arith,
)
