-- ===== src/Purchase/Service/Create.antt =====
-- `PurchaseQuoteService.create` and the active quotes of the user.
use esim_opensource_mcp.Prelude.{
  ℕ, ◌≤◌, ◌<◌, String, true, not, ◌&&◌, none, List, [], ◌∷◌, ◌++◌, Dict, lookup, select, length,
  length-append, leb, Bool-cases, inl, inr, if◌then◌else◌, ◌≡◌, arith, eq_refl,
}
use esim_opensource_mcp.Errors.{Result, ok, err, plain, too_many_active_quotes}
use esim_opensource_mcp.Owner.{QuoteOwner}
use esim_opensource_mcp.Quotes.{expiry_from, is_usable, effective_status, is_expired}
use esim_opensource_mcp.Quotes.Store
use esim_opensource_mcp.Quotes.Store.{matches}
use esim_opensource_mcp.Quotes.Active.{IsStore}
use esim_opensource_mcp.Quotes.Active.Supersede.{supersede_and_save-Created}
use esim_opensource_mcp.Quotes.Active.Cancels.{Stored, supersede_and_save-Stored}
use esim_opensource_mcp.Purchase.{PurchaseQuote, equivalent_to}
use esim_opensource_mcp.Purchase.Service.{
  QuoteSettings, QuoteRequest, new_quote, create, create_lem,
}

module _ (settings : QuoteSettings) (owner : QuoteOwner) (quote_id : String)
    (request : QuoteRequest) (moment : ℕ) (d : Dict PurchaseQuote) where
  -- the user's active quotes for another bundle or another way to pay
  abbrev pub others : List PurchaseQuote
  others =
      select
        (λ q. not (equivalent_to request.terms.bundle.bundle_code request.terms.payment_method q))
        (Store.list_active owner moment d)

  new_quote_usable :
      0 < settings.purchase_quote_ttl_seconds
      → matches owner (new_quote settings owner quote_id request moment)
          && is_usable (new_quote settings owner quote_id request moment) moment
        ≡ true
  unfolding new_quote expiry_from is_usable effective_status is_expired
  new_quote_usable t = ground (arith, eq_refl owner.session_key, eq_refl owner.user_ref)

  abbrev pub Outcome : Result PurchaseQuote × Dict PurchaseQuote → Type 0
  Outcome (r, e) =
      let full = leb settings.max_active_quotes_per_user (length others) in
      let quote = new_quote settings owner quote_id request moment in
      (r ≡ (if full then err (plain too_many_active_quotes) else ok quote))
      × (Store.list_active owner moment e ≡ (if full then others else others ++ quote ∷ []))
      × Stored (equivalent_to request.terms.bundle.bundle_code request.terms.payment_method) owner
          moment settings.max_active_quotes_per_user quote d e

  -- Under a new id and a positive lifetime, the equivalent active quotes of the user are stored as
  -- cancelled in any case, and every other stored quote stays as it is. If the other active quotes
  -- already reach the limit the call is refused and they remain; otherwise the new quote is stored
  -- and joins them as the last one.
  pub create-Outcome :
      IsStore d
      → lookup quote_id d ≡ none
      → 0 < settings.purchase_quote_ttl_seconds
      → Outcome (create settings owner quote_id request moment d)
  create-Outcome s new t = rw create_lem (
      let (r, e) =
        supersede_and_save-Created
          (equivalent_to request.terms.bundle.bundle_code request.terms.payment_method) owner
          settings.max_active_quotes_per_user moment
          (new_quote settings owner quote_id request moment) d s (new_quote_usable t)
          (unfold new_quote in new) in
      (
        r,
        e,
        supersede_and_save-Stored
            (equivalent_to request.terms.bundle.bundle_code request.terms.payment_method) owner
            moment settings.max_active_quotes_per_user
            (new_quote settings owner quote_id request moment) d s,
      ))

  -- After a successful `create`, under a new id and a positive lifetime, the user has no more
  -- active quotes than the limit.
  pub create-bounded :
      (q : PurchaseQuote)
      → IsStore d
      → lookup quote_id d ≡ none
      → 0 < settings.purchase_quote_ttl_seconds
      → (create settings owner quote_id request moment d).0 ≡ ok q
      → length (Store.list_active owner moment (create settings owner quote_id request moment d).1)
        ≤ settings.max_active_quotes_per_user
  create-bounded q s new t h =
      let (r, e, stored) = create-Outcome s new t in
      elim (Bool-cases (leb settings.max_active_quotes_per_user (length others))) [
        | inl full ↦ absurd (ground (arith, h, r))
        | inr room ↦ rw (e, room, length-append) (ground arith)
      ]
